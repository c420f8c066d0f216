-- ===== src/Closure/Paths.antt =====
-- dasik/lib/validation/aur_closure.py: each broken dependency is reported with a path to it.
use dasik.Base.{
  ℕ, ◌+◌, String, ◌≡◌, refl, sym, ◌∙◌, arith, inl, inr, true, false, ◌||◌, Option, none, some, List,
  [], ◌∷◌, ◌++◌, ltb, mem, is_some, length, All, Dict, get, Bool-cases,
}
use mathlib.Core.Path.{subst}
use dasik.Effects.{ok}
use dasik.Closure.{Sources, Dep, Walk, enter, judge_provided, settle}
use dasik.Closure.Steps.{
  >>=_ok, ok_injective, raise-ne-ok, mem-snoc, Moves, Answers, judge_provided-Judged,
}
use dasik.Closure.Chains.{IsLink, IsTraced, enter-IsTraced, judge_provided-IsTraced}

is_some-none : {A : Type 0} (o : Option A) → is_some o ≡ false → o ≡ none
is_some-none none e = refl
is_some-none (some a) e = cc

unfoldable pub AreIn : List String → List String → Type 0
AreIn xs names = (n : String) → mem n xs ≡ true → mem n names ≡ true

AreIn-snoc :
    (xs names : List String) (x : String) → AreIn xs names → AreIn (xs ++ x ∷ []) (names ++ x ∷ [])
unfolding AreIn
AreIn-snoc xs names x h n k = ground (arith, h n, k, mem-snoc n x xs, mem-snoc n x names)

module _ (sources : Sources) (deps : String → Option (List String)) (repo roots : List String) where
  -- A dependency that is still to be looked at
  abbrev pub IsOpen : Walk → Dep → Type 0
  IsOpen w d = IsLink sources deps repo roots w d × (mem d.bare repo ≡ false)

  AllOpen_later :
      (w w' : Walk) (pending : List Dep)
      → AreIn w.expanded w'.expanded
      → All (IsOpen w) pending
      → All (IsOpen w') pending
  unfolding AreIn
  AllOpen_later w w' [] h a = tt
  AllOpen_later w w' (d ∷ pending) h a = (
    (
      record {
        of_node = h d.node a.0.0.of_node;
        depends = a.0.0.depends;
        stripped = a.0.0.stripped;
      },
      a.0.1,
    ),
    AllOpen_later w w' pending h a.1,
  )

  abbrev pub IsTracedTo : Walk → List String → Type 0
  IsTracedTo w next = IsTraced sources deps repo roots w × AreIn next w.expanded

  enter-AreIn : (w : Walk) (d : Dep) → AreIn w.expanded (enter w d).expanded
  unfolding enter AreIn
  enter-AreIn w d n h = ground (arith, h, mem-snoc n d.bare w.expanded)

  enter-IsTracedTo :
      (w : Walk) (next : List String) (d : Dep)
      → mem d.bare w.expanded ≡ false
      → IsOpen w d
      → IsTracedTo w next
      → IsTracedTo (enter w d) (next ++ d.bare ∷ [])
  unfolding enter
  enter-IsTracedTo w next d b l t =
      (enter-IsTraced sources deps repo roots w d b l.0 t.0, AreIn-snoc next w.expanded d.bare t.1)

  judged-IsTracedTo :
      (w w1 : Walk) (next : List String) (d : Dep)
      → IsOpen w d
      → deps d.bare ≡ none
      → judge_provided sources w d ≡ ok w1
      → IsTracedTo w next
      → AreIn w.expanded w1.expanded × IsTracedTo w1 next
  unfolding AreIn
  judged-IsTracedTo w w1 next d l a q t =
      let m : Moves sources deps w next w1 next =
        (judge_provided-Judged sources deps w w1 next d q).0 in
      (
        m.grows,
        (
          judge_provided-IsTraced sources deps repo roots w w1 d l.0 a l.1 q t.0,
          λ n k. m.grows n (t.1 n k),
        ),
      )

  module _ (max_nodes : ℕ) (found : Dict (List String)) where
    pub settle-IsTracedTo :
        (pending : List Dep) (w w' : Walk) (next next' : List String)
        → Answers sources deps found pending
        → All (IsOpen w) pending
        → settle sources max_nodes found pending w next ≡ ok (w', next')
        → IsTracedTo w next
        → IsTracedTo w' next'
    unfolding settle
    settle-IsTracedTo [] w w' next next' a l h t =
        subst (λ p. IsTracedTo p.0 p.1) (ok_injective (w, next) (w', next') h) t
    settle-IsTracedTo (d ∷ pending) w w' next next' a l h t =
        elim (Bool-cases (mem d.bare w.expanded || is_some (get w.verdict d.bare))) [
          | inl e ↦ settle-IsTracedTo pending w w' next next' a.1 l.1 (rw (e, settle) at h) t
          | inr e ↦ elim (Bool-cases (is_some (get found d.bare))) [
            | inl f ↦ elim (Bool-cases (ltb max_nodes (length w.expanded + 1))) [
              | inl u ↦ absurd (raise-ne-ok _ (w', next') (rw (e, f, u, settle) at h))
              | inr u ↦
                  settle-IsTracedTo pending (enter w d) w' (next ++ d.bare ∷ []) next' a.1
                    (AllOpen_later w (enter w d) pending (enter-AreIn w d) l.1)
                    (rw (e, f, u, settle) at h)
                    (enter-IsTracedTo w next d (ground (arith, e)) l.0 t)
            ]
            | inr f ↦
                let (w1, q, k) = >>=_ok (judge_provided sources w d) _ (rw (e, f, settle) at h) in
                let r : AreIn w.expanded w1.expanded × IsTracedTo w1 next =
                  judged-IsTracedTo w w1 next d l.0 (sym a.0 ∙ is_some-none (get found d.bare) f) q
                    t in
                settle-IsTracedTo pending w1 w' next next' a.1 (AllOpen_later w w1 pending r.0 l.1)
                  k r.1
          ]
        ]
