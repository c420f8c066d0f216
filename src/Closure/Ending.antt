-- ===== src/Closure/Ending.antt =====
-- dasik/lib/validation/aur_closure.py: the walk ends, by the cap on its nodes.
use dasik.Base.{
  ℕ, zero, suc, ◌+◌, ◌≤◌, ◌<◌, String, ◌≡◌, ◌≢◌, ◌⊎◌, refl, arith, inl, inr, Bool, true, false,
  ◌||◌, Option, none, List, [], ◌∷◌, ◌++◌, ltb, if◌then◌else◌, mem, is_some, is_empty, select, map,
  length, length-append, Dict, get, Bool-cases,
}
use mathlib.Core.Path.{subst}
use dasik.Effects.{Result, ok, raise}
use dasik.Packages.Names.{from_keys}
use dasik.Closure.{
  ◌>>=◌, Sources, BrokenDep, Dep, Walk, set_verdict, report, enter, judge_provided, settle,
  settle_level, walk_level, walk_levels, walk_roots, validate_aur_closure, target_satisfied,
  level_of, is_pending,
}
use dasik.Closure.Steps.{>>=_ok, ok_injective, raise-ne-ok}

module _ (sources : Sources) where
  -- Only entering a name adds a node.
  SameNodes : Walk → Walk → Type 0
  SameNodes w w' = length w'.expanded ≡ length w.expanded

  providers-SameNodes :
      (w : Walk) (d : Dep) (providers : List String)
      → SameNodes w (if is_empty providers then report w d else set_verdict w d.bare true)
  unfolding SameNodes report set_verdict
  providers-SameNodes w d [] = refl
  providers-SameNodes w d (p ∷ ps) = refl

  provided-SameNodes :
      (w w' : Walk) (d : Dep) (provided : Bool)
      → elim provided [
        | true ↦ ok (set_verdict w d.bare true)
        | false ↦ sources.aur_providers d.bare >>= λ providers.
            ok (if is_empty providers then report w d else set_verdict w d.bare true)
      ]
        ≡ ok w'
      → SameNodes w w'
  unfolding SameNodes set_verdict
  provided-SameNodes w w' d true h = subst (SameNodes w) (ok_injective _ w' h) refl
  provided-SameNodes w w' d false h =
      let (providers, q, k) = >>=_ok (sources.aur_providers d.bare) _ h in
      subst (SameNodes w) (ok_injective _ w' k) (providers-SameNodes w d providers)

  judge_provided-SameNodes :
      (w w' : Walk) (d : Dep) → judge_provided sources w d ≡ ok w' → SameNodes w w'
  unfolding judge_provided
  judge_provided-SameNodes w w' d h =
      let (provided, e, k) = >>=_ok (sources.repo_provides d.bare) _ h in
      provided-SameNodes w w' d provided k

  -- Each name that is put on the next frontier is a node more, and there are never more nodes than the
  -- cap, unless there were at first.
  module _ (max_nodes : ℕ) where
    abbrev Grows : Walk → List String → Walk → List String → Type 0
    Grows w next w' next' =
        (length next' + length w.expanded ≡ length next + length w'.expanded)
        × ((length w'.expanded ≡ length w.expanded) ⊎ (length w'.expanded ≤ max_nodes))

    Grows-enter :
        (w w' : Walk) (next next' : List String) (d : Dep)
        → ltb max_nodes (length w.expanded + 1) ≡ false
        → Grows (enter w d) (next ++ d.bare ∷ []) w' next'
        → Grows w next w' next'
    unfolding enter
    Grows-enter w w' next next' d h g =
        ground (
          arith,
          g.0,
          g.1,
          length-append next (d.bare ∷ []),
          length-append w.expanded (d.bare ∷ []),
        )

    Grows-same :
        (w w1 w' : Walk) (next next' : List String)
        → SameNodes w w1
        → Grows w1 next w' next'
        → Grows w next w' next'
    unfolding SameNodes
    Grows-same w w1 w' next next' s g = ground (arith, s, g.0, g.1)

    settle-Grows :
        (found : Dict (List String)) (pending : List Dep) (w w' : Walk) (next next' : List String)
        → settle sources max_nodes found pending w next ≡ ok (w', next')
        → Grows w next w' next'
    unfolding settle
    settle-Grows found [] w w' next next' h =
        subst (λ p. Grows w next p.0 p.1) (ok_injective (w, next) (w', next') h) (refl, inl refl)
    settle-Grows found (d ∷ pending) w w' next next' h =
        elim (Bool-cases (mem d.bare w.expanded || is_some (get w.verdict d.bare))) [
          | inl e ↦ settle-Grows found pending w w' next next' (rw (e, settle) at h)
          | inr e ↦ elim (Bool-cases (is_some (get found d.bare))) [
            | inl f ↦ elim (Bool-cases (ltb max_nodes (length w.expanded + 1))) [
              | inl t ↦ absurd (raise-ne-ok _ (w', next') (rw (e, f, t, settle) at h))
              | inr t ↦ Grows-enter w w' next next' d t (
                  settle-Grows found pending (enter w d) w' (next ++ d.bare ∷ []) next'
                    (rw (e, f, t, settle) at h))
            ]
            | inr f ↦
                let (w1, q, k) = >>=_ok (judge_provided sources w d) _ (rw (e, f, settle) at h) in
                Grows-same w w1 w' next next' (judge_provided-SameNodes w w1 d q)
                  (settle-Grows found pending w1 w' next next' k)
          ]
        ]

    walk_level-Grows :
        (repo frontier : List String) (w w' : Walk) (next : List String)
        → walk_level sources max_nodes repo w frontier ≡ ok (w', next)
        → Grows w [] w' next
    unfolding walk_level settle_level
    walk_level-Grows repo frontier w w' next e =
        let (deps_map, e1, k1) = >>=_ok (sources.aur_depends frontier) _ e in
        let specs : List String = map (λ (d : Dep). d.spec) (level_of deps_map frontier) in
        let (met, e2, k2) = >>=_ok (target_satisfied sources specs) _ k1 in
        let pending : List Dep = select (is_pending met repo w) (level_of deps_map frontier) in
        let (found, e3, k3) =
          >>=_ok (sources.aur_depends (from_keys (map (λ (d : Dep). d.bare) pending))) _ k2 in
        settle-Grows found pending w w' [] next k3

    Ends : Result (Option (List BrokenDep)) → Type 0
    Ends r = r ≢ ok none

    Ends-bind :
        {A : Type 0} (r : Result A) (f : A → Result (Option (List BrokenDep)))
        → ((a : A) → r ≡ ok a → Ends (f a))
        → Ends (r >>= f)
    unfolding Ends
    Ends-bind (ok a) f h = h a refl
    Ends-bind (raise e) f h = raise-ne-ok e none

    next_fuel :
        (fuel : ℕ) (n : String) (next : List String) (w w' : Walk)
        → Grows w [] w' (n ∷ next)
        → max_nodes < suc fuel + length w.expanded
        → (0 < fuel) × (max_nodes < fuel + length w'.expanded)
    next_fuel fuel n next w w' g h = ground (arith, g.0, g.1)

    -- Fuel for a frontier that is not empty
    abbrev IsFueled : ℕ → List String → Walk → Type 0
    IsFueled fuel frontier w =
        (n : String) (rest : List String)
        → frontier ≡ n ∷ rest
        → (0 < fuel) × (max_nodes < fuel + length w.expanded)

    walk_levels-Ends :
        (repo : List String) (fuel : ℕ) (frontier : List String) (w : Walk)
        → IsFueled fuel frontier w
        → Ends (walk_levels fuel sources max_nodes repo w frontier)
    unfolding walk_levels Ends
    walk_levels-Ends repo fuel [] w h = λ e. cc
    walk_levels-Ends repo zero (n ∷ frontier) w h =
        let positive : 0 < 0 = (h n frontier refl).0 in absurd (omega arith)
    walk_levels-Ends repo (suc fuel) (n ∷ frontier) w h =
        Ends-bind (walk_level sources max_nodes repo w (n ∷ frontier))
          (λ next. walk_levels fuel sources max_nodes repo next.0 next.1)
          (λ next e. walk_levels-Ends repo fuel next.1 next.0 (λ m rest q.
            next_fuel fuel m rest w next.0
              (subst (Grows w [] next.0) q (walk_level-Grows repo (n ∷ frontier) w next.0 next.1 e))
              (h n frontier refl).1))

    walk_roots-Ends :
        (fuel : ℕ) (frontier repo : List String)
        → max_nodes < fuel
        → Ends (walk_roots fuel sources max_nodes frontier repo)
    unfolding walk_roots
    walk_roots-Ends fuel frontier repo h =
        Ends-bind (sources.aur_depends frontier) _
          (λ known e. walk_levels-Ends repo fuel _ _ (λ n rest q. (omega arith, omega arith)))

-- Fuel that is more than the cap is enough for the walk, whatever the sources answer and however the
-- packages depend on each other, in cycles too: it returns the broken dependencies or raises.
pub validate_aur_closure_ends :
    (sources : Sources) (fuel max_nodes : ℕ) (roots : List String)
    → max_nodes < fuel
    → validate_aur_closure fuel sources max_nodes roots ≢ ok none
unfolding validate_aur_closure Ends
validate_aur_closure_ends sources fuel max_nodes roots h =
    elim (Bool-cases (is_empty (from_keys roots))) [
      | inl q ↦ rw (q, validate_aur_closure) (λ e. cc)
      | inr q ↦ λ e.
          Ends-bind sources max_nodes sources.repo_names
            (walk_roots fuel sources max_nodes (from_keys roots))
            (λ repo p. walk_roots-Ends sources max_nodes fuel (from_keys roots) repo h)
            (rw (q, validate_aur_closure) at e)
    ]
