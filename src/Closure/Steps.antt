-- ===== src/Closure/Steps.antt =====
-- dasik/lib/validation/aur_closure.py: what one pass over a level does to the walk.
use dasik.Base.{
  ℕ, ◌+◌, String, ◌≡◌, ◌≢◌, ◌⊎◌, refl, arith, inl, inr, Bool, true, false, ◌||◌, Option, none, some,
  List, [], ◌∷◌, ◌++◌, ltb, if◌then◌else◌, mem, mem-append, is_some, is_empty, length, All, Dict,
  get, get-put, ◌==◌, eq_iff, eq_refl, Bool-cases,
}
use mathlib.Core.Path.{subst}
use dasik.Effects.{Exn, Result, ok, raise}
use dasik.Closure.{
  ◌>>=◌, Sources, BrokenDep, Dep, Walk, set_verdict, report, enter, judge_provided, settle,
}

pub >>=_ok :
    {A B : Type 0} (r : Result A) (f : A → Result B) {b : B}
    → (r >>= f) ≡ ok b
    → (a : A) × (r ≡ ok a) × (f a ≡ ok b)
>>=_ok (ok a) f h = (a, refl, h)
>>=_ok (raise e) f h = cc

pub raise-ne-ok : {A : Type 0} (e : Exn) (a : A) → raise e ≢ ok a
raise-ne-ok e a = λ h. cc

pub ok_injective : {A : Type 0} (a b : A) → ok a ≡ ok b → a ≡ b
ok_injective a b e = cc

pub found_injective : (a b : List BrokenDep) → ok (some a) ≡ ok (some b) → a ≡ b
found_injective a b e = cc

pub none-ne-some : {A : Type 0} (a : A) → none ≢ some a
none-ne-some a = λ e. cc

pub out_of_fuel :
    (b : List BrokenDep) → ◌≢◌ {A = Result (Option (List BrokenDep))} (ok none) (ok (some b))
out_of_fuel b = λ e. cc

-- Whether a name needs no more looking at
unfoldable pub decided : Walk → String → Bool
decided walk bare = mem bare walk.expanded || is_some (get walk.verdict bare)

pub mem-snoc : (n x : String) (xs : List String) → mem n (xs ++ x ∷ []) ≡ (mem n xs || x == n)
unfolding mem
mem-snoc n x xs = ground (arith, mem-append n xs (x ∷ []))

module _ (sources : Sources) (deps : String → Option (List String)) where
  -- A package of a repository, or one of the AUR, provides the name.
  pub data IsProvided (bare : String) : Type 0 where
    by_repo_package : sources.repo_provides bare ≡ ok true → IsProvided bare
    by_aur_package :
        (p : String) (ps : List String) → sources.aur_providers bare ≡ ok (p ∷ ps) → IsProvided bare

  -- Nothing is found broken yet: each verdict is justified, and each node is in the AUR.
  pub record IsGood (walk : Walk) : Type 0 where
    pub verdicts : (b : String) (v : Bool) → get walk.verdict b ≡ some v → IsProvided b
    pub nodes : (n : String) → mem n walk.expanded ≡ true → is_some (deps n) ≡ true

  -- From one walk to a later one, with what was put on the next frontier.
  pub record Moves (w : Walk) (next : List String) (w' : Walk) (next' : List String) : Type 0 where
    pub unbroken : w'.broken ≡ [] → w.broken ≡ []
    pub good : w'.broken ≡ [] → IsGood w → IsGood w'
    pub extends : (b : String) → decided w b ≡ true → decided w' b ≡ true
    pub keeps : (n : String) → mem n next ≡ true → mem n next' ≡ true
    pub grows : (n : String) → mem n w.expanded ≡ true → mem n w'.expanded ≡ true
    pub adds :
        (n : String) → mem n w'.expanded ≡ true → (mem n w.expanded ≡ true) ⊎ (mem n next' ≡ true)

  Moves-refl : (w : Walk) (next : List String) → Moves w next w next
  Moves-refl w next = record {
    unbroken = λ h. h;
    good = λ h g. g;
    extends = λ b h. h;
    keeps = λ n h. h;
    grows = λ n h. h;
    adds = λ n h. inl h;
  }

  Moves-trans :
      (w w' w'' : Walk) (next next' next'' : List String)
      → Moves w next w' next'
      → Moves w' next' w'' next''
      → Moves w next w'' next''
  Moves-trans w w' w'' next next' next'' m k = record {
    unbroken = λ h. m.unbroken (k.unbroken h);
    good = λ h g. k.good h (m.good (k.unbroken h) g);
    extends = λ b h. k.extends b (m.extends b h);
    keeps = λ n h. k.keeps n (m.keeps n h);
    grows = λ n h. k.grows n (m.grows n h);
    adds = λ n h. elim (k.adds n h) [
      | inr q ↦ inr q
      | inl p ↦ elim (m.adds n p) [ inl q ↦ inl q | inr q ↦ inr (k.keeps n q) ]
    ];
  }

  enter-Moves :
      (w : Walk) (next : List String) (d : Dep)
      → is_some (deps d.bare) ≡ true
      → Moves w next (enter w d) (next ++ d.bare ∷ [])
  unfolding enter decided
  enter-Moves w next d k = record {
    unbroken = λ h. h;
    good = λ h g. record {
      verdicts = g.verdicts;
      nodes = λ n h. elim (Bool-cases (mem n w.expanded)) [
        | inl e ↦ g.nodes n e
        | inr e ↦
            subst (λ m. is_some (deps m) ≡ true)
              ((eq_iff d.bare n).0 (ground (arith, mem-snoc n d.bare w.expanded))) k
      ];
    };
    extends = λ b h. ground (arith, mem-snoc b d.bare w.expanded);
    keeps = λ n h. ground (arith, mem-snoc n d.bare next);
    grows = λ n h. ground (arith, mem-snoc n d.bare w.expanded);
    adds = λ n h. ground (arith, mem-snoc n d.bare w.expanded, mem-snoc n d.bare next);
  }

  set_verdict-Moves :
      (w : Walk) (next : List String) (bare : String)
      → IsProvided bare
      → Moves w next (set_verdict w bare true) next
  unfolding set_verdict decided
  set_verdict-Moves w next bare p = record {
    unbroken = λ h. h;
    good = λ h g. record {
      verdicts = λ b v q. elim (Bool-cases (bare == b)) [
        | inl e ↦ subst IsProvided ((eq_iff bare b).0 e) p
        | inr e ↦ g.verdicts b v (ground (arith, get-put w.verdict bare true b))
      ];
      nodes = g.nodes;
    };
    extends = λ b h. ground (arith, get-put w.verdict bare true b);
    keeps = λ n h. h;
    grows = λ n h. h;
    adds = λ n h. inl h;
  }

  append-ne-nil : (xs : List BrokenDep) (x : BrokenDep) → xs ++ x ∷ [] ≢ []
  append-ne-nil [] x = λ e. cc
  append-ne-nil (y ∷ xs) x = λ e. cc

  report-Moves : (w : Walk) (next : List String) (d : Dep) → Moves w next (report w d) next
  unfolding report set_verdict decided
  report-Moves w next d = record {
    unbroken = λ h. absurd (append-ne-nil w.broken _ h);
    good = λ h g. absurd (append-ne-nil w.broken _ h);
    extends = λ b h. ground (arith, get-put w.verdict d.bare false b);
    keeps = λ n h. h;
    grows = λ n h. h;
    adds = λ n h. inl h;
  }

  decided-set_verdict :
      (w : Walk) (bare : String) (v : Bool) → decided (set_verdict w bare v) bare ≡ true
  unfolding decided set_verdict
  decided-set_verdict w bare v = ground (arith, get-put w.verdict bare v bare, eq_refl bare)

  decided-report : (w : Walk) (d : Dep) → decided (report w d) d.bare ≡ true
  unfolding report decided
  decided-report w d = decided-set_verdict w d.bare false

  -- What is true of a dependency that has been looked at
  abbrev pub Judged : Walk → List String → Dep → Walk → Type 0
  Judged w next d w' = Moves w next w' next × (decided w' d.bare ≡ true)

  Judged-providers :
      (w : Walk) (next : List String) (d : Dep) (providers : List String)
      → sources.aur_providers d.bare ≡ ok providers
      → Judged w next d (if is_empty providers then report w d else set_verdict w d.bare true)
  Judged-providers w next d [] e = (report-Moves w next d, decided-report w d)
  Judged-providers w next d (p ∷ ps) e =
      (set_verdict-Moves w next d.bare (by_aur_package p ps e), decided-set_verdict w d.bare true)

  Judged-provided :
      (w w' : Walk) (next : List String) (d : Dep) (provided : Bool)
      → sources.repo_provides d.bare ≡ ok provided
      → elim provided [
        | true ↦ ok (set_verdict w d.bare true)
        | false ↦ sources.aur_providers d.bare >>= λ providers.
            ok (if is_empty providers then report w d else set_verdict w d.bare true)
      ]
        ≡ ok w'
      → Judged w next d w'
  Judged-provided w w' next d true e h =
      subst (Judged w next d) (ok_injective _ w' h)
        (set_verdict-Moves w next d.bare (by_repo_package e), decided-set_verdict w d.bare true)
  Judged-provided w w' next d false e h =
      let (providers, q, k) = >>=_ok (sources.aur_providers d.bare) _ h in
      subst (Judged w next d) (ok_injective _ w' k) (Judged-providers w next d providers q)

  pub judge_provided-Judged :
      (w w' : Walk) (next : List String) (d : Dep)
      → judge_provided sources w d ≡ ok w'
      → Judged w next d w'
  unfolding judge_provided
  judge_provided-Judged w w' next d h =
      let (provided, e, k) = >>=_ok (sources.repo_provides d.bare) _ h in
      Judged-provided w w' next d provided e k

  -- The answer that the AUR gave is right about the pending names.
  abbrev pub Answers : Dict (List String) → List Dep → Type 0
  Answers found pending = All (λ (d : Dep). get found d.bare ≡ deps d.bare) pending

  abbrev pub AllDecided : List Dep → Walk → Type 0
  AllDecided pending w = All (λ (d : Dep). decided w d.bare ≡ true) pending

  decided-enter : (w : Walk) (d : Dep) → decided (enter w d) d.bare ≡ true
  unfolding decided enter
  decided-enter w d = ground (arith, mem-snoc d.bare d.bare w.expanded, eq_refl d.bare)

  after-Judged :
      (w w1 w' : Walk) (next next' : List String) (d : Dep) (pending : List Dep)
      → Judged w next d w1
      → Moves w1 next w' next' × AllDecided pending w'
      → Moves w next w' next' × AllDecided (d ∷ pending) w'
  after-Judged w w1 w' next next' d pending j r =
      (Moves-trans w w1 w' next next next' j.0 r.0, (r.0.extends d.bare j.1, r.1))

  module _ (max_nodes : ℕ) (found : Dict (List String)) where
    pub settle-Moves :
        (pending : List Dep) (w w' : Walk) (next next' : List String)
        → Answers found pending
        → settle sources max_nodes found pending w next ≡ ok (w', next')
        → Moves w next w' next' × AllDecided pending w'
    unfolding settle decided
    settle-Moves [] w w' next next' a h = (
      subst (λ p. Moves w next p.0 p.1) (ok_injective (w, next) (w', next') h) (Moves-refl w next),
      tt,
    )
    settle-Moves (d ∷ pending) w w' next next' a h =
        elim (Bool-cases (mem d.bare w.expanded || is_some (get w.verdict d.bare))) [
          | inl e ↦
              let r : Moves w next w' next' × AllDecided pending w' =
                settle-Moves pending w w' next next' a.1 (rw (e, settle) at h) in
              (r.0, (r.0.extends d.bare e, r.1))
          | inr e ↦ elim (Bool-cases (is_some (get found d.bare))) [
            | inl f ↦ elim (Bool-cases (ltb max_nodes (length w.expanded + 1))) [
              | inl t ↦ absurd (raise-ne-ok _ (w', next') (rw (e, f, t, settle) at h))
              | inr t ↦
                  let r : Moves (enter w d) (next ++ d.bare ∷ []) w' next' × AllDecided pending w' =
                    settle-Moves pending (enter w d) w' (next ++ d.bare ∷ []) next' a.1
                      (rw (e, f, t, settle) at h) in
                  (
                    Moves-trans w (enter w d) w' next (next ++ d.bare ∷ []) next'
                        (enter-Moves w next d (subst (λ o. is_some o ≡ true) a.0 f)) r.0,
                    (r.0.extends d.bare (decided-enter w d), r.1),
                  )
            ]
            | inr f ↦
                let (w1, q, k) = >>=_ok (judge_provided sources w d) _ (rw (e, f, settle) at h) in
                after-Judged w w1 w' next next' d pending (judge_provided-Judged w w1 next d q)
                  (settle-Moves pending w1 w' next next' a.1 k)
          ]
        ]
