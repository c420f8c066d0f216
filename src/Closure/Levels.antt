-- ===== src/Closure/Levels.antt =====
-- dasik/lib/validation/aur_closure.py: after a pass, each dependency of the level is handled.
use dasik.Base.{
  ℕ, String, ◌≡◌, ◌≢◌, ◌⊎◌, refl, sym, ◌∙◌, arith, inl, inr, Bool, true, false, not, ◌&&◌, ◌||◌,
  Option, none, some, List, [], ◌∷◌, ◌++◌, map, nat_eq, if◌then◌else◌, mem, mem-select, is_empty,
  select, All, Dict, get, ◌==◌, eq_iff, Bool-cases,
}
use mathlib.Core.Path.{subst}
use dasik.Effects.{ok}
use dasik.Commands.{CommandResult, lines_set}
use dasik.Packages.Names.{from_keys}
use dasik.Closure.{
  Sources, Dep, Walk, strip_version_constraint, satisfied_of, target_satisfied, deps_of, specs_at,
  level_of, is_pending, settle, settle_level, walk_level,
}
use dasik.Closure.Asked.{bare_in_names, specs_at-found}
use dasik.Closure.Steps.{>>=_ok, ok_injective, decided, Moves, Answers, AllDecided, settle-Moves}

-- What the world says: the dependencies of each package of the AUR, and whether the target satisfies a
-- spec.
module _ (sources : Sources) (deps : String → Option (List String)) (satisfied : String → Bool)
    (repo : List String) where
  -- The AUR answers about exactly the names that it is asked about, and what `pacman -T` does not print
  -- is satisfied, where its exit code is one that answers.
  pub record AreAnswered : Type 0 where
    pub aur :
        (names : List String) (found : Dict (List String))
        → sources.aur_depends names ≡ ok found
        → (n : String) → get found n ≡ (if mem n names then deps n else none)
    pub pacman :
        (specs : List String) (result : CommandResult)
        → sources.pacman_t specs ≡ ok result
        → (nat_eq result.returncode 0 || nat_eq result.returncode 127) ≡ true
        → (s : String) → mem s specs ≡ true
        → mem s (lines_set result.stdout) ≡ false
        → satisfied s ≡ true

  -- The same during the walk, for a dependency as it stands in the level
  pub data IsHandled (w : Walk) (d : Dep) : Type 0 where
    at_target : satisfied d.spec ≡ true → IsHandled w d
    in_repo : mem d.bare repo ≡ true → IsHandled w d
    is_decided : decided w d.bare ≡ true → IsHandled w d

  pub IsHandled-later :
      (w w' : Walk) (d : Dep)
      → ((b : String) → decided w b ≡ true → decided w' b ≡ true)
      → IsHandled w d
      → IsHandled w' d
  IsHandled-later w w' d h (at_target e) = at_target e
  IsHandled-later w w' d h (in_repo e) = in_repo e
  IsHandled-later w w' d h (is_decided e) = is_decided (h d.bare e)

  not_pending-IsHandled :
      (d : Dep) (met : List String) (w w' : Walk)
      → ((s : String) → mem s met ≡ true → satisfied s ≡ true)
      → ((b : String) → decided w b ≡ true → decided w' b ≡ true)
      → is_pending met repo w d ≡ false
      → IsHandled w' d
  unfolding is_pending decided
  not_pending-IsHandled d met w w' h k e = elim (Bool-cases (mem d.spec met)) [
    | inl p ↦ at_target (h d.spec p)
    | inr p ↦ elim (Bool-cases (mem d.bare repo)) [
      | inl q ↦ in_repo q
      | inr q ↦ is_decided (k d.bare (ground arith))
    ]
  ]

  -- A dependency is satisfied, in a repository, decided before, or pending and decided by the pass.
  level-IsHandled :
      (level : List Dep) (met : List String) (w w' : Walk)
      → ((s : String) → mem s met ≡ true → satisfied s ≡ true)
      → ((b : String) → decided w b ≡ true → decided w' b ≡ true)
      → AllDecided sources deps (select (is_pending met repo w) level) w'
      → All (IsHandled w') level
  unfolding select
  level-IsHandled [] met w w' h k a = tt
  level-IsHandled (d ∷ level) met w w' h k a = elim (Bool-cases (is_pending met repo w d)) [
    | inl e ↦
        let b : AllDecided sources deps (d ∷ select (is_pending met repo w) level) w' = rw e at a in
        (is_decided b.0, level-IsHandled level met w w' h k b.1)
    | inr e ↦
        (not_pending-IsHandled d met w w' h k e, level-IsHandled level met w w' h k (rw e at a))
  ]

  -- The level read spec by spec
  abbrev pub Handled : Walk → String → Type 0
  Handled w spec =
      IsHandled w (record { node = ""; spec = spec; bare = strip_version_constraint spec })

  IsHandled-node :
      (w : Walk) (a b spec bare : String)
      → IsHandled w (record { node = a; spec = spec; bare = bare })
      → IsHandled w (record { node = b; spec = spec; bare = bare })
  IsHandled-node w a b spec bare (at_target e) = at_target e
  IsHandled-node w a b spec bare (in_repo e) = in_repo e
  IsHandled-node w a b spec bare (is_decided e) = is_decided e

  deps_of-Handled :
      (w : Walk) (node : String) (specs : List String)
      → All (IsHandled w) (deps_of node specs)
      → All (Handled w) specs
  unfolding deps_of
  deps_of-Handled w node [] a = tt
  deps_of-Handled w node (spec ∷ specs) a = (
    IsHandled-node w node "" spec (strip_version_constraint spec) a.0,
    deps_of-Handled w node specs a.1,
  )

  All-left : (w : Walk) (xs ys : List Dep) → All (IsHandled w) (xs ++ ys) → All (IsHandled w) xs
  All-left w [] ys a = tt
  All-left w (x ∷ xs) ys a = (a.0, All-left w xs ys a.1)

  All-right : (w : Walk) (xs ys : List Dep) → All (IsHandled w) (xs ++ ys) → All (IsHandled w) ys
  All-right w [] ys a = a
  All-right w (x ∷ xs) ys a = All-right w xs ys a.1

  level_of-Handled :
      (w : Walk) (deps_map : Dict (List String)) (frontier : List String) (n : String)
      → All (IsHandled w) (level_of deps_map frontier)
      → mem n frontier ≡ true
      → All (Handled w) (specs_at deps_map n)
  unfolding level_of mem
  level_of-Handled w m [] n a h = cc
  level_of-Handled w m (x ∷ frontier) n a h = elim (Bool-cases (x == n)) [
    | inl e ↦
        subst (λ y. All (Handled w) (specs_at m y)) ((eq_iff x n).0 e)
          (deps_of-Handled w x (specs_at m x) (All-left w _ (level_of m frontier) a))
    | inr e ↦
        level_of-Handled w m frontier n (All-right w (deps_of x (specs_at m x)) _ a) (ground arith)
  ]

  pub mem-nil : (s : String) → mem s [] ≢ true
  unfolding mem
  mem-nil s = λ h. cc

  satisfied_of-satisfied :
      AreAnswered
      → (specs : List String) (result : CommandResult) → sources.pacman_t specs ≡ ok result
      → (s : String) → mem s (satisfied_of specs result) ≡ true
      → satisfied s ≡ true
  unfolding satisfied_of
  satisfied_of-satisfied ans specs result e s h =
      elim (Bool-cases (nat_eq result.returncode 0 || nat_eq result.returncode 127)) [
        | inl r ↦
            let k : (mem s specs && not (mem s (lines_set result.stdout))) ≡ true =
              sym (mem-select (λ t. not (mem t (lines_set result.stdout))) s specs)
              ∙ (rw (r, satisfied_of) at h) in
            ans.pacman specs result e r s (ground arith) (ground arith)
        | inr r ↦ absurd (mem-nil s (rw (r, satisfied_of) at h))
      ]

  target_satisfied-satisfied :
      AreAnswered
      → (specs met : List String) → target_satisfied sources specs ≡ ok met
      → (s : String) → mem s met ≡ true
      → satisfied s ≡ true
  unfolding target_satisfied
  target_satisfied-satisfied ans specs met e s h = elim (Bool-cases (is_empty (from_keys specs))) [
    | inl q ↦ absurd (
        mem-nil s (
          subst (λ m. mem s m ≡ true) (sym (ok_injective [] met (rw (q, target_satisfied) at e)))
            h))
    | inr q ↦
        let (result, p, k) =
          >>=_ok (sources.pacman_t (from_keys specs)) _ (rw (q, target_satisfied) at e) in
        satisfied_of-satisfied ans (from_keys specs) result p s
          (subst (λ m. mem s m ≡ true) (sym (ok_injective _ met k)) h)
  ]

  -- The invariant of the loop: a node is on the frontier, or its dependencies are handled.
  abbrev pub IsDone : Walk → List String → Type 0
  IsDone w frontier =
      (n : String)
      → mem n w.expanded ≡ true
      → (mem n frontier ≡ true)
        ⊎ ((specs : List String) → deps n ≡ some specs → All (Handled w) specs)

  Handled-later :
      (w w' : Walk) (specs : List String)
      → ((b : String) → decided w b ≡ true → decided w' b ≡ true)
      → All (Handled w) specs
      → All (Handled w') specs
  Handled-later w w' [] k a = tt
  Handled-later w w' (s ∷ specs) k a =
      (IsHandled-later w w' _ k a.0, Handled-later w w' specs k a.1)

  Answers-each :
      (xs : List Dep) (names : List String) (found : Dict (List String))
      → ((n : String) → get found n ≡ (if mem n names then deps n else none))
      → All (λ (d : Dep). mem d.bare names ≡ true) xs
      → Answers sources deps found xs
  Answers-each [] names found h a = tt
  Answers-each (d ∷ xs) names found h a =
      (h d.bare ∙ (rw a.0 refl), Answers-each xs names found h a.1)

  pub pending-Answers :
      AreAnswered
      → (pending : List Dep) (found : Dict (List String))
      → sources.aur_depends (from_keys (map (λ (d : Dep). d.bare) pending)) ≡ ok found
      → Answers sources deps found pending
  pending-Answers ans pending found e =
      Answers-each pending (from_keys (map (λ (d : Dep). d.bare) pending)) found (ans.aur _ found e)
        (bare_in_names pending)

  -- One pass over the level of a frontier
  level-IsDone :
      AreAnswered
      → (max_nodes : ℕ) (frontier met : List String) (deps_map found : Dict (List String))
        (w w' : Walk) (next : List String)
      → sources.aur_depends frontier ≡ ok deps_map
      → target_satisfied sources (map (λ (d : Dep). d.spec) (level_of deps_map frontier)) ≡ ok met
      → sources.aur_depends (
          from_keys (
            map
              (λ (d : Dep). d.bare)
              (select (is_pending met repo w) (level_of deps_map frontier))))
        ≡ ok found
      → settle sources max_nodes found
          (select (is_pending met repo w) (level_of deps_map frontier))
          w
          []
        ≡ ok (w', next)
      → IsDone w frontier
      → Moves sources deps w [] w' next × IsDone w' next
  level-IsDone ans max_nodes frontier met deps_map found w w' next e1 e2 e3 e4 done =
      let level : List Dep = level_of deps_map frontier in
      let r : Moves sources deps w [] w' next
          × AllDecided sources deps (select (is_pending met repo w) level) w' =
        settle-Moves sources deps max_nodes found (select (is_pending met repo w) level) w w' []
          next (pending-Answers ans (select (is_pending met repo w) level) found e3) e4 in
      let handled : All (IsHandled w') level =
        level-IsHandled level met w w' (target_satisfied-satisfied ans _ met e2) r.0.extends r.1 in
      (
        r.0,
        λ n h. elim (r.0.adds n h) [
          | inr q ↦ inl q
          | inl p ↦ inr (elim (done n p) [
            | inl q ↦ λ specs k.
                subst (All (Handled w'))
                  (specs_at-found deps_map n specs (ans.aur frontier deps_map e1 n ∙ (rw q k)))
                  (level_of-Handled w' deps_map frontier n handled q)
            | inr q ↦ λ specs k. Handled-later w w' specs r.0.extends (q specs k)
          ])
        ],
      )

  settle_level-IsDone :
      AreAnswered
      → (max_nodes : ℕ) (frontier met : List String) (deps_map : Dict (List String)) (w w' : Walk)
        (next : List String)
      → sources.aur_depends frontier ≡ ok deps_map
      → target_satisfied sources (map (λ (d : Dep). d.spec) (level_of deps_map frontier)) ≡ ok met
      → settle_level sources max_nodes repo met (level_of deps_map frontier) w ≡ ok (w', next)
      → IsDone w frontier
      → Moves sources deps w [] w' next × IsDone w' next
  unfolding settle_level
  settle_level-IsDone ans max_nodes frontier met deps_map w w' next e1 e2 e done =
      let pending : List Dep = select (is_pending met repo w) (level_of deps_map frontier) in
      let (found, e3, e4) =
        >>=_ok (sources.aur_depends (from_keys (map (λ (d : Dep). d.bare) pending))) _ e in
      level-IsDone ans max_nodes frontier met deps_map found w w' next e1 e2 e3 e4 done

  pub walk_level-IsDone :
      AreAnswered
      → (max_nodes : ℕ) (frontier : List String) (w w' : Walk) (next : List String)
      → walk_level sources max_nodes repo w frontier ≡ ok (w', next)
      → IsDone w frontier
      → Moves sources deps w [] w' next × IsDone w' next
  unfolding walk_level
  walk_level-IsDone ans max_nodes frontier w w' next e done =
      let (deps_map, e1, k) = >>=_ok (sources.aur_depends frontier) _ e in
      let specs : List String = map (λ (d : Dep). d.spec) (level_of deps_map frontier) in
      let (met, e2, k2) = >>=_ok (target_satisfied sources specs) _ k in
      settle_level-IsDone ans max_nodes frontier met deps_map w w' next e1 e2 k2 done
