-- ===== src/Closure/Reports.antt =====
-- dasik/lib/validation/aur_closure.py: what the walk reports.
use dasik.Base.{
  ℕ, zero, suc, String, ◌≡◌, refl, sym, ◌∙◌, arith, inl, inr, Bool, true, Option, some, List, [],
  ◌∷◌, ◌++◌, map, mem, mem-select, is_some, is_empty, select, All, Dict, get, eq_refl, Bool-cases,
  Option-cases,
}
use mathlib.Core.Path.{subst}
use dasik.Effects.{ok}
use dasik.Packages.Names.{from_keys, mem-from_keys}
use dasik.Closure.{
  Sources, BrokenDep, Dep, Walk, chain_from, is_pending, settle_level, walk_level, walk_levels,
  walk_roots, unknown_roots, validate_aur_closure, deps_of, specs_at, level_of, target_satisfied,
}
use dasik.Closure.Steps.{>>=_ok, ok_injective, found_injective, none-ne-some, out_of_fuel}
use dasik.Closure.Asked.{specs_at-found, specs_at-missing}
use dasik.Closure.Levels.{AreAnswered, pending-Answers}
use dasik.Closure.Chains.{IsPath, at_root, IsReported, unknown_root, IsLink}
use dasik.Closure.Paths.{AreIn, IsOpen, IsTracedTo, settle-IsTracedTo}

All-append : (P : Dep → Type 0) (xs ys : List Dep) → All P xs → All P ys → All P (xs ++ ys)
All-append P [] ys a b = b
All-append P (d ∷ xs) ys a b = (a.0, All-append P xs ys a.1 b)

AreIn-tail : (x : String) (xs names : List String) → AreIn (x ∷ xs) names → AreIn xs names
unfolding AreIn mem
AreIn-tail x xs names h n k = h n (ground (arith, k))

AreIn-head : (x : String) (xs names : List String) → AreIn (x ∷ xs) names → mem x names ≡ true
unfolding AreIn mem
AreIn-head x xs names h = h x (ground (arith, eq_refl x))

AreIn-refl : (names : List String) → AreIn names names
unfolding AreIn
AreIn-refl names n h = h

AreIn-nil : (names : List String) → AreIn [] names
unfolding AreIn mem
AreIn-nil names n h = cc

chain_from-nil : (fuel : ℕ) (n : String) → chain_from fuel [] n ≡ n ∷ []
unfolding chain_from get
chain_from-nil zero n = refl
chain_from-nil (suc fuel) n = refl

AreIn-select : (p : String → Bool) (names : List String) → AreIn (select p names) names
unfolding AreIn
AreIn-select p names n h = ground (arith, h, mem-select p n names)

module _ (sources : Sources) (deps : String → Option (List String)) (satisfied : String → Bool)
    (repo roots : List String) where
  deps_of-IsLink :
      (w : Walk) (node : String) (all specs : List String)
      → mem node w.expanded ≡ true
      → deps node ≡ some all
      → AreIn specs all
      → All (IsLink sources deps repo roots w) (deps_of node specs)
  unfolding deps_of
  deps_of-IsLink w node all [] m e h = tt
  deps_of-IsLink w node all (spec ∷ specs) m e h = (
    record {
      of_node = m;
      depends = record { specs = all; known = e; listed = AreIn-head spec specs all h };
      stripped = refl;
    },
    deps_of-IsLink w node all specs m e (AreIn-tail spec specs all h),
  )

  node-IsLink :
      (w : Walk) (deps_map : Dict (List String)) (node : String)
      → mem node w.expanded ≡ true
      → get deps_map node ≡ deps node
      → All (IsLink sources deps repo roots w) (deps_of node (specs_at deps_map node))
  unfolding specs_at deps_of
  node-IsLink w deps_map node m g = elim (Option-cases (deps node)) [
    | inl e ↦ rw (specs_at-missing deps_map node (g ∙ e)) tt
    | inr (specs, e) ↦
        rw (specs_at-found deps_map node specs (g ∙ e))
          (deps_of-IsLink w node specs specs m e (AreIn-refl specs))
  ]

  level_of-IsLink :
      (w : Walk) (deps_map : Dict (List String)) (frontier : List String)
      → ((n : String) → mem n frontier ≡ true → get deps_map n ≡ deps n)
      → AreIn frontier w.expanded
      → All (IsLink sources deps repo roots w) (level_of deps_map frontier)
  unfolding level_of mem
  level_of-IsLink w deps_map [] g h = tt
  level_of-IsLink w deps_map (node ∷ frontier) g h =
      All-append (IsLink sources deps repo roots w) (deps_of node (specs_at deps_map node))
        (level_of deps_map frontier)
        (node-IsLink w deps_map node (AreIn-head node frontier w.expanded h)
          (g node (ground (arith, eq_refl node))))
        (level_of-IsLink w deps_map frontier (λ n k. g n (ground (arith, k)))
          (AreIn-tail node frontier w.expanded h))

  pending-IsOpen :
      (w : Walk) (met : List String) (level : List Dep)
      → All (IsLink sources deps repo roots w) level
      → All (IsOpen sources deps repo roots w) (select (is_pending met repo w) level)
  unfolding select is_pending
  pending-IsOpen w met [] a = tt
  pending-IsOpen w met (d ∷ level) a = elim (Bool-cases (is_pending met repo w d)) [
    | inl e ↦ rw (e, select) ((a.0, ground (arith, e)), pending-IsOpen w met level a.1)
    | inr e ↦ rw (e, select) (pending-IsOpen w met level a.1)
  ]

  walk_level-IsTracedTo :
      AreAnswered sources deps satisfied repo
      → (max_nodes : ℕ) (frontier : List String) (w w' : Walk) (next : List String)
      → walk_level sources max_nodes repo w frontier ≡ ok (w', next)
      → IsTracedTo sources deps repo roots w frontier
      → IsTracedTo sources deps repo roots w' next
  unfolding walk_level settle_level
  walk_level-IsTracedTo ans max_nodes frontier w w' next e t =
      let (deps_map, e1, k1) = >>=_ok (sources.aur_depends frontier) _ e in
      let specs : List String = map (λ (d : Dep). d.spec) (level_of deps_map frontier) in
      let (met, e2, k2) = >>=_ok (target_satisfied sources specs) _ k1 in
      let pending : List Dep = select (is_pending met repo w) (level_of deps_map frontier) in
      let (found, e3, k3) =
        >>=_ok (sources.aur_depends (from_keys (map (λ (d : Dep). d.bare) pending))) _ k2 in
      settle-IsTracedTo sources deps repo roots max_nodes found pending w w' [] next
        (pending-Answers sources deps satisfied repo ans pending found e3)
        (pending-IsOpen w met (level_of deps_map frontier) (
          level_of-IsLink w deps_map frontier (λ n m. ans.aur frontier deps_map e1 n ∙ (rw m refl))
            t.1))
        k3 (t.0, AreIn-nil w.expanded)

  walk_levels-IsReported :
      AreAnswered sources deps satisfied repo
      → (max_nodes fuel : ℕ) (frontier : List String) (w : Walk) (broken : List BrokenDep)
      → walk_levels fuel sources max_nodes repo w frontier ≡ ok (some broken)
      → IsTracedTo sources deps repo roots w frontier
      → All (IsReported sources deps repo roots) broken
  unfolding walk_levels
  walk_levels-IsReported ans max_nodes fuel [] w broken e t =
      subst (All (IsReported sources deps repo roots)) (found_injective w.broken broken e)
        t.0.reported
  walk_levels-IsReported ans max_nodes zero (n ∷ frontier) w broken e t =
      absurd (out_of_fuel broken e)
  walk_levels-IsReported ans max_nodes (suc fuel) (n ∷ frontier) w broken e t =
      let (next, p, k) = >>=_ok (walk_level sources max_nodes repo w (n ∷ frontier)) _ e in
      walk_levels-IsReported ans max_nodes fuel next.1 next.0 broken k
        (walk_level-IsTracedTo ans max_nodes (n ∷ frontier) w next.0 next.1 p t)

  unknown_roots-IsReported :
      (known : Dict (List String)) (names : List String)
      → ((n : String) → mem n names ≡ true → get known n ≡ deps n)
      → AreIn names roots
      → All (IsReported sources deps repo roots) (unknown_roots known names)
  unfolding unknown_roots mem
  unknown_roots-IsReported known [] g h = tt
  unknown_roots-IsReported known (n ∷ names) g h =
      let rest : All (IsReported sources deps repo roots) (unknown_roots known names) =
        unknown_roots-IsReported known names (λ m k. g m (ground (arith, k)))
          (AreIn-tail n names roots h) in
      elim (Option-cases (get known n)) [
        | inl e ↦
            rw (e, unknown_roots)
              (
                unknown_root n (AreIn-head n names roots h)
                    (sym (g n (ground (arith, eq_refl n))) ∙ e),
                rest,
              )
        | inr (specs, e) ↦ rw (e, unknown_roots) rest
      ]

  -- The walk begins with the roots, and no name has a parent.
  start-IsTracedTo :
      (known : Dict (List String)) (frontier : List String)
      → ((n : String) → mem n frontier ≡ true → get known n ≡ deps n)
      → AreIn frontier roots
      → IsTracedTo sources deps repo roots
          (record {
            broken = unknown_roots known frontier;
            parent = [];
            expanded = frontier;
            verdict = [];
          })
          (select (λ n. is_some (get known n)) frontier)
  unfolding get AreIn
  start-IsTracedTo known frontier g h = (
    record {
      fresh = λ n k. refl;
      ups = λ n up k. absurd (none-ne-some up k);
      paths = λ n k fuel l.
          subst (IsPath sources deps repo roots n) (sym (chain_from-nil fuel n))
            (at_root n (h n k));
      reported = unknown_roots-IsReported known frontier g h;
    },
    AreIn-select (λ n. is_some (get known n)) frontier,
  )

  walk_roots-IsReported :
      AreAnswered sources deps satisfied repo
      → (frontier : List String) (max_nodes fuel : ℕ) (broken : List BrokenDep)
      → AreIn frontier roots
      → walk_roots fuel sources max_nodes frontier repo ≡ ok (some broken)
      → All (IsReported sources deps repo roots) broken
  unfolding walk_roots
  walk_roots-IsReported ans frontier max_nodes fuel broken h e =
      let (known, k, f) = >>=_ok (sources.aur_depends frontier) _ e in
      walk_levels-IsReported ans max_nodes fuel (select (λ n. is_some (get known n)) frontier)
        (record {
          broken = unknown_roots known frontier;
          parent = [];
          expanded = frontier;
          verdict = [];
        })
        broken f
        (start-IsTracedTo known frontier (λ n m. ans.aur frontier known k n ∙ (rw m refl)) h)

-- Each broken dependency that is found is a declared name that the AUR does not have, or it has a chain
-- that leads from a declared name to it, in which each name is that of a dependency that the AUR has
-- for the name before; and then its own name is not in the AUR and not in a repository, and no package
-- of either provides it. The repositories answer, and the AUR answers about the names that it is asked
-- about and no others; what `pacman -T` does not print is satisfied where it exits with 0 or 127.
pub validate_aur_closure-IsReported :
    (sources : Sources) (deps : String → Option (List String)) (satisfied : String → Bool)
    (repo roots : List String) (fuel max_nodes : ℕ) (broken : List BrokenDep)
    → AreAnswered sources deps satisfied repo
    → sources.repo_names ≡ ok repo
    → validate_aur_closure fuel sources max_nodes roots ≡ ok (some broken)
    → All (IsReported sources deps repo roots) broken
unfolding validate_aur_closure AreIn
validate_aur_closure-IsReported sources deps satisfied repo roots fuel max_nodes broken ans r e =
    elim (Bool-cases (is_empty (from_keys roots))) [
      | inl q ↦
          subst (All (IsReported sources deps repo roots))
            (found_injective [] broken (rw (q, validate_aur_closure) at e)) tt
      | inr q ↦
          let (repo', r', f) = >>=_ok sources.repo_names _ (rw (q, validate_aur_closure) at e) in
          walk_roots-IsReported sources deps satisfied repo roots ans (from_keys roots) max_nodes
            fuel broken (λ n h. sym (mem-from_keys n roots) ∙ h)
            (subst
              (λ names.
                walk_roots fuel sources max_nodes (from_keys roots) names ≡ ok (some broken))
              (ok_injective repo' repo (sym r' ∙ r)) f)
    ]
