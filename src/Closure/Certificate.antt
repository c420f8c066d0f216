-- ===== src/Closure/Certificate.antt =====
-- dasik/lib/validation/aur_closure.py: a closure without a broken dependency is closed.
use dasik.Base.{
  ℕ, zero, suc, String, ◌≡◌, ◌≢◌, refl, sym, ◌∙◌, arith, inl, inr, Bool, true, false, Option, some,
  List, [], ◌∷◌, mem, mem-select, is_some, is_empty, select, All, Dict, get, ◌==◌, eq_iff,
  Bool-cases, Option-cases,
}
use mathlib.Core.Path.{subst}
use dasik.Effects.{ok}
use dasik.Packages.Names.{from_keys, mem-from_keys}
use dasik.Closure.{
  Sources, BrokenDep, Walk, strip_version_constraint, walk_level, walk_levels, unknown_roots,
  walk_roots, validate_aur_closure,
}
use dasik.Closure.Steps.{
  >>=_ok, ok_injective, found_injective, none-ne-some, out_of_fuel, decided, IsProvided, IsGood,
  Moves,
}
use dasik.Closure.Levels.{
  AreAnswered, IsHandled, at_target, in_repo, is_decided, Handled, IsDone, walk_level-IsDone,
  mem-nil,
}

mem-empty : (n : String) (xs : List String) → is_empty xs ≡ true → mem n xs ≡ mem n []
mem-empty n [] e = refl
mem-empty n (x ∷ xs) e = cc

false-ne-true : false ≢ true
false-ne-true = λ e. cc

cons-ne-nil : (x : BrokenDep) (xs : List BrokenDep) → x ∷ xs ≢ []
cons-ne-nil x xs = λ e. cc

module _ (sources : Sources) (deps : String → Option (List String)) (satisfied : String → Bool)
    (repo : List String) where
  -- Why a dependency of a node is no trouble: the target has it, a repository has it by name, it is a
  -- node itself, or something provides it.
  pub data IsCovered (nodes : List String) (spec : String) : Type 0 where
    by_target : satisfied spec ≡ true → IsCovered nodes spec
    by_repo : mem (strip_version_constraint spec) repo ≡ true → IsCovered nodes spec
    by_node : mem (strip_version_constraint spec) nodes ≡ true → IsCovered nodes spec
    by_provider : IsProvided sources deps (strip_version_constraint spec) → IsCovered nodes spec

  -- The roots and the dependencies of each node are covered, and each node is in the AUR.
  pub record IsClosed (roots nodes : List String) : Type 0 where
    pub has_roots : (n : String) → mem n roots ≡ true → mem n nodes ≡ true
    pub covers :
        (n : String)
        → mem n nodes ≡ true
        → (specs : List String) × (deps n ≡ some specs) × All (IsCovered nodes) specs

  IsCovered-of_handled :
      (w : Walk) (spec : String)
      → IsGood sources deps w
      → IsHandled sources deps satisfied repo w
          (record { node = ""; spec = spec; bare = strip_version_constraint spec })
      → IsCovered w.expanded spec
  unfolding decided
  IsCovered-of_handled w spec g (at_target e) = by_target e
  IsCovered-of_handled w spec g (in_repo e) = by_repo e
  IsCovered-of_handled w spec g (is_decided e) =
      let bare : String = strip_version_constraint spec in
      elim (Bool-cases (mem bare w.expanded)) [
        | inl p ↦ by_node p
        | inr p ↦ elim (Option-cases (get w.verdict bare)) [
          | inl q ↦ ground (arith, e)
          | inr (v, q) ↦ by_provider (g.verdicts bare v q)
        ]
      ]

  All-IsCovered :
      (w : Walk) (specs : List String)
      → IsGood sources deps w
      → All (Handled sources deps satisfied repo w) specs
      → All (IsCovered w.expanded) specs
  All-IsCovered w [] g a = tt
  All-IsCovered w (s ∷ specs) g a = (IsCovered-of_handled w s g a.0, All-IsCovered w specs g a.1)

  -- A walk that ended with nothing broken
  record EndsWell (w : Walk) : Type 0 where
    unbroken : w.broken ≡ []
    after : Walk
    good : IsGood sources deps after
    done : IsDone sources deps satisfied repo after []
    kept : (n : String) → mem n w.expanded ≡ true → mem n after.expanded ≡ true

  walk_levels-EndsWell :
      AreAnswered sources deps satisfied repo
      → (max_nodes fuel : ℕ) (frontier : List String) (w : Walk)
      → walk_levels fuel sources max_nodes repo w frontier ≡ ok (some [])
      → (w.broken ≡ [] → IsGood sources deps w)
      → IsDone sources deps satisfied repo w frontier
      → EndsWell w
  unfolding walk_levels
  walk_levels-EndsWell ans max_nodes fuel [] w e g d =
      let b : w.broken ≡ [] = found_injective w.broken [] e in
      record { unbroken = b; after = w; good = g b; done = d; kept = λ n h. h }
  walk_levels-EndsWell ans max_nodes zero (n ∷ frontier) w e g d = absurd (out_of_fuel [] e)
  walk_levels-EndsWell ans max_nodes (suc fuel) (n ∷ frontier) w e g d =
      let (next, p, k) = >>=_ok (walk_level sources max_nodes repo w (n ∷ frontier)) _ e in
      let r : Moves sources deps w [] next.0 next.1
          × IsDone sources deps satisfied repo next.0 next.1 =
        walk_level-IsDone sources deps satisfied repo ans max_nodes (n ∷ frontier) w next.0 next.1 p
          d in
      let rest : EndsWell next.0 =
        walk_levels-EndsWell ans max_nodes fuel next.1 next.0 k
          (λ b. r.0.good b (g (r.0.unbroken b))) r.1 in
      record {
        unbroken = r.0.unbroken rest.unbroken;
        after = rest.after;
        good = rest.good;
        done = rest.done;
        kept = λ n h. rest.kept n (r.0.grows n h);
      }

  node-IsCovered :
      (w : Walk) (n : String)
      → IsGood sources deps w
      → IsDone sources deps satisfied repo w []
      → mem n w.expanded ≡ true
      → (specs : List String) × (deps n ≡ some specs) × All (IsCovered w.expanded) specs
  node-IsCovered w n g d h = elim (Option-cases (deps n)) [
    | inl e ↦ absurd (false-ne-true (sym (rw e refl) ∙ g.nodes n h))
    | inr (specs, e) ↦ elim (d n h) [
      | inl q ↦ absurd (mem-nil sources deps satisfied repo n q)
      | inr q ↦ (specs, e, All-IsCovered w specs g (q specs e))
    ]
  ]

  unknown_roots-none :
      (known : Dict (List String)) (roots : List String)
      → unknown_roots known roots ≡ []
      → (n : String) → mem n roots ≡ true
      → is_some (get known n) ≡ true
  unfolding unknown_roots mem
  unknown_roots-none known [] e n h = cc
  unknown_roots-none known (r ∷ roots) e n h = elim (Option-cases (get known r)) [
    | inl q ↦ absurd (cons-ne-nil _ _ (rw (q, unknown_roots) at e))
    | inr (specs, q) ↦ elim (Bool-cases (r == n)) [
      | inl p ↦ subst (λ m. is_some (get known m) ≡ true) ((eq_iff r n).0 p) (rw q refl)
      | inr p ↦ unknown_roots-none known roots (rw (q, unknown_roots) at e) n (ground arith)
    ]
  ]

  -- The walk begins at the declared roots.
  module _ (ans : AreAnswered sources deps satisfied repo) (frontier : List String)
      (known : Dict (List String)) (asked : sources.aur_depends frontier ≡ ok known) where
    known-deps : (n : String) → mem n frontier ≡ true → get known n ≡ deps n
    known-deps n h = ans.aur frontier known asked n ∙ (rw h refl)

    abbrev start : Walk
    start = record {
      broken = unknown_roots known frontier;
      parent = [];
      expanded = frontier;
      verdict = [];
    }

    start-IsGood : start.broken ≡ [] → IsGood sources deps start
    unfolding get
    start-IsGood b = record {
      verdicts = λ n v e. absurd (none-ne-some v e);
      nodes = λ n h.
          subst (λ o. is_some o ≡ true) (known-deps n h) (unknown_roots-none known frontier b n h);
    }

    start-IsDone :
        IsDone sources deps satisfied repo start (select (λ n. is_some (get known n)) frontier)
    start-IsDone n h = elim (Option-cases (get known n)) [
      | inl e ↦ inr (λ specs q. absurd (none-ne-some specs (sym e ∙ known-deps n h ∙ q)))
      | inr (specs, e) ↦ inl (mem-select (λ m. is_some (get known m)) n frontier ∙ (rw (h, e) refl))
    ]

    start-IsClosed :
        (max_nodes fuel : ℕ)
        → walk_levels fuel sources max_nodes repo start
            (select (λ n. is_some (get known n)) frontier)
          ≡ ok (some [])
        → (nodes : List String) × IsClosed frontier nodes
    start-IsClosed max_nodes fuel e =
        let r : EndsWell start =
          walk_levels-EndsWell ans max_nodes fuel (select (λ n. is_some (get known n)) frontier)
            start e start-IsGood start-IsDone in
        (
          r.after.expanded,
          record { has_roots = r.kept; covers = λ n h. node-IsCovered r.after n r.good r.done h },
        )

  walk_roots-IsClosed :
      AreAnswered sources deps satisfied repo
      → (frontier : List String) (max_nodes fuel : ℕ)
      → walk_roots fuel sources max_nodes frontier repo ≡ ok (some [])
      → (nodes : List String) × IsClosed frontier nodes
  unfolding walk_roots
  walk_roots-IsClosed ans frontier max_nodes fuel e =
      let (known, k, f) = >>=_ok (sources.aur_depends frontier) _ e in
      start-IsClosed ans frontier known k max_nodes fuel f

-- Where the walk finds nothing broken, the declared packages can be installed as far as the answers
-- go: there is a set of names that has every declared one, each of them is in the AUR, and each of its
-- dependencies is satisfied on the target, is in a repository by name, is in the set, or is provided by
-- a package of a repository or of the AUR. The repositories answer, the AUR answers about the names
-- that it is asked about and no others, and what `pacman -T` does not print is satisfied where it exits
-- with 0 or 127.
pub validate_aur_closure-IsClosed :
    (sources : Sources) (deps : String → Option (List String)) (satisfied : String → Bool)
    (repo roots : List String) (fuel max_nodes : ℕ)
    → AreAnswered sources deps satisfied repo
    → sources.repo_names ≡ ok repo
    → validate_aur_closure fuel sources max_nodes roots ≡ ok (some [])
    → (nodes : List String) × IsClosed sources deps satisfied repo roots nodes
unfolding validate_aur_closure
validate_aur_closure-IsClosed sources deps satisfied repo roots fuel max_nodes ans r e =
    elim (Bool-cases (is_empty (from_keys roots))) [
      | inl q ↦ (
        [],
        record {
          has_roots = λ n h. sym (mem-empty n (from_keys roots) q) ∙ mem-from_keys n roots ∙ h;
          covers = λ n h. absurd (mem-nil sources deps satisfied repo n h);
        },
      )
      | inr q ↦
          let (repo', r', f) = >>=_ok sources.repo_names _ (rw (q, validate_aur_closure) at e) in
          let (nodes, c) =
            walk_roots-IsClosed sources deps satisfied repo ans (from_keys roots) max_nodes fuel (
              subst
                (λ names. walk_roots fuel sources max_nodes (from_keys roots) names ≡ ok (some []))
                (ok_injective repo' repo (sym r' ∙ r)) f) in
          (
            nodes,
            record {
              has_roots = λ n h. c.has_roots n (mem-from_keys n roots ∙ h);
              covers = c.covers;
            },
          )
    ]
