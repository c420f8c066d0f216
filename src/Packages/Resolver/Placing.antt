-- ===== src/Packages/Resolver/Placing.antt =====
-- Where the first loop of the resolver places the names.
use dasik.Base.{
  String, Bool, not, ◌&&◌, ◌||◌, ◌≡◌, refl, ap, ◌∙◌, List, [], ◌∷◌, ◌++◌, mem, mem-append, is_some,
  Dict, get, Json, arith, ◌==◌, eq_iff, inl, inr, Bool-cases, Option-cases,
}
use dasik.Packages.Resolution.{
  PackageResolution, add_repo, add_group, add_git, place_source, place, classify,
}
use package.dasik.Packages.Resolver.Laws.{git_names, map-append_git}

-- The names that no repository, group or Git source has.
abbrev pub leftover : PackageResolution → List String
leftover res = res.aur ++ (res.unknown ++ res.unavailable)

-- A test on a name that is x is the test on x.
test_at : (n x : String) (test : String → Bool) → (n == x && test n) ≡ (n == x && test x)
test_at n x test = elim (Bool-cases (n == x)) [
  | inl e ↦ rw e (ap test ((eq_iff n x).0 e))
  | inr e ↦ rw e refl
]

module _ (repo groups : List String) (sources : Dict Json) (x : String) where
  abbrev pub in_group : String → Bool
  in_group n = not (mem n repo) && mem n groups

  abbrev pub in_git : String → Bool
  in_git n = not (mem n repo) && (not (mem n groups) && is_some (get sources n))

  abbrev pub in_none : String → Bool
  in_none n = not (mem n repo) && (not (mem n groups) && not (is_some (get sources n)))

  -- What a list of names has placed so far, and what is to come.
  pub record Placed (res res' : PackageResolution) (candidates candidates' names : List String)
      : Type 0 where
    pub to_groups : mem x res'.groups ≡ (mem x res.groups || (mem x names && in_group x))
    pub to_git : mem x (git_names res') ≡ (mem x (git_names res) || (mem x names && in_git x))
    pub to_aur : mem x candidates' ≡ (mem x candidates || (mem x names && in_none x))
    pub rest : leftover res' ≡ leftover res

  place-Placed :
      (res : PackageResolution) (candidates : List String) (n : String)
      → Placed res
          (place repo groups sources (res, candidates) n).0
          candidates
          (place repo groups sources (res, candidates) n).1
          (n ∷ [])
  unfolding place place_source add_repo add_group add_git mem
  place-Placed res candidates n = elim (Bool-cases (mem n repo)) [
    | inl e ↦ rw e (record {
      to_groups = ground (arith, test_at n x in_group, mem-append x res.groups (n ∷ []), e);
      to_git = ground (arith, test_at n x in_git, mem-append x (git_names res) (n ∷ []), e);
      to_aur = ground (arith, test_at n x in_none, mem-append x candidates (n ∷ []), e);
      rest = refl;
    })
    | inr e ↦ elim (Bool-cases (mem n groups)) [
      | inl f ↦ rw e (
          rw f (record {
            to_groups =
                ground (arith, test_at n x in_group, mem-append x res.groups (n ∷ []), e, f);
            to_git =
                ground (arith, test_at n x in_git, mem-append x (git_names res) (n ∷ []), e, f);
            to_aur = ground (arith, test_at n x in_none, mem-append x candidates (n ∷ []), e, f);
            rest = refl;
          }))
      | inr f ↦ elim (Option-cases (get sources n)) [
        | inl g ↦ rw e (
            rw f (
              rw g (record {
                to_groups = ground (
                  arith,
                  test_at n x in_group,
                  mem-append x res.groups (n ∷ []),
                  e,
                  f,
                  ap is_some g,
                );
                to_git = ground (
                  arith,
                  test_at n x in_git,
                  mem-append x (git_names res) (n ∷ []),
                  e,
                  f,
                  ap is_some g,
                );
                to_aur = ground (
                  arith,
                  test_at n x in_none,
                  mem-append x candidates (n ∷ []),
                  e,
                  f,
                  ap is_some g,
                );
                rest = refl;
              })))
        | inr (source, g) ↦ rw e (
            rw f (
              rw g (record {
                to_groups = ground (
                  arith,
                  test_at n x in_group,
                  mem-append x res.groups (n ∷ []),
                  e,
                  f,
                  ap is_some g,
                  ap (mem x) (map-append_git res.git (record { name = n; source = source })),
                );
                to_git = ground (
                  arith,
                  test_at n x in_git,
                  mem-append x (git_names res) (n ∷ []),
                  e,
                  f,
                  ap is_some g,
                  ap (mem x) (map-append_git res.git (record { name = n; source = source })),
                );
                to_aur = ground (
                  arith,
                  test_at n x in_none,
                  mem-append x candidates (n ∷ []),
                  e,
                  f,
                  ap is_some g,
                  ap (mem x) (map-append_git res.git (record { name = n; source = source })),
                );
                rest = refl;
              })))
      ]
    ]
  ]

  pub classify-Placed :
      (res : PackageResolution) (candidates names : List String)
      → Placed res
          (classify repo groups sources (res, candidates) names).0
          candidates
          (classify repo groups sources (res, candidates) names).1
          names
  unfolding classify mem
  classify-Placed res candidates [] = record {
    to_groups = ground arith;
    to_git = ground arith;
    to_aur = ground arith;
    rest = refl;
  }
  classify-Placed res candidates (n ∷ names) =
      let (one, left) = place repo groups sources (res, candidates) n in
      let first = place-Placed res candidates n in
      let later = classify-Placed one left names in
      record {
        to_groups = ground (arith, first.to_groups, later.to_groups);
        to_git = ground (arith, first.to_git, later.to_git);
        to_aur = ground (arith, first.to_aur, later.to_aur);
        rest = later.rest ∙ first.rest;
      }
