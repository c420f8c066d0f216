-- ===== src/Packages/Resolver/Precedence.antt =====
-- The order in which the resolver looks for a name: repository, group, Git source, AUR.
use dasik.Base.{
  String, false, not, ◌&&◌, ◌||◌, ◌≡◌, refl, ap, ◌∙◌, Option, none, some, List, [], ◌∷◌, ◌++◌, map,
  mem, mem-append, Dict, Json, arith, inl, inr, Bool-cases,
}
use dasik.Effects.{Exec, Result, ok, raise}
use dasik.Effects.Laws.{OnOk, OnOk-and_then, OnOk-and_then_on}
use dasik.Commands.{CommandResult}
use dasik.Packages.Names.{from_keys, validate_each, mem-from_keys, validate_each-same}
use dasik.Packages.Resolution.{
  ResolvedGitPackage, PackageResolution, empty, add_repo, add_aur, add_unknown, extend_unavailable,
  classify,
}
use package.dasik.Packages.Resolver.{
  settle, settle_each, answer, resolve_rest, resolve, is_provided, aur_info, repo_names,
  repo_groups,
}
use package.dasik.Packages.Resolver.Laws.{git_names}
use package.dasik.Packages.Resolver.Placing.{leftover, in_group, in_git, in_none, classify-Placed}

-- A later resolution keeps the groups and the Git packages, and leaves over no name that is neither
-- left over before nor among the names.
record Kept (x : String) (res : PackageResolution) (names : List String) (r : PackageResolution)
    : Type 0 where
  same_groups : r.groups ≡ res.groups
  same_git : r.git ≡ res.git
  from_names : (mem x (leftover r) && not (mem x (leftover res) || mem x names)) ≡ false

mem-leftover :
    (x : String) (res : PackageResolution)
    → mem x (leftover res) ≡ (mem x res.aur || (mem x res.unknown || mem x res.unavailable))
mem-leftover x res =
    rw
      (
        mem-append x res.aur (res.unknown ++ res.unavailable),
        mem-append x res.unknown res.unavailable,
      )
      refl

module _ (x : String) (res : PackageResolution) (n : String) where
  add_repo-Kept : Kept x res (n ∷ []) (add_repo res n)
  unfolding add_repo
  add_repo-Kept = record { same_groups = refl; same_git = refl; from_names = ground arith }

  add_aur-Kept : Kept x res (n ∷ []) (add_aur res n)
  unfolding add_aur
  add_aur-Kept = record {
    same_groups = refl;
    same_git = refl;
    from_names =
        ground (
          arith,
          mem-leftover x (add_aur res n),
          mem-leftover x res,
          mem-append x res.aur (n ∷ []),
        );
  }

  add_unknown-Kept : Kept x res (n ∷ []) (add_unknown res n)
  unfolding add_unknown
  add_unknown-Kept = record {
    same_groups = refl;
    same_git = refl;
    from_names = ground (
      arith,
      mem-leftover x (add_unknown res n),
      mem-leftover x res,
      mem-append x res.unknown (n ∷ []),
    );
  }

extend_unavailable-Kept :
    (x : String) (res : PackageResolution) (names : List String)
    → Kept x res names (extend_unavailable res names)
unfolding extend_unavailable
extend_unavailable-Kept x res names = record {
  same_groups = refl;
  same_git = refl;
  from_names = ground (
    arith,
    mem-leftover x (extend_unavailable res names),
    mem-leftover x res,
    mem-append x res.unavailable names,
  );
}

-- One name after the other.
Kept-cons :
    (x : String) (res one r : PackageResolution) (n : String) (names : List String)
    → Kept x res (n ∷ []) one
    → Kept x one names r
    → Kept x res (n ∷ names) r
unfolding mem
Kept-cons x res one r n names h k = record {
  same_groups = k.same_groups ∙ h.same_groups;
  same_git = k.same_git ∙ h.same_git;
  from_names = ground (arith, h.from_names, k.from_names);
}

OnOk-weaken :
    {A : Type 0} (P Q : A → Type 0) (r : Result A) → OnOk P r → ((a : A) → P a → Q a) → OnOk Q r
OnOk-weaken P Q (ok a) p h = h a p
OnOk-weaken P Q (raise e) p h = tt

module _ {S : Type 0} (execute : String → List String → Exec S CommandResult)
    (query : List String → Exec S Json) (x : String) where
  settle-Kept :
      (found : List String) (res : PackageResolution) (n : String) (s : S)
      → OnOk (Kept x res (n ∷ [])) (settle execute query found res n s).0
  unfolding settle
  settle-Kept found res n s = elim (Bool-cases (mem n found)) [
    | inl e ↦ rw e (add_aur-Kept x res n)
    | inr e ↦ rw e (
        let (r, t) = is_provided execute query n s in
        OnOk-and_then (Kept x res (n ∷ [])) r _ t (λ provided. elim (Bool-cases provided) [
          | inl p ↦ rw p (add_repo-Kept x res n)
          | inr p ↦ rw p (add_unknown-Kept x res n)
        ]))
  ]

  settle_each-Kept :
      (found : List String) (res : PackageResolution) (names : List String) (s : S)
      → OnOk (Kept x res names) (settle_each execute query found res names s).0
  unfolding settle_each
  settle_each-Kept found res [] s = record {
    same_groups = refl;
    same_git = refl;
    from_names = ground arith;
  }
  settle_each-Kept found res (n ∷ names) s =
      let (r, t) = settle execute query found res n s in
      OnOk-and_then_on (Kept x res (n ∷ [])) (Kept x res (n ∷ names)) r _ t
        (settle-Kept found res n s)
        (λ one k.
          OnOk-weaken (Kept x one names) (Kept x res (n ∷ names)) _
            (settle_each-Kept found one names t) (λ last k'. Kept-cons x res one last n names k k'))

  answer-Kept :
      (res : PackageResolution) (candidates : List String) (found : Option (List String)) (s : S)
      → OnOk (Kept x res candidates) (answer execute query res candidates found s).0
  unfolding answer
  answer-Kept res candidates none s = extend_unavailable-Kept x res candidates
  answer-Kept res candidates (some found) s = settle_each-Kept found res candidates s

  resolve_rest-Kept :
      (res : PackageResolution) (candidates : List String) (s : S)
      → OnOk (Kept x res candidates) (resolve_rest execute query res candidates s).0
  unfolding resolve_rest
  resolve_rest-Kept res [] s = record {
    same_groups = refl;
    same_git = refl;
    from_names = ground arith;
  }
  resolve_rest-Kept res (c ∷ candidates) s =
      let (r, t) = aur_info execute query (c ∷ candidates) s in
      OnOk-and_then (Kept x res (c ∷ candidates)) r _ t
        (λ found. answer-Kept res (c ∷ candidates) found t)

  -- A name is resolved as a group exactly where it is declared, no repository has it and a group has
  -- it; as a Git package exactly where no repository and no group has it and a Git source does; and only a
  -- declared name that none of the three has is one of the AUR, unknown or unavailable.
  abbrev pub IsPreferred :
      List String → List String → Dict Json → List String → PackageResolution → Type 0
  IsPreferred repo groups sources names r =
      (mem x r.groups ≡ (mem x names && in_group repo groups sources x x))
      × (mem x (git_names r) ≡ (mem x names && in_git repo groups sources x x))
      × ((mem x (leftover r) && not (mem x names && in_none repo groups sources x x)) ≡ false)

  resolve_rest-IsPreferred :
      (repo groups : List String) (sources : Dict Json) (names ordered : List String) (s : S)
      → mem x ordered ≡ mem x names
      → OnOk
          (IsPreferred repo groups sources names)
          (resolve_rest execute query
            (classify repo groups sources (empty, []) ordered).0
            (classify repo groups sources (empty, []) ordered).1
            s).0
  unfolding mem
  resolve_rest-IsPreferred repo groups sources names ordered s e =
      let (res, candidates) = classify repo groups sources (empty, []) ordered in
      let placed = classify-Placed repo groups sources x empty [] ordered in
      OnOk-weaken (Kept x res candidates) (IsPreferred repo groups sources names) _
        (resolve_rest-Kept res candidates s)
        (λ r kept. (
          ground (arith, ap (mem x) kept.same_groups, placed.to_groups, e),
          ground (
            arith,
            ap (λ (g : List ResolvedGitPackage). mem x (map (λ (p : ResolvedGitPackage). p.name) g))
                kept.same_git,
            placed.to_git,
            e,
          ),
          ground (arith, kept.from_names, placed.to_aur, ap (mem x) placed.rest, e),
        ))

  -- Where pacman lists `repo` and `groups`, a resolution that is returned has as groups exactly the
  -- declared names that are in `groups` and not in `repo`, as Git packages exactly those that are in
  -- neither and have a Git source, and as AUR packages, unknown or unavailable only declared names
  -- that are in none of the three.
  pub resolve-IsPreferred :
      (repo groups names : List String) (sources : Dict Json) (s : S)
      → (repo_names execute query s).0 ≡ ok repo
      → (repo_groups execute query (repo_names execute query s).1).0 ≡ ok groups
      → OnOk (IsPreferred repo groups sources names) (resolve execute query names sources s).0
  unfolding resolve
  resolve-IsPreferred repo groups names sources s e f =
      OnOk-and_then_on (λ ns. ns ≡ from_keys names) (IsPreferred repo groups sources names)
        (validate_each (from_keys names)) _ s (validate_each-same (from_keys names))
        (λ ordered o. rw e (
          rw f (
            resolve_rest-IsPreferred repo groups sources names ordered _
              (ap (mem x) o ∙ mem-from_keys x names))))
