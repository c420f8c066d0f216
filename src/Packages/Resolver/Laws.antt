-- ===== src/Packages/Resolver/Laws.antt =====
-- Where the resolver puts the names.
use dasik.Base.{
  ℕ, String, ◌+◌, ◌≡◌, refl, ap, ◌∙◌, Option, none, some, List, [], ◌∷◌, ◌++◌, map, if◌then◌else◌,
  mem, Dict, get, Json, arith, count, count-append, inl, inr, Bool-cases,
}
use dasik.Effects.{Exec}
use dasik.Effects.Laws.{OnOk, OnOk-and_then, OnOk-and_then_on}
use dasik.Commands.{CommandResult}
use dasik.Packages.Names.{from_keys, validate_each, count-from_keys, validate_each-same}
use dasik.Packages.Resolution.{
  ResolvedGitPackage, PackageResolution, empty, add_repo, add_group, add_git, add_aur, add_unknown,
  extend_unavailable, place_source, place, classify,
}
use package.dasik.Packages.Resolver.{
  settle, settle_each, answer, resolve_rest, resolve, is_provided, aur_info, repo_names,
  repo_groups,
}

abbrev pub git_names : PackageResolution → List String
git_names res = map (λ (p : ResolvedGitPackage). p.name) res.git

-- Every name of a resolution, bucket by bucket.
abbrev pub everything : PackageResolution → List String
everything res =
    res.repo ++ res.groups ++ git_names res ++ res.aur ++ res.unknown ++ res.unavailable

-- How often a name stands in the resolution or among the candidates.
abbrev seen : String → PackageResolution × List String → ℕ
seen x (res, candidates) = count x (everything res) + count x candidates

pub map-append_git :
    (xs : List ResolvedGitPackage) (p : ResolvedGitPackage)
    → map (λ (q : ResolvedGitPackage). q.name) (xs ++ p ∷ [])
      ≡ map (λ (q : ResolvedGitPackage). q.name) xs ++ p.name ∷ []
map-append_git [] p = refl
map-append_git (x ∷ xs) p = ground (arith, map-append_git xs p)

count-everything :
    (x : String) (res : PackageResolution)
    → count x (everything res)
      ≡ count x res.repo
        + (count x res.groups
            + (count x (git_names res)
                + (count x res.aur + (count x res.unknown + count x res.unavailable))))
count-everything x res = simp (count-append) (omega arith)

module _ (x : String) (res : PackageResolution) (name : String) where
  seen-add_repo :
      count x (everything (add_repo res name)) ≡ count x (everything res) + count x (name ∷ [])
  unfolding add_repo
  seen-add_repo = omega (
    arith,
    count-everything x (add_repo res name),
    count-everything x res,
    count-append x res.repo (name ∷ []),
  )

  seen-add_git :
      (source : Json)
      → count x (everything (add_git res name source))
        ≡ count x (everything res) + count x (name ∷ [])
  unfolding add_git
  seen-add_git source = omega (
    arith,
    count-everything x (add_git res name source),
    count-everything x res,
    count-append x (git_names res) (name ∷ []),
    ap (count x) (map-append_git res.git (record { name = name; source = source })),
  )

  seen-add_group :
      count x (everything (add_group res name)) ≡ count x (everything res) + count x (name ∷ [])
  unfolding add_group
  seen-add_group = omega (
    arith,
    count-everything x (add_group res name),
    count-everything x res,
    count-append x res.groups (name ∷ []),
  )

  seen-add_aur :
      count x (everything (add_aur res name)) ≡ count x (everything res) + count x (name ∷ [])
  unfolding add_aur
  seen-add_aur = omega (
    arith,
    count-everything x (add_aur res name),
    count-everything x res,
    count-append x res.aur (name ∷ []),
  )

  seen-add_unknown :
      count x (everything (add_unknown res name)) ≡ count x (everything res) + count x (name ∷ [])
  unfolding add_unknown
  seen-add_unknown = omega (
    arith,
    count-everything x (add_unknown res name),
    count-everything x res,
    count-append x res.unknown (name ∷ []),
  )

seen-extend_unavailable :
    (x : String) (res : PackageResolution) (names : List String)
    → count x (everything (extend_unavailable res names)) ≡ count x (everything res) + count x names
unfolding extend_unavailable
seen-extend_unavailable x res names = omega (
  arith,
  count-everything x (extend_unavailable res names),
  count-everything x res,
  count-append x res.unavailable names,
)

seen-place_source :
    (x : String) (source : Option Json) (acc : PackageResolution × List String) (name : String)
    → seen x (place_source source acc name) ≡ seen x acc + count x (name ∷ [])
unfolding place_source
seen-place_source x (some source) (res, candidates) name =
    omega (arith, seen-add_git x res name source)
seen-place_source x none (res, candidates) name =
    omega (arith, count-append x candidates (name ∷ []))

module _ (repo groups : List String) (sources : Dict Json) (x : String) where
  seen-place :
      (acc : PackageResolution × List String) (name : String)
      → seen x (place repo groups sources acc name) ≡ seen x acc + count x (name ∷ [])
  unfolding place
  seen-place (res, candidates) name = elim (Bool-cases (mem name repo)) [
    | inl e ↦ rw e (omega (arith, seen-add_repo x res name))
    | inr e ↦ elim (Bool-cases (mem name groups)) [
      | inl f ↦ rw e (rw f (omega (arith, seen-add_group x res name)))
      | inr f ↦ rw e (rw f (seen-place_source x (get sources name) (res, candidates) name))
    ]
  ]

  seen-classify :
      (acc : PackageResolution × List String) (names : List String)
      → seen x (classify repo groups sources acc names) ≡ seen x acc + count x names
  unfolding classify count
  seen-classify acc [] = omega arith
  seen-classify acc (name ∷ names) = omega (
    arith,
    seen-classify (place repo groups sources acc name) names,
    seen-place acc name,
    count-append x (name ∷ []) names,
  )

module _ {S : Type 0} (execute : String → List String → Exec S CommandResult)
    (query : List String → Exec S Json) (x : String) where
  -- The name stands `n` times in a resolution.
  abbrev Holds : ℕ → PackageResolution → Type 0
  Holds n res = count x (everything res) ≡ n

  settle-Holds :
      (found : List String) (res : PackageResolution) (name : String) (s : S)
      → OnOk
          (Holds (count x (everything res) + count x (name ∷ [])))
          (settle execute query found res name s).0
  unfolding settle
  settle-Holds found res name s = elim (Bool-cases (mem name found)) [
    | inl e ↦ rw e (seen-add_aur x res name)
    | inr e ↦ rw e (
        let (r, t) = is_provided execute query name s in
        OnOk-and_then (Holds (count x (everything res) + count x (name ∷ []))) r _ t (λ provided.
          elim (Bool-cases provided) [
            | inl p ↦ rw p (seen-add_repo x res name)
            | inr p ↦ rw p (seen-add_unknown x res name)
          ]))
  ]

  settle_each-Holds :
      (n : ℕ) (found : List String) (res : PackageResolution) (names : List String) (s : S)
      → count x (everything res) + count x names ≡ n
      → OnOk (Holds n) (settle_each execute query found res names s).0
  unfolding settle_each count
  settle_each-Holds n found res [] s h = omega (arith, h)
  settle_each-Holds n found res (name ∷ names) s h =
      let (r, t) = settle execute query found res name s in
      OnOk-and_then_on (Holds (count x (everything res) + count x (name ∷ []))) (Holds n) r _ t
        (settle-Holds found res name s)
        (λ settled p.
          settle_each-Holds n found settled names t
            (omega (arith, h, p, count-append x (name ∷ []) names)))

  answer-Holds :
      (n : ℕ) (res : PackageResolution) (candidates : List String) (found : Option (List String))
      (s : S)
      → count x (everything res) + count x candidates ≡ n
      → OnOk (Holds n) (answer execute query res candidates found s).0
  unfolding answer
  answer-Holds n res candidates none s h = seen-extend_unavailable x res candidates ∙ h
  answer-Holds n res candidates (some found) s h = settle_each-Holds n found res candidates s h

  resolve_rest-Holds :
      (n : ℕ) (res : PackageResolution) (candidates : List String) (s : S)
      → count x (everything res) + count x candidates ≡ n
      → OnOk (Holds n) (resolve_rest execute query res candidates s).0
  unfolding resolve_rest count
  resolve_rest-Holds n res [] s h = omega (arith, h)
  resolve_rest-Holds n res (c ∷ candidates) s h =
      let (r, t) = aur_info execute query (c ∷ candidates) s in
      OnOk-and_then (Holds n) r _ t (λ found. answer-Holds n res (c ∷ candidates) found t h)

  -- The two loops place each of the names of the keys once.
  seen-names :
      (repo groups : List String) (sources : Dict Json) (names ordered : List String)
      → ordered ≡ from_keys names
      → seen x (classify repo groups sources (empty, []) ordered) ≡ (if mem x names then 1 else 0)
  unfolding count
  seen-names repo groups sources names ordered e = omega (
    arith,
    seen-classify repo groups sources x (empty, []) ordered,
    ap (count x) e,
    count-from_keys x names,
  )

  -- A resolution that is returned holds each declared name once, in one of its six lists, however
  -- often it was declared, and holds no other name.
  pub resolve-partition :
      (names : List String) (sources : Dict Json) (s : S)
      → OnOk
          (λ res. count x (everything res) ≡ (if mem x names then 1 else 0))
          (resolve execute query names sources s).0
  unfolding resolve
  resolve-partition names sources s =
      OnOk-and_then_on (λ ns. ns ≡ from_keys names) (Holds (if mem x names then 1 else 0))
        (validate_each (from_keys names)) _ s (validate_each-same (from_keys names))
        (λ ordered e.
          let (p, t) = repo_names execute query s in
          OnOk-and_then (Holds (if mem x names then 1 else 0)) p _ t (λ repo.
            let (q, u) = repo_groups execute query t in
            OnOk-and_then (Holds (if mem x names then 1 else 0)) q _ u (λ groups.
              resolve_rest-Holds (if mem x names then 1 else 0)
                (classify repo groups sources (empty, []) ordered).0
                (classify repo groups sources (empty, []) ordered).1 u
                (seen-names repo groups sources names ordered e))))
