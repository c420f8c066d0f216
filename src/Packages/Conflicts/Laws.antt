-- ===== src/Packages/Conflicts/Laws.antt =====
-- Which conflicts the metadata yields.
use dasik.Base.{
  ℕ, suc, String, Bool, true, false, not, ◌&&◌, ◌||◌, ◌+◌, ◌≡◌, refl, inl, inr, some, List, [], ◌∷◌,
  ◌++◌, if◌then◌else◌, any, All, arith, ◌==◌, eq_iff, Bool-cases, nat_eq,
}
use package.dasik.Packages.Conflicts.{
  PacmanConflict, PkgInfo, declares, same_removable, is_found, conflict, check, check_installed,
  check_candidates, conflicts_from_metadata,
}

-- The two packages conflict: they are different, and one declares what the other satisfies.
abbrev pub clash : PkgInfo → PkgInfo → Bool
clash candidate other = not (other.name == candidate.name) && declares candidate other

-- How often the two names are reported to conflict.
unfoldable pub reports : String → String → List PacmanConflict → ℕ
reports a b [] = 0
reports a b (k ∷ found) =
    if k.left == a && k.right == b then suc (reports a b found) else reports a b found

reports-append :
    (a b : String) (xs ys : List PacmanConflict)
    → reports a b (xs ++ ys) ≡ reports a b xs + reports a b ys
unfolding reports
reports-append a b [] ys = omega arith
reports-append a b (x ∷ xs) ys = ground (arith, reports-append a b xs ys)

-- Every conflict found so far proposes to remove the installed side.
abbrev Proposes : PacmanConflict → Type 0
Proposes k = k.removable ≡ some k.right

-- Among such conflicts, one is found exactly where its two names are reported.
is_found-reports :
    (c o : PkgInfo) (found : List PacmanConflict)
    → All Proposes found
    → is_found (conflict c o) found ≡ not (nat_eq (reports c.name o.name found) 0)
unfolding is_found reports conflict same_removable
is_found-reports c o [] h = refl
is_found-reports c o (k ∷ found) h = rw h.0 (ground (arith, is_found-reports c o found h.1))

Proposes-append :
    (found : List PacmanConflict) (k : PacmanConflict)
    → All Proposes found
    → Proposes k
    → All Proposes (found ++ k ∷ [])
Proposes-append [] k h p = (p, tt)
Proposes-append (f ∷ found) k h p = (h.0, Proposes-append found k h.1 p)

check-Proposes :
    (c : PkgInfo) (found : List PacmanConflict) (o : PkgInfo)
    → All Proposes found
    → All Proposes (check c found o)
unfolding check conflict
check-Proposes c found o h = elim (Bool-cases (o.name == c.name)) [
  | inl e ↦ rw e h
  | inr e ↦ elim (Bool-cases (declares c o)) [
    | inr d ↦ rw e (rw d h)
    | inl d ↦ elim (Bool-cases (is_found (conflict c o) found)) [
      | inl f ↦ rw e (rw d (rw f h))
      | inr f ↦ rw e (rw d (rw f (Proposes-append found (conflict c o) h refl)))
    ]
  ]
]

abbrev bit : Bool → ℕ
bit p = if p then 1 else 0

-- The pair has these names, and it conflicts.
abbrev pub clashes_as : String → String → PkgInfo → PkgInfo → Bool
clashes_as a b candidate other = (candidate.name == a && other.name == b) && clash candidate other

-- A pair with other names changes nothing for these, and its own names are added once.
reports-check :
    (c : PkgInfo) (found : List PacmanConflict) (o : PkgInfo) (a b : String)
    → reports a b (check c found o) ≡ (
        if (c.name == a && o.name == b) && (clash c o && not (is_found (conflict c o) found))
        then suc (reports a b found)
        else reports a b found)
unfolding check conflict reports
reports-check c found o a b = ground (arith, reports-append a b found (conflict c o ∷ []))

reports-names :
    (c o : PkgInfo) (found : List PacmanConflict) (a b : String)
    → (c.name == a && o.name == b) ≡ true
    → reports a b found ≡ reports c.name o.name found
unfolding reports
reports-names c o [] a b h = refl
reports-names c o (k ∷ found) a b h = ground (
  arith,
  reports-names c o found a b h,
  eq_iff c.name a,
  eq_iff o.name b,
  eq_iff k.left a,
  eq_iff k.right b,
  eq_iff k.left c.name,
  eq_iff k.right o.name,
)

check-bit :
    (a b : String) (c : PkgInfo) (found : List PacmanConflict) (o : PkgInfo) (p : Bool)
    → All Proposes found
    → reports a b found ≡ bit p
    → reports a b (check c found o) ≡ bit (p || clashes_as a b c o)
check-bit a b c found o p h e = elim (Bool-cases (c.name == a && o.name == b)) [
  | inl n ↦ ground (
    arith,
    reports-check c found o a b,
    is_found-reports c o found h,
    reports-names c o found a b n,
  )
  | inr n ↦ ground (arith, reports-check c found o a b)
]

check_installed-bit :
    (a b : String) (c : PkgInfo) (found : List PacmanConflict) (installed : List PkgInfo) (p : Bool)
    → All Proposes found
    → reports a b found ≡ bit p
    → (reports a b (check_installed c found installed)
        ≡ bit (p || any (clashes_as a b c) installed))
      × All Proposes (check_installed c found installed)
unfolding check_installed any
check_installed-bit a b c found [] p h e = (ground arith, h)
check_installed-bit a b c found (o ∷ installed) p h e =
    let rest =
      check_installed-bit a b c (check c found o) installed (p || clashes_as a b c o)
        (check-Proposes c found o h) (check-bit a b c found o p h e) in
    (ground (arith, rest.0), rest.1)

check_candidates-bit :
    (a b : String) (found : List PacmanConflict) (candidates installed : List PkgInfo) (p : Bool)
    → All Proposes found
    → reports a b found ≡ bit p
    → reports a b (check_candidates found candidates installed)
      ≡ bit (p || any (λ c. any (clashes_as a b c) installed) candidates)
unfolding check_candidates any
check_candidates-bit a b found [] installed p h e = ground arith
check_candidates-bit a b found (c ∷ candidates) installed p h e =
    let step = check_installed-bit a b c found installed p h e in
    let rest =
      check_candidates-bit a b (check_installed c found installed) candidates installed
        (p || any (clashes_as a b c) installed) step.1 step.0 in
    ground (arith, rest)

-- Two names are reported once where some candidate of the first name and some installed package of
-- the second are different and one declares a conflict that the other satisfies, and never
-- otherwise.
pub conflicts_from_metadata-reports :
    (candidates installed : List PkgInfo) (a b : String)
    → reports a b (conflicts_from_metadata candidates installed)
      ≡ (if any (λ c. any (clashes_as a b c) installed) candidates then 1 else 0)
unfolding conflicts_from_metadata reports
conflicts_from_metadata-reports candidates installed a b =
    check_candidates-bit a b [] candidates installed false tt refl
