-- ===== src/Expand/Merging/Lists.antt =====
-- dasik/lib/expand/__init__.py: _merge_list, and the filter that takes its items out again.
use dasik.Base.{
  ◌≡◌, refl, arith, Bool, true, false, not, ◌||◌, inl, inr, List, [], ◌∷◌, ◌++◌, ap, ◌∙◌, select,
  All, Bool-cases, Json, IsJson, json_eq_refl,
}
use dasik.Expand.Fragment.{json_in, merge_list}
use dasik.Expand.Merging.{without}

json_in-append :
    (x : Json) (xs ys : List Json) → json_in x (xs ++ ys) ≡ (json_in x xs || json_in x ys)
unfolding json_in
json_in-append x [] ys = refl
json_in-append x (y ∷ xs) ys = ground (arith, json_in-append x xs ys)

-- The members of the first list are members of the second.
abbrev AreIn : List Json → List Json → Type 0
AreIn xs ys = All (λ x. json_in x ys ≡ true) xs

AreIn-cons : (x : Json) (xs ys : List Json) → AreIn xs ys → AreIn xs (x ∷ ys)
unfolding json_in
AreIn-cons x [] ys h = tt
AreIn-cons x (z ∷ xs) ys h = (ground (arith, h.0), AreIn-cons x xs ys h.1)

AreIn-self : (xs : List Json) → All IsJson xs → AreIn xs xs
unfolding json_in
AreIn-self [] h = tt
AreIn-self (x ∷ xs) h = (rw (json_eq_refl x h.0) refl, AreIn-cons x xs xs (AreIn-self xs h.1))

module _ (p : Json → Bool) where
  -- Those of the first list that pass the test are members of the second.
  abbrev PassingAreIn : List Json → List Json → Type 0
  PassingAreIn xs ys = All (λ x. p x ≡ true → json_in x ys ≡ true) xs

  PassingAreIn-append : (xs ys zs : List Json) → PassingAreIn xs ys → PassingAreIn xs (ys ++ zs)
  PassingAreIn-append [] ys zs h = tt
  PassingAreIn-append (x ∷ xs) ys zs h =
      (λ e. rw (json_in-append x ys zs, h.0 e) refl, PassingAreIn-append xs ys zs h.1)

  select-rejected :
      (ys : List Json) (x : Json) → p x ≡ false → select p (ys ++ x ∷ []) ≡ select p ys
  unfolding select
  select-rejected [] x h = rw h refl
  select-rejected (y ∷ ys) x h = ground (arith, select-rejected ys x h)

  -- Items that pass only where they were there before do not change what passes.
  select-merge_list :
      (base extra : List Json)
      → PassingAreIn extra base
      → select p (merge_list base extra) ≡ select p base
  unfolding merge_list
  select-merge_list base [] h = refl
  select-merge_list base (x ∷ extra) h = elim (Bool-cases (json_in x base)) [
    | inl e ↦ rw e (select-merge_list base extra h.1)
    | inr n ↦ rw n (
        select-merge_list (base ++ x ∷ []) extra (PassingAreIn-append extra base (x ∷ []) h.1)
        ∙ select-rejected base x (elim (Bool-cases (p x)) [ inl e ↦ cc (h.0 e) | inr e ↦ e ]))
  ]

  select-All : (xs : List Json) → All (λ x. p x ≡ true) xs → select p xs ≡ xs
  unfolding select
  select-All [] h = refl
  select-All (x ∷ xs) h = rw h.0 (ap (◌∷◌ x) (select-All xs h.1))

module _ (contributed original : List Json) where
  abbrev keeps : Json → Bool
  keeps x = not (json_in x contributed) || json_in x original

  keeps-original : (xs : List Json) → AreIn xs original → All (λ x. keeps x ≡ true) xs
  keeps-original [] h = tt
  keeps-original (x ∷ xs) h = (ground (arith, h.0), keeps-original xs h.1)

  keeps-contributed : (xs : List Json) → AreIn xs contributed → PassingAreIn keeps xs original
  keeps-contributed [] h = tt
  keeps-contributed (x ∷ xs) h = (λ e. ground (arith, h.0), keeps-contributed xs h.1)

-- Merging items in and taking them out again gives the list as it was.
pub without-merge_list :
    (base extra : List Json)
    → All IsJson base
    → All IsJson extra
    → without extra base (merge_list base extra) ≡ base
unfolding without
without-merge_list base extra hb he =
    select-merge_list (keeps extra base) base extra
      (keeps-contributed extra base extra (AreIn-self extra he))
    ∙ select-All (keeps extra base) base (keeps-original extra base base (AreIn-self base hb))
