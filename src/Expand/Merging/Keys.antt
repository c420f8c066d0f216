-- ===== src/Expand/Merging/Keys.antt =====
-- dasik/lib/expand/__init__.py: what one merge, and one removal, does to each key of the config.
use dasik.Base.{
  String, ◌≡◌, refl, ap, false, ◌&&◌, inl, inr, Option, none, some, List, [], ◌∷◌, is_empty, select,
  Bool-cases, Option-cases, ◌==◌, eq_refl, Dict, get, put, get-put, Json, null, bool, num, str, arr,
  obj, items_of, fields_of, list_of-items_of, dict_of-fields_of,
}
use dasik.Expand.Fragment.{merge_list, as_dict, as_list, items_at, section}
use dasik.Expand.Merging.{
  merge_at, merge_sources, merge_units, merge_groups, drop_at, drop_sources, drop_units,
  drop_groups, without,
}

get-put_other :
    (d : Dict Json) (k : String) (v : Json) (j : String)
    → (k == j) ≡ false
    → get (put d k v) j ≡ get d j
get-put_other d k v j h = rw (get-put d k v j, h) refl

get-put_self : (d : Dict Json) (k : String) (v : Json) → get (put d k v) k ≡ some v
get-put_self d k v = rw (get-put d k v k, eq_refl k) refl

value_of : Option Json → Json
value_of none = null
value_of (some v) = v

items_at-value_of : (d : Dict Json) (j : String) → items_at d j ≡ as_list (value_of (get d j))
unfolding items_at value_of
items_at-value_of d j = ap as_list (get_or-value_of (get d j))
  where
    get_or-value_of : (o : Option Json) → elim o [ none ↦ null | some v ↦ v ] ≡ value_of o
    get_or-value_of none = refl
    get_or-value_of (some v) = refl

pub items_at-cong : (d e : Dict Json) (j : String) → get d j ≡ get e j → items_at d j ≡ items_at e j
items_at-cong d e j h = rw (items_at-value_of d j, items_at-value_of e j, h) refl

pub items_at-found :
    (d : Dict Json) (j : String) (v : Json) → get d j ≡ some v → items_at d j ≡ as_list v
unfolding value_of
items_at-found d j v h = rw (items_at-value_of d j, h) refl

pub items_at-missing : (d : Dict Json) (j : String) → get d j ≡ none → items_at d j ≡ []
unfolding value_of as_list
items_at-missing d j h = rw (items_at-value_of d j, h) refl

section-value_of : (d : Dict Json) (j : String) → section d j ≡ as_dict (value_of (get d j))
unfolding section value_of
section-value_of d j = ap as_dict (get_or-value_of (get d j))
  where
    get_or-value_of : (o : Option Json) → elim o [ none ↦ null | some v ↦ v ] ≡ value_of o
    get_or-value_of none = refl
    get_or-value_of (some v) = refl

pub section-cong : (d e : Dict Json) (j : String) → get d j ≡ get e j → section d j ≡ section e j
section-cong d e j h = rw (section-value_of d j, section-value_of e j, h) refl

pub items_at-put :
    (d : Dict Json) (k : String) (xs : List Json) → items_at (put d k (arr (items_of xs))) k ≡ xs
unfolding as_list
items_at-put d k xs =
    rw (items_at-found (put d k (arr (items_of xs))) k _ (get-put_self d k _)) (list_of-items_of xs)

pub section-found :
    (d : Dict Json) (j : String) (v : Json) → get d j ≡ some v → section d j ≡ as_dict v
unfolding value_of
section-found d j v h = rw (section-value_of d j, h) refl

pub section-missing : (d : Dict Json) (j : String) → get d j ≡ none → section d j ≡ []
unfolding value_of as_dict
section-missing d j h = rw (section-value_of d j, h) refl

pub section-put :
    (d : Dict Json) (k : String) (e : Dict Json) → section (put d k (obj (fields_of e))) k ≡ e
unfolding as_dict
section-put d k e =
    rw (section-found (put d k (obj (fields_of e))) k _ (get-put_self d k _)) (dict_of-fields_of e)

pub items_at-put_other :
    (d : Dict Json) (k : String) (v : Json) (j : String)
    → (k == j) ≡ false
    → items_at (put d k v) j ≡ items_at d j
items_at-put_other d k v j h = items_at-cong (put d k v) d j (get-put_other d k v j h)

-- The key of a merge or a removal reads as the merged or the filtered list.
pub items_at-merge_at :
    (k : String) (xs : List Json) (d : Dict Json)
    → items_at (merge_at k xs d) k ≡ merge_list (items_at d k) xs
unfolding merge_at merge_list
items_at-merge_at k [] d = refl
items_at-merge_at k (x ∷ xs) d = items_at-put d k (merge_list (items_at d k) (x ∷ xs))

pub items_at-drop_at :
    (k : String) (xs : List Json) (o d : Dict Json)
    → items_at (drop_at k xs o d) k ≡ without xs (items_at o k) (items_at d k)
unfolding drop_at without select
items_at-drop_at k xs o d = elim (Option-cases (get d k)) [
  | inl e ↦ rw (e, drop_at) (rw (items_at-missing d k e) refl)
  | inr (v, e) ↦ rw (e, drop_at, items_at-put, items_at-found d k v e) refl
]

-- Every other key is left alone.
module _ (j : String) where
  pub merge_at_other :
      (k : String) (xs : List Json) (d : Dict Json)
      → (k == j) ≡ false
      → get (merge_at k xs d) j ≡ get d j
  unfolding merge_at
  merge_at_other k [] d h = refl
  merge_at_other k (x ∷ xs) d h =
      get-put_other d k (arr (items_of (merge_list (items_at d k) (x ∷ xs)))) j h

  pub drop_at_other :
      (k : String) (xs : List Json) (o d : Dict Json)
      → (k == j) ≡ false
      → get (drop_at k xs o d) j ≡ get d j
  unfolding drop_at
  drop_at_other k xs o d h = elim (Option-cases (get d k)) [
    | inl e ↦ rw (e, drop_at) refl
    | inr (v, e) ↦ rw (e, drop_at) (get-put_other d k _ j h)
  ]

  pub merge_sources_other :
      (s : Dict Json) (d : Dict Json)
      → ("package_sources" == j) ≡ false
      → get (merge_sources s d) j ≡ get d j
  unfolding merge_sources
  merge_sources_other [] d h = refl
  merge_sources_other (e ∷ s) d h = get-put_other d "package_sources" _ j h

  pub drop_sources_other :
      (s : Dict Json) (o d : Dict Json)
      → ("package_sources" == j) ≡ false
      → get (drop_sources s o d) j ≡ get d j
  unfolding drop_sources
  drop_sources_other s o d h = elim (Option-cases (get d "package_sources")) [
    | inl e ↦ rw (e, drop_sources) refl
    | inr (v, e) ↦ rw (e, drop_sources) (get-put_other d "package_sources" _ j h)
  ]

  pub merge_units_other :
      (us ss : List Json) (d : Dict Json)
      → ("systemd" == j) ≡ false
      → get (merge_units us ss d) j ≡ get d j
  unfolding merge_units
  merge_units_other us ss d h = elim (Bool-cases (is_empty us && is_empty ss)) [
    | inl e ↦ rw e refl
    | inr e ↦ rw e (get-put_other d "systemd" _ j h)
  ]

  pub drop_units_other :
      (us ss : List Json) (o d : Dict Json)
      → ("systemd" == j) ≡ false
      → get (drop_units us ss o d) j ≡ get d j
  unfolding drop_units
  drop_units_other us ss o d h = elim (Option-cases (get d "systemd")) [
    | inl e ↦ rw (e, drop_units) refl
    | inr (obj fs, e) ↦ rw (e, drop_units) (get-put_other d "systemd" _ j h)
    | inr (null, e) ↦ rw (e, drop_units) refl
    | inr (bool b, e) ↦ rw (e, drop_units) refl
    | inr (num n, e) ↦ rw (e, drop_units) refl
    | inr (str t, e) ↦ rw (e, drop_units) refl
    | inr (arr xs, e) ↦ rw (e, drop_units) refl
  ]

  pub merge_groups_other :
      (gs : List Json) (d : Dict Json)
      → ("users" == j) ≡ false
      → get (merge_groups gs d) j ≡ get d j
  unfolding merge_groups
  merge_groups_other [] d h = refl
  merge_groups_other (g ∷ gs) d h = get-put_other d "users" _ j h

  pub drop_groups_other :
      (gs : List Json) (o d : Dict Json)
      → ("users" == j) ≡ false
      → get (drop_groups gs o d) j ≡ get d j
  unfolding drop_groups
  drop_groups_other [] o d h = refl
  drop_groups_other (g ∷ gs) o d h = elim (Option-cases (get d "users")) [
    | inl e ↦ rw (e, drop_groups) refl
    | inr (v, e) ↦ rw (e, drop_groups) (get-put_other d "users" _ j h)
  ]
