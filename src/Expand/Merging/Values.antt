-- ===== src/Expand/Merging/Values.antt =====
-- dasik/lib/expand/__init__.py: what the parts of a config without a repeated key are like.
use dasik.Base.{
  String, ◌≡◌, refl, sym, ap, ◌∙◌, inl, inr, some, [], ◌∷◌, All, Option-cases, Bool-cases, ◌==◌,
  Dict, get, keys, IsDict, mem, Json, null, bool, num, str, arr, obj, fields_of, list_of, dict_of,
  Items, nil, cons, Fields, end, field, IsJson, HaveJson, has_field,
}
use mathlib.Core.Path.{subst}
use dasik.Expand.Fragment.{items_at, section, as_list, as_dict}
use dasik.Expand.Merging.Keys.{items_at-found, items_at-missing, section-found, section-missing}

-- A dict without a key twice, at any depth.
abbrev pub IsConfig : Dict Json → Type 0
IsConfig d = IsJson (obj (fields_of d))

list_of-IsJson : (xs : Items) → IsJson (arr xs) → All IsJson (list_of xs)
unfolding IsJson list_of
list_of-IsJson nil h = tt
list_of-IsJson (cons x xs) h = (h.0, list_of-IsJson xs h.1)

some_injective : (v w : Json) → some v ≡ some w → v ≡ w
some_injective v w e = cc

fields_of-dict_of : (fs : Fields) → fields_of (dict_of fs) ≡ fs
unfolding fields_of dict_of
fields_of-dict_of end = refl
fields_of-dict_of (field k v fs) = ap (field k v) (fields_of-dict_of fs)

has_field-fields_of : (k : String) (d : Dict Json) → has_field k (fields_of d) ≡ mem k (keys d)
unfolding fields_of has_field mem
has_field-fields_of k [] = refl
has_field-fields_of k ((j, v) ∷ d) = rw (has_field-fields_of k d) refl

get-IsJson : (d : Dict Json) (k : String) (v : Json) → IsConfig d → get d k ≡ some v → IsJson v
unfolding get IsJson fields_of
get-IsJson [] k v h e = cc
get-IsJson ((j, w) ∷ d) k v h e = elim (Bool-cases (j == k)) [
  | inl q ↦ subst IsJson (some_injective w v (rw q at e)) h.1
  | inr q ↦ get-IsJson d k v h.2 (rw q at e)
]

as_list-IsJson : (v : Json) → IsJson v → All IsJson (as_list v)
unfolding as_list
as_list-IsJson (arr xs) h = list_of-IsJson xs h
as_list-IsJson null h = tt
as_list-IsJson (bool b) h = tt
as_list-IsJson (num n) h = tt
as_list-IsJson (str s) h = tt
as_list-IsJson (obj fs) h = tt

pub items_at-IsJson : (d : Dict Json) (k : String) → IsConfig d → All IsJson (items_at d k)
items_at-IsJson d k h = elim (Option-cases (get d k)) [
  | inl e ↦ rw (items_at-missing d k e) tt
  | inr (v, e) ↦ rw (items_at-found d k v e) (as_list-IsJson v (get-IsJson d k v h e))
]

as_dict-IsConfig : (v : Json) → IsJson v → IsConfig (as_dict v)
unfolding as_dict IsJson fields_of
as_dict-IsConfig (obj fs) h = subst HaveJson (sym (fields_of-dict_of fs)) h
as_dict-IsConfig null h = tt
as_dict-IsConfig (bool b) h = tt
as_dict-IsConfig (num n) h = tt
as_dict-IsConfig (str s) h = tt
as_dict-IsConfig (arr fs) h = tt

pub section-IsConfig : (d : Dict Json) (k : String) → IsConfig d → IsConfig (section d k)
unfolding IsJson fields_of
section-IsConfig d k h = elim (Option-cases (get d k)) [
  | inl e ↦ rw (section-missing d k e) tt
  | inr (v, e) ↦ rw (section-found d k v e) (as_dict-IsConfig v (get-IsJson d k v h e))
]

pub IsConfig-IsDict : (d : Dict Json) → IsConfig d → IsDict d
unfolding IsJson fields_of
IsConfig-IsDict [] h = tt
IsConfig-IsDict ((k, v) ∷ d) h = (sym (has_field-fields_of k d) ∙ h.0, IsConfig-IsDict d h.2)
