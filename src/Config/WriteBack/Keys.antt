-- ===== src/Config/WriteBack/Keys.antt =====
-- dasik/lib/json_parser/writeback.py: the keys and entries of a captured value that are known already.
use dasik.Base.{
  String, ◌≡◌, refl, ap, arith, inl, inr, Bool, true, false, some, List, ◌∷◌, ◌++◌, ◌==◌, eq_refl,
  Json, null, bool, num, str, arr, obj, Items, nil, cons, Fields, end, field, items_of, list_of,
  json_eq, json_eq_refl, IsJson, has_field, field_get, Bool-cases,
}
use mathlib.Core.Path.{subst}
use dasik.Config.Files.{Outcome, done}
use dasik.Config.Includes.{
  is_directive, append_items, items_in, resolve, resolve_fields, resolve_directive, resolve_concat,
}
use dasik.Config.WriteBack.Staging.{Writes, Planner}
use dasik.Config.WriteBack.Matching.{Part, take_part, match_part, plan_items}
use dasik.Config.WriteBack.Shares.{entries}
use dasik.Config.WriteBack.Directives.{>>=_done, done_injective}
use dasik.Config.WriteBack.{added_fields, append_fields}

pub items_of-list_of : (xs : Items) → items_of (list_of xs) ≡ xs
unfolding items_of list_of
items_of-list_of nil = refl
items_of-list_of (cons x xs) = ap (cons x) (items_of-list_of xs)

pub list_of-append_items : (xs ys : Items) → list_of (append_items xs ys) ≡ list_of xs ++ list_of ys
unfolding list_of append_items
list_of-append_items nil ys = refl
list_of-append_items (cons x xs) ys = ap (◌∷◌ x) (list_of-append_items xs ys)

pub take_part-first :
    (p : Json → Bool) (v : Json) (put : Json → Planner Json) (parts : List Part)
    → p v ≡ true
    → take_part p ((v, put) ∷ parts) ≡ some ((v, put), parts)
unfolding take_part
take_part-first p v put parts h = rw h refl

-- The exact value is matched first.
pub match_part-same :
    (item : Json) (put : Json → Planner Json) (parts : List Part)
    → IsJson item
    → match_part item ((item, put) ∷ parts) ≡ some ((item, put), parts)
unfolding match_part
match_part-same item put parts h =
    rw (take_part-first (λ v. json_eq v item) item put parts (json_eq_refl item h), match_part) refl

-- Keys of the first dict that the second has.
abbrev pub HasKeys : Fields → Fields → Type 0
HasKeys end raw = Unit
HasKeys (field k v fs) raw = (has_field k raw ≡ true) × HasKeys fs raw

pub HasKeys-field :
    (k : String) (v : Json) (fs raw : Fields) → HasKeys fs raw → HasKeys fs (field k v raw)
unfolding has_field
HasKeys-field k v end raw h = tt
HasKeys-field k v (field j w fs) raw h = (ground (arith, h.0), HasKeys-field k v fs raw h.1)

pub HasKeys-self : (fs : Fields) → HasKeys fs fs
unfolding has_field
HasKeys-self end = tt
HasKeys-self (field k v fs) = (rw (eq_refl k) refl, HasKeys-field k v fs fs (HasKeys-self fs))

pub field_get-has_field :
    (fs : Fields) (k : String) → has_field k fs ≡ true → (v : Json) × (field_get fs k ≡ some v)
unfolding has_field field_get
field_get-has_field end k h = cc
field_get-has_field (field j v fs) k h = elim (Bool-cases (j == k)) [
  | inl e ↦ (v, rw e refl)
  | inr e ↦ let (w, f) = field_get-has_field fs k (ground (arith, h)) in (w, rw e f)
]

pub added_fields-known : (raw new : Fields) → HasKeys new raw → added_fields raw new ≡ end
unfolding added_fields
added_fields-known raw end h = refl
added_fields-known raw (field k v new) h =
    let (w, e) = field_get-has_field raw k h.0 in
    rw (e, added_fields) (added_fields-known raw new h.1)

pub append_fields-end : (fs : Fields) → append_fields fs end ≡ fs
unfolding append_fields
append_fields-end end = refl
append_fields-end (field k v fs) = ap (field k v) (append_fields-end fs)

module _ (load : String → Json → Outcome Json) where
  -- Resolving keeps the keys.
  pub resolve_fields-HasKeys :
      (fs gs raw : Fields) → resolve_fields load fs ≡ done gs → HasKeys fs raw → HasKeys gs raw
  unfolding resolve
  resolve_fields-HasKeys end gs raw e h = subst (λ x. HasKeys x raw) (done_injective end gs e) tt
  resolve_fields-HasKeys (field k v fs) gs raw e h =
      let (w, p, e1) = >>=_done (resolve load v) _ e in
      let (hs, q, e2) = >>=_done (resolve_fields load fs) _ e1 in
      subst (λ x. HasKeys x raw) (done_injective (field k w hs) gs e2)
        (h.0, resolve_fields-HasKeys fs hs raw q h.1)

module _ (load : String → Json → Outcome Json) where
  pub resolve_one :
      (k : String) (x : Json)
      → is_directive k ≡ true
      → resolve load (obj (field k x end)) ≡ resolve_directive load (field k x end)
  unfolding resolve
  resolve_one k x d = rw (d, resolve) refl

  pub resolve_directive_concat :
      (k : String) (x : Json)
      → (k == "$concat") ≡ true
      → resolve_directive load (field k x end) ≡ resolve_concat load x
  unfolding resolve
  resolve_directive_concat k x c = rw (c, resolve_directive) refl

  pub resolve_directive_file :
      (k : String) (x : Json)
      → (k == "$concat") ≡ false
      → resolve_directive load (field k x end) ≡ load k x
  unfolding resolve
  resolve_directive_file k x c = rw (c, resolve_directive) refl

-- Each part, at its own value, gives what it stands for and stages nothing.
abbrev pub PutsBack : (Json → Planner Json) → Json → Json → Type 0
PutsBack put x y = (ws : Writes) → put y ws ≡ done (x, ws)

pub plan_items-same :
    (x y : Json) (xs ys : Items) (put : Json → Planner Json) (parts : List Part) (ws : Writes)
    → IsJson y
    → PutsBack put x y
    → plan_items parts ys ws ≡ done (xs, ws)
    → plan_items ((y, put) ∷ parts) (cons y ys) ws ≡ done (cons x xs, ws)
unfolding plan_items
plan_items-same x y xs ys put parts ws j h k =
    rw (match_part-same y put parts j, plan_items) (rw (h ws) (rw k refl))

pub entries-items_in :
    (v : Json) (xs : Items) → items_in v ≡ done xs → entries v ≡ done (list_of xs)
unfolding items_in entries
entries-items_in (arr ys) xs e = ap (λ us. done (list_of us)) (done_injective ys xs e)
entries-items_in null xs e = cc
entries-items_in (bool b) xs e = cc
entries-items_in (num n) xs e = cc
entries-items_in (str t) xs e = cc
entries-items_in (obj fs) xs e = cc
