-- ===== src/Config/WriteBack/Matching.antt =====
-- dasik/lib/json_parser/writeback.py: the captured entries of a list, matched to the raw ones.
use dasik.Base.{
  String, Bool, false, ◌&&◌, Option, none, some, List, [], ◌∷◌, if◌then◌else◌, ◌==◌, Json, obj,
  Items, nil, cons, Fields, field_get, json_eq,
}
use dasik.Config.WriteBack.Staging.{Planner, pure, ◌>>=◌}

-- _identity
unfoldable pub identity_in : Fields → List String → Option (String × Json)
unfolding field_get
identity_in fs [] = none
identity_in fs (key ∷ keys) = elim (field_get fs key) [
  | some v ↦ some (key, v)
  | none ↦ identity_in fs keys
]

unfoldable pub identity : Json → Option (String × Json)
unfolding identity_in
identity (obj fs) = identity_in fs ("path" ∷ "name" ∷ "username" ∷ "unit" ∷ [])
identity _ = none

unfoldable pub same_identity : Json → Json → Bool
unfolding identity json_eq
same_identity a b = elim (identity a) [
  | none ↦ false
  | some (k, v) ↦ elim (identity b) [ none ↦ false | some (j, w) ↦ j == k && json_eq w v ]
]

-- What a part of the config was resolved to, and how a captured value is put into it.
abbrev pub Part : Type 0
Part = Json × (Json → Planner Json)

-- The first part that passes, and the others
unfoldable pub take_part : (Json → Bool) → List Part → Option (Part × List Part)
take_part p [] = none
take_part p ((v, put) ∷ parts) =
    let rest = take_part p parts in
    if p v
    then some ((v, put), parts)
    else elim rest [ none ↦ none | some (found, others) ↦ some (found, (v, put) ∷ others) ]

-- _match: the exact value first, then the identity key
unfoldable pub match_part : Json → List Part → Option (Part × List Part)
unfolding take_part json_eq same_identity
match_part item parts = elim (take_part (λ v. json_eq v item) parts) [
  | some found ↦ some found
  | none ↦ take_part (λ v. same_identity item v) parts
]

-- The loop of _plan_list
unfoldable pub plan_items : List Part → Items → Planner Items
unfolding match_part
plan_items parts nil = pure nil
plan_items parts (cons item items) = elim (match_part item parts) [
  | none ↦ do rest ← plan_items parts items; pure (cons item rest)
  | some ((v, put), others) ↦ do
    planned ← put item
    rest ← plan_items others items
    pure (cons planned rest)
]

unfoldable pub zip_parts : List Json → List (Json → Planner Json) → List Part
zip_parts (v ∷ vs) (put ∷ puts) = (v, put) ∷ zip_parts vs puts
zip_parts _ _ = []
