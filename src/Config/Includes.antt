-- ===== src/Config/Includes.antt =====
-- dasik/lib/json_parser/includes.py: the directives of a config replaced by what they name. `loads` is
-- json.loads, `none` where it raises.
use dasik.Base.{
  ℕ, zero, suc, String, Bool, true, false, ◌||◌, ◌&&◌, Option, none, some, List, [], ◌∷◌, ◌++◌,
  if◌then◌else◌, mem, ◌==◌, Json, null, bool, num, str, arr, obj, Items, nil, cons, Fields, end,
  field,
}
use dasik.Commands.{strip, lines_of}
use dasik.Config.Files.{
  FilePath, Files, Outcome, done, failed, ◌>>=◌, resolve_path, parent, read, IncludeError,
  not_alone, concat_of_no_list, member_is_no_list, empty_line, include_cycle, not_json, out_of_fuel,
}
pub mod Resolved
pub mod Monotone
pub mod Unchanged
pub mod Within
pub mod Ending

-- k in _DIRECTIVES
unfoldable pub is_directive : String → Bool
is_directive k = k == "$include" || k == "$include_text" || k == "$include_line" || k == "$concat"

unfoldable pub has_directive : Fields → Bool
unfolding is_directive
has_directive end = false
has_directive (field k v fs) = is_directive k || has_directive fs

unfoldable mutual
  unfolding has_directive

  pub uses_includes : Json → Bool
  uses_includes (obj fs) = has_directive fs || fields_use fs
  uses_includes (arr xs) = items_use xs
  uses_includes _ = false

  pub items_use : Items → Bool
  items_use nil = false
  items_use (cons x xs) = uses_includes x || items_use xs

  pub fields_use : Fields → Bool
  fields_use end = false
  fields_use (field k v fs) = uses_includes v || fields_use fs

unfoldable pub append_items : Items → Items → Items
append_items nil ys = ys
append_items (cons x xs) ys = cons x (append_items xs ys)

-- A member of $concat as a list
unfoldable pub items_in : Json → Outcome Items
items_in (arr xs) = done xs
items_in _ = failed member_is_no_list

-- _resolve, with the directives that name a file given to `load`
unfoldable mutual
  unfolding has_directive append_items items_in

  pub resolve : (String → Json → Outcome Json) → Json → Outcome Json
  resolve load (arr xs) = resolve_items load xs >>= λ ys. done (arr ys)
  resolve load (obj fs) = elim (has_directive fs) [
    | true ↦ resolve_directive load fs
    | false ↦ resolve_fields load fs >>= λ gs. done (obj gs)
  ]
  resolve load v = done v

  pub resolve_items : (String → Json → Outcome Json) → Items → Outcome Items
  resolve_items load nil = done nil
  resolve_items load (cons x xs) =
      resolve load x >>= λ y. resolve_items load xs >>= λ ys. done (cons y ys)

  pub resolve_fields : (String → Json → Outcome Json) → Fields → Outcome Fields
  resolve_fields load end = done end
  resolve_fields load (field k v fs) =
      resolve load v >>= λ w. resolve_fields load fs >>= λ gs. done (field k w gs)

  pub resolve_directive : (String → Json → Outcome Json) → Fields → Outcome Json
  resolve_directive load (field k v end) = elim (k == "$concat") [
    | true ↦ resolve_concat load v
    | false ↦ load k v
  ]
  resolve_directive load _ = failed not_alone

  pub resolve_concat : (String → Json → Outcome Json) → Json → Outcome Json
  resolve_concat load (arr members) = resolve_members load members >>= λ ys. done (arr ys)
  resolve_concat load _ = failed concat_of_no_list

  pub resolve_members : (String → Json → Outcome Json) → Items → Outcome Items
  resolve_members load nil = done nil
  resolve_members load (cons x xs) = resolve load x >>= λ y.
      items_in y >>= λ ys. resolve_members load xs >>= λ zs. done (append_items ys zs)

unfoldable pub head_line : List String → String
head_line [] = ""
head_line (l ∷ ls) = l

-- The first line of a text, stripped
unfoldable pub line_of : String → Outcome Json
unfolding strip lines_of head_line
line_of text =
    let line = strip (head_line (lines_of text)) in
    if line == "" then failed empty_line else done (str line)

-- An included document, by its resolved path: `enter` goes on with its directives.
unfoldable pub include :
    (String → Option Json)
    → (FilePath → List String → String → Json → Outcome Json)
    → String
    → FilePath
    → List String
    → String
    → Outcome Json
unfolding parent
include loads enter real path chain text =
    if mem real chain then failed include_cycle else elim (loads text) [
      | none ↦ failed not_json
      | some v ↦ resolve (enter (parent path) (chain ++ real ∷ [])) v
    ]

-- What a directive makes of the text of its file
unfoldable pub read_directive :
    (String → Option Json)
    → (FilePath → List String → String → Json → Outcome Json)
    → String
    → FilePath
    → List String
    → String
    → String
    → Outcome Json
unfolding line_of include
read_directive loads enter real path chain directive text = elim (directive == "$include_text") [
  | true ↦ done (str text)
  | false ↦ elim (directive == "$include_line") [
    | true ↦ line_of text
    | false ↦ include loads enter real path chain text
  ]
]

module _ (files : Files) (loads : String → Option Json) where
  -- The part of _resolve that reads a file. Each file that is entered takes one of the fuel.
  unfoldable pub load_file : ℕ → FilePath → List String → String → Json → Outcome Json
  unfolding resolve_path read read_directive
  load_file zero base chain directive value = failed out_of_fuel
  load_file (suc fuel) base chain directive value = do
    path ← resolve_path value base
    text ← read files path
    read_directive loads (load_file fuel) (files.real_path path) path chain directive text

  unfoldable pub resolve_includes : ℕ → Json → FilePath → Outcome Json
  unfolding resolve load_file
  resolve_includes fuel v base = resolve (load_file fuel base []) v
