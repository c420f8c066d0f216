-- ===== src/Config/WriteBack.antt =====
-- dasik/lib/json_parser/writeback.py: a captured config put back into the files it was assembled from.
-- `dumps` is _dumps, and `resolve_all` is resolve_includes.
use Prim.Native.Char.{code}
use Prim.Native.String
use dasik.Base.{
  ℕ, zero, suc, String, Bool, true, false, not, ◌||◌, ◌&&◌, Option, none, some, List, [], ◌∷◌, ◌++◌,
  if◌then◌else◌, map, nat_eq, leb, length, is_empty, mem, select, ◌==◌, concat, Json, null, bool,
  num, str, arr, obj, Items, nil, cons, Fields, end, field, items_of, list_of, field_get, json_eq,
}
use dasik.Commands.{strip, lines_of}
use dasik.Config.Files
use dasik.Config.Files.{
  FilePath, Files, Outcome, done, failed, resolve_path, parent, read, not_json, out_of_fuel,
}
use dasik.Config.Includes.{is_directive, head_line}
use dasik.Config.WriteBack.Staging.{
  Writes, Planner, pure, lift, continue, ◌>>=◌, ◌>>◌, stage, put_write, path_eq,
}
use dasik.Config.WriteBack.Matching.{Part, plan_items, zip_parts}
use dasik.Config.WriteBack.Texts.{plan_text, plan_line}
use dasik.Config.WriteBack.Shares.{flatten, shares_of, available_in}
pub mod Staging
pub mod Matching
pub mod Shares
pub mod Texts
pub mod Directives
pub mod Keys
pub mod Parts
pub mod Converged
mod Tests

-- The new keys that no file declared, behind the old ones
unfoldable pub added_fields : Fields → Fields → Fields
unfolding field_get
added_fields raw end = end
added_fields raw (field k v new) =
    let rest = added_fields raw new in
    elim (field_get raw k) [ some w ↦ rest | none ↦ field k v rest ]

unfoldable pub append_fields : Fields → Fields → Fields
append_fields end gs = gs
append_fields (field k v fs) gs = field k v (append_fields fs gs)

-- [self.plan(m, share, base_dir) for m, share in zip(members, shares)]
unfoldable pub plan_shares : List (Json → Planner Json) → List (List Json) → Planner Items
unfolding items_of
plan_shares (put ∷ puts) (share ∷ shares) = do
  planned ← put (arr (items_of share))
  rest ← plan_shares puts shares
  pure (cons planned rest)
plan_shares _ _ = pure nil

-- _plan_dict, where the raw value is one: `kept` plans its keys that are in the captured dict.
unfoldable pub plan_dict : Fields → (Fields → Planner Fields) → Json → Planner Json
plan_dict raw kept (obj new) = do
  planned ← kept new
  pure (obj (append_fields planned (added_fields raw new)))
plan_dict raw kept new = pure new

module _ (files : Files) (loads : String → Option Json) (dumps : Json → String)
    (resolve_all : Json → FilePath → Outcome Json) where
  -- json.loads of an included file
  unfoldable pub document : String → Outcome Json
  document text = elim (loads text) [ none ↦ failed not_json | some v ↦ done v ]

  -- `plan_document` is `plan` on the included document.
  unfoldable pub plan_include :
      (FilePath → Json → Json → Planner Json) → Json → Json → FilePath → String → Planner Json
  unfolding stage document json_eq
  plan_include plan_document raw new path text = do
    inner ← lift (document text)
    resolved ← lift (resolve_all inner (parent path))
    if json_eq resolved new then pure raw else (do
      planned ← plan_document (parent path) inner new
      stage path (dumps planned) text
      pure raw)

  unfoldable pub plan_file :
      (FilePath → Json → Json → Planner Json) → FilePath → String → Json → Json → Planner Json
  plan_file plan_document base directive value new = do
    path ← lift (resolve_path value base)
    text ← lift (read files path)
    elim (directive == "$include_text") [
      | true ↦ plan_text (obj (field directive value end)) new path text
      | false ↦ elim (directive == "$include_line") [
        | true ↦ plan_line (obj (field directive value end)) new path text
        | false ↦ plan_include plan_document (obj (field directive value end)) new path text
      ]
    ]

  unfoldable pub resolve_each : FilePath → List Json → Outcome (List Json)
  resolve_each base [] = done []
  resolve_each base (v ∷ vs) =
      Files.◌>>=◌ (resolve_all v base) λ w. Files.◌>>=◌ (resolve_each base vs) λ ws. done (w ∷ ws)

  -- _plan_concat, where the captured value is a list
  unfoldable pub plan_members : FilePath → Items → List (Json → Planner Json) → Items → Planner Json
  plan_members base members puts new = do
    resolved ← lift (resolve_each base (list_of members))
    flat ← lift (flatten resolved)
    if json_eq (arr (items_of flat)) (arr new)
        then pure (obj (field "$concat" (arr members) end))
        else (do
          planned ← plan_shares puts (shares_of new [] (map available_in resolved))
          pure (obj (field "$concat" (arr planned) end)))

  -- _plan_list, where the raw value is one: `puts` plans its entries.
  unfoldable pub plan_list : FilePath → Items → List (Json → Planner Json) → Json → Planner Json
  plan_list base raw puts (arr new) = do
    resolved ← lift (resolve_each base (list_of raw))
    items ← plan_items (zip_parts resolved puts) new
    pure (arr items)
  plan_list base raw puts new = pure new

  -- The walk; `plan_document` is the walk of an included document.
  unfoldable mutual
    pub plan : (FilePath → Json → Json → Planner Json) → FilePath → Json → Json → Planner Json
    plan plan_document base (obj (field k v end)) new = elim (is_directive k) [
      | true ↦ elim (k == "$concat") [
        | true ↦ plan_concat plan_document base v new
        | false ↦ plan_file plan_document base k v new
      ]
      | false ↦ plan_dict (field k v end) (plan_fields plan_document base (field k v end)) new
    ]
    plan plan_document base (obj fs) new = plan_dict fs (plan_fields plan_document base fs) new
    plan plan_document base (arr xs) new = plan_list base xs (planners plan_document base xs) new
    plan plan_document base v new = pure new

    pub plan_fields :
        (FilePath → Json → Json → Planner Json) → FilePath → Fields → Fields → Planner Fields
    plan_fields plan_document base end new = pure end
    plan_fields plan_document base (field k v fs) new = elim (field_get new k) [
      | none ↦ plan_fields plan_document base fs new
      | some w ↦ do
        planned ← plan plan_document base v w
        rest ← plan_fields plan_document base fs new
        pure (field k planned rest)
    ]

    pub planners :
        (FilePath → Json → Json → Planner Json) → FilePath → Items → List (Json → Planner Json)
    planners plan_document base nil = []
    planners plan_document base (cons x xs) =
        plan plan_document base x ∷ planners plan_document base xs

    pub plan_concat :
        (FilePath → Json → Json → Planner Json) → FilePath → Json → Json → Planner Json
    plan_concat plan_document base (arr (cons x xs)) (arr new) =
        plan_members base (cons x xs) (planners plan_document base (cons x xs)) new
    plan_concat plan_document base members new = pure new

  -- _Planner.plan on a document. Each included document takes one of the fuel.
  unfoldable pub plan_document : ℕ → FilePath → Json → Json → Planner Json
  unfolding plan plan_file plan_members plan_dict plan_list plan_text plan_line plan_include
      resolve_path read flatten shares_of plan_shares resolve_each available_in zip_parts plan_items
      list_of added_fields append_fields field_get is_directive
  plan_document zero base raw new ws = failed out_of_fuel
  plan_document (suc fuel) base raw new ws = plan (plan_document fuel) base raw new ws

  -- A file that has the text already is left alone; one that cannot be read is written.
  unfoldable pub add_extra : List (FilePath × String) → Writes → Writes
  unfolding read put_write
  add_extra [] ws = ws
  add_extra ((path, text) ∷ extra) ws = add_extra extra (elim (read files path) [
    | failed e ↦ put_write ws path text
    | done now ↦ if now == text then ws else put_write ws path text
  ])

  -- write_back, from the reading of the root: the files that are written, the root first, and those
  -- that are deleted behind them.
  unfoldable pub write_back :
      ℕ
      → FilePath
      → Json
      → List (FilePath × String)
      → List FilePath
      → Outcome (Writes × List FilePath)
  write_back fuel root new extra deletions = Files.◌>>=◌ (read files root) λ current.
      Files.◌>>=◌ (document current) λ raw.
        Files.◌>>=◌ (plan_document fuel (parent root) raw new []) λ planned.
          let others =
            select (λ (w : FilePath × String). not (path_eq w.0 root))
              (add_extra extra planned.1) in
          let root_text = dumps planned.0 in
          done (if root_text == current then others else (root, root_text) ∷ others, deletions)
