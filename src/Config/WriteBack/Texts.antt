-- ===== src/Config/WriteBack/Texts.antt =====
-- dasik/lib/json_parser/writeback.py: a captured value put into the text of an $include_text or
-- $include_line file.
use Prim.Native.Char.{code}
use Prim.Native.String
use dasik.Base.{
  ℕ, zero, suc, String, Bool, true, false, not, ◌||◌, ◌&&◌, Option, none, some, List, [], ◌∷◌, ◌++◌,
  if◌then◌else◌, map, nat_eq, leb, length, is_empty, mem, select, ◌==◌, concat, Json, null, bool,
  num, str, arr, obj, Items, nil, cons, Fields, end, field, items_of, list_of, field_get, json_eq,
}
use dasik.Commands.{strip, lines_of}
use dasik.Config.Files.{FilePath}
use dasik.Config.Includes.{head_line}
use dasik.Config.WriteBack.Staging.{Planner, pure, ◌>>=◌, ◌>>◌, stage}
pub mod Laws

-- Whether no line end is `\r`
unfoldable pub survives_as_text : String → Bool
survives_as_text String.[] = true
survives_as_text (String.◌∷◌ c s) = not (nat_eq (code c) 13) && survives_as_text s

unfoldable pub survives_as_line : String → Bool
unfolding strip lines_of
survives_as_line value =
    not (value == "") && (strip value == value && nat_eq (length (lines_of value)) 1)

unfoldable pub plan_text : Json → Json → FilePath → String → Planner Json
unfolding stage survives_as_text json_eq
plan_text raw (str new) path text =
    if text == new
    then pure raw
    else if not (survives_as_text new)
    then pure (str new)
    else (do stage path new text; pure raw)
plan_text raw new path text = pure new

-- The first line becomes the value, and those below it stay.
unfoldable pub line_text : String → List String → String
unfolding concat
line_text new [] = concat (new ∷ "\n" ∷ [])
line_text new (l ∷ ls) =
    concat (new ∷ concat (map (λ line. concat ("\n" ∷ line ∷ [])) ls) ∷ "\n" ∷ [])

unfoldable pub plan_line : Json → Json → FilePath → String → Planner Json
unfolding stage survives_as_line line_text head_line
plan_line raw (str new) path text =
    if not (survives_as_line new)
    then pure (str new)
    else if not (is_empty (lines_of text)) && strip (head_line (lines_of text)) == new
    then pure raw
    else (do stage path (line_text new (lines_of text)) text; pure raw)
plan_line raw new path text = pure new
