-- ===== src/Config/Tests.antt =====
-- A config in `etc` that includes a list of packages, and one that includes itself.
use dasik.Base.{
  String, true, false, ◌&&◌, ◌≡◌, refl, arith, Option, none, some, List, [], ◌∷◌, if◌then◌else◌,
  ◌==◌, mem, Json, str, arr, obj, items_of, fields_of, eq_iff,
}
use dasik.Config.Files.{
  FilePath, Files, ReadResult, contents, missing, done, failed, include_cycle, parent_path,
}
use dasik.Config.Includes.{resolve_includes, uses_includes}
use dasik.Config.Includes.Resolved.{Ensures}
use dasik.Config.Includes.Ending.{AreListed}
use dasik.Config.Includes.Unchanged.{StaysAsItIs, resolve_includes_ends}

-- The two documents, and json.loads of their texts.
abbrev loads : String → Option Json
loads text =
    if text == "games"
    then some (arr (items_of (str "steam" ∷ [])))
    else if text == "loop"
    then some (obj (fields_of (("$include", str "loop.json") ∷ [])))
    else none

abbrev text_at : String → String → ReadResult
text_at directory name =
    if directory == "etc" && name == "games.json"
    then contents "games"
    else if directory == "etc" && name == "loop.json"
    then contents "loop"
    else missing

abbrev read_at : FilePath → ReadResult
read_at (a ∷ b ∷ []) = text_at a b
read_at _ = missing

abbrev real_at : FilePath → String
real_at (a ∷ b ∷ []) = b
real_at _ = ""

abbrev files : Files
files = record { read_text = read_at; real_path = real_at }

abbrev all_files : List String
all_files = "games.json" ∷ "loop.json" ∷ []

abbrev config : Json
config = obj (
    fields_of (
      (
        "packages",
        obj (
            fields_of (
              (
                "$concat",
                arr (
                    items_of (
                      arr (items_of (str "vim" ∷ []))
                      ∷ obj (fields_of (("$include", str "games.json") ∷ []))
                      ∷ [])),
              )
              ∷ [])),
      )
      ∷ []))

resolved_config :
    resolve_includes files loads 3 config ("etc" ∷ [])
    ≡ done (obj (fields_of (("packages", arr (items_of (str "vim" ∷ str "steam" ∷ []))) ∷ [])))
unfolding resolve_includes items_of fields_of
resolved_config = refl

cycle_is_reported :
    resolve_includes files loads 3
      (obj (fields_of (("$include", str "loop.json") ∷ [])))
      ("etc" ∷ [])
    ≡ failed include_cycle
unfolding resolve_includes items_of fields_of
cycle_is_reported = refl

no_parent_directory :
    resolve_includes files loads 3 (obj (fields_of (("$include", str "a/../b") ∷ []))) ("etc" ∷ [])
    ≡ failed parent_path
unfolding resolve_includes items_of fields_of
no_parent_directory = refl

text_at-listed : (a b text : String) → text_at a b ≡ contents text → mem b all_files ≡ true
unfolding mem
text_at-listed a b text h = ground (
  arith,
  eq_iff b "games.json",
  eq_iff b "loop.json",
  eq_iff "games.json" b,
  eq_iff "loop.json" b,
)

files-AreListed : AreListed files all_files
files-AreListed (a ∷ b ∷ []) text h = text_at-listed a b text h
files-AreListed [] text h = cc
files-AreListed (a ∷ []) text h = cc
files-AreListed (a ∷ b ∷ c ∷ d) text h = cc

resolve_includes_ends_example :
    Ensures
      (λ w. (uses_includes w ≡ false) × StaysAsItIs w)
      (resolve_includes files loads 3 config ("etc" ∷ []))
resolve_includes_ends_example =
    resolve_includes_ends files loads all_files 3 files-AreListed (omega arith) config ("etc" ∷ [])

-- Other files, outside `etc`.
abbrev read_elsewhere : FilePath → ReadResult
read_elsewhere (a ∷ b ∷ []) = if a == "home" then contents "secret" else text_at a b
read_elsewhere _ = missing

abbrev other_files : Files
other_files = record { read_text = read_elsewhere; real_path = real_at }
