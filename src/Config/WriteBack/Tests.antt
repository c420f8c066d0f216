-- ===== src/Config/WriteBack/Tests.antt =====
-- A config whose list of packages is in a file of its own, written back.
use dasik.Base.{
  String, ◌≡◌, refl, Option, none, some, [], ◌∷◌, if◌then◌else◌, ◌==◌, Json, str, arr, obj, nil,
  cons, end, field, IsJson, has_field,
}
use dasik.Config.Files.{FilePath, Files, ReadResult, contents, missing, Outcome, done, read}
use dasik.Config.Includes.{resolve_includes}
use dasik.Config.WriteBack.Staging.{path_eq}
use dasik.Config.WriteBack.{write_back, plan_document, document, add_extra}
use dasik.Config.WriteBack.Converged.{NoEmptyConcat, write_back_converged}

abbrev text_at : String → ReadResult
text_at name =
    if name == "config.json"
    then contents "main"
    else if name == "games.json"
    then contents "games"
    else missing

abbrev read_at : FilePath → ReadResult
read_at (a ∷ b ∷ []) = if a == "etc" then text_at b else missing
read_at _ = missing

abbrev real_at : FilePath → String
real_at (a ∷ b ∷ []) = b
real_at _ = ""

abbrev files : Files
files = record { read_text = read_at; real_path = real_at }

abbrev main : Json
main = obj (field "packages" (obj (field "$include" (str "games.json") end)) end)

abbrev games : Json
games = arr (cons (str "steam") nil)

abbrev loads : String → Option Json
loads text = if text == "main" then some main else if text == "games" then some games else none

-- json.dumps, of the two documents and of one with another game
abbrev dumps : Json → String
dumps (obj fs) = "main"
dumps (arr (cons x nil)) = "games"
dumps v = "more games"

abbrev root : FilePath
root = "etc" ∷ "config.json" ∷ []

abbrev captured : Json → Json
captured packages = obj (field "packages" packages end)

abbrev resolve_all : Json → FilePath → Outcome Json
resolve_all = resolve_includes files loads 3

write_back_converged_example :
    write_back files loads dumps resolve_all 3 root (captured games) [] []
    ≡ done (if dumps main == "main" then [] else (root, dumps main) ∷ [], [])
unfolding read resolve_includes NoEmptyConcat IsJson has_field
write_back_converged_example =
    write_back_converged files loads dumps 3 2 root "main" main (captured games) [] refl refl
      ((λ e. λ q. cc, (λ e. λ q. cc, tt, tt), tt)) refl (refl, (tt, tt), tt)

-- A new game goes to the file that has the games.
new_game :
    write_back files loads dumps resolve_all 3 root
      (captured (arr (cons (str "steam") (cons (str "wine") nil))))
      []
      []
    ≡ done (("etc" ∷ "games.json" ∷ [], "more games") ∷ [], [])
unfolding write_back plan_document document add_extra resolve_includes path_eq
new_game = refl

-- An empty $concat does not stay: the list that it resolves to takes its place.
empty_concat :
    plan_document files loads dumps resolve_all 3
      ("etc" ∷ [])
      (obj (field "$concat" (arr nil) end))
      (arr nil)
      []
    ≡ done (arr nil, [])
unfolding plan_document
empty_concat = refl
