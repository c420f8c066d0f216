-- ===== src/Config/Files.antt =====
-- dasik/lib/json_parser/includes.py: the files that a config names, and how their paths are read.
use Prim.Native.Char.{code}
use dasik.Base.{
  String, not, ◌||◌, List, [], ◌∷◌, ◌++◌, nat_eq, if◌then◌else◌, select, mem, ◌==◌, Json, str,
}
use dasik.Commands.{starts_with, on_first_line}

-- The parts of a directory or a file, as pathlib has them.
abbrev pub FilePath : Type 0
FilePath = List String

-- Path.read_text, its text with the line ends that Python gives it
pub data ReadResult : Type 0 where
  contents : String → ReadResult
  missing unreadable : ReadResult

-- The file system while a config is read, which changes nothing: the text of each path, and the path
-- that Path.resolve gives, as a text.
pub record Files : Type 0 where
  pub read_text : FilePath → ReadResult
  pub real_path : FilePath → String

-- What can go wrong, without the words of the message; `out_of_fuel` is the model's own.
pub data IncludeError : Type 0 where
  bad_path absolute_path parent_path file_not_found cannot_read : IncludeError
  not_alone concat_of_no_list member_is_no_list empty_line include_cycle not_json : IncludeError
  not_iterable : IncludeError
  out_of_fuel : IncludeError

pub data Outcome {ℓ} (A : Type ℓ) : Type ℓ where
  done : A → Outcome A
  failed : IncludeError → Outcome A

infixl 5 ◌>>=◌
abbrev pub ◌>>=◌ {ℓ κ} : {A : Type ℓ} {B : Type κ} → Outcome A → (A → Outcome B) → Outcome B
done a >>= f = f a
failed e >>= f = failed e

-- raw.split("/")
unfoldable pub split_path : String → List String
unfolding on_first_line
split_path String.[] = "" ∷ []
split_path (String.◌∷◌ c s) =
    let rest = split_path s in if nat_eq (code c) b'/' then "" ∷ rest else on_first_line c rest

-- Path(raw).parts of a path that is not absolute
unfoldable pub parts : String → List String
unfolding split_path select
parts raw = select (λ p. not (p == "" || p == ".")) (split_path raw)

-- _resolve_path
unfoldable pub resolve_path : Json → FilePath → Outcome FilePath
unfolding parts starts_with mem
resolve_path (str raw) base =
    if raw == ""
    then failed bad_path
    else if starts_with "/" raw
    then failed absolute_path
    else if mem ".." (parts raw)
    then failed parent_path
    else done (base ++ parts raw)
resolve_path _ base = failed bad_path

-- path.parent
unfoldable pub parent : FilePath → FilePath
parent [] = []
parent (p ∷ []) = []
parent (p ∷ q ∷ ps) = p ∷ parent (q ∷ ps)

unfoldable pub text_of : ReadResult → Outcome String
text_of (contents text) = done text
text_of missing = failed file_not_found
text_of unreadable = failed cannot_read

-- _read
unfoldable pub read : Files → FilePath → Outcome String
unfolding text_of
read files path = text_of (files.read_text path)
