-- ===== src/Packages/Conflicts.antt =====
-- dasik/lib/actions/pacman_conflicts.py: the conflicts that the metadata of two packages declares.
use Prim.Native.Char.{code}
use Prim.Native.String
use dasik.Base.{
  String, Bool, true, false, not, ◌&&◌, ◌||◌, Option, none, some, List, [], ◌∷◌, ◌++◌, map,
  if◌then◌else◌, mem, any, mem_number, ◌==◌,
}
use dasik.Commands.{strip, lines_of, words, partition_colon}
pub mod Laws

pub record PacmanConflict : Type 0 where
  pub left : String
  pub right : String
  pub removable : Option String

pub record PkgInfo : Type 0 where
  pub name : String
  pub provides : List String
  pub conflicts : List String

-- _CONSTRAINT.sub("", token): the text before the first comparison operator.
unfoldable pub bare_name : String → String
bare_name String.[] = ""
bare_name (String.◌∷◌ c s) =
    let rest = bare_name s in
    if mem_number (code c) (b'<' ∷ b'>' ∷ b'=' ∷ []) then "" else String.◌∷◌ c rest

-- _tokens
unfoldable pub tokens : String → List String
unfolding words bare_name
tokens value = if value == "" || value == "None" then [] else map bare_name (words value)

-- The locals of parse_pkg_fields.
pub record Block : Type 0 where
  pub packages : List PkgInfo
  pub name : Option String
  pub provides : List String
  pub conflicts : List String

-- flush
unfoldable pub flush : Block → List PkgInfo
flush b = elim b.name [
  | none ↦ b.packages
  | some name ↦
      if name == ""
      then b.packages
      else b.packages ++ record { name = name; provides = b.provides; conflicts = b.conflicts } ∷ []
]

unfoldable pub read_field : Block → String → String → Block
unfolding flush tokens
read_field b key value =
    if key == "Name"
    then record { packages = flush b; name = some value; provides = []; conflicts = [] }
    else if key == "Provides"
    then record {
      packages = b.packages;
      name = b.name;
      provides = tokens value;
      conflicts = b.conflicts;
    }
    else if key == "Conflicts With"
    then record {
      packages = b.packages;
      name = b.name;
      provides = b.provides;
      conflicts = tokens value;
    }
    else b

unfoldable pub read_line : Block → Option (String × String) → Block
unfolding read_field strip
read_line b none = b
read_line b (some (key, value)) = read_field b (strip key) (strip value)

unfoldable pub read_lines : Block → List String → List PkgInfo
unfolding read_line flush partition_colon
read_lines b [] = flush b
read_lines b (line ∷ lines) = read_lines (read_line b (partition_colon line)) lines

-- parse_pkg_fields, for output that is a text
unfoldable pub parse_pkg_fields : String → List PkgInfo
unfolding read_lines lines_of
parse_pkg_fields output =
    read_lines (record { packages = []; name = none; provides = []; conflicts = [] })
      (lines_of output)

-- bool(xs & ys) of two sets
unfoldable pub meets : List String → List String → Bool
meets xs ys = any (λ x. mem x ys) xs

-- One side declares a conflict that the other satisfies.
unfoldable pub declares : PkgInfo → PkgInfo → Bool
unfolding meets
declares candidate other =
    meets other.conflicts (candidate.name ∷ candidate.provides)
    || meets candidate.conflicts (other.name ∷ other.provides)

unfoldable pub same_removable : Option String → Option String → Bool
same_removable none none = true
same_removable (some a) (some b) = a == b
same_removable _ _ = false

-- conflict in found
unfoldable pub is_found : PacmanConflict → List PacmanConflict → Bool
is_found k [] = false
is_found k (f ∷ found) =
    (f.left == k.left && (f.right == k.right && same_removable f.removable k.removable))
    || is_found k found

unfoldable pub conflict : PkgInfo → PkgInfo → PacmanConflict
conflict candidate other = record {
  left = candidate.name;
  right = other.name;
  removable = some other.name;
}

-- The body of the inner loop.
unfoldable pub check : PkgInfo → List PacmanConflict → PkgInfo → List PacmanConflict
check candidate found other =
    if other.name == candidate.name
    then found
    else if not (declares candidate other)
    then found
    else if is_found (conflict candidate other) found
    then found
    else found ++ conflict candidate other ∷ []

unfoldable pub check_installed : PkgInfo → List PacmanConflict → List PkgInfo → List PacmanConflict
check_installed candidate found [] = found
check_installed candidate found (other ∷ installed) =
    check_installed candidate (check candidate found other) installed

unfoldable pub check_candidates :
    List PacmanConflict → List PkgInfo → List PkgInfo → List PacmanConflict
check_candidates found [] installed = found
check_candidates found (candidate ∷ candidates) installed =
    check_candidates (check_installed candidate found installed) candidates installed

unfoldable pub conflicts_from_metadata : List PkgInfo → List PkgInfo → List PacmanConflict
unfolding check_candidates
conflicts_from_metadata candidates installed = check_candidates [] candidates installed
