-- ===== src/Cmdline.antt =====
-- dasik/lib/actions/kernel_cmdline_action.py: the tokens of the kernel command line, with the options of
-- partition_utils.py that they are compared by. What the config derives, what it declares and the
-- command line that the boot loader has are parameters.
use Prim.Native.Char.{code}
use Prim.Native.String
use dasik.Base.{
  ℕ, String, Bool, true, false, not, ◌&&◌, ◌||◌, Option, none, some, List, [], ◌∷◌, ◌++◌, map,
  nat_eq, if◌then◌else◌, mem, any, all, select, length, Dict, get, put, ◌==◌, concat,
}
use dasik.Commands.{words, partition_colon, starts_with, is_in, on_first_line}
use dasik.Packages.Names.{from_keys}
use dasik.State.Change.{Op, install, remove, Change}
use dasik.State.SetMath.{minus, compute_changes}
pub mod Laws
mod Tests

unfoldable pub token_name : String → String
token_name String.[] = ""
token_name (String.◌∷◌ c s) =
    let rest = token_name s in if nat_eq (code c) b'=' then "" else String.◌∷◌ c rest

-- token.partition("=")[2]
unfoldable pub token_value : String → String
token_value String.[] = ""
token_value (String.◌∷◌ c s) = let rest = token_value s in if nat_eq (code c) b'=' then s else rest

-- _COMPRESS_LEVEL_CLAMPS.get
unfoldable pub clamped_level : String → String → Option String
clamped_level algo level =
    if algo == "zstd" && level == "0"
    then some "3"
    else if algo == "zstd" && level == "16"
    then some "15"
    else if algo == "zlib" && level == "0"
    then some "3"
    else if algo == "zlib" && level == "12"
    then some "9"
    else none

unfoldable pub normalize_compress_value : String → String
unfolding clamped_level partition_colon
normalize_compress_value value = elim (partition_colon value) [
  | some p ↦ elim (clamped_level p.0 p.1) [
    | some clamped ↦ concat (p.0 ∷ ":" ∷ clamped ∷ [])
    | none ↦ value
  ]
  | none ↦ if value == "zstd" || value == "zlib" then concat (value ∷ ":3" ∷ []) else value
]

unfoldable pub is_compress : String → Bool
unfolding mem
is_compress name = mem name ("compress" ∷ "compress-force" ∷ [])

unfoldable pub normalize_compress_option : String → String
unfolding token_name token_value normalize_compress_value is_compress is_in concat
normalize_compress_option opt =
    if not (is_compress (token_name opt))
    then opt
    else if is_in "=" opt
    then concat (token_name opt ∷ "=" ∷ normalize_compress_value (token_value opt) ∷ [])
    else concat (token_name opt ∷ "=zlib:3" ∷ [])

-- The value without its leading slash, where something follows it
unfoldable pub without_slash : String → String
without_slash String.[] = ""
without_slash (String.◌∷◌ c String.[]) = String.◌∷◌ c ""
without_slash (String.◌∷◌ c (String.◌∷◌ d s)) =
    if nat_eq (code c) b'/' then String.◌∷◌ d s else String.◌∷◌ c (String.◌∷◌ d s)

unfoldable pub canonical_option : String → String
unfolding token_name token_value normalize_compress_option is_compress is_in without_slash concat
canonical_option opt =
    if is_compress (token_name opt)
    then normalize_compress_option opt
    else if token_name opt == "subvol" && is_in "=" opt
    then concat ("subvol=" ∷ without_slash (token_value opt) ∷ [])
    else opt

-- value.split(",")
unfoldable pub split_commas : String → List String
unfolding on_first_line
split_commas String.[] = "" ∷ []
split_commas (String.◌∷◌ c s) =
    let rest = split_commas s in if nat_eq (code c) b',' then "" ∷ rest else on_first_line c rest

unfoldable pub options_by_name : Dict String → List String → Dict String
unfolding put token_name canonical_option
options_by_name by_name [] = by_name
options_by_name by_name (opt ∷ opts) =
    options_by_name (put by_name (token_name opt) (canonical_option opt)) opts

unfoldable pub rootflags_option_set : String → List String
unfolding options_by_name split_commas
rootflags_option_set value = map (λ p. p.1) (options_by_name [] (split_commas value))

unfoldable pub rootflags_equivalent : String → String → Bool
unfolding rootflags_option_set all mem
rootflags_equivalent a b =
    all (λ o. mem o (rootflags_option_set b)) (rootflags_option_set a)
    && all (λ o. mem o (rootflags_option_set a)) (rootflags_option_set b)

abbrev pub rw_ro : List String
rw_ro = "rw" ∷ "ro" ∷ []

abbrev pub root_keyed : List String
root_keyed = "root" ∷ "rootflags" ∷ "rootfstype" ∷ []

abbrev pub repeatable : List String
repeatable = "rd.luks.name" ∷ "rd.luks.key" ∷ "rd.luks.options" ∷ []

-- The key by which an explicit parameter takes the place of a derived one
unfoldable pub key_of : String → String
unfolding token_name mem
key_of param =
    let name = if mem (token_name param) rw_ro then "rw" else token_name param in
    if mem name repeatable then param else name

-- _merge
unfoldable pub merge_params : List String → List String → List String
unfolding key_of select mem
merge_params auto explicit =
    explicit ++ select (λ p. not (mem (key_of p) (map key_of explicit))) auto

-- _tokens
unfoldable pub tokens_of : List String → List String
unfolding words
tokens_of [] = []
tokens_of (entry ∷ entries) = words entry ++ tokens_of entries

-- _desired_tokens
unfoldable pub desired_tokens : List String → List String → List String
unfolding merge_params tokens_of from_keys
desired_tokens derived explicit = from_keys (tokens_of (merge_params derived explicit))

unfoldable pub rootflags_in : List String → List String
unfolding select starts_with
rootflags_in tokens = select (λ t. starts_with "rootflags=" t) tokens

-- The live token in place of the desired one, where both describe the same mount
unfoldable pub settle_rootflags : List String → String → String → List String
unfolding rootflags_equivalent token_value
settle_rootflags desired d_tok a_tok =
    if not (d_tok == a_tok) && rootflags_equivalent (token_value d_tok) (token_value a_tok)
    then map (λ t. if t == d_tok then a_tok else t) desired
    else desired

-- The first `rootflags=` of the desired tokens, and the only one of the live tokens
unfoldable pub pair_rootflags : List String → List String → List String → List String
unfolding settle_rootflags
pair_rootflags desired (d_tok ∷ ds) (a_tok ∷ []) = settle_rootflags desired d_tok a_tok
pair_rootflags desired ds live = desired

-- _desired_tokens_for_diff
unfoldable pub desired_tokens_for_diff : List String → List String → List String
unfolding pair_rootflags rootflags_in
desired_tokens_for_diff desired actual =
    pair_rootflags desired (rootflags_in desired) (rootflags_in actual)

unfoldable pub drop_repeated : List String → List String → List String
unfolding minus
drop_repeated actual (a ∷ b ∷ live) = minus actual (a ∷ b ∷ live)
drop_repeated actual live = actual

-- _actual_for_diff
unfoldable pub actual_for_diff : List String → List String
unfolding drop_repeated rootflags_in
actual_for_diff actual = drop_repeated actual (rootflags_in actual)

unfoldable pub defines_root : String → Bool
unfolding token_name mem
defines_root token = mem (token_name token) (root_keyed ++ rw_ro)

unfoldable pub is_removal : Change → Bool
is_removal c = elim c.op [ remove ↦ true | _ ↦ false ]

unfoldable pub is_install : Change → Bool
is_install c = elim c.op [ install ↦ true | _ ↦ false ]

-- actual
unfoldable pub actual_tokens : String → List String
unfolding words from_keys
actual_tokens cmdline = from_keys (words cmdline)

unfoldable pub keeps_root : Change → Bool
unfolding is_removal defines_root
keeps_root c = not (is_removal c && defines_root c.item)

-- plan, with the desired tokens and the command line of the boot entry
unfoldable pub plan_tokens : List String → List String → String → List Change
unfolding desired_tokens_for_diff actual_for_diff actual_tokens keeps_root compute_changes select
plan_tokens desired managed cmdline =
    let actual = actual_tokens cmdline in
    select keeps_root
      (compute_changes "kernel_cmdline" (desired_tokens_for_diff desired actual) managed
        (actual_for_diff actual) install remove []).0

unfoldable pub installs_of : List Change → List String
unfolding select is_install
installs_of changes = map (λ (c : Change). c.item) (select is_install changes)

unfoldable pub removes_of : List Change → List String
unfolding select is_removal
removes_of changes = map (λ (c : Change). c.item) (select is_removal changes)

-- The token makes way for one that is installed.
unfoldable pub superseded : List String → String → Bool
unfolding token_name select mem any
superseded installs tok =
    mem (token_name tok) (select (λ k. mem k root_keyed) (map token_name installs))
    || (any (λ t. mem t rw_ro) installs && mem tok rw_ro)

unfoldable pub append_missing : List String → List String → List String
unfolding mem
append_missing current [] = current
append_missing current (tok ∷ installs) =
    append_missing (if mem tok current then current else current ++ tok ∷ []) installs

-- _new_tokens
unfoldable pub new_tokens : List Change → String → List String
unfolding installs_of removes_of superseded append_missing words select mem
new_tokens changes cmdline =
    append_missing
      (select (λ t. not (superseded (installs_of changes) t))
        (select (λ t. not (mem t (removes_of changes))) (words cmdline)))
      (installs_of changes)

-- _write_sdboot: the lines of an entry, each with its line end
unfoldable pub write_sdboot : String → List String → List String
unfolding starts_with concat
write_sdboot line [] = []
write_sdboot line (l ∷ lines) =
    (if starts_with "options " l then concat ("options " ∷ line ∷ "\n" ∷ []) else l)
    ∷ write_sdboot line lines
