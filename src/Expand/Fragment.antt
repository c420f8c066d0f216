-- ===== src/Expand/Fragment.antt =====
-- dasik/lib/expand: what one toggle contributes, and how the toggles read the config. The config's
-- model only lets through sections of the right shape: one that is no dict reads as empty here, and a
-- value that is no list as the empty list.
use Prim.Native.Nat.{ℕ, zero, suc, ◌/◌, ◌%◌}
use Prim.Native.String
use dasik.Base.{
  String, Bool, true, false, List, [], ◌∷◌, ◌++◌, map, ltb, nat_eq, if◌then◌else◌, Dict, get,
  get_or, Json, null, bool, num, str, arr, obj, list_of, dict_of, fields_of, truthy, json_eq,
}

-- The dict that a toggle returns; a key that it does not return is empty.
pub record Fragment : Type 0 where
  pub packages : List Json
  pub units : List Json
  pub sockets : List Json
  pub modprobe_conf : List Json
  pub files : List Json
  pub home_files : List Json
  pub user_groups : List Json
  pub package_sources : Dict Json

-- {}
abbrev pub nothing : Fragment
nothing = record {
  packages = [];
  units = [];
  sockets = [];
  modprobe_conf = [];
  files = [];
  home_files = [];
  user_groups = [];
  package_sources = [];
}

abbrev pub texts : List String → List Json
texts = map str

unfoldable pub as_dict : Json → Dict Json
unfolding dict_of
as_dict (obj fs) = dict_of fs
as_dict _ = []

unfoldable pub as_list : Json → List Json
unfolding list_of
as_list (arr xs) = list_of xs
as_list _ = []

-- config.get(key) or {}
unfoldable pub section : Dict Json → String → Dict Json
unfolding get as_dict
section config key = as_dict (get_or config key null)

-- config.get(key) or []
unfoldable pub items_at : Dict Json → String → List Json
unfolding get as_list
items_at config key = as_list (get_or config key null)

-- bool(cfg.get(key))
unfoldable pub is_on : Dict Json → String → Bool
unfolding get truthy
is_on cfg key = truthy (get_or cfg key null)

-- bool(cfg.get(key, True))
unfoldable pub is_on_by_default : Dict Json → String → Bool
unfolding get truthy
is_on_by_default cfg key = truthy (get_or cfg key (bool true))

-- cfg.get(key, default) == text
unfoldable pub says : Dict Json → String → Json → String → Bool
unfolding get json_eq
says cfg key default text = json_eq (get_or cfg key default) (str text)

-- item in items
unfoldable pub json_in : Json → List Json → Bool
unfolding json_eq
json_in x [] = false
json_in x (y ∷ ys) = let rest = json_in x ys in if json_eq y x then true else rest

-- The loop `if item not in out: out.append(item)`
unfoldable pub merge_list : List Json → List Json → List Json
unfolding json_in
merge_list base [] = base
merge_list base (x ∷ extra) = merge_list (if json_in x base then base else base ++ x ∷ []) extra

digit : ℕ → String
digit d =
    if nat_eq d 0
    then "0"
    else if nat_eq d 1
    then "1"
    else if nat_eq d 2
    then "2"
    else if nat_eq d 3
    then "3"
    else if nat_eq d 4
    then "4"
    else if nat_eq d 5
    then "5"
    else if nat_eq d 6
    then "6"
    else if nat_eq d 7
    then "7"
    else if nat_eq d 8
    then "8"
    else "9"

-- The decimal digits of a number, by fuel that is more than their number.
unfoldable pub digits : ℕ → ℕ → String
unfolding digit
digits zero n = ""
digits (suc fuel) n =
    let rest = digits fuel (n / 10) in
    if ltb n 10 then digit n else String.◌++◌ rest (digit (n % 10))

-- f"{v}"; `repr` is that of a list or of a dict.
unfoldable pub format : (Json → String) → Json → String
unfolding digits
format repr null = "None"
format repr (bool true) = "True"
format repr (bool false) = "False"
format repr (num n) = digits (suc n) n
format repr (str s) = s
format repr v = repr v

-- {"path": path, "content": content}
unfoldable pub file_of : String → String → Json
unfolding fields_of
file_of path content = obj (fields_of (("path", str path) ∷ ("content", str content) ∷ []))
