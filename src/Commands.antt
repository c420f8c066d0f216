-- ===== src/Commands.antt =====
-- dasik/lib/command_worker: what the run of a process reports, and how its output is read as lines.
use Prim.Native.Char.{Char, code}
use dasik.Base.{
  ℕ, String, Bool, true, false, ◌||◌, ◌&&◌, List, [], ◌∷◌, if◌then◌else◌, mem_number, ◌==◌,
  is_space, not, select, map, nat_eq, Option, none, some,
}

-- What the command worker reports of a process, the streams decoded. The code is only compared with
-- 0: the negative code of a process that a signal ended is some other number here.
pub record CommandResult : Type 0 where
  pub returncode : ℕ
  pub stdout : String
  pub stderr : String

unfoldable pub strip_left : String → String
unfolding is_space
strip_left String.[] = ""
strip_left (String.◌∷◌ c s) =
    let rest = strip_left s in if is_space (code c) then rest else String.◌∷◌ c s

unfoldable pub strip_right : String → String
unfolding is_space
strip_right String.[] = ""
strip_right (String.◌∷◌ c s) =
    let rest = strip_right s in if rest == "" && is_space (code c) then "" else String.◌∷◌ c rest

-- str.strip
unfoldable pub strip : String → String
unfolding strip_left strip_right
strip s = strip_right (strip_left s)

-- The characters at which str.splitlines ends a line.
unfoldable pub ends_line : Char → Bool
ends_line c = mem_number (code c) (10 ∷ 11 ∷ 12 ∷ 13 ∷ 28 ∷ 29 ∷ 30 ∷ 0x85 ∷ 0x2028 ∷ 0x2029 ∷ [])

-- text.splitlines()[0] of a text that begins within a line
unfoldable pub first_line : String → String
unfolding ends_line
first_line String.[] = ""
first_line (String.◌∷◌ c s) =
    let rest = first_line s in if ends_line c then "" else String.◌∷◌ c rest

unfoldable pub on_first_line : Char → List String → List String
on_first_line c [] = String.◌∷◌ c "" ∷ []
on_first_line c (l ∷ ls) = String.◌∷◌ c l ∷ ls

-- text.replace("\r", "\n").splitlines()
unfoldable pub lines_of : String → List String
unfolding ends_line on_first_line
lines_of String.[] = []
lines_of (String.◌∷◌ c s) =
    let rest = lines_of s in if ends_line c then "" ∷ rest else on_first_line c rest

-- {line.strip() for line in text.splitlines() if line.strip()}
unfoldable pub lines_set : String → List String
unfolding lines_of strip
lines_set text = select (λ l. not (l == "")) (map strip (lines_of text))

-- The pieces between white space, empty ones included
unfoldable pub pieces : String → List String
unfolding is_space on_first_line
pieces String.[] = []
pieces (String.◌∷◌ c s) =
    let rest = pieces s in if is_space (code c) then "" ∷ rest else on_first_line c rest

-- text.split()
unfoldable pub words : String → List String
unfolding pieces select
words text = select (λ w. not (w == "")) (pieces text)

after_colon : Char → Option (String × String) → Option (String × String)
after_colon c none = none
after_colon c (some (key, value)) = some (String.◌∷◌ c key, value)

-- text.partition(":"), `none` where there is no colon
unfoldable pub partition_colon : String → Option (String × String)
unfolding after_colon
partition_colon String.[] = none
partition_colon (String.◌∷◌ c s) =
    let rest = partition_colon s in
    if nat_eq (code c) b':' then some ("", s) else after_colon c rest

unfoldable pub starts_with : String → String → Bool
starts_with String.[] s = true
starts_with (String.◌∷◌ c p) String.[] = false
starts_with (String.◌∷◌ c p) (String.◌∷◌ d s) = nat_eq (code c) (code d) && starts_with p s

-- needle in line
unfoldable pub is_in : String → String → Bool
unfolding starts_with
is_in needle String.[] = needle == ""
is_in needle (String.◌∷◌ c s) = starts_with needle (String.◌∷◌ c s) || is_in needle s
