-- ===== src/Upgrade/Output.antt =====
-- dasik/lib/upgrade/runner.py: reading what a command printed.
use Prim.Native.Char.{Char, code}
use Prim.Native.String
use dasik.Base.{
  String, Bool, ◌&&◌, ◌||◌, Option, none, some, List, [], ◌∷◌, leb, nat_eq, if◌then◌else◌, any,
  ◌==◌,
}
use dasik.Commands.{is_in, CommandResult, strip, lines_of}

-- What the pattern of _ANSI has matched so far, and the next character: the text that is kept, and
-- what the pattern has matched after it. The pattern's parts share no character, so no other match
-- is to be tried.
unfoldable pub advance_plain : Char → String × String
advance_plain c = if nat_eq (code c) 27 then ("", String.◌∷◌ c "") else (String.◌∷◌ c "", "")

flush : String → Char → String × String
unfolding advance_plain
flush pending c = let (kept, next) = advance_plain c in (String.◌++◌ pending kept, next)

is_parameter : Char → Bool
is_parameter c = (leb b'0' (code c) && leb (code c) b'9') || nat_eq (code c) b';'

is_letter : Char → Bool
is_letter c = (leb b'A' (code c) && leb (code c) b'Z') || (leb b'a' (code c) && leb (code c) b'z')

unfoldable pub advance : String → Char → String × String
unfolding advance_plain flush is_parameter is_letter
advance String.[] c = advance_plain c
advance (String.◌∷◌ e String.[]) c =
    if nat_eq (code c) b'[' then ("", String.◌∷◌ e (String.◌∷◌ c "")) else flush (String.◌∷◌ e "") c
advance (String.◌∷◌ e (String.◌∷◌ b ps)) c =
    let pending = String.◌∷◌ e (String.◌∷◌ b ps) in
    if is_parameter c
    then ("", String.◌++◌ pending (String.◌∷◌ c ""))
    else if is_letter c
    then ("", "")
    else flush pending c

-- _ANSI.sub("", raw) behind a partial match
unfoldable pub sub_ansi : String → String → String
unfolding advance
sub_ansi pending String.[] = pending
sub_ansi pending (String.◌∷◌ c s) =
    let (kept, next) = advance pending c in String.◌++◌ kept (sub_ansi next s)

-- The first line that contains a needle, without the white space around it.
unfoldable pub first_match : List String → List String → Option String
unfolding any is_in strip
first_match needles [] = none
first_match needles (l ∷ ls) =
    let rest = first_match needles ls in
    if any (λ n. is_in n l) needles then some (strip l) else rest

-- _failure_line
unfoldable pub failure_line : CommandResult → List String → Option String
unfolding first_match lines_of sub_ansi
failure_line result needles = elim (first_match needles (lines_of (sub_ansi "" result.stdout))) [
  | some line ↦ some line
  | none ↦ first_match needles (lines_of (sub_ansi "" result.stderr))
]

-- _output_of
unfoldable pub output_of : CommandResult → String
unfolding strip
output_of result =
    let err = strip result.stderr in let out = strip result.stdout in if err == "" then out else err
