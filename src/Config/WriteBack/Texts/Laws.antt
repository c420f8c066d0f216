-- ===== src/Config/WriteBack/Texts/Laws.antt =====
-- dasik/lib/json_parser/writeback.py: the line that $include_line gives can be stored as a line.
use Prim.Native.Char.{Char, code}
use dasik.Base.{
  String, ◌≡◌, refl, arith, inl, inr, true, false, ◌&&◌, List, [], ◌∷◌, length, ◌==◌, eq_refl,
  is_space, Bool-cases,
}
use dasik.Commands.{strip, strip_left, strip_right, lines_of, ends_line, on_first_line}
use dasik.Config.Includes.{head_line}
use dasik.Config.WriteBack.Texts.{survives_as_line}

-- No character of the text ends a line.
abbrev IsOneLine : String → Type 0
IsOneLine String.[] = Unit
IsOneLine (String.◌∷◌ c s) = (ends_line c ≡ false) × IsOneLine s

strip_left-IsOneLine : (s : String) → IsOneLine s → IsOneLine (strip_left s)
unfolding strip_left
strip_left-IsOneLine String.[] h = tt
strip_left-IsOneLine (String.◌∷◌ c s) h = elim (Bool-cases (is_space (code c))) [
  | inl e ↦ rw e (strip_left-IsOneLine s h.1)
  | inr e ↦ rw e h
]

strip_right-IsOneLine : (s : String) → IsOneLine s → IsOneLine (strip_right s)
unfolding strip_right
strip_right-IsOneLine String.[] h = tt
strip_right-IsOneLine (String.◌∷◌ c s) h =
    elim (Bool-cases (strip_right s == "" && is_space (code c))) [
      | inl e ↦ rw e tt
      | inr e ↦ rw e (h.0, strip_right-IsOneLine s h.1)
    ]

strip-IsOneLine : (s : String) → IsOneLine s → IsOneLine (strip s)
unfolding strip
strip-IsOneLine s h = strip_right-IsOneLine (strip_left s) (strip_left-IsOneLine s h)

head_line-IsOneLine : (s : String) → IsOneLine (head_line (lines_of s))
unfolding head_line lines_of
head_line-IsOneLine String.[] = tt
head_line-IsOneLine (String.◌∷◌ c s) = elim (Bool-cases (ends_line c)) [
  | inl e ↦ rw e tt
  | inr e ↦ rw e (joined c (lines_of s) e (head_line-IsOneLine s))
]
  where
    joined :
        (c : Char) (ls : List String)
        → ends_line c ≡ false
        → IsOneLine (head_line ls)
        → IsOneLine (head_line (on_first_line c ls))
    joined c [] e h = (e, tt)
    joined c (l ∷ ls) e h = (e, h)

strip_right-twice : (s : String) → strip_right (strip_right s) ≡ strip_right s
unfolding strip_right
strip_right-twice String.[] = refl
strip_right-twice (String.◌∷◌ c s) = elim (Bool-cases (strip_right s == "" && is_space (code c))) [
  | inl e ↦ rw e refl
  | inr e ↦ rw e (rw (strip_right-twice s, e) refl)
]

strip_right-cons :
    (c : Char) (s : String)
    → is_space (code c) ≡ false
    → strip_right (String.◌∷◌ c s) ≡ String.◌∷◌ c (strip_right s)
unfolding strip_right
strip_right-cons c s e = ground arith

-- A text that begins with no white space begins so when it is stripped on the right.
strip_left-strip_right :
    (s : String) → strip_left (strip_right (strip_left s)) ≡ strip_right (strip_left s)
unfolding strip_left strip_right
strip_left-strip_right String.[] = refl
strip_left-strip_right (String.◌∷◌ c s) = elim (Bool-cases (is_space (code c))) [
  | inl e ↦ rw e (strip_left-strip_right s)
  | inr e ↦ rw e (rw (strip_right-cons c s e) (rw e refl))
]

strip-twice : (s : String) → strip (strip s) ≡ strip s
unfolding strip
strip-twice s = rw (strip_left-strip_right s) (strip_right-twice (strip_left s))

length-on_first_line :
    (c : Char) (ls : List String) → length ls ≡ 1 → length (on_first_line c ls) ≡ 1
unfolding on_first_line
length-on_first_line c [] h = cc
length-on_first_line c (l ∷ ls) h = h

abbrev HasCharacter : String → Type 0
HasCharacter String.[] = ⊥
HasCharacter (String.◌∷◌ c s) = Unit

HasCharacter-of_ne : (s : String) → (s == "") ≡ false → HasCharacter s
HasCharacter-of_ne String.[] e = cc
HasCharacter-of_ne (String.◌∷◌ c s) e = tt

lines_of-IsOneLine : (s : String) → IsOneLine s → HasCharacter s → length (lines_of s) ≡ 1
unfolding lines_of on_first_line
lines_of-IsOneLine String.[] h e = absurd e
lines_of-IsOneLine (String.◌∷◌ c String.[]) h e = rw h.0 refl
lines_of-IsOneLine (String.◌∷◌ c (String.◌∷◌ d s)) h e = rw h.0 (
    length-on_first_line c (lines_of (String.◌∷◌ d s)) (lines_of-IsOneLine (String.◌∷◌ d s) h.1 tt))

-- The stripped first line of a text, unless it is empty, survives as a line.
pub survives_as_line-strip :
    (text : String)
    → (strip (head_line (lines_of text)) == "") ≡ false
    → survives_as_line (strip (head_line (lines_of text))) ≡ true
unfolding survives_as_line
survives_as_line-strip text e =
    let line : String = head_line (lines_of text) in
    let one : length (lines_of (strip line)) ≡ 1 =
      lines_of-IsOneLine (strip line) (strip-IsOneLine line (head_line-IsOneLine text))
        (HasCharacter-of_ne (strip line) e) in
    rw (e, survives_as_line) (rw (strip-twice line, eq_refl (strip line), one) refl)
