-- ===== src/Reconciler/Applying/Gate.antt =====
-- The confirmation prompt of Reconciler.apply.
use Prim.Native.Char.{code}
use dasik.Base.{
  ℕ, String, Bool, true, false, ◌&&◌, ◌||◌, ◌+◌, List, [], ◌∷◌, leb, nat_eq, if◌then◌else◌,
  is_space,
}

-- What `input_fn` does: it returns a line, or raises EOFError or KeyboardInterrupt.
pub data Answer : Type 0 where
  typed : String → Answer
  end_of_file keyboard_interrupt : Answer

codes : String → List ℕ
codes String.[] = []
codes (String.◌∷◌ c s) = code c ∷ codes s

unfoldable pub strip_left : List ℕ → List ℕ
unfolding is_space
strip_left [] = []
strip_left (c ∷ cs) = let rest = strip_left cs in if is_space c then rest else c ∷ cs

-- The text up to the last character that is no space.
unfoldable pub strip_right : List ℕ → List ℕ
unfolding is_space
strip_right [] = []
strip_right (c ∷ cs) = elim (strip_right cs) [
  | [] ↦ if is_space c then [] else c ∷ []
  | d ∷ ds ↦ c ∷ d ∷ ds
]

-- str.lower on ASCII letters. No other character has a lower case that is y, e or s.
unfoldable pub lower : ℕ → ℕ
lower c = if leb b'A' c && leb c b'Z' then c + 32 else c

-- Equality of the lowered text with a word.
unfoldable pub lowers_to : List ℕ → List ℕ → Bool
unfolding lower
lowers_to [] [] = true
lowers_to (c ∷ cs) (d ∷ ds) = nat_eq (lower c) d && lowers_to cs ds
lowers_to _ _ = false

-- answer.strip().lower() in ("y", "yes")
unfoldable pub is_yes : String → Bool
unfolding codes strip_left strip_right lowers_to
is_yes answer =
    let bare = strip_right (strip_left (codes answer)) in
    lowers_to bare (b'y' ∷ []) || lowers_to bare (b'y' ∷ b'e' ∷ b's' ∷ [])
