-- ===== src/Base/Order.antt =====
-- The order of texts by code points, in which the program sorts names.
use Prim.Native.Nat.{Ordering}
use Prim.Native.String.{String, compare}
use Prim.Native.String.compare
use mathlib.Core.Path.{◌≡◌, refl}
use mathlib.Core.Bool.{Bool, true, false}
use native.Mathlib.Omega.{arith}
use text.Mathlib.Text.{◌==◌}
use text.Mathlib.TextEquality.{eq_iff, path_by_compare}

abbrev pub str_ltb : String → String → Bool
str_ltb a b = elim (compare a b) [ Ordering.lt ↦ true | _ ↦ false ]

abbrev flip : Ordering → Ordering
flip Ordering.lt = Ordering.gt
flip Ordering.eq = Ordering.eq
flip Ordering.gt = Ordering.lt

compare-flip : (s t : String) → compare t s ≡ flip (compare s t)
compare-flip String.[] String.[] = refl
compare-flip String.[] (String.◌∷◌ d t) = rw (compare.nil-cons, compare.cons-nil)
compare-flip (String.◌∷◌ c s) String.[] = rw (compare.nil-cons, compare.cons-nil)
compare-flip (String.◌∷◌ c s) (String.◌∷◌ d t) =
    simp compare.cons-cons (ground (arith, compare-flip s t))

-- Two texts that are not equal stand in one order or the other.
pub str_ltb_total : (a b : String) → str_ltb a b ≡ false → (a == b) ≡ false → str_ltb b a ≡ true
str_ltb_total a b h e = ground (arith, compare-flip a b, path_by_compare a b, eq_iff a b)

pub str_ltb_irrefl : (a : String) → str_ltb a a ≡ false
str_ltb_irrefl a = ground (arith, compare-flip a a)

pub str_ltb_trans : (a b c : String) → str_ltb a b ≡ true → str_ltb b c ≡ true → str_ltb a c ≡ true
str_ltb_trans String.[] String.[] c h k = k
str_ltb_trans String.[] (String.◌∷◌ y b) String.[] h k = ground (arith, compare.cons-nil y b)
str_ltb_trans String.[] (String.◌∷◌ y b) (String.◌∷◌ z c) h k = ground (arith, compare.nil-cons z c)
str_ltb_trans (String.◌∷◌ x a) String.[] c h k = ground (arith, compare.cons-nil x a)
str_ltb_trans (String.◌∷◌ x a) (String.◌∷◌ y b) String.[] h k = ground (arith, compare.cons-nil y b)
str_ltb_trans (String.◌∷◌ x a) (String.◌∷◌ y b) (String.◌∷◌ z c) h k = ground (
  arith,
  compare.cons-cons x y a b,
  compare.cons-cons y z b c,
  compare.cons-cons x z a c,
  str_ltb_trans a b c,
  path_by_compare a b,
  path_by_compare b c,
)
