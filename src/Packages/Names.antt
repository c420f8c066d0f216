-- ===== src/Packages/Names.antt =====
-- dasik/lib/actions/package_resolver.py: which names are accepted, and their order.
use Prim.Native.Char.{code}
use mathlib.Core.Logic.{inl, inr}
use dasik.Base.{
  ℕ, String, Bool, true, false, not, ◌&&◌, ◌||◌, ◌≡◌, refl, ap, List, [], ◌∷◌, leb, if◌then◌else◌,
  mem, mem_number, count, arith, eq_iff, ◌==◌, Bool-cases,
}
use dasik.Effects.{Result, ok, raise, exception}
use dasik.Effects.Laws.{OnOk}

-- [a-zA-Z0-9]
is_alnum : ℕ → Bool
is_alnum c =
    (leb b'a' c && leb c b'z') || ((leb b'A' c && leb c b'Z') || (leb b'0' c && leb c b'9'))

-- [a-zA-Z0-9@._+-]*
unfoldable pub is_rest : String → Bool
unfolding is_alnum
is_rest String.[] = true
is_rest (String.◌∷◌ c s) =
    (is_alnum (code c) || mem_number (code c) (b'@' ∷ b'.' ∷ b'_' ∷ b'+' ∷ b'-' ∷ [])) && is_rest s

-- _VALID_PKG_NAME.fullmatch
unfoldable pub is_valid_name : String → Bool
unfolding is_alnum is_rest
is_valid_name String.[] = false
is_valid_name (String.◌∷◌ c s) = is_alnum (code c) && is_rest s

-- The names that are not among `seen`, each at its first place.
unfoldable pub unique : List String → List String → List String
unique seen [] = []
unique seen (x ∷ xs) = let rest = unique (x ∷ seen) xs in if mem x seen then rest else x ∷ rest

-- list(dict.fromkeys(names))
unfoldable pub from_keys : List String → List String
unfolding unique
from_keys names = unique [] names

also : String → Result (List String) → Result (List String)
also n (ok ns) = ok (n ∷ ns)
also n (raise e) = raise e

-- [_validate(n) for n in names]
unfoldable pub validate_each : List String → Result (List String)
unfolding also
validate_each [] = ok []
validate_each (n ∷ names) =
    let rest = validate_each names in
    if is_valid_name n then also n rest else raise (exception "Invalid package name")

count-unique :
    (x : String) (seen xs : List String)
    → count x (unique seen xs) ≡ (if mem x xs && not (mem x seen) then 1 else 0)
unfolding unique count mem
count-unique x seen [] = refl
count-unique x seen (y ∷ xs) = elim (Bool-cases (y == x)) [
  | inl e ↦ ground (arith, count-unique x (y ∷ seen) xs, ap (λ z. mem z seen) ((eq_iff y x).0 e))
  | inr n ↦ ground (arith, count-unique x (y ∷ seen) xs)
]

-- Each name stands once in dict.fromkeys of the names, and no other does.
pub count-from_keys :
    (x : String) (names : List String) → count x (from_keys names) ≡ (if mem x names then 1 else 0)
unfolding from_keys mem
count-from_keys x names = ground (arith, count-unique x [] names)

also-same :
    (n : String) (names : List String) (r : Result (List String))
    → OnOk (λ ns. ns ≡ names) r
    → OnOk (λ ns. ns ≡ n ∷ names) (also n r)
unfolding also
also-same n names (ok ns) h = ap (◌∷◌ n) h
also-same n names (raise e) h = tt

-- Validation changes no list that it accepts.
pub validate_each-same : (names : List String) → OnOk (λ ns. ns ≡ names) (validate_each names)
unfolding validate_each
validate_each-same [] = refl
validate_each-same (n ∷ names) = elim (Bool-cases (is_valid_name n)) [
  | inl e ↦ rw e (also-same n names (validate_each names) (validate_each-same names))
  | inr e ↦ rw e tt
]

mem-unique :
    (x : String) (seen xs : List String) → mem x (unique seen xs) ≡ (mem x xs && not (mem x seen))
unfolding unique mem
mem-unique x seen [] = refl
mem-unique x seen (y ∷ xs) = elim (Bool-cases (y == x)) [
  | inl e ↦ ground (arith, mem-unique x (y ∷ seen) xs, ap (λ z. mem z seen) ((eq_iff y x).0 e))
  | inr n ↦ ground (arith, mem-unique x (y ∷ seen) xs)
]

-- dict.fromkeys has the names and no other.
pub mem-from_keys : (x : String) (names : List String) → mem x (from_keys names) ≡ mem x names
unfolding from_keys mem
mem-from_keys x names = ground (arith, mem-unique x [] names)
