-- ===== src/Base/Lists.antt =====
-- Lists by native lengths and Boolean tests, and Python's `sorted` of a set of texts.
use Prim.Native.Nat.{ℕ, zero, suc, ◌+◌, ◌-◌}
use Prim.Native.String.{String}
use mathlib.Core.Path.{◌≡◌, refl, ap}
use mathlib.Core.Logic.{inl, inr}
use mathlib.Core.Bool.{Bool, true, false, ◌&&◌, ◌||◌}
use mathlib.Core.List.{List, [], ◌∷◌, ◌++◌}
use native.Mathlib.Omega.{arith}
use text.Mathlib.Text.{◌==◌}
use text.Mathlib.TextEquality.{eq_iff}
use package.dasik.Base.Tests.{if◌then◌else◌, nat_eq, Bool-cases}
use package.dasik.Base.Order.{str_ltb, str_ltb_total, str_ltb_irrefl, str_ltb_trans}

module _ {ℓ} {A : Type ℓ} where
  abbrev pub length : List A → ℕ
  length [] = 0
  length (x ∷ xs) = suc (length xs)

  pub length-append : (xs ys : List A) → length (xs ++ ys) ≡ length xs + length ys
  length-append [] ys = omega arith
  length-append (x ∷ xs) ys = omega (arith, length-append xs ys)

  abbrev pub is_empty : List A → Bool
  is_empty [] = true
  is_empty (x ∷ xs) = false

  -- [x for x in xs if p(x)]
  unfoldable pub select : (A → Bool) → List A → List A
  select p [] = []
  select p (x ∷ xs) = if p x then x ∷ select p xs else select p xs

  -- any(p(x) for x in xs)
  unfoldable pub any : (A → Bool) → List A → Bool
  any p [] = false
  any p (x ∷ xs) = p x || any p xs

  -- all(p(x) for x in xs)
  unfoldable pub all : (A → Bool) → List A → Bool
  all p [] = true
  all p (x ∷ xs) = p x && all p xs

  pub any-append : (p : A → Bool) (xs ys : List A) → any p (xs ++ ys) ≡ (any p xs || any p ys)
  unfolding any
  any-append p [] ys = refl
  any-append p (x ∷ xs) ys = ground (arith, any-append p xs ys)

  pub select-append :
      (p : A → Bool) (xs ys : List A) → select p (xs ++ ys) ≡ select p xs ++ select p ys
  unfolding select
  select-append p [] ys = refl
  select-append p (x ∷ xs) ys = ground (arith, select-append p xs ys)

abbrev pub All {ℓ κ} : {A : Type ℓ} → (A → Type κ) → List A → Type κ
All P [] = Unit
All P (x ∷ xs) = P x × All P xs

-- x in xs
unfoldable pub mem : String → List String → Bool
mem x [] = false
mem x (y ∷ ys) = y == x || mem x ys

pub mem-append : (x : String) (xs ys : List String) → mem x (xs ++ ys) ≡ (mem x xs || mem x ys)
unfolding mem
mem-append x [] ys = refl
mem-append x (y ∷ xs) ys = ground (arith, mem-append x xs ys)

-- For a test on texts, the members of the selection are the members that pass it.
pub mem-select :
    (p : String → Bool) (x : String) (xs : List String) → mem x (select p xs) ≡ (mem x xs && p x)
unfolding mem select
mem-select p x [] = refl
mem-select p x (y ∷ xs) = elim (Bool-cases (y == x)) [
  | inl e ↦ ground (arith, mem-select p x xs, ap p ((eq_iff y x).0 e))
  | inr n ↦ ground (arith, mem-select p x xs)
]

-- Puts a text at its place in an ascending list, once.
unfoldable pub insert : String → List String → List String
insert x [] = x ∷ []
insert x (y ∷ ys) = if x == y then y ∷ ys else if str_ltb x y then x ∷ y ∷ ys else y ∷ insert x ys

-- sorted(set(xs)): a set is given by any list of its members, here with repetitions.
unfoldable pub sorted_set : List String → List String
unfolding insert
sorted_set [] = []
sorted_set (x ∷ xs) = insert x (sorted_set xs)

abbrev pub Below : String → List String → Type 0
Below x [] = Unit
Below x (y ∷ ys) = str_ltb x y ≡ true

-- Each text stands strictly before the next: ascending, without repetition.
abbrev pub IsAscending : List String → Type 0
IsAscending [] = Unit
IsAscending (x ∷ xs) = Below x xs × IsAscending xs

mem-insert : (a x : String) (ys : List String) → mem a (insert x ys) ≡ (x == a || mem a ys)
unfolding mem insert
mem-insert a x [] = refl
mem-insert a x (y ∷ ys) = ground (arith, mem-insert a x ys, eq_iff x y, eq_iff x a, eq_iff y a)

pub mem-sorted_set : (a : String) (xs : List String) → mem a (sorted_set xs) ≡ mem a xs
unfolding mem sorted_set
mem-sorted_set a [] = refl
mem-sorted_set a (x ∷ xs) = ground (arith, mem-insert a x (sorted_set xs), mem-sorted_set a xs)

Below-insert :
    (y x : String) (ys : List String) → str_ltb y x ≡ true → Below y ys → Below y (insert x ys)
unfolding insert
Below-insert y x [] h k = h
Below-insert y x (z ∷ zs) h k = ground arith

insert-IsAscending : (x : String) (ys : List String) → IsAscending ys → IsAscending (insert x ys)
unfolding insert
insert-IsAscending x [] h = (tt, tt)
insert-IsAscending x (y ∷ ys) h = elim (Bool-cases (x == y)) [
  | inl e ↦ rw e h
  | inr n ↦ elim (Bool-cases (str_ltb x y)) [
    | inl b ↦ rw n (rw b (b, h))
    | inr b ↦
        rw n (rw b (Below-insert y x ys (str_ltb_total x y b n) h.0, insert-IsAscending x ys h.1))
  ]
]

pub sorted_set-IsAscending : (xs : List String) → IsAscending (sorted_set xs)
unfolding sorted_set
sorted_set-IsAscending [] = tt
sorted_set-IsAscending (x ∷ xs) = insert-IsAscending x (sorted_set xs) (sorted_set-IsAscending xs)

-- How often a text stands in a list.
unfoldable pub count : String → List String → ℕ
count x [] = 0
count x (y ∷ ys) = if y == x then suc (count x ys) else count x ys

pub count-append : (x : String) (xs ys : List String) → count x (xs ++ ys) ≡ count x xs + count x ys
unfolding count
count-append x [] ys = omega arith
count-append x (y ∷ xs) ys = ground (arith, count-append x xs ys)

Below-trans : (x y : String) (ys : List String) → str_ltb x y ≡ true → Below y ys → Below x ys
Below-trans x y [] h k = tt
Below-trans x y (z ∷ ys) h k = str_ltb_trans x y z h k

not-mem_of_Below : (x : String) (ys : List String) → Below x ys → IsAscending ys → mem x ys ≡ false
unfolding mem
not-mem_of_Below x [] h k = refl
not-mem_of_Below x (y ∷ ys) h k =
    ground
      (arith, not-mem_of_Below x ys (Below-trans x y ys h k.0) k.1, str_ltb_irrefl x, eq_iff y x)

count_of_IsAscending :
    (x : String) (ys : List String) → IsAscending ys → count x ys ≡ (if mem x ys then 1 else 0)
unfolding count mem
count_of_IsAscending x [] h = refl
count_of_IsAscending x (y ∷ ys) h =
    ground (arith, count_of_IsAscending x ys h.1, not-mem_of_Below y ys h.0 h.1, eq_iff y x)

-- A sorted set holds each of its members once.
pub count-sorted_set :
    (x : String) (xs : List String) → count x (sorted_set xs) ≡ (if mem x xs then 1 else 0)
count-sorted_set x xs =
    rw (count_of_IsAscending x (sorted_set xs) (sorted_set-IsAscending xs), mem-sorted_set x xs)

-- n in ns, for numbers
unfoldable pub mem_number : ℕ → List ℕ → Bool
mem_number n [] = false
mem_number n (m ∷ ns) = nat_eq m n || mem_number n ns

pub mem_number-append :
    (n : ℕ) (xs ys : List ℕ) → mem_number n (xs ++ ys) ≡ (mem_number n xs || mem_number n ys)
unfolding mem_number
mem_number-append n [] ys = refl
mem_number-append n (m ∷ xs) ys = ground (arith, mem_number-append n xs ys)

module _ {ℓ} {A : Type ℓ} where
  -- l[-n:] drops the first length l - n elements.
  unfoldable pub drop : ℕ → List A → List A
  drop zero xs = xs
  drop (suc n) [] = []
  drop (suc n) (x ∷ xs) = drop n xs

  pub length-drop : (n : ℕ) (xs : List A) → length (drop n xs) ≡ length xs - n
  unfolding drop
  length-drop zero xs = omega arith
  length-drop (suc n) [] = omega arith
  length-drop (suc n) (x ∷ xs) = omega (arith, length-drop n xs)
