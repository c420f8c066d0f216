-- ===== src/Base/JsonEquality.antt =====
-- Python's `==` on JSON values: dicts without regard to order, and True and False as 1 and 0.
use Prim.Native.Nat.{ℕ, suc}
use Prim.Native.String.{String}
use mathlib.Core.Path.{◌≡◌, refl}
use mathlib.Core.Bool.{Bool, true, false, ◌&&◌, ◌||◌}
use mathlib.Core.Option.{Option, none, some}
use native.Mathlib.Omega.{arith}
use text.Mathlib.Text.{◌==◌}
use text.Mathlib.TextEquality.{eq_iff}
use text.Mathlib.TextPositions.{eq_refl}
use package.dasik.Base.Tests.{if◌then◌else◌, nat_eq}
use package.dasik.Base.JsonValues.{
  Json, null, bool, num, str, arr, obj, Items, nil, cons, Fields, end, field,
}

abbrev number_of : Bool → ℕ
number_of true = 1
number_of false = 0

unfoldable pub field_get : Fields → String → Option Json
field_get end k = none
field_get (field j v fs) k = if j == k then some v else field_get fs k

unfoldable pub field_count : Fields → ℕ
field_count end = 0
field_count (field k v fs) = suc (field_count fs)

unfoldable mutual
  unfolding field_get field_count

  pub json_eq : Json → Json → Bool
  json_eq null null = true
  json_eq (bool a) (bool b) = nat_eq (number_of a) (number_of b)
  json_eq (bool a) (num n) = nat_eq (number_of a) n
  json_eq (num m) (bool b) = nat_eq m (number_of b)
  json_eq (num m) (num n) = nat_eq m n
  json_eq (str s) (str t) = s == t
  json_eq (arr xs) (arr ys) = items_eq xs ys
  json_eq (obj fs) (obj gs) = fields_in fs gs && nat_eq (field_count fs) (field_count gs)
  json_eq _ _ = false

  pub items_eq : Items → Items → Bool
  items_eq nil nil = true
  items_eq (cons x xs) (cons y ys) = json_eq x y && items_eq xs ys
  items_eq _ _ = false

  -- Every field of the first is in the second, with an equal value.
  pub fields_in : Fields → Fields → Bool
  fields_in end gs = true
  fields_in (field k v fs) gs =
      elim (field_get gs k) [ none ↦ false | some w ↦ json_eq v w ] && fields_in fs gs

unfoldable pub has_field : String → Fields → Bool
has_field k end = false
has_field k (field j v fs) = j == k || has_field k fs

-- No dict within the value has a key twice.
unfoldable mutual
  pub IsJson : Json → Type 0
  IsJson (arr xs) = AreJson xs
  IsJson (obj fs) = HaveJson fs
  IsJson _ = Unit

  pub AreJson : Items → Type 0
  AreJson nil = Unit
  AreJson (cons x xs) = IsJson x × AreJson xs

  pub HaveJson : Fields → Type 0
  HaveJson end = Unit
  HaveJson (field k v fs) = (has_field k fs ≡ false) × IsJson v × HaveJson fs

-- Every field of the first dict is found in the second.
abbrev pub Within : Fields → Fields → Type 0
Within end gs = Unit
Within (field k v fs) gs = (field_get gs k ≡ some v) × Within fs gs

Within-field :
    (k : String) (v : Json) (fs gs : Fields)
    → has_field k fs ≡ false
    → Within fs gs
    → Within fs (field k v gs)
unfolding field_get has_field
Within-field k v end gs h w = tt
Within-field k v (field j u fs) gs h w =
    (ground (arith, w.0, eq_iff k j, eq_iff j k), Within-field k v fs gs (ground arith) w.1)

pub Within-self : (fs : Fields) → HaveJson fs → Within fs fs
unfolding field_get HaveJson
Within-self end h = tt
Within-self (field k v fs) h =
    (rw (eq_refl k) refl, Within-field k v fs fs h.0 (Within-self fs h.2))

nat_eq_refl : (n : ℕ) → nat_eq n n ≡ true
nat_eq_refl n = ground arith

fields_in-found :
    (k : String) (v : Json) (fs gs : Fields)
    → field_get gs k ≡ some v
    → json_eq v v ≡ true
    → fields_in fs gs ≡ true
    → fields_in (field k v fs) gs ≡ true
unfolding json_eq
fields_in-found k v fs gs e h r = rw e (ground arith)

mutual
  unfolding json_eq IsJson

  -- A value without a repeated key equals itself.
  pub json_eq_refl : (v : Json) → IsJson v → json_eq v v ≡ true
  json_eq_refl null h = refl
  json_eq_refl (bool true) h = refl
  json_eq_refl (bool false) h = refl
  json_eq_refl (num n) h = nat_eq_refl n
  json_eq_refl (str s) h = eq_refl s
  json_eq_refl (arr xs) h = items_eq_refl xs h
  json_eq_refl (obj fs) h =
      rw (fields_in-Within fs fs h (Within-self fs h)) (nat_eq_refl (field_count fs))

  items_eq_refl : (xs : Items) → AreJson xs → items_eq xs xs ≡ true
  items_eq_refl nil h = refl
  items_eq_refl (cons x xs) h = rw (json_eq_refl x h.0) (items_eq_refl xs h.1)

  fields_in-Within : (fs gs : Fields) → HaveJson fs → Within fs gs → fields_in fs gs ≡ true
  fields_in-Within end gs h w = refl
  fields_in-Within (field k v fs) gs h w =
      fields_in-found k v fs gs w.0 (json_eq_refl v h.1) (fields_in-Within fs gs h.2 w.1)
