-- ===== src/Base/JsonValues.antt =====
-- JSON values as Python holds them. Numbers are the non-negative integers, the only ones that the
-- program writes into its records.
use Prim.Native.Nat.{ℕ}
use Prim.Native.String.{String}
use mathlib.Core.Path.{◌≡◌, refl, ap}
use mathlib.Core.Bool.{Bool, true, false, not}
use mathlib.Core.List.{List, [], ◌∷◌}
use text.Mathlib.Text.{◌==◌}
use package.dasik.Base.Tests.{nat_eq}
use package.dasik.Base.Dicts.{Dict}

mutual
  pub data Json : Type 0 where
    null : Json
    bool : Bool → Json
    num : ℕ → Json
    str : String → Json
    arr : Items → Json
    obj : Fields → Json

  pub data Items : Type 0 where
    nil : Items
    cons : Json → Items → Items

  pub data Fields : Type 0 where
    end : Fields
    field : String → Json → Fields → Fields

-- bool(v)
unfoldable pub truthy : Json → Bool
truthy null = false
truthy (bool b) = b
truthy (num n) = not (nat_eq n 0)
truthy (str s) = not (s == "")
truthy (arr nil) = false
truthy (arr (cons x xs)) = true
truthy (obj end) = false
truthy (obj (field k v fs)) = true

unfoldable pub items_of : List Json → Items
items_of [] = nil
items_of (x ∷ xs) = cons x (items_of xs)

unfoldable pub list_of : Items → List Json
list_of nil = []
list_of (cons x xs) = x ∷ list_of xs

unfoldable pub fields_of : Dict Json → Fields
fields_of [] = end
fields_of ((k, v) ∷ d) = field k v (fields_of d)

unfoldable pub dict_of : Fields → Dict Json
dict_of end = []
dict_of (field k v fs) = (k, v) ∷ dict_of fs

pub list_of-items_of : (xs : List Json) → list_of (items_of xs) ≡ xs
unfolding list_of items_of
list_of-items_of [] = refl
list_of-items_of (x ∷ xs) = ap (◌∷◌ x) (list_of-items_of xs)

pub dict_of-fields_of : (d : Dict Json) → dict_of (fields_of d) ≡ d
unfolding dict_of fields_of
dict_of-fields_of [] = refl
dict_of-fields_of ((k, v) ∷ d) = ap (◌∷◌ (k, v)) (dict_of-fields_of d)
