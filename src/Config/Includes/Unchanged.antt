-- ===== src/Config/Includes/Unchanged.antt =====
-- dasik/lib/json_parser/includes.py: a config without directives stays as it is, and the result of
-- resolving is one.
use dasik.Base.{
  ℕ, ◌<◌, String, ◌≡◌, refl, arith, Bool, false, ◌||◌, Option, List, Json, null, bool, num, str,
  arr, obj, Items, nil, cons, Fields, end, field, length,
}
use dasik.Config.Files.{FilePath, Files, Outcome, done, failed}
use dasik.Config.Includes.{
  has_directive, uses_includes, items_use, fields_use, resolve, resolve_items, resolve_fields,
  resolve_includes,
}
use dasik.Config.Includes.Resolved.{Ensures, IsResolved}
use dasik.Config.Includes.Ending.{AreListed, resolve_includes-IsResolved}

or_false : (a b : Bool) → (a || b) ≡ false → (a ≡ false) × (b ≡ false)
or_false a b h = ground arith

mutual
  unfolding uses_includes resolve

  resolve-unused :
      (load : String → Json → Outcome Json) (v : Json)
      → uses_includes v ≡ false
      → resolve load v ≡ done v
  resolve-unused load (arr xs) h = rw (resolve_items-unused load xs h) refl
  resolve-unused load (obj fs) h =
      let k : (has_directive fs ≡ false) × (fields_use fs ≡ false) = or_false _ _ h in
      rw (k.0, resolve) (rw (resolve_fields-unused load fs k.1) refl)
  resolve-unused load null h = refl
  resolve-unused load (bool b) h = refl
  resolve-unused load (num n) h = refl
  resolve-unused load (str s) h = refl

  resolve_items-unused :
      (load : String → Json → Outcome Json) (xs : Items)
      → items_use xs ≡ false
      → resolve_items load xs ≡ done xs
  resolve_items-unused load nil h = refl
  resolve_items-unused load (cons x xs) h =
      let k : (uses_includes x ≡ false) × (items_use xs ≡ false) = or_false _ _ h in
      rw (resolve-unused load x k.0, resolve_items-unused load xs k.1) refl

  resolve_fields-unused :
      (load : String → Json → Outcome Json) (fs : Fields)
      → fields_use fs ≡ false
      → resolve_fields load fs ≡ done fs
  resolve_fields-unused load end h = refl
  resolve_fields-unused load (field j v fs) h =
      let k : (uses_includes v ≡ false) × (fields_use fs ≡ false) = or_false _ _ h in
      rw (resolve-unused load v k.0, resolve_fields-unused load fs k.1) refl

-- Whatever the files, resolving the value gives the value.
abbrev pub StaysAsItIs : Json → Type 0
StaysAsItIs w =
    (files : Files) (loads : String → Option Json) (fuel : ℕ) (base : FilePath)
    → resolve_includes files loads fuel w base ≡ done w

unused-StaysAsItIs : (w : Json) → uses_includes w ≡ false → StaysAsItIs w
unfolding resolve_includes
unused-StaysAsItIs w h files loads fuel base = resolve-unused _ w h

Ensures-weaken {ℓ} :
    {A : Type ℓ} (P Q : A → Type 0) (o : Outcome A)
    → ((a : A) → P a → Q a)
    → Ensures P o
    → Ensures Q o
Ensures-weaken P Q (done a) k h = k a h
Ensures-weaken P Q (failed e) k h = h

-- Resolving a config ends, however its files include one another: where every file that can be read
-- is in a list, by the path that Path.resolve gives it, fuel for more steps than the list has files is
-- enough. The result is an error of the code, or a config that uses no directive at any depth, and
-- that stays as it is when it is resolved again, with any files.
pub resolve_includes_ends :
    (files : Files) (loads : String → Option Json) (all : List String) (fuel : ℕ)
    → AreListed files all
    → length all < fuel
    → (v : Json) (base : FilePath)
    → Ensures
        (λ w. (uses_includes w ≡ false) × StaysAsItIs w)
        (resolve_includes files loads fuel v base)
resolve_includes_ends files loads all fuel listed h v base =
    Ensures-weaken IsResolved _ (resolve_includes files loads fuel v base)
      (λ w k. (k, unused-StaysAsItIs w k))
      (resolve_includes-IsResolved files loads all listed fuel h v base)
