-- ===== src/Config/Includes/Resolved.antt =====
-- dasik/lib/json_parser/includes.py: what _resolve makes of a value, where each file that it names
-- gives a value without directives.
use dasik.Base.{
  String, ◌≡◌, ◌≢◌, refl, arith, inl, inr, false, ◌==◌, Json, null, bool, num, str, arr, obj, Items,
  nil, cons, Fields, end, field, Bool-cases,
}
use dasik.Config.Files.{Outcome, done, failed, ◌>>=◌, out_of_fuel}
use dasik.Config.Includes.{
  has_directive, uses_includes, items_use, fields_use, append_items, items_in, resolve,
  resolve_items, resolve_fields, resolve_directive, resolve_concat, resolve_members,
}

-- A value that satisfies P, or an error of the code.
abbrev pub Ensures {ℓ} : {A : Type ℓ} → (A → Type 0) → Outcome A → Type 0
Ensures P (done a) = P a
Ensures P (failed e) = e ≢ out_of_fuel

pub Ensures-bind {ℓ κ} :
    {A : Type ℓ} {B : Type κ} (P : A → Type 0) (Q : B → Type 0) (o : Outcome A) (f : A → Outcome B)
    → Ensures P o
    → ((a : A) → P a → Ensures Q (f a))
    → Ensures Q (o >>= f)
Ensures-bind P Q (done a) f h k = k a h
Ensures-bind P Q (failed e) f h k = h

abbrev pub IsResolved : Json → Type 0
IsResolved v = uses_includes v ≡ false

abbrev AreResolved : Items → Type 0
AreResolved xs = items_use xs ≡ false

-- The values are resolved, and the keys are those of the fields before.
abbrev HaveResolved : Fields → Fields → Type 0
HaveResolved fs gs = (fields_use gs ≡ false) × (has_directive gs ≡ has_directive fs)

append_items-AreResolved :
    (xs ys : Items) → AreResolved xs → AreResolved ys → AreResolved (append_items xs ys)
unfolding uses_includes append_items
append_items-AreResolved nil ys h k = k
append_items-AreResolved (cons x xs) ys h k = ground (arith, append_items-AreResolved xs ys)

items_in-AreResolved : (v : Json) → IsResolved v → Ensures AreResolved (items_in v)
unfolding uses_includes items_in
items_in-AreResolved (arr xs) h = h
items_in-AreResolved null h = cc
items_in-AreResolved (bool b) h = cc
items_in-AreResolved (num n) h = cc
items_in-AreResolved (str s) h = cc
items_in-AreResolved (obj fs) h = cc

mutual
  unfolding uses_includes resolve

  pub resolve-IsResolved :
      (load : String → Json → Outcome Json)
      → ((k : String) (v : Json) → Ensures IsResolved (load k v))
      → (v : Json) → Ensures IsResolved (resolve load v)
  resolve-IsResolved load h (arr xs) =
      Ensures-bind AreResolved IsResolved (resolve_items load xs) (λ ys. done (arr ys))
        (resolve_items-AreResolved load h xs) (λ ys k. k)
  resolve-IsResolved load h (obj fs) = elim (Bool-cases (has_directive fs)) [
    | inl e ↦ rw (e, resolve) (resolve_directive-IsResolved load h fs)
    | inr e ↦
        rw (e, resolve)
          (Ensures-bind (HaveResolved fs) IsResolved (resolve_fields load fs) (λ gs. done (obj gs))
            (resolve_fields-HaveResolved load h fs) (λ gs k. rw (k.1, e) k.0))
  ]
  resolve-IsResolved load h null = refl
  resolve-IsResolved load h (bool b) = refl
  resolve-IsResolved load h (num n) = refl
  resolve-IsResolved load h (str s) = refl

  resolve_items-AreResolved :
      (load : String → Json → Outcome Json)
      → ((k : String) (v : Json) → Ensures IsResolved (load k v))
      → (xs : Items) → Ensures AreResolved (resolve_items load xs)
  resolve_items-AreResolved load h nil = refl
  resolve_items-AreResolved load h (cons x xs) =
      Ensures-bind IsResolved AreResolved (resolve load x) _ (resolve-IsResolved load h x) (λ y k.
        Ensures-bind AreResolved AreResolved (resolve_items load xs) (λ ys. done (cons y ys))
          (resolve_items-AreResolved load h xs) (λ ys l. rw (k, l) refl))

  resolve_fields-HaveResolved :
      (load : String → Json → Outcome Json)
      → ((k : String) (v : Json) → Ensures IsResolved (load k v))
      → (fs : Fields) → Ensures (HaveResolved fs) (resolve_fields load fs)
  resolve_fields-HaveResolved load h end = (refl, refl)
  resolve_fields-HaveResolved load h (field j v fs) =
      Ensures-bind IsResolved (HaveResolved (field j v fs)) (resolve load v) _
        (resolve-IsResolved load h v)
        (λ w k.
          Ensures-bind (HaveResolved fs) (HaveResolved (field j v fs)) (resolve_fields load fs)
            (λ gs. done (field j w gs)) (resolve_fields-HaveResolved load h fs)
            (λ gs l. (rw (k, l.0) refl, rw l.1 refl)))

  resolve_directive-IsResolved :
      (load : String → Json → Outcome Json)
      → ((k : String) (v : Json) → Ensures IsResolved (load k v))
      → (fs : Fields) → Ensures IsResolved (resolve_directive load fs)
  resolve_directive-IsResolved load h end = cc
  resolve_directive-IsResolved load h (field j v end) = elim (Bool-cases (j == "$concat")) [
    | inl e ↦ rw (e, resolve_directive) (resolve_concat-IsResolved load h v)
    | inr e ↦ rw (e, resolve_directive) (h j v)
  ]
  resolve_directive-IsResolved load h (field j v (field i w fs)) = cc

  resolve_concat-IsResolved :
      (load : String → Json → Outcome Json)
      → ((k : String) (v : Json) → Ensures IsResolved (load k v))
      → (v : Json) → Ensures IsResolved (resolve_concat load v)
  resolve_concat-IsResolved load h (arr xs) =
      Ensures-bind AreResolved IsResolved (resolve_members load xs) (λ ys. done (arr ys))
        (resolve_members-AreResolved load h xs) (λ ys k. k)
  resolve_concat-IsResolved load h null = cc
  resolve_concat-IsResolved load h (bool b) = cc
  resolve_concat-IsResolved load h (num n) = cc
  resolve_concat-IsResolved load h (str s) = cc
  resolve_concat-IsResolved load h (obj fs) = cc

  resolve_members-AreResolved :
      (load : String → Json → Outcome Json)
      → ((k : String) (v : Json) → Ensures IsResolved (load k v))
      → (xs : Items) → Ensures AreResolved (resolve_members load xs)
  resolve_members-AreResolved load h nil = refl
  resolve_members-AreResolved load h (cons x xs) =
      Ensures-bind IsResolved AreResolved (resolve load x) _ (resolve-IsResolved load h x) (λ y k.
        Ensures-bind AreResolved AreResolved (items_in y) _ (items_in-AreResolved y k) (λ ys l.
          Ensures-bind AreResolved AreResolved (resolve_members load xs)
            (λ zs. done (append_items ys zs)) (resolve_members-AreResolved load h xs)
            (λ zs m. append_items-AreResolved ys zs l m)))
