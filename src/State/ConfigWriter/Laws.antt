-- ===== src/State/ConfigWriter/Laws.antt =====
-- What a merged configuration says of each key, and in which order its keys stand.
use dasik.Base.{
  String, ◌≡◌, refl, ◌∙◌, Bool, true, false, not, List, [], ◌∷◌, ◌++◌, arith, ◌==◌, eq_iff, eq_refl,
  mem, mem-append, select, Dict, get, put, update, keys, or_else, IsDict, get-update, update-IsDict,
  keys-put, Bool-cases, inl, inr,
}
use mathlib.Core.List.{append_assoc, append-nil}
use dasik.State.ConfigWriter.{merge}

-- Tests that agree on the members select the same.
select-ext :
    (p q : String → Bool) (xs : List String)
    → ((x : String) → mem x xs ≡ true → p x ≡ q x)
    → select p xs ≡ select q xs
unfolding select mem
select-ext p q [] h = refl
select-ext p q (x ∷ xs) h =
    ground (arith, h x, eq_refl x, select-ext p q xs (λ y m. h y (ground arith)))

-- A member is not a text that is no member.
ne_of_mem :
    (k x : String) (xs : List String) → mem k xs ≡ false → mem x xs ≡ true → (k == x) ≡ false
ne_of_mem k x xs h m = ground (arith, eq_iff k x)

module _ {ℓ} {V : Type ℓ} where
  keys-update :
      (e d : Dict V)
      → IsDict e
      → keys (update d e) ≡ keys d ++ select (λ k. not (mem k (keys d))) (keys e)
  unfolding update select
  keys-update [] d h = rw append-nil
  keys-update ((k, v) ∷ e) d h = elim (Bool-cases (mem k (keys d))) [
    | inl old ↦ rw old (keys-update e (put d k v) h.1 ∙ rw (keys-put, old))
    | inr new ↦ rw new (
        keys-update e (put d k v) h.1
        ∙ rw (
          keys-put,
          new,
          append_assoc,
          select-ext (λ j. not (mem j (keys d ++ k ∷ []))) (λ j. not (mem j (keys d))) (keys e)
              (λ j m. unfold mem in rw mem-append (ground (arith, ne_of_mem k j (keys e) h.0 m))),
        ))
  ]

  -- Where both are dicts, the merged configuration has no key twice; at each key it has a fragment's
  -- value if there is one and the existing value otherwise; and the existing keys keep their order,
  -- with the keys that only the fragments have behind them, in theirs.
  pub merge_lem :
      (existing fragments : Dict V) (k : String)
      → IsDict existing
      → IsDict fragments
      → IsDict (merge existing fragments)
        × (get (merge existing fragments) k ≡ or_else (get fragments k) (get existing k))
        × (keys (merge existing fragments)
            ≡ keys existing ++ select (λ j. not (mem j (keys existing))) (keys fragments))
  unfolding merge
  merge_lem existing fragments k h g = (
    update-IsDict existing fragments h,
    get-update existing fragments k g,
    keys-update fragments existing g,
  )
