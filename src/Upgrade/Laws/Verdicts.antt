-- ===== src/Upgrade/Laws/Verdicts.antt =====
-- What a run of the upgrade reports.
use dasik.Base.{String, true, false, ◌≡◌, ◌⊎◌, inl, inr, refl, Option, none, some, Bool-cases}
use dasik.Upgrade.Steps.{Status, updated, current, refreshed, skipped, failed}
use dasik.Upgrade.Runner.{outcome, judge, differ, both}

-- An item that is judged to be current was compared, by its version or by its contents, and neither
-- comparison that could be made found a difference. An item that is judged to be updated differs in
-- one of them. No item is judged to have failed or to be skipped.
abbrev pub IsJudged :
    Status → Option String → Option String → Option String → Option String → Type 0
IsJudged updated before after print_before print_after =
    (differ before after ≡ true) ⊎ (differ print_before print_after ≡ true)
IsJudged current before after print_before print_after =
    ((both before after ≡ true) ⊎ (both print_before print_after ≡ true))
    × (differ before after ≡ false)
    × (differ print_before print_after ≡ false)
IsJudged refreshed before after print_before print_after =
    (both before after ≡ false) × (both print_before print_after ≡ false)
IsJudged skipped before after print_before print_after = false ≡ true
IsJudged failed before after print_before print_after = false ≡ true

differ_of_both : (a b : Option String) → both a b ≡ false → differ a b ≡ false
unfolding both differ
differ_of_both none b h = refl
differ_of_both (some a) none h = refl
differ_of_both (some a) (some b) h = absurd (cc)

-- The verdict on an item whose commands went well is right, whichever of the readings are missing:
-- `updated` comes of a difference, `current` of a comparison without one, `refreshed` where nothing
-- could be compared, and the item is never reported as failed or skipped.
pub judge-IsJudged :
    (item : String) (before after print_before print_after : Option String)
    → IsJudged
        (judge item before after print_before print_after).status
        before
        after
        print_before
        print_after
unfolding judge outcome
judge-IsJudged item before after print_before print_after =
    elim (Bool-cases (differ before after)) [
      | inl d ↦ rw d (inl d)
      | inr d ↦ elim (Bool-cases (both print_before print_after)) [
        | inl b ↦ elim (Bool-cases (differ print_before print_after)) [
          | inl e ↦ rw d (rw b (rw e (inr e)))
          | inr e ↦ rw d (rw b (rw e (inr b, d, e)))
        ]
        | inr b ↦ elim (Bool-cases (both before after)) [
          | inl v ↦ rw d (rw b (rw v (inl v, d, differ_of_both print_before print_after b)))
          | inr v ↦ rw d (rw b (rw v (v, b)))
        ]
      ]
    ]
