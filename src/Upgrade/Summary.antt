-- ===== src/Upgrade/Summary.antt =====
-- dasik/lib/upgrade/runner.py: the closing counts and the exit code.
use dasik.Base.{
  ℕ, Bool, true, false, ◌+◌, ◌≡◌, ◌↔◌, refl, suc, List, [], ◌∷◌, arith, length, any, if◌then◌else◌,
  map, ap, ◌∙◌, not, nat_eq,
}
use dasik.Upgrade.Steps.{
  UpgradeOutcome, Status, updated, current, refreshed, skipped, failed, is_failed,
}

-- o.status == key
unfoldable pub same_status : Status → Status → Bool
same_status updated updated = true
same_status current current = true
same_status refreshed refreshed = true
same_status skipped skipped = true
same_status failed failed = true
same_status _ _ = false

-- The keys of _ORDER
abbrev pub order : List Status
order = updated ∷ current ∷ refreshed ∷ skipped ∷ failed ∷ []

-- sum(o.status == key for o in outcomes)
unfoldable pub count_status : Status → List UpgradeOutcome → ℕ
unfolding same_status
count_status key [] = 0
count_status key (o ∷ outcomes) =
    let rest = count_status key outcomes in if same_status o.status key then suc rest else rest

-- The numbers of summary, in the order of its labels
unfoldable pub counts : List UpgradeOutcome → List ℕ
unfolding count_status
counts outcomes = map (λ key. count_status key outcomes) order

unfoldable pub exit_code : List UpgradeOutcome → ℕ
unfolding any
exit_code outcomes = if any (λ o. is_failed o.status) outcomes then 1 else 0

abbrev pub sum : List ℕ → ℕ
sum [] = 0
sum (n ∷ ns) = n + sum ns

-- One more outcome adds one to the sum, whatever its status.
sum_step :
    (s : Status) (outcomes : List UpgradeOutcome)
    → sum (
        map
          (λ key.
            if same_status s key
            then suc (count_status key outcomes)
            else count_status key outcomes)
          order)
      ≡ suc (sum (counts outcomes))
unfolding counts same_status
sum_step updated outcomes = omega arith
sum_step current outcomes = omega arith
sum_step refreshed outcomes = omega arith
sum_step skipped outcomes = omega arith
sum_step failed outcomes = omega arith

-- The counts of the summary add up to the number of outcomes: each outcome is counted, once.
pub counts-length : (outcomes : List UpgradeOutcome) → sum (counts outcomes) ≡ length outcomes
unfolding counts count_status
counts-length [] = refl
counts-length (o ∷ outcomes) = sum_step o.status outcomes ∙ ap suc (counts-length outcomes)

same_status-failed : (s : Status) → same_status s failed ≡ is_failed s
unfolding same_status
same_status-failed updated = refl
same_status-failed current = refl
same_status-failed refreshed = refl
same_status-failed skipped = refl
same_status-failed failed = refl

any-count_status :
    (outcomes : List UpgradeOutcome)
    → any (λ o. is_failed o.status) outcomes ≡ not (nat_eq (count_status failed outcomes) 0)
unfolding any count_status
any-count_status [] = refl
any-count_status (o ∷ outcomes) =
    rw (same_status-failed o.status) (ground (arith, any-count_status outcomes))

-- The exit code is 0 exactly where the summary counts no failure.
pub exit_code-count_status :
    (outcomes : List UpgradeOutcome) → (exit_code outcomes ≡ 0) ↔ (count_status failed outcomes ≡ 0)
unfolding exit_code
exit_code-count_status outcomes = rw (any-count_status outcomes) (ground arith)
