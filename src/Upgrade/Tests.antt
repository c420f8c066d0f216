-- ===== src/Upgrade/Tests.antt =====
-- A run of the upgrade over three items, of which the first fails.
use dasik.Base.{
  ℕ, String, ◌≡◌, ◌↔◌, suc, refl, none, some, Option, List, [], ◌∷◌, any, mem, ◌==◌, if◌then◌else◌,
  is_space, mem_number,
}
use dasik.Effects.{exception, ok, Exec, pure, throw, try_except}
use dasik.Effects.Laws.{OkWith}
use dasik.Commands.{
  is_in, CommandResult, strip, strip_left, strip_right, first_line, lines_of, ends_line,
}
use dasik.Upgrade.Steps.{UpgradeStep, UpgradeOutcome, current, skipped, failed}
use dasik.Upgrade.Output.{failure_line, output_of, sub_ansi, advance, advance_plain, first_match}
use dasik.Upgrade.Runner.{
  outcome, judge, differ, both, execute_step, finish, run_commands, failure_of, unless_failed,
  unless_skipped, run_one, outcome_of, after_failed, add_failed, run_each, run_steps, first_of,
}
use dasik.Upgrade.Summary.{exit_code, exit_code-count_status, count_status}
use dasik.Upgrade.Laws.Verdicts.{IsJudged, judge-IsJudged}
use dasik.Upgrade.Laws.Reports.{IsReport, run_steps-IsReport}

-- The state counts the commands that have run. The script `fail` exits with 1.
execute : String → String → List String → Exec ℕ CommandResult
execute user script args n = (
  ok (record {
    returncode = if script == "fail" then 1 else 0;
    stdout = "";
    stderr = "no network\n";
  }),
  suc n,
)

-- The version of what the state says.
version : Exec ℕ (Option String)
version n = (ok (some "2"), n)

-- A reading that raises
broken : Exec ℕ (Option String)
broken = throw (exception "no such tool\nat line 3")

abbrev step : String → String → Option String → Exec ℕ (Option String) → UpgradeStep ℕ
step item script after version = record {
  domain = "ai";
  item = item;
  user = "root";
  commands = (script, []) ∷ [];
  skip = none;
  version = version;
  fingerprint = pure none;
  after = after;
  failure_text = [];
}

abbrev steps : List (UpgradeStep ℕ)
steps =
    step "market" "fail" none version
    ∷ step "plugin" "install" (some "market") version
    ∷ step "tool" "install" none broken
    ∷ step "editor" "install" none version
    ∷ []

abbrev failed_market : UpgradeOutcome
failed_market = outcome "market" failed (some "2") none "no network"

program : Unit {0}
unfolding outcome judge differ both execute_step finish run_commands failure_of unless_failed
    unless_skipped run_one outcome_of after_failed add_failed run_each run_steps first_of strip
    strip_left strip_right first_line failure_line output_of lines_of sub_ansi advance advance_plain
    ends_line is_in first_match try_except mem any is_space mem_number
program = tt

run_of_steps : (run_steps execute "Exception" steps none none 0) ≡ (
  ok (
      failed_market
      ∷ outcome "plugin" skipped none none "marketplace refresh failed"
      ∷ outcome "tool" failed none none "no such tool"
      ∷ outcome "editor" current (some "2") (some "2") ""
      ∷ []),
  2,
)
unfolding program execute version broken
run_of_steps = refl

run_steps-IsReport_example :
    OkWith (IsReport [] steps) (run_steps execute "Exception" steps none none 0).0
unfolding execute version broken
run_steps-IsReport_example =
    run_steps-IsReport execute "Exception" none none (λ user script args s. tt) (λ _ s. tt)
      (λ _ s. tt) steps 0
      ((λ s. tt, λ s. tt), ((λ s. tt, λ s. tt), ((λ s. tt, λ s. tt), ((λ s. tt, λ s. tt), tt))))

judge-IsJudged_example :
    IsJudged (judge "editor" (some "1") (some "2") none none).status (some "1") (some "2") none none
judge-IsJudged_example = judge-IsJudged "editor" (some "1") (some "2") none none

exit_code-count_status_example :
    (exit_code (failed_market ∷ []) ≡ 0) ↔ (count_status failed (failed_market ∷ []) ≡ 0)
exit_code-count_status_example = exit_code-count_status (failed_market ∷ [])
