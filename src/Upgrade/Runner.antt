-- ===== src/Upgrade/Runner.antt =====
-- dasik/lib/upgrade/runner.py: running the steps. `execute user script args` is the run of a script
-- as a user by the command worker, with what it reports; `type_name` is the name of the class of an
-- exception whose text is empty.
use dasik.Base.{
  String, Bool, true, false, not, Option, none, some, List, [], ◌∷◌, nat_eq, mem, if◌then◌else◌,
  ◌==◌,
}
use dasik.Effects.{Exec, pure, try_except, ◌>>=◌}
use dasik.Commands.{CommandResult, strip, first_line}
use dasik.Upgrade.Steps.{
  UpgradeStep, UpgradeOutcome, Status, updated, current, refreshed, skipped, failed, is_failed,
}
use dasik.Upgrade.Output.{failure_line, output_of}

-- UpgradeOutcome with the defaults of its last two fields
unfoldable pub outcome : String → Status → Option String → Option String → String → UpgradeOutcome
outcome item status before after detail = record {
  item = item;
  status = status;
  before = before;
  after = after;
  detail = detail;
  contents = none;
}

-- a is not None and b is not None and a != b
unfoldable pub differ : Option String → Option String → Bool
differ (some a) (some b) = not (a == b)
differ _ _ = false

unfoldable pub both : Option String → Option String → Bool
both (some a) (some b) = true
both _ _ = false

-- The end of _execute, when every command went well.
unfoldable pub judge :
    String → Option String → Option String → Option String → Option String → UpgradeOutcome
unfolding outcome differ both
judge item before after print_before print_after =
    if differ before after
    then outcome item updated before after ""
    else if both print_before print_after
    then record {
      item = item;
      status = if differ print_before print_after then updated else current;
      before = before;
      after = after;
      detail = "";
      contents = some (if differ print_before print_after then "changed" else "unchanged");
    }
    else outcome item (if both before after then current else refreshed) before after ""

unfoldable pub after_failed : List String → Option String → Bool
after_failed failed_items none = false
after_failed failed_items (some item) = mem item failed_items

module _ {S : Type 0} where
  -- What one command's result means: a failure, or to go on.
  unfoldable pub failure_of : UpgradeStep S → Option String → CommandResult → Option UpgradeOutcome
  unfolding outcome failure_line output_of
  failure_of step before result =
      if nat_eq result.returncode 0
      then elim (failure_line result step.failure_text) [
        | some line ↦ some (outcome step.item failed before none line)
        | none ↦ none
      ]
      else some (outcome step.item failed before none (output_of result))

  unfoldable pub unless_failed :
      Option UpgradeOutcome → Exec S (Option UpgradeOutcome) → Exec S (Option UpgradeOutcome)
  unless_failed (some failure) rest = pure (some failure)
  unless_failed none rest = rest

  unfoldable pub finish :
      UpgradeStep S → Option String → Option String → Option UpgradeOutcome → Exec S UpgradeOutcome
  finish step before print_before (some failure) = pure failure
  finish step before print_before none = do
    after ← step.version
    print_after ← step.fingerprint
    pure (judge step.item before after print_before print_after)

  -- step.skip is not None: a skipped outcome in place of the run
  unfoldable pub unless_skipped :
      String → Option String → Exec S UpgradeOutcome → Exec S UpgradeOutcome
  unless_skipped item (some reason) run = pure (outcome item skipped none none reason)
  unless_skipped item none run = run

  unfoldable pub add_failed : List String → UpgradeStep S → UpgradeOutcome → List String
  add_failed failed_items step o =
      if is_failed o.status then step.item ∷ failed_items else failed_items

  abbrev pub notify : {A : Type 0} → Option (A → Exec S (Unit {0})) → A → Exec S (Unit {0})
  notify none a = pure tt
  notify (some callback) a = callback a

module _ {S : Type 0} (execute : String → String → List String → Exec S CommandResult)
    (type_name : String) where
  -- The loop over the commands: the first failure ends it.
  unfoldable pub run_commands :
      UpgradeStep S → Option String → List (String × List String) → Exec S (Option UpgradeOutcome)
  run_commands step before [] = pure none
  run_commands step before ((script, args) ∷ commands) = do
    result ← execute step.user script args
    unless_failed (failure_of step before result) (run_commands step before commands)

  -- _execute
  unfoldable pub execute_step : UpgradeStep S → Exec S UpgradeOutcome
  execute_step step = do
    before ← step.version
    print_before ← step.fingerprint
    failure ← run_commands step before step.commands
    finish step before print_before failure

  -- The text of an exception in the report.
  unfoldable pub first_of : String → String
  unfolding strip first_line
  first_of message = let text = strip message in if text == "" then type_name else first_line text

  -- _run_one
  unfoldable pub run_one : UpgradeStep S → Exec S UpgradeOutcome
  run_one step =
      try_except (execute_step step)
        (λ message. pure (outcome step.item failed none none (first_of message)))

  -- The body of the loop of run_steps, up to the outcome.
  unfoldable pub outcome_of :
      Option (UpgradeStep S → Exec S (Unit {0}))
      → List String
      → UpgradeStep S
      → Exec S UpgradeOutcome
  outcome_of when_start failed_items step =
      if after_failed failed_items step.after
      then pure (outcome step.item skipped none none "marketplace refresh failed")
      else unless_skipped step.item step.skip (do _ ← notify when_start step; run_one step)

  unfoldable pub run_each :
      Option (UpgradeStep S → Exec S (Unit {0}))
      → Option (UpgradeOutcome → Exec S (Unit {0}))
      → List String
      → List (UpgradeStep S)
      → Exec S (List UpgradeOutcome)
  run_each when_start when_done failed_items [] = pure []
  run_each when_start when_done failed_items (step ∷ steps) = do
    o ← outcome_of when_start failed_items step
    _ ← notify when_done o
    rest ← run_each when_start when_done (add_failed failed_items step o) steps
    pure (o ∷ rest)

  -- run_steps
  unfoldable pub run_steps :
      List (UpgradeStep S)
      → Option (UpgradeStep S → Exec S (Unit {0}))
      → Option (UpgradeOutcome → Exec S (Unit {0}))
      → Exec S (List UpgradeOutcome)
  unfolding run_each
  run_steps steps when_start when_done = run_each when_start when_done [] steps
