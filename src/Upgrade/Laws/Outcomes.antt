-- ===== src/Upgrade/Laws/Outcomes.antt =====
-- What running one step of the upgrade yields.
use dasik.Base.{
  String, false, ◌≡◌, inl, inr, refl, Option, none, some, List, [], ◌∷◌, arith, Bool-cases,
  Option-cases, nat_eq,
}
use dasik.Effects.{Exec}
use dasik.Effects.Laws.{CalmWith, OkWith, CalmWith-and_then, OkWith-try_except}
use dasik.Commands.{CommandResult}
use dasik.Upgrade.Steps.{UpgradeStep, UpgradeOutcome, skipped}
use dasik.Upgrade.Runner.{
  outcome, judge, execute_step, finish, run_commands, failure_of, unless_failed, run_one,
}
use dasik.Upgrade.Output.{failure_line}
use dasik.Upgrade.Summary.{same_status}

-- No interrupt leaves the code, in any state.
abbrev pub IsCalm : {S A : Type 0} → Exec S A → Type 0
IsCalm {S = S} m = (s : S) → CalmWith (λ _. Unit) (m s).0

abbrev pub Returns : {S A : Type 0} → Exec S A → Type 0
Returns {S = S} m = (s : S) → OkWith (λ _. Unit) (m s).0

-- The step's own readings are calm.
abbrev pub IsCalmStep : {S : Type 0} → UpgradeStep S → Type 0
IsCalmStep step = IsCalm step.version × IsCalm step.fingerprint

-- An outcome of a step that ran: it is about the step's item, which was not skipped.
abbrev pub Ran : String → UpgradeOutcome → Type 0
Ran item o = (o.item ≡ item) × (same_status o.status skipped ≡ false)

abbrev RanIfSome : String → Option UpgradeOutcome → Type 0
RanIfSome item none = Unit
RanIfSome item (some o) = Ran item o

judge-Ran :
    (item : String) (before after print_before print_after : Option String)
    → Ran item (judge item before after print_before print_after)
unfolding judge outcome same_status
judge-Ran item before after print_before print_after = (ground arith, ground arith)

module _ {S : Type 0} (execute : String → String → List String → Exec S CommandResult)
    (type_name : String) where
  failure_of-Ran :
      (step : UpgradeStep S) (before : Option String) (result : CommandResult)
      → RanIfSome step.item (failure_of step before result)
  unfolding failure_of outcome same_status
  failure_of-Ran step before result = elim (Bool-cases (nat_eq result.returncode 0)) [
    | inl z ↦ elim (Option-cases (failure_line result step.failure_text)) [
      | inl e ↦ rw z (rw e tt)
      | inr (line, e) ↦ rw z (rw e (refl, refl))
    ]
    | inr z ↦ rw z (refl, refl)
  ]

  unless_failed-Ran :
      (item : String) (failure : Option UpgradeOutcome) (rest : Exec S (Option UpgradeOutcome))
      (s : S)
      → RanIfSome item failure
      → CalmWith (RanIfSome item) (rest s).0
      → CalmWith (RanIfSome item) (unless_failed failure rest s).0
  unfolding unless_failed
  unless_failed-Ran item (some failure) rest s h k = h
  unless_failed-Ran item none rest s h k = k

  module _
      (calm : (user script : String) (args : List String) → IsCalm (execute user script args)) where
    run_commands-Ran :
        (step : UpgradeStep S) (before : Option String) (commands : List (String × List String))
        (s : S)
        → CalmWith (RanIfSome step.item) (run_commands execute type_name step before commands s).0
    unfolding run_commands
    run_commands-Ran step before [] s = tt
    run_commands-Ran step before ((script, args) ∷ commands) s =
        let (r, t) = execute step.user script args s in
        CalmWith-and_then (λ _. Unit) (RanIfSome step.item) r
          (λ result.
            unless_failed (failure_of step before result)
              (run_commands execute type_name step before commands))
          t (calm step.user script args s)
          (λ result _.
            unless_failed-Ran step.item (failure_of step before result)
              (run_commands execute type_name step before commands) t
              (failure_of-Ran step before result) (run_commands-Ran step before commands t))

    finish-Ran :
        (step : UpgradeStep S) (before print_before : Option String)
        (failure : Option UpgradeOutcome) (s : S)
        → IsCalmStep step
        → RanIfSome step.item failure
        → CalmWith (Ran step.item) (finish step before print_before failure s).0
    unfolding finish
    finish-Ran step before print_before (some failure) s h ran = ran
    finish-Ran step before print_before none s h ran =
        let (r, t) = step.version s in
        CalmWith-and_then (λ _. Unit) (Ran step.item) r _ t (h.0 s)
          (λ after _.
            let (p, u) = step.fingerprint t in
            CalmWith-and_then (λ _. Unit) (Ran step.item) p _ u (h.1 t)
              (λ print_after _. judge-Ran step.item before after print_before print_after))

    execute_step-Ran :
        (step : UpgradeStep S) (s : S)
        → IsCalmStep step
        → CalmWith (Ran step.item) (execute_step execute type_name step s).0
    unfolding execute_step
    execute_step-Ran step s h =
        let (r, t) = step.version s in
        CalmWith-and_then (λ _. Unit) (Ran step.item) r _ t (h.0 s)
          (λ before _.
            let (p, u) = step.fingerprint t in
            CalmWith-and_then (λ _. Unit) (Ran step.item) p _ u (h.1 t)
              (λ print_before _.
                let (c, v) = run_commands execute type_name step before step.commands u in
                CalmWith-and_then (RanIfSome step.item) (Ran step.item) c _ v
                  (run_commands-Ran step before step.commands u)
                  (λ failure ran. finish-Ran step before print_before failure v h ran)))

    pub run_one-Ran :
        (step : UpgradeStep S) (s : S)
        → IsCalmStep step
        → OkWith (Ran step.item) (run_one execute type_name step s).0
    unfolding run_one outcome same_status
    run_one-Ran step s h =
        OkWith-try_except (Ran step.item) (execute_step execute type_name step) _ s
          (execute_step-Ran step s h) (λ message t. (refl, refl))
