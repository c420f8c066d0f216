-- ===== src/Upgrade/Laws/Reports.antt =====
-- One failure never stops a run of the upgrade, and a step behind a failed one runs nothing.
use dasik.Base.{
  String, Bool, true, false, ◌||◌, ◌≡◌, inl, inr, refl, sym, Option, none, some, List, [], ◌∷◌,
  arith, Bool-cases, Option-cases, is_some, All,
}
use dasik.Effects.{Exec, ◌>>=◌}
use dasik.Effects.Laws.{ReadsOnly, ReadsOnly-pure, OkWith, OkWith-and_then}
use dasik.Commands.{CommandResult}
use dasik.Upgrade.Steps.{UpgradeStep, UpgradeOutcome, skipped}
use dasik.Upgrade.Runner.{
  outcome, unless_skipped, run_one, outcome_of, after_failed, notify, add_failed, run_each,
  run_steps,
}
use dasik.Upgrade.Summary.{same_status}
use dasik.Upgrade.Laws.Outcomes.{IsCalm, Returns, IsCalmStep, Ran, run_one-Ran}

-- A step that is not run: one behind a failed step, or one with a reason to be skipped.
abbrev pub is_held : {S : Type 0} → List String → UpgradeStep S → Bool
is_held failed_items step = after_failed failed_items step.after || is_some step.skip

-- One outcome for each step, in their order and about their items, where exactly the steps that are
-- held back are skipped. `failed_items` are the items that failed before.
abbrev pub IsReport :
    {S : Type 0} → List String → List (UpgradeStep S) → List UpgradeOutcome → Type 0
IsReport failed_items [] [] = Unit
IsReport failed_items (step ∷ steps) (o ∷ outcomes) =
    (o.item ≡ step.item)
    × (same_status o.status skipped ≡ is_held failed_items step)
    × IsReport (add_failed failed_items step o) steps outcomes
IsReport failed_items _ _ = false ≡ true

module _ {S : Type 0} where
  unless_skipped-ok :
      (item : String) (skip : Option String) (run : Exec S UpgradeOutcome) (s : S) (held : Bool)
      → held ≡ is_some skip
      → OkWith (Ran item) (run s).0
      → OkWith
          (λ o. (o.item ≡ item) × (same_status o.status skipped ≡ held))
          (unless_skipped item skip run s).0
  unfolding unless_skipped outcome same_status
  unless_skipped-ok item (some reason) run s held e h = (refl, sym e)
  unless_skipped-ok item none run s held e h = rw e h

module _ {S : Type 0} (execute : String → String → List String → Exec S CommandResult)
    (type_name : String) (when_start : Option (UpgradeStep S → Exec S (Unit {0})))
    (when_done : Option (UpgradeOutcome → Exec S (Unit {0}))) where
  abbrev Answers : List String → UpgradeStep S → UpgradeOutcome → Type 0
  Answers failed_items step o =
      (o.item ≡ step.item) × (same_status o.status skipped ≡ is_held failed_items step)

  -- A step that is held back changes nothing: neither its commands nor its readings run.
  pub outcome_of-ReadsOnly :
      (failed_items : List String) (step : UpgradeStep S)
      → is_held failed_items step ≡ true
      → ReadsOnly (outcome_of execute type_name when_start failed_items step)
  unfolding outcome_of unless_skipped
  outcome_of-ReadsOnly failed_items step h =
      elim (Bool-cases (after_failed failed_items step.after)) [
        | inl b ↦
            rw b (ReadsOnly-pure (outcome step.item skipped none none "marketplace refresh failed"))
        | inr b ↦ elim (Option-cases step.skip) [
          | inl e ↦ absurd (ground arith)
          | inr (reason, e) ↦
              rw b (rw e (ReadsOnly-pure (outcome step.item skipped none none reason)))
        ]
      ]

  module _ (calm : (user script : String) (args : List String) → IsCalm (execute user script args))
      (starts : (step : UpgradeStep S) → Returns (notify when_start step))
      (dones : (o : UpgradeOutcome) → Returns (notify when_done o)) where
    outcome_of-Answers :
        (failed_items : List String) (step : UpgradeStep S) (s : S)
        → IsCalmStep step
        → OkWith
            (Answers failed_items step)
            (outcome_of execute type_name when_start failed_items step s).0
    unfolding outcome_of outcome same_status
    outcome_of-Answers failed_items step s h =
        elim (Bool-cases (after_failed failed_items step.after)) [
          | inl b ↦ rw b (refl, ground arith)
          | inr b ↦ rw b (
              unless_skipped-ok step.item step.skip
                (do _ ← notify when_start step; run_one execute type_name step) s
                (is_held failed_items step) (ground arith)
                (let (d, t) = notify when_start step s in
                  OkWith-and_then (λ _. Unit) (Ran step.item) d _ t (starts step s)
                    (λ _ _. run_one-Ran execute type_name calm step t h)))
        ]

    run_each-IsReport :
        (failed_items : List String) (steps : List (UpgradeStep S)) (s : S)
        → All IsCalmStep steps
        → OkWith
            (IsReport failed_items steps)
            (run_each execute type_name when_start when_done failed_items steps s).0
    unfolding run_each
    run_each-IsReport failed_items [] s h = tt
    run_each-IsReport failed_items (step ∷ steps) s h =
        let (r, t) = outcome_of execute type_name when_start failed_items step s in
        OkWith-and_then (Answers failed_items step) (IsReport failed_items (step ∷ steps)) r _ t
          (outcome_of-Answers failed_items step s h.0)
          (λ o answers.
            let (d, u) = notify when_done o t in
            OkWith-and_then (λ _. Unit) (IsReport failed_items (step ∷ steps)) d _ u (dones o t)
              (λ _ _.
                let (q, v) =
                  run_each execute type_name when_start when_done (add_failed failed_items step o)
                    steps u in
                OkWith-and_then (IsReport (add_failed failed_items step o) steps)
                  (IsReport failed_items (step ∷ steps)) q _ v
                  (run_each-IsReport (add_failed failed_items step o) steps u h.1)
                  (λ rest report. (answers.0, answers.1, report))))

    -- Where no interrupt leaves the commands and the readings of the steps, and the callbacks return,
    -- a run of the upgrade returns, whatever fails or raises, with one outcome for each step, in the
    -- steps' order. Skipped are exactly the steps that have a reason to be, and those that come after
    -- an item that failed.
    pub run_steps-IsReport :
        (steps : List (UpgradeStep S)) (s : S)
        → All IsCalmStep steps
        → OkWith (IsReport [] steps) (run_steps execute type_name steps when_start when_done s).0
    unfolding run_steps
    run_steps-IsReport steps s h = run_each-IsReport [] steps s h
