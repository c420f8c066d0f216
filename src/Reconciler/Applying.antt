-- ===== src/Reconciler/Applying.antt =====
-- Reconciler.apply: the gate in front of destructive changes, the actions in order, the record of
-- what was done, and the hooks after it.
pub mod Gate
pub mod Laws
pub mod Recorded
use dasik.Base.{
  String, Bool, true, false, not, ◌&&◌, Option, none, some, List, [], ◌∷◌, ◌++◌, ◌==◌,
  if◌then◌else◌, is_empty as empty_list, Dict, Json, length,
}
use dasik.Effects.{Exn, Result, ok, raise, Exec, pure, throw, modify, try_except, ◌>>=◌, ◌>>◌}
use dasik.State.Change.{Change, Plan, is_empty, destructive_changes}
use dasik.State.StateStore.{Manifest}
use dasik.Reconciler.Interface.{Action, ActionPlanResult, Reconciler}
use dasik.Reconciler.Manifests.{
  World, Message, live_host, no_terminal, aborted_at_prompt, hook_failed, on_sys, put_sys,
  build_new_manifest, persist,
}
use Gate.{Answer, typed, end_of_file, keyboard_interrupt, is_yes}

abbrev pub say : {S : Type 0} → Message → Exec (World S) (Unit {0})
say message = modify (λ w. record w { messages = w.messages ++ message ∷ [] })

module _ {S : Type 0} where
  -- An action that raises ends the loop, with what completed before it.
  abbrev pub unless_raised :
      Result (Unit {0})
      → List (ActionPlanResult S)
      → S
      → (Result (Unit {0}) × List (ActionPlanResult S)) × S
      → (Result (Unit {0}) × List (ActionPlanResult S)) × S
  unless_raised (ok _) completed s rest = rest
  unless_raised (raise e) completed s rest = ((raise e, completed), s)

  -- for result in results: result.action.apply(result.changes); completed.append(result)
  unfoldable pub apply_each :
      List (ActionPlanResult S)
      → List (ActionPlanResult S)
      → S
      → (Result (Unit {0}) × List (ActionPlanResult S)) × S
  apply_each [] completed s = ((ok tt, completed), s)
  apply_each (result ∷ results) completed s =
      let (r, s') = result.action.apply result.changes s in
      unless_raised r completed s' (apply_each results (completed ++ result ∷ []) s')

  -- An action without a hook is passed over; a hook that raises an Exception is only reported.
  unfoldable pub finalize_hook : String → Option (Exec S (Unit {0})) → Exec (World S) (Unit {0})
  finalize_hook name none = pure tt
  finalize_hook name (some hook) = try_except (on_sys hook) (λ e. say (hook_failed name e))

  unfoldable pub finalize_each : List (ActionPlanResult S) → Exec (World S) (Unit {0})
  finalize_each [] = pure tt
  finalize_each (result ∷ results) = do
    finalize_hook result.action.name result.action.finalize_apply
    finalize_each results

module _ {S : Type 0} (hash : Dict Json → String) (now : String) (self : Reconciler S) where
  -- The handler of an apply that failed: what completed is recorded as partial, and it raises again.
  unfoldable pub record_failure : List (ActionPlanResult S) → Exn → Exec (World S) (Option Manifest)
  record_failure completed e = do
    partial_manifest ← on_sys (build_new_manifest hash now self completed true)
    modify (persist self partial_manifest)
    throw e

  -- After every action has succeeded: record first, then run the hooks.
  unfoldable pub record_success :
      List (ActionPlanResult S) → List (ActionPlanResult S) → Exec (World S) (Option Manifest)
  record_success results completed = do
    new_manifest ← on_sys (build_new_manifest hash now self results false)
    modify (persist self new_manifest)
    finalize_each completed
    pure (some new_manifest)

  unfoldable pub conclude :
      List (ActionPlanResult S)
      → Result (Unit {0}) × List (ActionPlanResult S)
      → Exec (World S) (Option Manifest)
  conclude results (ok _, completed) = record_success results completed
  conclude results (raise e, completed) = record_failure completed e

  unfoldable pub execute_results : List (ActionPlanResult S) → Exec (World S) (Option Manifest)
  execute_results results w =
      let (outcome, s) = apply_each results [] w.sys in conclude results outcome (put_sys s w)

  unfoldable pub ask : List (ActionPlanResult S) → Answer → Exec (World S) (Option Manifest)
  ask results (typed line) = if is_yes line then execute_results results else pure none
  ask results end_of_file = do say no_terminal; pure none
  ask results keyboard_interrupt = do say aborted_at_prompt; pure none

  -- Reconciler.apply. `answer` is what the prompt gets, if it is shown.
  unfoldable pub apply :
      Plan → List (ActionPlanResult S) → Bool → Answer → Exec (World S) (Option Manifest)
  unfolding ask
  apply plan results assume_yes answer =
      let destructive = destructive_changes plan in
      if is_empty plan then pure none else do
        (if not (empty_list destructive) && self.root == "/"
            then say (live_host (length destructive))
            else pure tt)
        (if not (empty_list destructive) && not assume_yes
            then ask results answer
            else execute_results results)
