-- ===== src/Reconciler/Applying/Laws.antt =====
-- The gate of `apply`, and the order in which the actions run.
use mathlib.Core.List.{append_assoc, append-nil}
use dasik.Base.{
  String, ◌≡◌, refl, ◌∙◌, ap, sym, Bool, true, false, not, ◌&&◌, ◌||◌, none, List, [], ◌∷◌, ◌++◌,
  arith, is_empty as empty_list, Dict, Json,
}
use dasik.Effects.{Exn, Result, ok, raise}
use dasik.State.Change.{Plan, is_empty, destructive_changes}
use dasik.Reconciler.Interface.{ActionPlanResult, Reconciler}
use dasik.Reconciler.Manifests.{World}
use dasik.Reconciler.Applying.{unless_raised, apply_each, apply}
use dasik.Reconciler.Applying.Gate.{Answer, typed, is_yes}

-- The answer consents only if it is a line that says yes.
abbrev pub consents : Answer → Bool
consents (typed line) = is_yes line
consents _ = false

-- Nothing to do, or destructive changes to which nobody consented.
abbrev pub is_refused : Plan → Bool → Answer → Bool
is_refused plan assume_yes answer =
    is_empty plan
    || (not (empty_list (destructive_changes plan)) && (not assume_yes && not (consents answer)))

module _ {S : Type 0} (hash : Dict Json → String) (now : String) (self : Reconciler S)
    (results : List (ActionPlanResult S)) where
  -- Where the plan is empty, or has destructive changes to which neither `assume_yes` nor the answer
  -- consents, apply returns None and leaves the system, the generations and the manifest alone.
  pub apply_refused :
      (plan : Plan) (assume_yes : Bool) (answer : Answer) (w : World S)
      → is_refused plan assume_yes answer ≡ true
      → ((apply hash now self plan results assume_yes answer w).0 ≡ ok none)
        × ((apply hash now self plan results assume_yes answer w).1.sys ≡ w.sys)
        × ((apply hash now self plan results assume_yes answer w).1.generations ≡ w.generations)
        × ((apply hash now self plan results assume_yes answer w).1.state ≡ w.state)
  unfolding apply
  apply_refused plan assume_yes answer w h =
      (ground arith, ground arith, ground arith, ground arith)

-- A run of the actions in their order from a state: the outcome, the actions that completed, and
-- the state at the end. An action that raises ends the run.
pub data Run {S : Type 0}
    : List (ActionPlanResult S)
      → S
      → Result (Unit {0})
      → List (ActionPlanResult S)
      → S
      → Type 0 where
  finished : (s : S) → Run [] s (ok tt) [] s
  applied :
      {result : ActionPlanResult S} {results completed : List (ActionPlanResult S)} {s t u : S}
      {outcome : Result (Unit {0})}
      → result.action.apply result.changes s ≡ (ok tt, t)
      → Run results t outcome completed u
      → Run (result ∷ results) s outcome (result ∷ completed) u
  failed :
      {result : ActionPlanResult S} {results : List (ActionPlanResult S)} {s t : S} {e : Exn}
      → result.action.apply result.changes s ≡ (raise e, t)
      → Run (result ∷ results) s (raise e) [] t

module _ {S : Type 0} where
  -- The loop's answer is a run, with what completed behind `before`.
  abbrev IsRun :
      List (ActionPlanResult S)
      → List (ActionPlanResult S)
      → S
      → (Result (Unit {0}) × List (ActionPlanResult S)) × S
      → Type 0
  IsRun results before s ((outcome, all), t) =
      (completed : List (ActionPlanResult S)) × Run results s outcome completed t
      × (all ≡ before ++ completed)

  IsRun-unless_raised :
      (result : ActionPlanResult S) (results before : List (ActionPlanResult S)) (s : S)
      (r : Result (Unit {0})) (t : S) (rest : (Result (Unit {0}) × List (ActionPlanResult S)) × S)
      → result.action.apply result.changes s ≡ (r, t)
      → IsRun results (before ++ result ∷ []) t rest
      → IsRun (result ∷ results) before s (unless_raised r before t rest)
  IsRun-unless_raised result results before s (ok _) t rest e (completed, run, all) =
      (result ∷ completed, applied e run, all ∙ append_assoc before (result ∷ []) completed)
  IsRun-unless_raised result results before s (raise x) t rest e h =
      ([], failed e, sym (append-nil before))

  apply_each-IsRun :
      (results before : List (ActionPlanResult S)) (s : S)
      → IsRun results before s (apply_each results before s)
  unfolding apply_each
  apply_each-IsRun [] before s = ([], finished s, sym (append-nil before))
  apply_each-IsRun (result ∷ results) before s =
      let (r, t) = result.action.apply result.changes s in
      IsRun-unless_raised result results before s r t (apply_each results (before ++ result ∷ []) t)
        refl (apply_each-IsRun results (before ++ result ∷ []) t)

  -- The loop of apply is a run of the actions in their order that ends at the first one that raises,
  -- and the actions it lists as completed are those that the run completed.
  pub apply_each-Run :
      (results : List (ActionPlanResult S)) (s : S)
      → Run results s
          (apply_each results [] s).0.0
          (apply_each results [] s).0.1
          (apply_each results [] s).1
  apply_each-Run results s = let (completed, run, all) = apply_each-IsRun results [] s in rw all run

  -- A run that ended normally completed every action.
  pub Run-all :
      {results completed : List (ActionPlanResult S)} {s t : S} {outcome : Result (Unit {0})}
      → Run results s outcome completed t
      → outcome ≡ ok tt
      → completed ≡ results
  Run-all (finished s) h = refl
  Run-all (applied {result = r} e run) h = ap (◌∷◌ r) (Run-all run h)
  Run-all (failed e) h = cc
