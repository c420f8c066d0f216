-- ===== src/Executor/Laws.antt =====
-- What a run of the registered actions reports.
use mathlib.Core.List.{append_assoc, append-nil}
use dasik.Base.{
  String, Bool, true, false, not, ◌&&◌, ◌≡◌, refl, sym, ◌∙◌, inl, inr, Option, none, some, List, [],
  ◌∷◌, ◌++◌, if◌then◌else◌, is_some, All, any, Dict, Json, obj, end, arith, Bool-cases,
}
use dasik.Effects.{Exec, pure, ◌>>=◌}
use dasik.Effects.Laws.{
  CalmWith, OkWith, CalmWith-and_then, OkWith-and_then, OkWith-try_except, OkWith-CalmWith,
  OkWith-weaken,
}
use dasik.Executor.Registry.{InstallAction, InstallClass, ActionMeta, validate_config}
use dasik.Executor.Running.{
  skipped, ActionResult, has_failed, name_of_class, finalize, verified, run_if_needed, run_action,
  section_of, run_validated, execute_action, execute_each, execute_all,
}

-- No interrupt leaves the code, in any state.
abbrev pub IsCalm : {S A : Type 0} → Exec S A → Type 0
IsCalm {S = S} m = (s : S) → CalmWith (λ _. Unit) (m s).0

abbrev IsCalmHook : {S : Type 0} → Option (Exec S (Unit {0})) → Type 0
IsCalmHook none = Unit
IsCalmHook (some hook) = IsCalm hook

-- No interrupt leaves a method of the action.
abbrev pub IsCalmAction : {S : Type 0} → InstallAction S → Type 0
IsCalmAction action =
    IsCalm action.is_needed
    × IsCalm action.execute
    × IsCalmHook action.finalize_apply
    × IsCalm action.verify

abbrev pub IsCalmClass : {S : Type 0} → InstallClass S → Type 0
IsCalmClass {S = S} cls = (config : Json) (s : S) → CalmWith IsCalmAction (cls.construct config s).0

abbrev pub is_skipped : ActionResult → Bool
is_skipped r = elim r.status [ skipped ↦ true | _ ↦ false ]

-- The result of a registered action: it is skipped exactly where the action is optional and its
-- config is not valid, and failed where the config of any other action is not valid.
abbrev pub IsResult : {S : Type 0} → Dict Json → ActionMeta S → ActionResult → Type 0
IsResult config meta r =
    (is_skipped r ≡ (is_some (validate_config config meta) && meta.is_optional))
    × ((is_some (validate_config config meta) && (not meta.is_optional && not (has_failed r)))
        ≡ false)

-- One result for each action, in their order.
abbrev pub AreResults : {S : Type 0} → Dict Json → List (ActionMeta S) → List ActionResult → Type 0
AreResults config [] [] = Unit
AreResults config (meta ∷ metas) (r ∷ rs) = IsResult config meta r × AreResults config metas rs
AreResults config _ _ = false ≡ true

abbrev NotSkipped : ActionResult → Type 0
NotSkipped r = is_skipped r ≡ false

-- What holds of a result, given what the validation said.
abbrev Fits : Bool → Option String → ActionResult → Type 0
Fits optional invalid r =
    (is_skipped r ≡ (is_some invalid && optional))
    × ((is_some invalid && (not optional && not (has_failed r))) ≡ false)

module _ {S : Type 0} where
  finalize-calm :
      (hook : Option (Exec S (Unit {0}))) (s : S)
      → IsCalmHook hook
      → OkWith (λ _. Unit) (finalize hook s).0
  unfolding finalize
  finalize-calm none s h = tt
  finalize-calm (some hook) s h =
      OkWith-try_except (λ _. Unit) hook (λ _. pure tt) s (h s) (λ e t. tt)

  verified-NotSkipped :
      (name : String) (holds : Bool) (s : S) → CalmWith NotSkipped (verified {S = S} name holds s).0
  unfolding verified
  verified-NotSkipped name true s = refl
  verified-NotSkipped name false s = tt

  run_if_needed-NotSkipped :
      (name : String) (action : InstallAction S) (needed : Bool) (s : S)
      → IsCalmAction action
      → CalmWith NotSkipped (run_if_needed name action needed s).0
  unfolding run_if_needed
  run_if_needed-NotSkipped name action false s h = refl
  run_if_needed-NotSkipped name action true s (needs, executes, finalizes, verifies) =
      let (r, t) = action.execute s in
      CalmWith-and_then (λ _. Unit) NotSkipped r _ t (executes s)
        (λ _ _.
          let (f, u) = finalize action.finalize_apply t in
          CalmWith-and_then (λ _. Unit) NotSkipped f _ u
            (OkWith-CalmWith (λ _. Unit) f (finalize-calm action.finalize_apply t finalizes))
            (λ _ _.
              let (v, w) = action.verify u in
              CalmWith-and_then (λ _. Unit) NotSkipped v _ w (verifies u)
                (λ holds _. verified-NotSkipped name holds w)))

  run_action-NotSkipped :
      (name : String) (cls : InstallClass S) (action_config : Json) (s : S)
      → IsCalmClass cls
      → OkWith NotSkipped (run_action name cls action_config s).0
  unfolding run_action
  run_action-NotSkipped name cls action_config s h =
      OkWith-try_except NotSkipped
        (do
          action ← cls.construct action_config
          needed ← action.is_needed
          run_if_needed name action needed)
        _ s
        (let (r, t) = cls.construct action_config s in
          CalmWith-and_then IsCalmAction NotSkipped r _ t (h action_config s) (λ action calm.
            let (n, u) = action.is_needed t in
            CalmWith-and_then (λ _. Unit) NotSkipped n _ u (calm.0 t)
              (λ needed _. run_if_needed-NotSkipped name action needed u calm)))
        (λ error_msg t. refl)

  run_validated-Fits :
      (config : Dict Json) (meta : ActionMeta S) (name : String) (invalid : Option String) (s : S)
      → IsCalmClass meta.cls
      → OkWith (Fits meta.is_optional invalid) (run_validated config meta name invalid s).0
  unfolding run_validated
  run_validated-Fits config meta name none s h =
      OkWith-weaken NotSkipped (Fits meta.is_optional none) _
        (run_action-NotSkipped name meta.cls (section_of config meta) s h) (λ r n. (n, refl))
  run_validated-Fits config meta name (some e) s h = elim (Bool-cases meta.is_optional) [
    | inl b ↦ rw b (refl, refl)
    | inr b ↦ rw b (refl, refl)
  ]

  name_of_class-Returns :
      (cls : InstallClass S) (s : S) → IsCalmClass cls → OkWith (λ _. Unit) (name_of_class cls s).0
  unfolding name_of_class
  name_of_class-Returns cls s h =
      OkWith-try_except (λ _. Unit) (do action ← cls.construct (obj end); pure action.name) _ s
        (let (r, t) = cls.construct (obj end) s in
          CalmWith-and_then IsCalmAction (λ _. Unit) r _ t (h (obj end) s) (λ action calm. tt))
        (λ e t. tt)

  execute_action-IsResult :
      (config : Dict Json) (meta : ActionMeta S) (s : S)
      → IsCalmClass meta.cls
      → OkWith (IsResult config meta) (execute_action config meta s).0
  unfolding execute_action
  execute_action-IsResult config meta s h =
      let (r, t) = name_of_class meta.cls s in
      OkWith-and_then (λ _. Unit) (IsResult config meta) r _ t (name_of_class-Returns meta.cls s h)
        (λ name _. run_validated-Fits config meta name (validate_config config meta) t h)

  -- The results behind those of before, and what the flag says of them.
  abbrev Extends :
      Dict Json → List (ActionMeta S) → List ActionResult → Bool → List ActionResult × Bool → Type 0
  Extends config metas before fine (all_results, all_fine) =
      (new : List ActionResult) × AreResults config metas new
      × (all_results ≡ before ++ new)
      × (all_fine ≡ (fine && not (any has_failed new)))

  Extends-cons :
      (config : Dict Json) (meta : ActionMeta S) (metas : List (ActionMeta S))
      (before : List ActionResult) (fine : Bool) (r : ActionResult)
      (final : List ActionResult × Bool)
      → IsResult config meta r
      → Extends config metas (before ++ r ∷ []) (if has_failed r then false else fine) final
      → Extends config (meta ∷ metas) before fine final
  unfolding any
  Extends-cons config meta metas before fine r final h (new, are, e, f) =
      (r ∷ new, (h, are), e ∙ append_assoc before (r ∷ []) new, f ∙ ground arith)

  execute_each-Extends :
      (config : Dict Json) (before : List ActionResult) (fine : Bool) (metas : List (ActionMeta S))
      (s : S)
      → All (λ (meta : ActionMeta S). IsCalmClass meta.cls) metas
      → OkWith (Extends config metas before fine) (execute_each config before fine metas s).0
  unfolding execute_each any
  execute_each-Extends config before fine [] s h = ([], tt, sym (append-nil before), ground arith)
  execute_each-Extends config before fine (meta ∷ metas) s h =
      let (r, t) = execute_action config meta s in
      OkWith-and_then (IsResult config meta) (Extends config (meta ∷ metas) before fine) r _ t
        (execute_action-IsResult config meta s h.0)
        (λ new_result is.
          OkWith-weaken
            (Extends config metas (before ++ new_result ∷ [])
              (if has_failed new_result then false else fine))
            (Extends config (meta ∷ metas) before fine) _
            (execute_each-Extends config (before ++ new_result ∷ [])
              (if has_failed new_result then false else fine) metas t h.1)
            (λ final extends.
              Extends-cons config meta metas before fine new_result final is extends))

  -- What execute_all returns: the results of before, then one result for each action, and whether
  -- none of the new ones failed.
  abbrev pub IsExecution :
      Dict Json → List (ActionMeta S) → List ActionResult → List ActionResult × Bool → Type 0
  IsExecution config metas before (results, fine) =
      (new : List ActionResult) × AreResults config metas new
      × (results ≡ before ++ new)
      × (fine ≡ not (any has_failed new))

  -- Where no interrupt leaves the actions, execute_all runs to its end whatever fails: it adds one
  -- result for each registered action, in their order, and returns True exactly where none of them
  -- failed. Skipped are exactly the optional actions whose config is not valid; a required one
  -- fails there.
  pub execute_all-IsExecution :
      (config : Dict Json) (before : List ActionResult) (metas : List (ActionMeta S)) (s : S)
      → All (λ (meta : ActionMeta S). IsCalmClass meta.cls) metas
      → OkWith (IsExecution config metas before) (execute_all config before metas s).0
  unfolding execute_all
  execute_all-IsExecution config before metas s h =
      execute_each-Extends config before true metas s h
