-- ===== src/Executor/Configured.antt =====
-- Executing an action that finds the machine configured.
use dasik.Base.{String, false, ◌≡◌, refl, Option, none, some, Dict, Json, obj, end}
use dasik.Effects.{ok, ◌>>=◌}
use dasik.Effects.Laws.{
  OnOk, ReadsOnly, ReadsOnly-pure, ReadsOnly-bind, ReadsOnly-bind_on, ReadsOnly-try_except,
}
use dasik.Executor.Registry.{InstallAction, InstallClass, ActionMeta, validate_config}
use dasik.Executor.Running.{
  name_of_class, run_if_needed, run_action, section_of, run_validated, execute_action,
}

-- The class builds its actions without a change to the machine, and those it builds find that they
-- are not needed.
pub record IsConfigured {S : Type 0} (cls : InstallClass S) : Type 0 where
  pub builds : (config : Json) → ReadsOnly (cls.construct config)
  pub answers :
      (config : Json) (s : S)
      → OnOk
          (λ (action : InstallAction S). (t : S) → action.is_needed t ≡ (ok false, t))
          (cls.construct config s).0

module _ {S : Type 0} where
  not_needed-ReadsOnly :
      (name : String) (action : InstallAction S)
      → ((t : S) → action.is_needed t ≡ (ok false, t))
      → ReadsOnly (do needed ← action.is_needed; run_if_needed name action needed)
  unfolding run_if_needed
  not_needed-ReadsOnly name action h = record { same = λ s. rw (h s) refl }

  run_validated-ReadsOnly :
      (config : Dict Json) (meta : ActionMeta S) (name : String) (invalid : Option String)
      → IsConfigured meta.cls
      → ReadsOnly (run_validated config meta name invalid)
  unfolding run_validated run_action
  run_validated-ReadsOnly config meta name (some e) h = ReadsOnly-pure _
  run_validated-ReadsOnly config meta name none h =
      ReadsOnly-try_except _ _
        (ReadsOnly-bind_on
          (λ (action : InstallAction S). (t : S) → action.is_needed t ≡ (ok false, t))
          (meta.cls.construct (section_of config meta)) _ (h.builds (section_of config meta))
          (h.answers (section_of config meta))
          (λ action quiet. not_needed-ReadsOnly name action quiet))
        (λ e. ReadsOnly-pure _)

  -- Where building an action changes nothing, and what is built answers that it is not needed and
  -- changes nothing by that, executing the action leaves the machine as it was, whether its config
  -- is valid or not.
  pub execute_action-ReadsOnly :
      (config : Dict Json) (meta : ActionMeta S)
      → IsConfigured meta.cls
      → ReadsOnly (execute_action config meta)
  unfolding execute_action name_of_class
  execute_action-ReadsOnly config meta h =
      ReadsOnly-bind (name_of_class meta.cls) _
        (ReadsOnly-try_except _ _
          (ReadsOnly-bind (meta.cls.construct (obj end)) _ (h.builds (obj end))
            (λ action. ReadsOnly-pure _))
          (λ e. ReadsOnly-pure _))
        (λ name. run_validated-ReadsOnly config meta name (validate_config config meta) h)
