-- ===== src/Executor/Running.antt =====
-- dasik/lib/actions/action_executor.py: one action after the other, each on its own.
use dasik.Base.{
  String, Bool, true, false, Option, none, some, List, [], ◌∷◌, ◌++◌, if◌then◌else◌, Dict, get_or,
  get, Json, obj, end, fields_of, ◌==◌,
}
use dasik.Effects.{Exec, pure, throw, exception, try_except, ◌>>=◌}
use dasik.Executor.Registry.{InstallAction, InstallClass, ActionMeta, is_root, validate_config}

pub data ResultStatus : Type 0 where
  success skipped failed not_needed : ResultStatus

pub record ActionResult : Type 0 where
  pub name : String
  pub status : ResultStatus
  pub message : String

abbrev pub result : String → ResultStatus → String → ActionResult
result name status message = record { name = name; status = status; message = message }

-- result.status == 'failed'
abbrev pub has_failed : ActionResult → Bool
has_failed r = elim r.status [ failed ↦ true | _ ↦ false ]

module _ {S : Type 0} where
  -- The name of the action, from an instance for an empty config.
  unfoldable pub name_of_class : InstallClass S → Exec S String
  name_of_class cls =
      try_except (do action ← cls.construct (obj end); pure action.name) (λ _. pure cls.class_name)

  -- An action without a hook inherits one that does nothing; an Exception in it is only logged.
  unfoldable pub finalize : Option (Exec S (Unit {0})) → Exec S (Unit {0})
  finalize none = pure tt
  finalize (some hook) = try_except hook (λ _. pure tt)

  unfoldable pub verified : String → Bool → Exec S ActionResult
  verified name true = pure (result name success "")
  verified name false = throw (exception "Verification failed after execution")

  unfoldable pub run_if_needed : String → InstallAction S → Bool → Exec S ActionResult
  run_if_needed name action false = pure (result name not_needed "Already configured")
  run_if_needed name action true = do
    _ ← action.execute
    _ ← finalize action.finalize_apply
    holds ← action.verify
    verified name holds

  -- The second half of _execute_action, once the config is valid.
  unfoldable pub run_action : String → InstallClass S → Json → Exec S ActionResult
  run_action name cls action_config =
      try_except
        (do
          action ← cls.construct action_config
          needed ← action.is_needed
          run_if_needed name action needed)
        (λ error_msg. pure (result name failed error_msg))

  -- self.config, or self.config.get(config_key, {})
  unfoldable pub section_of : Dict Json → ActionMeta S → Json
  unfolding get
  section_of config meta =
      if is_root meta then obj (fields_of config) else get_or config meta.config_key (obj end)

  unfoldable pub run_validated :
      Dict Json → ActionMeta S → String → Option String → Exec S ActionResult
  run_validated config meta name none = run_action name meta.cls (section_of config meta)
  run_validated config meta name (some error_msg) = pure (
      result name (if meta.is_optional then skipped else failed)
        (if error_msg == "" then "Configuration validation failed" else error_msg))

  -- _execute_action
  unfoldable pub execute_action : Dict Json → ActionMeta S → Exec S ActionResult
  execute_action config meta = do
    action_name ← name_of_class meta.cls
    run_validated config meta action_name (validate_config config meta)

  -- The loop of execute_all: self.results, and whether every action was fine.
  unfoldable pub execute_each :
      Dict Json → List ActionResult → Bool → List (ActionMeta S) → Exec S (List ActionResult × Bool)
  execute_each config results fine [] = pure (results, fine)
  execute_each config results fine (meta ∷ metas) = do
    r ← execute_action config meta
    execute_each config (results ++ r ∷ []) (if has_failed r then false else fine) metas

  -- execute_all
  unfoldable pub execute_all :
      Dict Json → List ActionResult → List (ActionMeta S) → Exec S (List ActionResult × Bool)
  execute_all config results metas = execute_each config results true metas
