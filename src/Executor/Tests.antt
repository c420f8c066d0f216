-- ===== src/Executor/Tests.antt =====
-- Three registered actions, of which one fails, one is optional and absent, and one has run before.
use dasik.Base.{
  ℕ, String, Bool, true, false, ◌≡◌, refl, suc, none, List, [], ◌∷◌, mem, Dict, Json, str, get,
  fields_of, select, concat, join,
}
use dasik.Effects.{exception, ok, raise, Exec, pure, try_except}
use dasik.Effects.Laws.{OkWith}
use dasik.Executor.Registry.{
  InstallAction, ActionMeta, validate_config, missing_fields, missing_in, missing, complain,
}
use dasik.Executor.Running.{
  result, success, skipped, failed, not_needed, name_of_class, finalize, verified, run_if_needed,
  run_action, section_of, run_validated, execute_action, execute_each, execute_all,
}
use dasik.Executor.Configured.{IsConfigured}
use dasik.Executor.Laws.{execute_all-IsExecution, IsExecution, IsCalm, IsCalmAction}

-- The state counts the executions.
abbrev action : String → Bool → Exec ℕ (Unit {0}) → InstallAction ℕ
action name needed run = record {
  name = name;
  is_needed = pure needed;
  execute = run;
  finalize_apply = none;
  verify = pure true;
}

abbrev meta : String → Bool → Bool → Exec ℕ (Unit {0}) → ActionMeta ℕ
meta name optional needed run = record {
  cls = record { class_name = name; construct = λ config. pure (action name needed run) };
  config_key = name;
  is_optional = optional;
  required_fields = [];
  depends_on = [];
}

abbrev runs : Exec ℕ (Unit {0})
runs n = (ok tt, suc n)

abbrev breaks : Exec ℕ (Unit {0})
breaks n = (raise (exception "no space left"), suc n)

abbrev config : Dict Json
config = ("disks", str "sda") ∷ ("locale", str "C") ∷ ("users", str "me") ∷ []

abbrev metas : List (ActionMeta ℕ)
metas =
    meta "disks" false true breaks
    ∷ meta "zram" true true runs
    ∷ meta "locale" false false breaks
    ∷ meta "users" false true runs
    ∷ []

program : Unit {0}
unfolding execute_all execute_each execute_action run_validated section_of run_action run_if_needed
    verified finalize name_of_class validate_config missing_fields missing_in missing complain
    concat join get fields_of select mem try_except
program = tt

results_of_metas : execute_all config [] metas 0 ≡ (
  ok (
    result "disks" failed "no space left"
        ∷ result "zram" skipped "Optional section 'zram' not found in config"
        ∷ result "locale" not_needed "Already configured"
        ∷ result "users" success ""
        ∷ [],
    false,
  ),
  2,
)
unfolding program
results_of_metas = refl

calm :
    (name : String) (needed : Bool) (run : Exec ℕ (Unit {0}))
    → IsCalm run
    → IsCalmAction (action name needed run)
calm name needed run h = ((λ t. tt), h, tt, (λ t. tt))

execute_all-IsExecution_example :
    OkWith (IsExecution config metas []) (execute_all config [] metas 0).0
execute_all-IsExecution_example = execute_all-IsExecution config [] metas 0 (
  (λ c s. calm "disks" true breaks (λ t. tt)),
  (
    (λ c s. calm "zram" true runs (λ t. tt)),
    (
      (λ c s. calm "locale" false breaks (λ t. tt)),
      ((λ c s. calm "users" true runs (λ t. tt)), tt),
    ),
  ),
)

configured : IsConfigured (meta "locale" false false breaks).cls
configured = record { builds = λ c. record { same = λ s. refl }; answers = λ c s t. refl }
