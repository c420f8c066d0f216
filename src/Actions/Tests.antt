-- ===== src/Actions/Tests.antt =====
-- A scalar action whose value is the whole state, and a record of two fields.
use dasik.Base.{
  Json, Dict, get, num, fields_of, json_eq, join, concat, insert, sorted_set, select, field_get,
  field_count, String, true, false, ◌≡◌, refl, Option, none, some, [], ◌∷◌, str,
}
use dasik.Effects.{Exec, ok, pure}
use dasik.State.Change.{change, modify, is_destructive_op}
use dasik.Actions.Scalar.{
  ScalarHooks, scalar_action, plan, compare_value, apply, managed_keys, import_state,
  value_or_desired, fragment, is_set, same_value, set_change,
}
use dasik.Actions.Composite.{
  CompositeHooks, composite_plan, compare_states, changed_fields, item_of, same_state,
}
use dasik.Actions.Scalar.Laws.{CanSet, plan_apply_plan, plan_apply_plan-converges}

read_value : Exec (Option String) (Option String)
read_value s = (ok s, s)

write_value : Exec (Option String) (Unit {0})
write_value s = (ok tt, some "Europe/Madrid")

abbrev timezone : ScalarHooks (Option String)
timezone = record {
  name = "Timezone";
  domain = "timezone";
  desired_value = pure (some "Europe/Madrid");
  actual_value = read_value;
  set_value = write_value;
  import_fragment = λ v. ("timezone", str v) ∷ [];
  has_target = true;
}

program : Unit {0}
unfolding scalar_action plan compare_value apply managed_keys import_state value_or_desired fragment
    is_set same_value set_change change is_destructive_op
program = tt

plan_of_timezone :
    (scalar_action timezone).plan [] (some "UTC")
    ≡ (ok (change "timezone" modify "Europe/Madrid" "set" false ∷ []), some "UTC")
unfolding program read_value
plan_of_timezone = refl

import_of_timezone :
    (scalar_action timezone).import_state [] none
    ≡ (ok (some (("timezone", str "Europe/Madrid") ∷ [])), none)
unfolding program read_value
import_of_timezone = refl

can_set : CanSet timezone "Europe/Madrid"
unfolding read_value write_value
can_set = record {
  not_empty = refl;
  target = refl;
  desires = λ s. refl;
  reads = λ s. (s, refl);
  sets = λ s. (some "Europe/Madrid", refl, refl);
}

plan_apply_plan-converges_example :
    (t : Option String) × (plan_apply_plan timezone "Europe/Madrid" can_set [] (some "UTC")
      ≡ (ok [], t))
    × (read_value t ≡ (ok (some "Europe/Madrid"), t))
plan_apply_plan-converges_example =
    plan_apply_plan-converges timezone "Europe/Madrid" can_set [] (some "UTC")

abbrev wanted : Dict Json
wanted = ("size", num 4) ∷ ("algorithm", str "zstd") ∷ []

abbrev found : Dict Json
found = ("algorithm", str "lzo") ∷ ("size", num 4) ∷ []

abbrev zram : Dict Json → CompositeHooks (Dict Json)
zram state = record {
  domain = "zram";
  desired_state = pure wanted;
  actual_state = pure (some state);
}

composite : Unit {0}
unfolding composite_plan compare_states changed_fields item_of same_state json_eq field_get
    field_count join concat select sorted_set insert get fields_of change is_destructive_op
composite = tt

plan_of_zram :
    composite_plan (zram found) found
    ≡ (ok (change "zram" modify "algorithm" "config" false ∷ []), found)
unfolding composite
plan_of_zram = refl
