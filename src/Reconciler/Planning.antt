-- ===== src/Reconciler/Planning.antt =====
-- Reconciler.build_plan and its helpers.
pub mod Laws
use Prim.Native.String
use dasik.Base.{
  String, Bool, true, false, not, Option, none, some, List, [], ◌∷◌, ◌++◌, map, ◌==◌, if◌then◌else◌,
  any, Dict, get, keys, Json, null, bool, num, str, arr, nil, obj, list_of, dict_of, truthy,
  fields_of,
}
use dasik.Effects.{
  Exn, exception, Result, ok, raise, Exec, pure, throw, lift, try_except, ◌>>=◌, ◌>>◌,
}
use dasik.State.Change.{Change, Plan, empty_plan, extend}
use dasik.State.StateStore.{Manifest}
use dasik.Reconciler.Interface.{Context, Action, ActionClass, Meta, ActionPlanResult, Reconciler}

-- The characters of a text, each as a text.
letters : String → List Json
letters String.[] = []
letters (String.◌∷◌ c s) = str (String.◌∷◌ c String.[]) ∷ letters s

-- list(v)
unfoldable pub py_list : Json → Result (List Json)
unfolding letters
py_list (arr xs) = ok (list_of xs)
py_list (obj fs) = ok (map str (keys (dict_of fs)))
py_list (str s) = ok (letters s)
py_list _ = raise (exception "object is not iterable")

-- (self._manifest or {}).get("managed", {})
unfoldable pub managed_of : Option Manifest → Dict Json
managed_of none = []
managed_of (some m) = m.managed

-- d.get(key, [])
unfoldable pub get_or_nil : Dict Json → String → Json
get_or_nil d k = elim (get d k) [ none ↦ arr nil | some v ↦ v ]

-- A null section is as absent as a missing one.
unfoldable pub present : Option Json → Option Json
present (some null) = none
present o = o

-- self._config, or self._config.get(config_key)
unfoldable pub config_slice : Dict Json → String → Option Json
unfolding present
config_slice config key =
    if key == "__root__" then some (obj (fields_of config)) else present (get config key)

-- The key of a dict with one key.
unfoldable pub single_domain : Option (Dict Json) → Result (Option String)
single_domain none = ok none
single_domain (some []) = ok none
single_domain (some ((k, v) ∷ [])) = ok (some k)
single_domain (some (e ∷ f ∷ d)) = raise (exception "multi-domain actions are not supported")

unfoldable pub managed_in : Dict Json → Option String → Result (List Json)
unfolding py_list get_or_nil
managed_in managed_all none = ok []
managed_in managed_all (some domain) = py_list (get_or_nil managed_all domain)

-- any(managed_all.get(k) for k in keys)
unfoldable pub owns_any : Dict Json → Option (Dict Json) → Bool
owns_any managed_all none = false
owns_any managed_all (some d) =
    any (λ k. elim (get managed_all k) [ none ↦ false | some v ↦ truthy v ]) (keys d)

module _ {S : Type 0} where
  -- Reconciler._domain_for
  unfoldable pub domain_for : Action S → Exec S (Option String)
  unfolding single_domain
  domain_for action = do managed ← action.managed_keys; lift (single_domain managed)

  -- Reconciler._managed_for
  unfoldable pub managed_for : Action S → Dict Json → Exec S (List Json)
  unfolding domain_for managed_in
  managed_for action managed_all = do
    domain ← domain_for action
    lift (managed_in managed_all domain)

  -- Reconciler._any_managed_for
  unfoldable pub any_managed_for : ActionClass S → Dict Json → Exec S Bool
  unfolding owns_any
  any_managed_for cls managed_all =
      try_except
        (do
          probe ← cls.construct cls.empty_config none
          k ← probe.managed_keys
          pure (owns_any managed_all k))
        (λ _.
          try_except (do probe ← cls.bare; k ← probe.managed_keys; pure (owns_any managed_all k))
            (λ _. pure false))

  unfoldable pub context_of : Reconciler S → Context
  context_of self = record {
    root = self.root;
    manifest = self.manifest;
    assume_yes = self.assume_yes;
  }

  -- The rest of the round for an action that is not skipped.
  unfoldable pub plan_with :
      Reconciler S → ActionClass S → Json → Exec S (Option (ActionPlanResult S))
  unfolding context_of managed_for managed_of
  plan_with self cls action_config = do
    action ← cls.construct action_config (some (context_of self))
    managed ← managed_for action (managed_of self.manifest)
    changes ← action.plan managed
    pure (some (record { action = action; changes = changes }))

  -- A section that is absent: skipped, unless the class owns something to clean up.
  unfoldable pub plan_absent : Reconciler S → ActionClass S → Exec S (Option (ActionPlanResult S))
  unfolding any_managed_for managed_of plan_with
  plan_absent self cls = do
    owned ← any_managed_for cls (managed_of self.manifest)
    if owned then plan_with self cls cls.empty_config else pure none

  unfoldable pub plan_slice :
      Reconciler S → ActionClass S → Option Json → Exec S (Option (ActionPlanResult S))
  plan_slice self cls none = plan_absent self cls
  plan_slice self cls (some action_config) = plan_with self cls action_config

  -- One round of the loop; `none` is `continue`.
  unfoldable pub plan_action : Reconciler S → Meta S → Exec S (Option (ActionPlanResult S))
  unfolding config_slice
  plan_action self meta =
      if not meta.cls.is_v3
      then pure none
      else plan_slice self meta.cls (config_slice self.config meta.config_key)

  -- plan.extend(changes); results.append(...)
  unfoldable pub append_result :
      Plan × List (ActionPlanResult S)
      → Option (ActionPlanResult S)
      → Plan × List (ActionPlanResult S)
  unfolding extend
  append_result acc none = acc
  append_result (plan, results) (some r) = (extend plan r.changes, results ++ r ∷ [])

  unfoldable pub plan_metas :
      Reconciler S
      → List (Meta S)
      → Plan × List (ActionPlanResult S)
      → Exec S (Plan × List (ActionPlanResult S))
  plan_metas self [] acc = pure acc
  plan_metas self (meta ∷ metas) acc = do
    result ← plan_action self meta
    plan_metas self metas (append_result acc result)

  -- Reconciler.build_plan
  unfoldable pub build_plan : Reconciler S → Exec S (Plan × List (ActionPlanResult S))
  unfolding plan_metas
  build_plan self = plan_metas self self.metas (empty_plan, [])
