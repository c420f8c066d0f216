-- ===== src/Reconciler/Syncing.antt =====
-- Reconciler.sync: reading the machine back into the configuration, and what dasik owns afterwards.
pub mod Laws
use dasik.Base.{
  String, Bool, true, false, not, ◌&&◌, Option, none, some, List, [], ◌∷◌, ◌++◌, map, ◌==◌,
  if◌then◌else◌, mem, sorted_set, Dict, get, put, update, Json, null, bool, num, str, arr, obj, nil,
  items_of,
}
use dasik.Effects.{
  Exn, exception, Result, ok, raise, Exec, pure, lift, modify, read, try_except, focus, ◌>>=◌, ◌>>◌,
}
use dasik.State.SetMath.{meet}
use dasik.State.ConfigWriter.{merge}
use dasik.State.StateStore.{Manifest, save, state_version}
use dasik.Reconciler.Interface.{Context, Action, ActionClass, Meta, Reconciler}
use dasik.Reconciler.Planning.{
  py_list, managed_of, get_or_nil, config_slice, context_of, domain_for, managed_for,
}
use dasik.Reconciler.Manifests.{World, Message, sync_skipped, action_state_of, previous_generation}

-- set(v) for a list v: lists and dicts cannot be members. Only the texts can meet a set of texts.
unfoldable pub text_set : List Json → Result (List String)
text_set [] = ok []
text_set (str s ∷ xs) = and_cons s (text_set xs)
  where
    and_cons : String → Result (List String) → Result (List String)
    and_cons s (ok l) = ok (s ∷ l)
    and_cons s (raise e) = raise e
text_set (arr a ∷ xs) = raise (exception "unhashable type")
text_set (obj o ∷ xs) = raise (exception "unhashable type")
text_set (x ∷ xs) = text_set xs

-- What the loop of `sync` has so far, beside the machine.
pub record Sync (S : Type 0) : Type 0 where
  pub sys : S
  pub fragments : Dict Json
  pub new_managed : Dict Json
  pub saw_v3 : Bool
  pub messages : List Message

abbrev pub put_sys : {S : Type 0} → S → Sync S → Sync S
put_sys s t = record t { sys = s }

abbrev pub on_sys : {S A : Type 0} → Exec S A → Exec (Sync S) A
on_sys m t = let (r, s) = m t.sys in (r, put_sys s t)

unfoldable pub keys_of_domain : String → Option (Dict Json) → Result Json
unfolding get_or_nil
keys_of_domain domain none = raise (exception "object has no attribute 'get'")
keys_of_domain domain (some d) = ok (get_or_nil d domain)

module _ {S : Type 0} where
  -- set(owner.managed_keys().get(domain, [])), and the empty set if that raises
  unfoldable pub declared_by : Action S → String → Exec S (List String)
  unfolding keys_of_domain py_list text_set
  declared_by owner domain =
      try_except
        (do
          answer ← owner.managed_keys
          value ← lift (keys_of_domain domain answer)
          items ← lift (py_list value)
          lift (text_set items))
        (λ _. pure [])

  -- Reconciler._owned_after_sync
  unfoldable pub owned_after_sync : Action S → String → Dict Json → Exec S (List String)
  owned_after_sync owner domain managed_all = do
    actual ← owner.actual
    owned ← managed_for owner managed_all
    claimable ← lift (text_set owned)
    declared ← declared_by owner domain
    pure (sorted_set (meet actual (claimable ++ declared)))

  unfoldable pub update_fragments : Option (Dict Json) → Sync S → Sync S
  update_fragments none t = t
  update_fragments (some fragment) t = record t { fragments = update t.fragments fragment }

  unfoldable pub record_owned : Action S → Dict Json → Option String → Exec (Sync S) (Unit {0})
  record_owned owner managed_all none = pure tt
  record_owned owner managed_all (some domain) = do
    owned ← on_sys (owned_after_sync owner domain managed_all)
    modify
        (λ t. record t { new_managed = put t.new_managed domain (arr (items_of (map str owned))) })

  -- The `try` block of one action.
  unfoldable pub capture : Action S → Action S → Dict Json → List Json → Exec (Sync S) (Unit {0})
  unfolding update_fragments
  capture action owner managed_all managed = do
    fragment ← on_sys (action.import_state managed)
    modify (update_fragments fragment)
    domain ← on_sys (domain_for action)
    record_owned owner managed_all domain

  -- Reconciler._owner_action
  unfoldable pub owner_of_slice : ActionClass S → Context → Option Json → Exec S (Option (Action S))
  owner_of_slice cls context none = pure none
  owner_of_slice cls context (some slice) =
      try_except (do a ← cls.construct slice (some context); pure (some a)) (λ _. pure none)

  unfoldable pub owner_action : Reconciler S → Meta S → Context → Exec S (Option (Action S))
  owner_action self meta context = elim self.owned_config [
    | none ↦ pure none
    | some owned ↦ owner_of_slice meta.cls context (config_slice owned meta.config_key)
  ]

  -- An absent section is captured from the empty configuration.
  unfoldable pub slice_or_empty : Reconciler S → Meta S → Json
  unfolding config_slice
  slice_or_empty self meta = elim (config_slice self.config meta.config_key) [
    | none ↦ meta.cls.empty_config
    | some slice ↦ slice
  ]

  -- `owner or action`
  abbrev pub or_action : Option (Action S) → Action S → Action S
  or_action none action = action
  or_action (some owner) action = owner

  -- The round of the loop for a v3 action.
  unfoldable pub sync_v3 : Reconciler S → Meta S → Exec (Sync S) (Unit {0})
  sync_v3 self meta = do
    modify (λ t. record t { saw_v3 = true })
    action ← on_sys (meta.cls.construct (slice_or_empty self meta) (some (context_of self)))
    owner ← on_sys (owner_action self meta (context_of self))
    managed ← on_sys (managed_for action (managed_of self.manifest))
    try_except (capture action (or_action owner action) (managed_of self.manifest) managed)
        (λ e. modify (λ t. record t { messages = t.messages ++ sync_skipped e ∷ [] }))

  unfoldable pub sync_action : Reconciler S → Meta S → Exec (Sync S) (Unit {0})
  sync_action self meta = if not meta.cls.is_v3 then pure tt else sync_v3 self meta

  unfoldable pub sync_metas : Reconciler S → List (Meta S) → Exec (Sync S) (Unit {0})
  sync_metas self [] = pure tt
  sync_metas self (meta ∷ metas) = do sync_action self meta; sync_metas self metas

module _ {S : Type 0} (hash : Dict Json → String) (now : String) (self : Reconciler S) where
  abbrev pub start : World S → Sync S
  start w = record {
    sys = w.sys;
    fragments = [];
    new_managed = [];
    saw_v3 = false;
    messages = w.messages;
  }

  abbrev pub finish : Sync S → World S → World S
  finish t w = record w { sys = t.sys; messages = t.messages }

  unfoldable pub synced_manifest : Sync S → Manifest
  unfolding action_state_of previous_generation
  synced_manifest t = record {
    version = state_version;
    generation = previous_generation self.manifest;
    applied_at = some now;
    config_hash = some (hash (merge self.config t.fragments));
    managed = t.new_managed;
    action_state = action_state_of self.manifest;
    partial = false;
  }

  -- Without a v3 action the configuration is returned as it is and nothing is saved.
  unfoldable pub conclude_sync :
      Result (Unit {0}) → Sync S → World S → Result (Dict Json × Option Manifest) × World S
  unfolding synced_manifest
  conclude_sync (raise e) t w = (raise e, finish t w)
  conclude_sync (ok _) t w = if not t.saw_v3 then (ok (self.config, none), finish t w) else (
    ok (merge self.config t.fragments, some (synced_manifest t)),
    if self.has_state_store
        then record (finish t w) { state = save (synced_manifest t) w.state }
        else finish t w,
  )

  -- Reconciler.sync
  unfoldable pub sync : Exec (World S) (Dict Json × Option Manifest)
  sync w = let (r, t) = sync_metas self self.metas (start w) in conclude_sync r t w
