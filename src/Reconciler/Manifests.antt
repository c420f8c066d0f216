-- ===== src/Reconciler/Manifests.antt =====
-- Reconciler._build_new_manifest and _persist. The clock and the hash of the serialised
-- configuration are parameters.
pub mod Laws
use dasik.Base.{
  ℕ, ◌+◌, String, Bool, true, false, Option, none, some, List, [], ◌∷◌, ◌++◌, if◌then◌else◌, Dict,
  update, Json,
}
use dasik.Effects.{Exn, exception, Result, ok, raise, Exec, pure, throw, lift, modify, ◌>>=◌, ◌>>◌}
use dasik.State.StateStore.{Manifest, Directory, save, to_dict, state_version}
use dasik.State.GenerationStore.{Generations, new}
use dasik.Reconciler.Interface.{Action, ActionPlanResult, Reconciler}
use dasik.Reconciler.Planning.{managed_of}

-- What is printed to stderr or logged: the warning on the number of destructive changes to the live
-- host, the two ways in which the prompt ends without an answer, a failed hook of an action, and an
-- action that `sync` skips.
pub data Message : Type 0 where
  live_host : ℕ → Message
  no_terminal aborted_at_prompt : Message
  hook_failed : String → String → Message
  sync_skipped : String → Message

-- The machine with what dasik keeps on it, and the messages so far.
pub record World (S : Type 0) : Type 0 where
  pub sys : S
  pub generations : Generations
  pub state : Directory
  pub messages : List Message

abbrev pub put_sys : {S : Type 0} → S → World S → World S
put_sys s w = record w { sys = s }

-- A step of an action, which cannot reach dasik's own records.
abbrev pub on_sys : {S A : Type 0} → Exec S A → Exec (World S) A
on_sys m w = let (r, s) = m w.sys in (r, put_sys s w)

-- (self._manifest or {}).get("action_state", {})
unfoldable pub action_state_of : Option Manifest → Dict Json
action_state_of none = []
action_state_of (some m) = m.action_state

unfoldable pub previous_generation : Option Manifest → ℕ
previous_generation none = 0
previous_generation (some m) = m.generation

-- `managed_keys()` must be a dict.
unfoldable pub require_dict : Option (Dict Json) → Result (Dict Json)
require_dict none = raise (exception "managed_keys() must return a dict")
require_dict (some d) = ok d

-- A `state_metadata()` that is no dict is passed over.
unfoldable pub update_if_dict : Dict Json → Option (Dict Json) → Dict Json
update_if_dict d none = d
update_if_dict d (some e) = update d e

module _ {S : Type 0} where
  -- The loop over the results.
  unfoldable pub collect :
      List (ActionPlanResult S) → Dict Json → Dict Json → Exec S (Dict Json × Dict Json)
  unfolding require_dict update_if_dict
  collect [] managed action_state = pure (managed, action_state)
  collect (result ∷ results) managed action_state = do
    answer ← result.action.managed_keys
    owned ← lift (require_dict answer)
    state ← result.action.state_metadata
    collect results (update managed owned) (update_if_dict action_state state)

module _ {S : Type 0} (hash : Dict Json → String) (now : String) where
  unfoldable pub manifest_of : Reconciler S → Bool → Dict Json × Dict Json → Manifest
  unfolding previous_generation
  manifest_of self partial (managed, action_state) = record {
    version = state_version;
    generation = previous_generation self.manifest + 1;
    applied_at = some now;
    config_hash = some (hash self.config);
    managed = managed;
    action_state = action_state;
    partial = partial;
  }

  -- Reconciler._build_new_manifest
  unfoldable pub build_new_manifest :
      Reconciler S → List (ActionPlanResult S) → Bool → Exec S Manifest
  unfolding managed_of action_state_of
  build_new_manifest self results partial = do
    collected ←
        collect results (if partial then managed_of self.manifest else [])
          (if partial then action_state_of self.manifest else [])
    pure (manifest_of self partial collected)

-- Reconciler._persist
unfoldable pub persist : {S : Type 0} → Reconciler S → Manifest → World S → World S
persist self m w =
    let recorded =
      (if self.has_generation_store
        then record w { generations = (new self.config (to_dict m) w.generations).1 }
        else w) in
    if self.has_state_store then record recorded { state = save m recorded.state } else recorded
