-- ===== src/Reconciler/Manifests/Laws.antt =====
-- What a new manifest says, and that no domain is lost on the way into it.
use dasik.Base.{
  ◌+◌, String, ◌≡◌, refl, Bool, true, some, List, [], ◌∷◌, arith, mem, Dict, put, update, keys,
  Json, mem-keys-put,
}
use dasik.Effects.{ok}
use dasik.Effects.Laws.{OnOk, OnOk-and_then, OnOk-and_then_on, OnOk-eq}
use dasik.State.StateStore.{Manifest}
use dasik.Reconciler.Interface.{ActionPlanResult, Reconciler}
use dasik.Reconciler.Planning.{managed_of}
use dasik.Reconciler.Manifests.{
  action_state_of, previous_generation, require_dict, update_if_dict, collect, manifest_of,
  build_new_manifest,
}

mem-keys-update :
    {V : Type 0} (e d : Dict V) (k : String)
    → mem k (keys d) ≡ true
    → mem k (keys (update d e)) ≡ true
unfolding update
mem-keys-update [] d k h = h
mem-keys-update ((j, v) ∷ e) d k h =
    mem-keys-update e (put d j v) k (ground (arith, mem-keys-put d j v k))

-- The domain is among the managed ones.
abbrev Has : String → Dict Json × Dict Json → Type 0
Has k (managed, action_state) = mem k (keys managed) ≡ true

module _ {S : Type 0} (k : String) where
  collect-Has :
      (results : List (ActionPlanResult S)) (managed action_state : Dict Json) (s : S)
      → mem k (keys managed) ≡ true
      → OnOk (Has k) (collect results managed action_state s).0
  unfolding collect
  collect-Has [] managed action_state s h = h
  collect-Has (result ∷ results) managed action_state s h =
      OnOk-and_then (Has k) (result.action.managed_keys s).0 _ (result.action.managed_keys s).1
        λ answer. OnOk-and_then (Has k) (require_dict answer) _ _ λ owned.
          OnOk-and_then (Has k) (result.action.state_metadata (result.action.managed_keys s).1).0 _
            _
            λ state.
              collect-Has results (update managed owned) (update_if_dict action_state state) _
                (mem-keys-update owned managed k h)

module _ {S : Type 0} (hash : Dict Json → String) (now : String) (self : Reconciler S)
    (results : List (ActionPlanResult S)) (partial : Bool) (s : S) where
  -- What every manifest built for this apply says.
  pub record Describes (m : Manifest) : Type 0 where
    pub flag : m.partial ≡ partial
    pub number : m.generation ≡ previous_generation self.manifest + 1
    pub hash_of_config : m.config_hash ≡ some (hash self.config)

  pub build_new_manifest-Describes :
      OnOk Describes (build_new_manifest hash now self results partial s).0
  unfolding build_new_manifest manifest_of
  build_new_manifest-Describes =
      OnOk-and_then Describes (collect results _ _ s).0 _ _
        λ collected. record { flag = refl; number = refl; hash_of_config = refl }

-- A manifest that is built for an apply that failed has every domain that the previous one had.
pub build_new_manifest-keeps_domains :
    {S : Type 0} (hash : Dict Json → String) (now : String) (self : Reconciler S)
    (completed : List (ActionPlanResult S)) (s : S) (domain : String) (m : Manifest)
    → mem domain (keys (managed_of self.manifest)) ≡ true
    → (build_new_manifest hash now self completed true s).0 ≡ ok m
    → mem domain (keys m.managed) ≡ true
unfolding build_new_manifest manifest_of
build_new_manifest-keeps_domains hash now self completed s domain m h e =
    OnOk-eq (λ n. mem domain (keys n.managed) ≡ true) _ m e
      (OnOk-and_then_on (Has domain) _ (collect completed _ _ s).0 _ _
        (collect-Has domain completed (managed_of self.manifest) (action_state_of self.manifest) s
          h)
        (λ collected p. p))
