-- ===== src/Reconciler/Syncing/Laws.antt =====
-- What a sync may claim as owned, what it leaves alone, and that one action cannot end it.
use dasik.Base.{
  String, ◌≡◌, refl, ◌⊎◌, inl, inr, false, ◌&&◌, ◌||◌, Option, none, some, List, [], ◌∷◌, ◌++◌,
  arith, if◌then◌else◌, mem, mem-append, mem-sorted_set, sorted_set, Dict, Json,
}
use dasik.Effects.{exception, interrupt, Result, ok, raise, Exec, lift, modify, try_except}
use dasik.State.SetMath.{meet}
use dasik.State.SetMath.Count.{mem-meet}
use dasik.State.StateStore.{Manifest, save}
use dasik.Reconciler.Interface.{Action, Meta, Reconciler}
use dasik.Reconciler.Planning.{managed_for, context_of, managed_of}
use dasik.Reconciler.Manifests.{World, sync_skipped, action_state_of, previous_generation}
use dasik.Reconciler.Syncing.{
  text_set, Sync, declared_by, owned_after_sync, slice_or_empty, owner_action, sync_v3,
}

owned_after_sync_lem :
    {S : Type 0} (owner : Action S) (domain : String) (managed_all : Dict Json) (s t u v : S)
    (actual claimable declared : List String) (managed : List Json)
    → owner.actual s ≡ (ok actual, t)
    → managed_for owner managed_all t ≡ (ok managed, u)
    → text_set managed ≡ ok claimable
    → declared_by owner domain u ≡ (ok declared, v)
    → owned_after_sync owner domain managed_all s
      ≡ (ok (sorted_set (meet actual (claimable ++ declared))), v)
unfolding owned_after_sync
owned_after_sync_lem owner domain managed_all s t u v actual claimable declared managed a m c d =
    rw (a, m, c, d)

-- What a sync records as owned in a domain is what is there and was either owned before or is
-- declared: nothing that was only observed.
pub mem-owned_after_sync :
    {S : Type 0} (owner : Action S) (domain : String) (managed_all : Dict Json) (x : String)
    (s t u v : S) (actual claimable declared owned : List String) (managed : List Json)
    → owner.actual s ≡ (ok actual, t)
    → managed_for owner managed_all t ≡ (ok managed, u)
    → text_set managed ≡ ok claimable
    → declared_by owner domain u ≡ (ok declared, v)
    → (owned_after_sync owner domain managed_all s).0 ≡ ok owned
    → mem x owned ≡ (mem x actual && (mem x claimable || mem x declared))
mem-owned_after_sync owner domain managed_all x s t u v actual claimable declared owned managed a m
      c d e =
    let value =
      owned_after_sync_lem owner domain managed_all s t u v actual claimable declared managed a m c
        d in
    ground (
      arith,
      value,
      mem-sorted_set x (meet actual (claimable ++ declared)),
      mem-meet x actual (claimable ++ declared),
      mem-append x claimable declared,
    )

-- A block whose exceptions are only reported raises nothing but an interrupt.
reported :
    {S : Type 0} (r : Result (Unit {0})) (f : String → Sync S → Sync S) (t : Sync S)
    → ((try_except (lift r) (λ e. modify (f e)) t).0 ≡ ok tt)
      ⊎ ((try_except (lift r) (λ e. modify (f e)) t).0 ≡ raise interrupt)
unfolding try_except
reported (ok _) f t = inl refl
reported (raise (exception e)) f t = inl refl
reported (raise interrupt) f t = inr refl

reported_block :
    {S : Type 0} (m : Exec (Sync S) (Unit {0})) (f : String → Sync S → Sync S) (t : Sync S)
    → ((try_except m (λ e. modify (f e)) t).0 ≡ ok tt)
      ⊎ ((try_except m (λ e. modify (f e)) t).0 ≡ raise interrupt)
unfolding try_except
reported_block m f t = reported (m t).0 f (m t).1

-- Once an action and its owner are built and what it owns is read, nothing that reading the machine
-- raises as an Exception ends the sync.
pub sync_v3_isolates :
    {S : Type 0} (self : Reconciler S) (meta : Meta S) (t : Sync S) (action : Action S)
    (owner : Option (Action S)) (managed : List Json) (s u v : S)
    → meta.cls.construct (slice_or_empty self meta) (some (context_of self)) t.sys ≡ (ok action, s)
    → owner_action self meta (context_of self) s ≡ (ok owner, u)
    → managed_for action (managed_of self.manifest) u ≡ (ok managed, v)
    → ((sync_v3 self meta t).0 ≡ ok tt) ⊎ ((sync_v3 self meta t).0 ≡ raise interrupt)
unfolding sync_v3
sync_v3_isolates self meta t action owner managed s u v c o m =
    rw (c, o, m)
      (reported_block _ (λ e t. record t { messages = t.messages ++ sync_skipped e ∷ [] }) _)

module _ {S : Type 0} (hash : Dict Json → String) (now : String) (self : Reconciler S) where
  -- What is left of the records, by the result of the sync.
  abbrev pub SyncOutcome : World S → Result (Dict Json × Option Manifest) × World S → Type 0
  SyncOutcome w (ok (config, none), v) =
      (v.generations ≡ w.generations) × (v.state ≡ w.state) × (config ≡ self.config)
  SyncOutcome w (ok (config, some m), v) =
      (v.generations ≡ w.generations)
      × (v.state ≡ (if self.has_state_store then save m w.state else w.state))
      × (m.generation ≡ previous_generation self.manifest)
      × (m.action_state ≡ action_state_of self.manifest)
      × (m.config_hash ≡ some (hash config))
      × (m.partial ≡ false)
  SyncOutcome w (raise e, v) = (v.generations ≡ w.generations) × (v.state ≡ w.state)
