-- ===== src/Reconciler/Tests.antt =====
-- The reconciler on the small machine.
use dasik.Base.{
  ◌≡◌, refl, ◌⊎◌, true, false, ◌&&◌, ◌||◌, none, some, List, [], ◌∷◌, mem, keys, get, put, update,
  select, sorted_set, insert, fields_of, list_of, items_of, mem_number, str,
}
use dasik.Effects.{exception, interrupt, ok, raise, try_except}
use dasik.State.Change.{Change, Plan, change, install, remove, destructive_changes, is_empty}
use dasik.State.SetMath.{compute_changes, minus, meet, propose}
use dasik.State.StateStore.{Manifest}
use dasik.Reconciler.Interface.{ActionPlanResult}
use dasik.Reconciler.Planning.{
  build_plan, plan_metas, plan_action, plan_slice, plan_with, append_result, managed_for,
  managed_of, config_slice, context_of, domain_for,
}
use dasik.Reconciler.Planning.Laws.{all_changes, build_plan_lem}
use dasik.Reconciler.Manifests.{build_new_manifest, collect, manifest_of}
use dasik.Reconciler.Manifests.Laws.{build_new_manifest-keeps_domains}
use dasik.Reconciler.Applying.{apply, apply_each}
use dasik.Reconciler.Applying.Gate.{end_of_file, is_yes}
use dasik.Reconciler.Applying.Laws.{apply_refused, Run, apply_each-Run}
use dasik.Reconciler.Syncing.{owned_after_sync, declared_by, text_set, sync_v3, start, owner_action}
use dasik.Reconciler.Syncing.Laws.{mem-owned_after_sync, sync_v3_isolates}
use dasik.Reconciler.Samples.{
  Machine, names, packages_action, broken_action, owner, reconciler, world, result_of, noon, hash,
  blind_action, blind_meta,
}

-- The plan for the sample: vim is declared and absent, nano is owned and no longer declared.
abbrev changes : List Change
changes =
    change "packages" install "vim" "" false
    ∷ change "packages" remove "nano" "no longer declared" false
    ∷ []

abbrev results : List (ActionPlanResult Machine)
results = result_of (packages_action ("vim" ∷ []) none) changes ∷ []

program : Unit {0}
unfolding build_plan plan_metas plan_action plan_slice plan_with append_result managed_for
    managed_of config_slice context_of domain_for compute_changes minus meet propose sorted_set
    select mem change get put update fields_of list_of items_of insert
program = tt

plan_of_sample : (build_plan reconciler world.sys).0 ≡ ok (record { changes = changes }, results)
unfolding program
plan_of_sample = refl

build_plan_lem_example : changes ≡ all_changes results
build_plan_lem_example =
    build_plan_lem reconciler world.sys (record { changes = changes }) results plan_of_sample

yes_and_no : (is_yes " Yes\n" ≡ true) × (is_yes "yep" ≡ false) × (is_yes "" ≡ false)
unfolding is_yes mem_number
yes_and_no = (refl, refl, refl)

abbrev plan : Plan
plan = record { changes = changes }

apply_refused_example :
    ((apply hash noon reconciler plan results false end_of_file world).0 ≡ ok none)
    × ((apply hash noon reconciler plan results false end_of_file world).1.sys ≡ world.sys)
    × ((apply hash noon reconciler plan results false end_of_file world).1.generations
        ≡ world.generations)
    × ((apply hash noon reconciler plan results false end_of_file world).1.state ≡ world.state)
unfolding destructive_changes is_empty select change
apply_refused_example = apply_refused hash noon reconciler results plan false end_of_file world refl

abbrev failing : List (ActionPlanResult Machine)
failing = result_of (packages_action ("vim" ∷ []) none) changes ∷ result_of broken_action [] ∷ []

apply_each-Run_example :
    Run failing world.sys
      (apply_each failing [] world.sys).0.0
      (apply_each failing [] world.sys).0.1
      (apply_each failing [] world.sys).1
apply_each-Run_example = apply_each-Run failing world.sys

-- The first action completed, the second raised.
failing_run : (apply_each failing [] world.sys).0 ≡ (raise (exception "disk full"), results)
unfolding apply_each
failing_run = refl

built : Manifest
built = record owner {
  generation = 5;
  applied_at = some noon;
  config_hash = some "0";
  managed = ("packages", names ("vim" ∷ [])) ∷ ("units", names []) ∷ [];
  partial = true;
}

build_new_manifest-keeps_domains_example : mem "units" (keys built.managed) ≡ true
unfolding built build_new_manifest collect manifest_of managed_of mem update put
build_new_manifest-keeps_domains_example =
    build_new_manifest-keeps_domains hash noon reconciler results world.sys "units" built refl refl

mem-owned_after_sync_example :
    mem "htop" ("nano" ∷ [])
    ≡ ((mem "htop" world.sys) && (mem "htop" ("nano" ∷ []) || mem "htop" ("vim" ∷ [])))
unfolding program declared_by owned_after_sync text_set try_except
mem-owned_after_sync_example =
    mem-owned_after_sync (packages_action ("vim" ∷ []) none) "packages" owner.managed "htop"
      world.sys world.sys world.sys world.sys world.sys ("nano" ∷ []) ("vim" ∷ []) ("nano" ∷ [])
      (str "nano" ∷ []) refl refl refl refl refl

sync_v3_isolates_example :
    ((sync_v3 reconciler blind_meta (start hash noon reconciler world)).0 ≡ ok tt)
    ⊎ ((sync_v3 reconciler blind_meta (start hash noon reconciler world)).0 ≡ raise interrupt)
unfolding owner_action managed_for managed_of get list_of items_of
sync_v3_isolates_example =
    sync_v3_isolates reconciler blind_meta (start hash noon reconciler world) blind_action none
      (str "nano" ∷ []) world.sys world.sys world.sys refl refl refl
