-- ===== src/State/GenerationStore/Tests.antt =====
-- A store of four generations, one of them partial.
use dasik.Base.{
  ℕ, ◌≡◌, refl, true, false, none, some, [], ◌∷◌, nat_eq, if◌then◌else◌, select, drop, mem_number,
  Dict, Json, bool, num, truthy,
}
use dasik.State.StateStore.{ManifestDict, or_default}
use dasik.State.GenerationStore.{
  GenDir, Generations, ok, raise, is_partial, not_found, keep_below_one, find_dir, new, next_number,
  write_dir, list, info, sort_dirs, survivors, doomed, prune, restore, restore_dir, newest_complete,
}
use dasik.State.GenerationStore.Laws.{new_keeps_history, restore-new}
use dasik.State.GenerationStore.Pruning.{prune_keeps}

abbrev config : Dict Json
config = ("hostname", num 1) ∷ []

abbrev complete : ManifestDict
complete = record {
  version = some 2;
  generation = some 1;
  applied_at = none;
  config_hash = none;
  managed = some [];
  action_state = none;
  partial = none;
}

abbrev half_applied : ManifestDict
half_applied = record complete { partial = some (bool true) }

abbrev dir : ℕ → ManifestDict → GenDir
dir n m = record { number = n; config = some config; state = some m }

abbrev store : Generations
store = record {
  dirs = dir 4 half_applied ∷ dir 1 complete ∷ dir 3 half_applied ∷ dir 2 complete ∷ [];
  current = some 1;
}

program : Unit {0}
unfolding prune doomed survivors list info sort_dirs new next_number write_dir restore find_dir
    restore_dir select drop mem_number
program = tt

-- Generation 4 is the newest, 2 the newest complete, 1 the current one.
prune-store : (prune (λ _. true) 1 store).0 ≡ ok (3 ∷ [])
unfolding program
prune-store = refl

prune_zero : (prune (λ _. true) 0 store).0 ≡ raise keep_below_one
unfolding program
prune_zero = refl

restore_errors :
    ((restore 3 store).0 ≡ raise (is_partial 3)) × ((restore 9 store).0 ≡ raise (not_found 9))
unfolding program
restore_errors = (refl, refl)

newest_of_store : newest_complete (list store) ≡ some 2
unfolding program newest_complete
newest_of_store = refl

new_keeps_history_example :
    (find_dir store.dirs (new config complete store).0 ≡ none)
    × (find_dir (new config complete store).1.dirs 3 ≡ (
        if nat_eq (new config complete store).0 3
        then some (dir (new config complete store).0 complete)
        else find_dir store.dirs 3))
new_keeps_history_example = new_keeps_history config complete store 3

restore-new_example :
    restore (new config half_applied store).0 (new config half_applied store).1 ≡ (
      if truthy (or_default half_applied.partial (bool false))
          then raise (is_partial (new config half_applied store).0)
          else ok (config, half_applied),
      (new config half_applied store).1,
    )
restore-new_example = restore-new config half_applied store

prune_keeps_example :
    (find_dir (prune (λ _. true) 1 store).1.dirs 1 ≡ find_dir store.dirs 1)
    × ((restore 2 (prune (λ _. true) 1 store).1).0 ≡ (restore 2 store).0)
prune_keeps_example = prune_keeps (λ _. true) 1 1 2 store refl newest_of_store
