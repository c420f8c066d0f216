-- ===== src/State/StateStore/Tests.antt =====
-- A manifest on its way through the file.
use dasik.Base.{◌≡◌, refl, true, none, some, [], ◌∷◌, arr, nil}
use dasik.State.StateStore.{
  Manifest, empty_manifest, missing, written, broken, loaded, load, Directory, save,
}
use dasik.State.StateStore.Laws.{load-save}

abbrev owned : Manifest
owned = record empty_manifest {
  generation = 3;
  applied_at = some "2026-01-01";
  managed = ("packages", arr nil) ∷ [];
  partial = true;
}

abbrev before : Directory
before = record { target = broken; temporary = missing }

load-save_example : load (save owned before).target ≡ loaded owned
load-save_example = load-save owned before

-- A manifest of the first version has no per-action state and no `partial`.
load_old :
    load (
      written (record {
        version = some 1;
        generation = some 4;
        applied_at = none;
        config_hash = none;
        managed = some [];
        action_state = none;
        partial = none;
      }))
    ≡ loaded (record empty_manifest { version = 1; generation = 4 })
unfolding load
load_old = refl
