-- ===== src/State/StateStore.antt =====
-- dasik/lib/state/state_store.py: the manifest of what dasik owns, and the file that holds it.
pub mod Laws
mod Tests
use dasik.Base.{
  ℕ, zero, suc, String, Bool, false, Option, none, some, List, [], ◌∷◌, Dict, Json, bool, truthy,
}

abbrev pub state_version : ℕ
state_version = 2

pub record Manifest : Type 0 where
  pub version : ℕ
  pub generation : ℕ
  pub applied_at : Option String
  pub config_hash : Option String
  pub managed : Dict Json
  pub action_state : Dict Json
  pub partial : Bool

-- Manifest()
abbrev pub empty_manifest : Manifest
empty_manifest = record {
  version = state_version;
  generation = 0;
  applied_at = none;
  config_hash = none;
  managed = [];
  action_state = [];
  partial = false;
}

-- The dict form: a key that the dict lacks is `none`. `applied_at` and `config_hash` may be null.
pub record ManifestDict : Type 0 where
  pub version : Option ℕ
  pub generation : Option ℕ
  pub applied_at : Option (Option String)
  pub config_hash : Option (Option String)
  pub managed : Option (Dict Json)
  pub action_state : Option (Dict Json)
  pub partial : Option Json

-- data.get(key, default)
unfoldable pub or_default {ℓ} : {A : Type ℓ} → Option A → A → A
or_default none d = d
or_default (some a) d = a

-- Manifest.to_dict
unfoldable pub to_dict : Manifest → ManifestDict
to_dict m = record {
  version = some m.version;
  generation = some m.generation;
  applied_at = some m.applied_at;
  config_hash = some m.config_hash;
  managed = some m.managed;
  action_state = some m.action_state;
  partial = some (bool m.partial);
}

-- Manifest.from_dict
unfoldable pub from_dict : ManifestDict → Manifest
unfolding or_default truthy
from_dict d = record {
  version = or_default d.version state_version;
  generation = or_default d.generation 0;
  applied_at = or_default d.applied_at none;
  config_hash = or_default d.config_hash none;
  managed = or_default d.managed [];
  action_state = or_default d.action_state [];
  partial = truthy (or_default d.partial (bool false));
}

-- The file state.json: absent, whole, or a text that is no JSON.
pub data StateFile : Type 0 where
  missing : StateFile
  written : ManifestDict → StateFile
  broken : StateFile

pub data Loaded : Type 0 where
  loaded : Manifest → Loaded
  not_valid_json : Loaded

-- StateStore.load
unfoldable pub load : StateFile → Loaded
unfolding from_dict
load missing = loaded empty_manifest
load broken = not_valid_json
load (written d) = loaded (from_dict d)

-- The directory of the file while `write_json_atomically` runs: the file, and its temporary.
pub record Directory : Type 0 where
  pub target : StateFile
  pub temporary : StateFile

-- mkstemp; write and fsync; chmod; os.replace. The temporary is half a text until it is flushed.
pub data WriteStep : Type 0 where
  make_temporary write_temporary set_mode replace : WriteStep

unfoldable pub write_step : ManifestDict → WriteStep → Directory → Directory
write_step payload make_temporary d = record d { temporary = broken }
write_step payload write_temporary d = record d { temporary = written payload }
write_step payload set_mode d = d
write_step payload replace d = record { target = d.temporary; temporary = missing }

abbrev write_steps : List WriteStep
write_steps = make_temporary ∷ write_temporary ∷ set_mode ∷ replace ∷ []

-- What a process that dies after `n` steps leaves on disk.
unfoldable pub run_steps : ℕ → ManifestDict → List WriteStep → Directory → Directory
unfolding write_step
run_steps zero payload steps d = d
run_steps (suc n) payload [] d = d
run_steps (suc n) payload (s ∷ steps) d = run_steps n payload steps (write_step payload s d)

unfoldable pub write_until : ℕ → ManifestDict → Directory → Directory
unfolding run_steps
write_until n payload d = run_steps n payload write_steps d

-- The handler of a step that raises: the temporary is unlinked.
unfoldable pub write_raising : ℕ → ManifestDict → Directory → Directory
unfolding write_until
write_raising n payload d = record (write_until n payload d) { temporary = missing }

unfoldable pub write_json_atomically : ManifestDict → Directory → Directory
unfolding write_until
write_json_atomically payload d = write_until 4 payload d

-- StateStore.save
unfoldable pub save : Manifest → Directory → Directory
unfolding write_json_atomically to_dict
save m d = write_json_atomically (to_dict m) d
