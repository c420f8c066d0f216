-- ===== src/Reconciler/Samples.antt =====
-- A small machine for the tests: its state is the list of installed packages.
use dasik.Base.{
  String, true, false, Option, none, some, List, [], ◌∷◌, map, Dict, Json, str, arr, items_of,
  list_of,
}
use dasik.Effects.{exception, ok, raise, Exec, pure, throw}
use dasik.State.Change.{Change, install, remove}
use dasik.State.SetMath.{compute_changes}
use dasik.State.SetMath.Converge.{carry_out}
use dasik.State.StateStore.{Manifest, missing, empty_manifest}
use dasik.Reconciler.Interface.{Action, ActionPlanResult, Meta, Reconciler}
use dasik.Reconciler.Manifests.{World}

abbrev pub Machine : Type 0
Machine = List String

abbrev pub texts : List Json → List String
texts [] = []
texts (str s ∷ xs) = s ∷ texts xs
texts (x ∷ xs) = texts xs

abbrev pub declared_in : Json → List String
declared_in (arr xs) = texts (list_of xs)
declared_in _ = []

abbrev pub names : List String → Json
names l = arr (items_of (map str l))

-- An action for one set of packages, with the outcome of its hook.
abbrev pub packages_action : List String → Option (Exec Machine (Unit {0})) → Action Machine
packages_action declared hook = record {
  name = "Packages";
  plan = λ managed s.
      (ok (compute_changes "packages" declared (texts managed) s install remove []).0, s);
  apply = λ changes s. (ok tt, carry_out install remove s changes);
  actual = λ s. (ok s, s);
  import_state = λ managed s. (ok (some (("packages", names s) ∷ [])), s);
  managed_keys = pure (some (("packages", names declared) ∷ []));
  state_metadata = pure (some []);
  finalize_apply = hook;
}

-- An action that cannot be applied.
abbrev pub broken_action : Action Machine
broken_action = record (packages_action [] none) {
  name = "Broken";
  apply = λ changes s. (raise (exception "disk full"), s);
  managed_keys = pure (some (("files", names []) ∷ []));
}

abbrev pub packages_meta : Meta Machine
packages_meta = record {
  cls = record {
    is_v3 = true;
    empty_config = names [];
    construct = λ config context s. (ok (packages_action (declared_in config) none), s);
    bare = throw (exception "no config");
  };
  config_key = "packages";
}

abbrev pub owner : Manifest
owner = record empty_manifest {
  generation = 4;
  managed = ("packages", names ("nano" ∷ [])) ∷ ("units", names []) ∷ [];
}

abbrev pub reconciler : Reconciler Machine
reconciler = record {
  config = ("packages", names ("vim" ∷ [])) ∷ [];
  root = "/";
  manifest = some owner;
  metas = packages_meta ∷ [];
  has_state_store = true;
  has_generation_store = true;
  owned_config = none;
  assume_yes = false;
}

abbrev pub world : World Machine
world = record {
  sys = "nano" ∷ "htop" ∷ [];
  generations = record { dirs = []; current = none };
  state = record { target = missing; temporary = missing };
  messages = [];
}

abbrev pub result_of : Action Machine → List Change → ActionPlanResult Machine
result_of action changes = record { action = action; changes = changes }

-- A clock that stands still, and a hash that tells nothing.
abbrev pub noon : String
noon = "12:00"

abbrev pub hash : Dict Json → String
hash config = "0"

-- A class whose actions cannot read the machine.
abbrev pub blind_action : Action Machine
blind_action = record (packages_action [] none) {
  import_state = λ managed. throw (exception "/etc/shadow is not readable");
}

abbrev pub blind_meta : Meta Machine
blind_meta = record packages_meta {
  cls = record packages_meta.cls { construct = λ config context s. (ok blind_action, s) };
}
