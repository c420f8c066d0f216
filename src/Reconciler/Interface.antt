-- ===== src/Reconciler/Interface.antt =====
-- dasik/lib/actions/abstract_action.py: what the reconciler asks of an action and of its class, over
-- any state `S` of the machine. A class that overrides a method supplies that method here.
use dasik.Base.{String, Bool, Option, List, Dict, Json}
use dasik.Effects.{Exec}
use dasik.State.Change.{Change}
use dasik.State.StateStore.{Manifest}

-- dasik/lib/actions/action_context.py, as far as the reconciler fills it
pub record Context : Type 0 where
  pub root : String
  pub manifest : Option Manifest
  pub assume_yes : Bool

-- A method that should return a dict returns `none` for any other value.
pub record Action (S : Type 0) : Type 0 where
  pub name : String
  pub plan : List Json → Exec S (List Change)
  pub apply : List Change → Exec S (Unit {0})
  pub actual : Exec S (List String)
  pub import_state : List Json → Exec S (Option (Dict Json))
  pub managed_keys : Exec S (Option (Dict Json))
  pub state_metadata : Exec S (Option (Dict Json))
  pub finalize_apply : Option (Exec S (Unit {0}))

-- `construct` is `cls(config, context)`, `bare` is `cls.__new__(cls)` with both set to None.
pub record ActionClass (S : Type 0) : Type 0 where
  pub is_v3 : Bool
  pub empty_config : Json
  pub construct : Json → Option Context → Exec S (Action S)
  pub bare : Exec S (Action S)

-- A registry entry, as far as the reconciler reads it.
pub record Meta (S : Type 0) : Type 0 where
  pub cls : ActionClass S
  pub config_key : String

pub record ActionPlanResult (S : Type 0) : Type 0 where
  pub action : Action S
  pub changes : List Change

-- The reconciler's own fields; of the two injected stores, whether they are there.
pub record Reconciler (S : Type 0) : Type 0 where
  pub config : Dict Json
  pub root : String
  pub manifest : Option Manifest
  pub metas : List (Meta S)
  pub has_state_store : Bool
  pub has_generation_store : Bool
  pub owned_config : Option (Dict Json)
  pub assume_yes : Bool
