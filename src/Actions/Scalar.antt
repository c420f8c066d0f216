-- ===== src/Actions/Scalar.antt =====
-- dasik/lib/actions/scalar_action.py: a domain whose state is one value. A subclass gives the hooks.
use dasik.Base.{
  String, Bool, true, false, not, ◌&&◌, Option, none, some, List, [], ◌∷◌, if◌then◌else◌, is_empty,
  Dict, Json, str, arr, obj, nil, cons, end, ◌==◌,
}
use dasik.Effects.{Exec, pure, ◌>>=◌}
use dasik.State.Change.{Change, change, modify as op_modify}
use dasik.Reconciler.Interface.{Action, ActionClass, Context}
use dasik.Executor.Registry.{InstallAction}
pub mod Laws

-- `has_target` is `getattr(self.context, "target", None) is not None`.
pub record ScalarHooks (S : Type 0) : Type 0 where
  pub name : String
  pub domain : String
  pub desired_value : Exec S (Option String)
  pub actual_value : Exec S (Option String)
  pub set_value : Exec S (Unit {0})
  pub import_fragment : String → Dict Json
  pub has_target : Bool

-- A text that is there and not empty
unfoldable pub is_set : Option String → Bool
is_set none = false
is_set (some v) = not (v == "")

-- {v} if v else set(), and [v] if v else []
unfoldable pub values : Option String → List String
values none = []
values (some v) = if v == "" then [] else v ∷ []

-- a == b
unfoldable pub same_value : Option String → Option String → Bool
same_value none none = true
same_value (some a) (some b) = a == b
same_value _ _ = false

-- The change that sets a value, where there is one to set.
unfoldable pub set_change : String → Option String → List Change
set_change domain none = []
set_change domain (some v) = change domain op_modify v "set" false ∷ []

module _ {S : Type 0} (self : ScalarHooks S) where
  unfoldable pub actual : Exec S (List String)
  unfolding values
  actual = do v ← self.actual_value; pure (values v)

  -- The second half of the test in plan, which only a desired value reaches.
  unfoldable pub compare_value : Option String → Exec S (List Change)
  unfolding same_value set_change
  compare_value desired = do
    v ← self.actual_value
    pure (if same_value desired v then [] else set_change self.domain desired)

  unfoldable pub plan : Exec S (List Change)
  unfolding is_set
  plan = do desired ← self.desired_value; if is_set desired then compare_value desired else pure []

  unfoldable pub apply : List Change → Exec S (Unit {0})
  apply changes = if not (is_empty changes) && self.has_target then self.set_value else pure tt

  unfoldable pub managed_keys : Exec S (Dict Json)
  unfolding is_set
  managed_keys = do
    desired ← self.desired_value
    pure (
        (
          self.domain,
          arr (elim desired [ some v ↦ if v == "" then nil else cons (str v) nil | none ↦ nil ]),
        )
        ∷ [])

  -- self._actual_value() or self._desired_value()
  unfoldable pub value_or_desired : Option String → Exec S (Option String)
  unfolding is_set
  value_or_desired v = if is_set v then pure v else self.desired_value

  unfoldable pub fragment : Option String → Dict Json
  fragment none = []
  fragment (some v) = if v == "" then [] else self.import_fragment v

  unfoldable pub import_state : Exec S (Dict Json)
  unfolding value_or_desired fragment
  import_state = do v ← self.actual_value; value ← value_or_desired v; pure (fragment value)

  unfoldable pub verify : Exec S Bool
  unfolding plan
  verify = do changes ← plan; pure (is_empty changes)

  -- is_needed and execute of AbstractAction, over plan and apply
  unfoldable pub is_needed : Exec S Bool
  unfolding plan
  is_needed = do changes ← plan; pure (not (is_empty changes))

  unfoldable pub execute : Exec S (Unit {0})
  unfolding plan apply
  execute = do changes ← plan; apply changes

  -- The action as the reconciler sees it.
  unfoldable pub scalar_action : Action S
  scalar_action = record {
    name = self.name;
    plan = λ managed. plan;
    apply = apply;
    actual = actual;
    import_state = λ managed. (do fragments ← import_state; pure (some fragments));
    managed_keys = (do keys ← managed_keys; pure (some keys));
    state_metadata = pure (some []);
    finalize_apply = none;
  }

  -- The action as the executor sees it.
  unfoldable pub scalar_install : InstallAction S
  scalar_install = record {
    name = self.name;
    is_needed = is_needed;
    execute = execute;
    finalize_apply = none;
    verify = verify;
  }
