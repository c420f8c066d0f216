-- ===== src/Actions/Composite.antt =====
-- dasik/lib/actions/composite_action.py: a domain whose state is a record of several fields.
use dasik.Base.{
  String, Bool, false, not, ◌&&◌, ◌≡◌, refl, ◌∙◌, Option, none, some, List, [], ◌∷◌, if◌then◌else◌,
  Dict, Json, obj, null, get_or, get, keys, fields_of, mem, select, sorted_set, mem-select,
  mem-sorted_set, sorted_set-IsAscending, IsAscending, join, json_eq, IsJson, json_eq_refl, ◌==◌,
}
use dasik.Effects.{Exec, ok, pure, ◌>>=◌}
use dasik.State.Change.{Change, change, modify as op_modify}

-- The hooks of a subclass, as far as plan asks them.
pub record CompositeHooks (S : Type 0) : Type 0 where
  pub domain : String
  pub desired_state : Exec S (Dict Json)
  pub actual_state : Exec S (Option (Dict Json))

-- sorted(desired), or sorted(k for k in desired if desired.get(k) != actual.get(k))
unfoldable pub changed_fields : Dict Json → Option (Dict Json) → List String
unfolding select sorted_set get
changed_fields desired none = sorted_set (keys desired)
changed_fields desired (some actual) =
    sorted_set
      (select (λ k. not (json_eq (get_or desired k null) (get_or actual k null))) (keys desired))

-- actual == desired
unfoldable pub same_state : Option (Dict Json) → Dict Json → Bool
unfolding fields_of
same_state none desired = false
same_state (some actual) desired = json_eq (obj (fields_of actual)) (obj (fields_of desired))

-- ",".join(changed) or self._DOMAIN
unfoldable pub item_of : String → List String → String
unfolding join
item_of domain changed = let item = join "," changed in if item == "" then domain else item

unfoldable pub compare_states : String → Dict Json → Option (Dict Json) → List Change
compare_states domain desired actual =
    if same_state actual desired
    then []
    else change domain op_modify (item_of domain (changed_fields desired actual)) "config" false
      ∷ []

module _ {S : Type 0} (self : CompositeHooks S) where
  unfoldable pub composite_plan : Exec S (List Change)
  composite_plan = do
    desired ← self.desired_state
    actual ← self.actual_state
    pure (compare_states self.domain desired actual)

-- The fields that the plan names for an actual state stand in ascending order, and they are exactly
-- the desired fields whose values differ.
pub changed_fields-IsAscending :
    (desired actual : Dict Json) (k : String)
    → IsAscending (changed_fields desired (some actual))
      × (mem k (changed_fields desired (some actual))
          ≡ (mem k (keys desired) && not (json_eq (get_or desired k null) (get_or actual k null))))
unfolding changed_fields
changed_fields-IsAscending desired actual k = (
  sorted_set-IsAscending
      (select (λ j. not (json_eq (get_or desired j null) (get_or actual j null))) (keys desired)),
  mem-sorted_set k
        (select (λ j. not (json_eq (get_or desired j null) (get_or actual j null))) (keys desired))
      ∙ mem-select (λ j. not (json_eq (get_or desired j null) (get_or actual j null))) k
          (keys desired),
)

module _ {S : Type 0} (self : CompositeHooks S) where
  -- Where both states are the same record, which has no key twice, nothing is planned, and planning
  -- leaves the machine alone.
  pub composite_plan_converged :
      (desired : Dict Json) (s : S)
      → IsJson (obj (fields_of desired))
      → self.desired_state s ≡ (ok desired, s)
      → self.actual_state s ≡ (ok (some desired), s)
      → composite_plan self s ≡ (ok [], s)
  unfolding composite_plan compare_states same_state
  composite_plan_converged desired s h d a =
      rw d (rw a (rw (json_eq_refl (obj (fields_of desired)) h) refl))
