-- ===== src/State/SetMath.antt =====
-- dasik/lib/state/set_math.py: the declared, managed, actual and forced sets of a domain, and the
-- changes and the drift that they give. A set is the list of its members, tested by `mem`.
pub mod Count
pub mod Laws
pub mod Converge
mod Tests
use dasik.Base.{String, false, not, List, ◌++◌, map, select, mem, sorted_set}
use dasik.State.Change.{Op, Change, change}

-- xs - ys
unfoldable pub minus : List String → List String → List String
minus xs ys = select (λ x. not (mem x ys)) xs

-- xs & ys
unfoldable pub meet : List String → List String → List String
meet xs ys = select (λ x. mem x ys) xs

-- [Change(domain, op, item, reason) for item in sorted(items)]
unfoldable pub propose : String → Op → String → List String → List Change
unfolding change
propose domain op reason items = map (λ x. change domain op x reason false) (sorted_set items)

module _ (domain : String) (desired managed actual : List String) (op_install op_remove : Op)
    (forced : List String) where
  unfoldable pub compute_changes : List Change × List String
  compute_changes =
      let owned_removals = minus managed desired in
      (
        propose domain op_install "" (minus desired actual)
            ++ (propose domain op_remove "no longer declared" owned_removals
                ++ propose domain op_remove "explicitly disabled"
                    (minus (meet forced actual) owned_removals)),
        sorted_set (minus (minus (minus actual desired) managed) forced),
      )
