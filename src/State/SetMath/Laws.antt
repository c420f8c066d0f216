-- ===== src/State/SetMath/Laws.antt =====
-- What `compute_changes` proposes for each item, and what it leaves as drift.
use dasik.Base.{
  ◌+◌, String, ◌≡◌, ◌≢◌, true, false, not, ◌&&◌, ◌||◌, List, arith, if◌then◌else◌, mem,
  mem-sorted_set,
}
use dasik.State.Change.{Op}
use dasik.State.SetMath.{compute_changes}
use dasik.State.SetMath.Count.{
  op_eq, op_eq_iff, proposals, proposals-append, proposals-propose, mem-minus, mem-meet,
}

module _ (domain : String) (desired managed actual : List String) (op_install op_remove : Op)
    (forced : List String) (x : String) where
  -- The three blocks, each as the number of times it proposes the item.
  proposals-blocks :
      (op : Op)
      → proposals op x (compute_changes domain desired managed actual op_install op_remove forced).0
        ≡ (if op_eq op_install op && (mem x desired && not (mem x actual)) then 1 else 0)
          + ((if op_eq op_remove op && (mem x managed && not (mem x desired)) then 1 else 0)
              + (if op_eq op_remove op
                    && ((mem x forced && mem x actual)
                        && not (mem x managed && not (mem x desired)))
                  then 1
                  else 0))
  unfolding compute_changes
  proposals-blocks op = simp (proposals-append, proposals-propose, mem-minus, mem-meet)

  -- With different operations, an item is proposed for installation exactly when it is declared and
  -- absent, and then once. It is proposed for removal exactly when it is owned and no longer
  -- declared, or forced off and present, and then once, also where both hold.
  pub proposals-compute_changes :
      op_install ≢ op_remove
      → (proposals op_install x
            (compute_changes domain desired managed actual op_install op_remove forced).0
          ≡ (if mem x desired && not (mem x actual) then 1 else 0))
        × (proposals op_remove x
              (compute_changes domain desired managed actual op_install op_remove forced).0
            ≡ (if (mem x managed && not (mem x desired)) || (mem x forced && mem x actual)
                then 1
                else 0))
  proposals-compute_changes differ = (
    ground (
      arith,
      proposals-blocks op_install,
      op_eq_iff op_install op_install,
      op_eq_iff op_remove op_install,
    ),
    ground (
      arith,
      proposals-blocks op_remove,
      op_eq_iff op_install op_remove,
      op_eq_iff op_remove op_remove,
    ),
  )

  -- The drift holds exactly the items that are present and neither declared, owned nor forced off.
  pub mem-drift :
      mem x (compute_changes domain desired managed actual op_install op_remove forced).1
      ≡ (((mem x actual && not (mem x desired)) && not (mem x managed)) && not (mem x forced))
  unfolding compute_changes
  mem-drift = simp (mem-sorted_set, mem-minus)

  -- With different operations and no item both declared and forced off, an item that is present is
  -- in exactly one of three states: declared and so kept, proposed once for removal, or drift.
  pub present_item_partition :
      op_install ≢ op_remove
      → (mem x desired && mem x forced) ≡ false
      → mem x actual ≡ true
      → (if mem x desired then 1 else 0)
          + proposals op_remove x
              (compute_changes domain desired managed actual op_install op_remove forced).0
          + (if mem x (compute_changes domain desired managed actual op_install op_remove forced).1
              then 1
              else 0)
        ≡ 1
  present_item_partition differ apart present =
      ground (arith, (proposals-compute_changes differ).1, mem-drift)
