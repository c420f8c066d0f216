-- ===== src/State/SetMath/Converge.antt =====
-- Carrying out the proposed changes leaves nothing to propose.
use dasik.Base.{
  String, ◌≡◌, refl, ◌≢◌, false, not, ◌&&◌, ◌||◌, List, [], ◌∷◌, ◌++◌, map, arith, eq_refl,
  if◌then◌else◌, mem, mem-sorted_set, sorted_set,
}
use dasik.State.Change.{Op, Change, change}
use dasik.State.SetMath.{minus, meet, propose, compute_changes}
use dasik.State.SetMath.Laws.{mem-drift}
use dasik.State.SetMath.Count.{op_eq, op_eq_iff, mem-minus, mem-meet}

-- What a machine that carries out the changes in their order has afterwards.
unfoldable pub carry_out : Op → Op → List String → List Change → List String
carry_out i r actual [] = actual
carry_out i r actual (c ∷ cs) =
    carry_out i r
      (if op_eq c.op i
        then c.item ∷ actual
        else if op_eq c.op r
        then minus actual (c.item ∷ [])
        else actual)
      cs

carry_out-append :
    (i r : Op) (cs ds : List Change) (actual : List String)
    → carry_out i r actual (cs ++ ds) ≡ carry_out i r (carry_out i r actual cs) ds
unfolding carry_out
carry_out-append i r [] ds actual = refl
carry_out-append i r (c ∷ cs) ds actual = carry_out-append i r cs ds _

nil_of_no_mem : (xs : List String) → ((x : String) → mem x xs ≡ false) → xs ≡ []
unfolding mem
nil_of_no_mem [] h = refl
nil_of_no_mem (y ∷ xs) h = ground (arith, h y, eq_refl y)

module _ (d why : String) (i r : Op) (differ : i ≢ r) (x : String) where
  mem-carry_out-installs :
      (actual items : List String)
      → mem x (carry_out i r actual (map (λ y. change d i y why false) items))
        ≡ (mem x actual || mem x items)
  unfolding carry_out change mem
  mem-carry_out-installs actual [] = ground arith
  mem-carry_out-installs actual (y ∷ items) =
      ground (arith, mem-carry_out-installs (y ∷ actual) items, op_eq_iff i i)

  mem-carry_out-removals :
      (actual items : List String)
      → mem x (carry_out i r actual (map (λ y. change d r y why false) items))
        ≡ (mem x actual && not (mem x items))
  unfolding carry_out change mem
  mem-carry_out-removals actual [] = ground arith
  mem-carry_out-removals actual (y ∷ items) = ground (
    arith,
    mem-carry_out-removals (minus actual (y ∷ [])) items,
    mem-minus x actual (y ∷ []),
    op_eq_iff r i,
    op_eq_iff r r,
  )

module _ (domain : String) (desired managed actual : List String) (i r : Op) (differ : i ≢ r)
    (forced : List String) where
  -- What is there after the changes.
  mem-after :
      (x : String)
      → mem x (carry_out i r actual (compute_changes domain desired managed actual i r forced).0)
        ≡ (((mem x actual || (mem x desired && not (mem x actual)))
              && not (mem x managed && not (mem x desired)))
            && not ((mem x forced && mem x actual) && not (mem x managed && not (mem x desired))))
  unfolding compute_changes propose
  mem-after x = simp (
    carry_out-append,
    mem-carry_out-removals domain "explicitly disabled" i r differ x,
    mem-carry_out-removals domain "no longer declared" i r differ x,
    mem-carry_out-installs domain "" i r differ x,
    mem-sorted_set,
    mem-minus,
    mem-meet,
  )

  -- Three empty sets propose nothing.
  nil_of_blocks :
      (a : List String)
      → minus desired a ≡ []
      → minus desired desired ≡ []
      → minus (meet forced a) (minus desired desired) ≡ []
      → (compute_changes domain desired desired a i r forced).0 ≡ []
  unfolding compute_changes propose sorted_set
  nil_of_blocks a p q t = rw (t, p, q)

  -- With different operations and no item both declared and forced off, once the changes are
  -- carried out and the declared items are recorded as owned, a second run proposes nothing, and
  -- its drift has the members that the first run reported.
  pub compute_changes_converges :
      ((x : String) → (mem x desired && mem x forced) ≡ false)
      → (x : String)
      → ((compute_changes domain desired desired
            (carry_out i r actual (compute_changes domain desired managed actual i r forced).0)
            i
            r
            forced).0
          ≡ [])
        × (mem x
              (compute_changes domain desired desired
                (carry_out i r actual (compute_changes domain desired managed actual i r forced).0)
                i
                r
                forced).1
            ≡ mem x (compute_changes domain desired managed actual i r forced).1)
  compute_changes_converges apart x = (
    nil_of_blocks _ (nil_of_no_mem _ (λ x. simp mem-minus (ground (arith, mem-after x, apart x))))
        (nil_of_no_mem _ (λ x. simp mem-minus (ground arith)))
        (nil_of_no_mem _ (λ x. simp (mem-minus, mem-meet) (ground (arith, mem-after x, apart x)))),
    ground (
      arith,
      mem-drift domain desired desired
          (carry_out i r actual (compute_changes domain desired managed actual i r forced).0) i r
          forced x,
      mem-drift domain desired managed actual i r forced x,
      mem-after x,
      apart x,
    ),
  )
