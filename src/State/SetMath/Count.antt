-- ===== src/State/SetMath/Count.antt =====
-- How often a list of changes proposes an operation on an item.
use dasik.Base.{
  ℕ, ◌+◌, String, ◌≡◌, ◌↔◌, Bool, true, false, not, ◌&&◌, List, [], ◌∷◌, ◌++◌, map, arith, ◌==◌,
  if◌then◌else◌, mem, mem-select, sorted_set, count, count-sorted_set,
}
use dasik.State.Change.{
  Op, install, remove, modify, enable, disable, create, delete, Change, change,
}
use dasik.State.SetMath.{minus, meet, propose}

-- `==` on the enum
unfoldable pub op_eq : Op → Op → Bool
op_eq install install = true
op_eq remove remove = true
op_eq modify modify = true
op_eq enable enable = true
op_eq disable disable = true
op_eq create create = true
op_eq delete delete = true
op_eq _ _ = false

pub op_eq_iff : (a b : Op) → (op_eq a b ≡ true) ↔ (a ≡ b)
unfolding op_eq
op_eq_iff install b = ground arith
op_eq_iff remove b = ground arith
op_eq_iff modify b = ground arith
op_eq_iff enable b = ground arith
op_eq_iff disable b = ground arith
op_eq_iff create b = ground arith
op_eq_iff delete b = ground arith

unfoldable pub proposals : Op → String → List Change → ℕ
proposals op x [] = 0
proposals op x (c ∷ cs) =
    if op_eq c.op op && c.item == x then 1 + proposals op x cs else proposals op x cs

pub proposals-append :
    (op : Op) (x : String) (cs ds : List Change)
    → proposals op x (cs ++ ds) ≡ proposals op x cs + proposals op x ds
unfolding proposals
proposals-append op x [] ds = ground arith
proposals-append op x (c ∷ cs) ds = ground (arith, proposals-append op x cs ds)

proposals-map :
    (d r : String) (op op' : Op) (x : String) (items : List String)
    → proposals op x (map (λ y. change d op' y r false) items)
      ≡ (if op_eq op' op then count x items else 0)
unfolding proposals count change
proposals-map d r op op' x [] = ground arith
proposals-map d r op op' x (y ∷ items) = ground (arith, proposals-map d r op op' x items)

pub proposals-propose :
    (d r : String) (op op' : Op) (x : String) (items : List String)
    → proposals op x (propose d op' r items) ≡ (if op_eq op' op && mem x items then 1 else 0)
unfolding propose
proposals-propose d r op op' x items =
    ground (arith, proposals-map d r op op' x (sorted_set items), count-sorted_set x items)

pub mem-minus :
    (x : String) (xs ys : List String) → mem x (minus xs ys) ≡ (mem x xs && not (mem x ys))
unfolding minus
mem-minus x xs ys = mem-select (λ y. not (mem y ys)) x xs

pub mem-meet : (x : String) (xs ys : List String) → mem x (meet xs ys) ≡ (mem x xs && mem x ys)
unfolding meet
mem-meet x xs ys = mem-select (λ y. mem y ys) x xs
