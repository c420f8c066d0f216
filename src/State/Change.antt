-- ===== src/State/Change.antt =====
-- dasik/lib/state/change.py: one proposed change, and the ordered plan of changes.
use dasik.Base.{
  String, Bool, true, false, ◌&&◌, not, List, [], ◌∷◌, ◌++◌, map, ◌==◌, if◌then◌else◌, select,
  is_empty as empty_list, concat, join,
}

pub data Op : Type 0 where
  install remove modify enable disable create delete : Op

-- The `value` of the enum.
unfoldable pub op_value : Op → String
op_value install = "install"
op_value remove = "remove"
op_value modify = "modify"
op_value enable = "enable"
op_value disable = "disable"
op_value create = "create"
op_value delete = "delete"

-- op in _DESTRUCTIVE_OPS
unfoldable pub is_destructive_op : Op → Bool
is_destructive_op remove = true
is_destructive_op disable = true
is_destructive_op delete = true
is_destructive_op _ = false

-- _SIGNS[op]
unfoldable pub sign : Op → String
sign install = "+"
sign create = "+"
sign enable = "+"
sign remove = "-"
sign delete = "-"
sign disable = "-"
sign modify = "~"

pub record Change : Type 0 where
  pub domain : String
  pub op : Op
  pub item : String
  pub reason : String
  pub destructive : Bool

-- The constructor with `__post_init__`: the flag is raised for the ops that destroy.
unfoldable pub change : String → Op → String → String → Bool → Change
unfolding is_destructive_op
change domain op item reason destructive = record {
  domain = domain;
  op = op;
  item = item;
  reason = reason;
  destructive = if is_destructive_op op && not destructive then true else destructive;
}

-- Change.render
unfoldable pub render : Change → String
unfolding sign op_value is_destructive_op
render c =
    let tail = if c.reason == "" then "" else concat ("  (" ∷ c.reason ∷ ")" ∷ []) in
    let mark =
      if c.destructive && not (is_destructive_op c.op) then "  ** DESTRUCTIVE **" else "" in
    concat
      ("  " ∷ sign c.op ∷ " [" ∷ c.domain ∷ "] " ∷ op_value c.op ∷ " " ∷ c.item ∷ tail ∷ mark ∷ [])

pub record Plan : Type 0 where
  pub changes : List Change

abbrev pub empty_plan : Plan
empty_plan = record { changes = [] }

unfoldable pub add : Plan → Change → Plan
add p c = record { changes = p.changes ++ c ∷ [] }

unfoldable pub extend : Plan → List Change → Plan
extend p cs = record { changes = p.changes ++ cs }

unfoldable pub is_empty : Plan → Bool
is_empty p = empty_list p.changes

-- The `destructive` method of a plan.
unfoldable pub destructive_changes : Plan → List Change
destructive_changes p = select (λ (c : Change). c.destructive) p.changes

-- The `render` method of a plan.
unfoldable pub render_plan : Plan → String
unfolding render
render_plan p =
    if empty_list p.changes
    then "No changes - system matches config."
    else join "\n" (map render p.changes)
