-- ===== src/Lists/Nodes.antt =====
-- struct list_node of n_list_int.h, and the nodes that have been allocated. A node lies at the address
-- one above its place; one that has been freed is `none` there.
use trurlib.Prelude.{zero, suc, Option, none, some, List, [], ◌∷◌, ◌++◌, length, get_or, set}
use trurlib.Run.{Run, ok, fault, null_pointer, dangling}
use trurlib.Array.State.{Ptr}

pub record Node : Type 0 where
  pub data_ptr : Ptr
  pub next : Ptr

abbrev pub Nodes : Type 0
Nodes = List (Option Node)

unfoldable pub read : Nodes → Ptr → Run Node
read nodes zero = fault null_pointer
read nodes (suc a) = elim (get_or nodes a none) [ none ↦ fault dangling | some n ↦ ok n ]

-- `p->next = next`
unfoldable pub write_next : Nodes → (p next : Ptr) → Run Nodes
write_next nodes zero next = fault null_pointer
write_next nodes (suc a) next = elim (get_or nodes a none) [
  | none ↦ fault dangling
  | some n ↦ ok (set nodes a (some (record n { next = next })))
]

-- `free(p)` of a node
unfoldable pub release : Nodes → Ptr → Run Nodes
release nodes zero = fault null_pointer
release nodes (suc a) = elim (get_or nodes a none) [
  | none ↦ fault dangling
  | some n ↦ ok (set nodes a none)
]

-- The address of the next node that is allocated, and the nodes with it
abbrev pub next_address : Nodes → Ptr
next_address nodes = suc (length nodes)

abbrev pub with_node : Nodes → Node → Nodes
with_node nodes n = nodes ++ (some n ∷ [])
