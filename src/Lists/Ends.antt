-- ===== src/Lists/Ends.antt =====
-- n_list_push.c, n_list_pop.c, n_list_shift.c and n_list_unshift.c.
pub mod Unshift
use trurlib.Prelude.{ℕ, zero, suc, ◌+◌, ◌-◌, Bool, true, false, not, ◌==◌, if◌then◌else◌}
use trurlib.Run.{Run, ok, fault, endless, die_if, n_assert, list_pop, list_shift, ◌>>=◌, ◌>>◌}
use trurlib.Array.State.{Ptr, null, Code}
use trurlib.Lists.Nodes.{Node, Nodes, read, write_next, release, next_address, with_node}
use trurlib.Lists.State.{Linked, rounds}
use trurlib.Lists.Scan.{contains_ex}

-- `if (l->flags & TN_LIST_UNIQ) if (n_list_contains_ex(l, data, NULL))`
unfoldable pub is_double : Code → Linked → Ptr → Run Bool
is_double code l p = if l.uniq then contains_ex code l p null else ok false

unfoldable pub append_node : Linked → Ptr → Run Linked
append_node l p = do
  let node = next_address l.nodes
  let nodes = with_node l.nodes (record { data_ptr = p; next = null })
  let items = l.items + 1
  (if l.head == null
      then ok (record l { nodes = nodes; head = node; tail = node; items = items })
      else (do
        nodes ← write_next nodes l.tail node
        ok (record l { nodes = nodes; tail = node; items = items })))

-- n_list_push: whether the list is returned (NULL is, for an element that is there), and its state.
unfoldable pub push : Code → Linked → Ptr → Run (Bool × Linked)
push code l p = do
  double ← is_double code l p
  (if double then ok (false, l) else (append_node l p >>= λ l. ok (true, l)))

abbrev pub prepend_node : Linked → Ptr → Linked
prepend_node l p = record l {
  nodes = with_node l.nodes (record { data_ptr = p; next = l.head });
  head = next_address l.nodes;
  items = l.items + 1;
}

unfoldable pub unshift : Code → Linked → Ptr → Run (Bool × Linked)
unshift code l p = do
  double ← is_double code l p
  (if double then ok (false, l) else ok (true, prepend_node l p))

-- The loop of n_list_pop: the node in front of `tail`, from `p` on
unfoldable pub before_tail : (fuel : ℕ) → Nodes → (p tail : Ptr) → Run Ptr
before_tail zero nodes p tail = fault endless
before_tail (suc fuel) nodes p tail = do
  node ← read nodes p
  elim (node.next == tail) [ true ↦ ok p | false ↦ before_tail fuel nodes node.next tail ]

unfoldable pub pop : Linked → Run (Ptr × Linked)
pop l = do
  die_if (l.head == null) list_pop
  (if l.head == l.tail
      then (do
        node ← read l.nodes l.head
        nodes ← release l.nodes l.head
        ok (
          node.data_ptr,
          record l { nodes = nodes; head = null; tail = null; items = l.items - 1 },
        ))
      else (do
        prev ← before_tail (rounds l) l.nodes l.head l.tail
        n_assert (not (prev == l.tail))
        node ← read l.nodes l.tail
        nodes ← release l.nodes l.tail
        nodes ← write_next nodes prev null
        ok (node.data_ptr, record l { nodes = nodes; tail = prev; items = l.items - 1 })))

unfoldable pub shift : Linked → Run (Ptr × Linked)
shift l = do
  die_if (l.head == null) list_shift
  node ← read l.nodes l.head
  let tail = if node.next == null then null else l.tail
  nodes ← release l.nodes l.head
  ok (node.data_ptr, record l { nodes = nodes; head = node.next; tail = tail; items = l.items - 1 })
