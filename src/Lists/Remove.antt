-- ===== src/Lists/Remove.antt =====
-- n_list_remove_nth.c and n_list_remove_ex.c.
use trurlib.Prelude.{
  ℕ, zero, suc, ◌+◌, ◌-◌, true, false, not, ◌&&◌, ◌||◌, [], ◌∷◌, ◌++◌, ltb, leb, ◌==◌,
  if◌then◌else◌,
}
use trurlib.Prelude.Int.{ℤ, pos_part, is_neg, is_zero}
use trurlib.Run.{
  Run, ok, fault, endless, die_if, n_assert, list_remove_empty, list_remove_oob, ◌>>=◌, ◌>>◌,
}
use trurlib.Array.State.{Ptr, null, Code, log_free}
use trurlib.Lists.Nodes.{Nodes, read, write_next, release}
use trurlib.Lists.State.{Linked, rounds}
use trurlib.Lists.Scan.{chosen}
use trurlib.Lists.Ends.{pop, shift}

-- The loop of n_list_remove_nth: the node at index `i` and the one in front of it
unfoldable pub walk_to : (fuel : ℕ) → Nodes → (prev p : Ptr) (n i : ℕ) → Run (Ptr × Ptr)
walk_to zero nodes prev p n i = fault endless
walk_to (suc fuel) nodes prev p n i = elim (p == null) [
  | true ↦ ok (prev, p)
  | false ↦ elim (n + 1 == i) [
    | true ↦ ok (prev, p)
    | false ↦ do node ← read nodes p; walk_to fuel nodes p node.next (n + 1) i
  ]
]

unfoldable pub remove_inner : Linked → ℕ → Run (Ptr × Linked)
remove_inner l i = do
  first ← read l.nodes l.head
  (prev, p) ← walk_to (rounds l) l.nodes l.head first.next 0 i
  n_assert (not (p == null))
  node ← read l.nodes p
  nodes ← write_next l.nodes prev node.next
  nodes ← release nodes p
  ok (node.data_ptr, record l { nodes = nodes; items = l.items - 1 })

unfoldable pub remove_nth : Linked → ℤ → Run (Ptr × Linked)
remove_nth l nth = do
  let i = pos_part nth
  die_if (l.head == null) list_remove_empty
  die_if (is_neg nth || leb l.items i) list_remove_oob
  (if i == 0 then shift l else if i + 1 == l.items then pop l else remove_inner l i)

module _ (compare : Ptr → Ptr → ℤ) (wanted : Ptr) where
  -- The loop of n_list_remove_ex at the front of the list: how many nodes have gone
  unfoldable pub remove_front : (fuel removed : ℕ) → Linked → Run (ℕ × Linked)
  remove_front zero removed l = fault endless
  remove_front (suc fuel) removed l = elim (l.head == null) [
    | true ↦ ok (removed, l)
    | false ↦ do
      node ← read l.nodes l.head
      elim (is_zero (compare node.data_ptr wanted)) [
        | false ↦ ok (removed, l)
        | true ↦ do
          let freed = if l.free_fn == null then l.freed else l.freed ++ (node.data_ptr ∷ [])
          nodes ← release l.nodes l.head
          let items = l.items - 1
          (if ltb 1 items
              then (read nodes node.next >>= λ first. n_assert (not (first.next == null)))
              else ok tt)
          remove_front fuel (removed + 1)
              (record l { nodes = nodes; freed = freed; head = node.next; items = items })
      ]
  ]

  -- The loop over the rest of the list: `p` is the node behind `prev`.
  unfoldable pub remove_rest : (fuel removed : ℕ) (prev p : Ptr) → Linked → Run (ℕ × Linked)
  remove_rest zero removed prev p l = fault endless
  remove_rest (suc fuel) removed prev p l = elim (p == null) [
    | true ↦ ok (removed, l)
    | false ↦ do
      node ← read l.nodes p
      elim (is_zero (compare node.data_ptr wanted)) [
        | false ↦ remove_rest fuel removed p node.next l
        | true ↦ do
          n_assert (not (prev == null))
          nodes ← write_next l.nodes prev node.next
          nodes ← release nodes p
          n_assert (ltb 0 l.items)
          let l = record l {
            nodes = nodes;
            freed = log_free l.free_fn node.data_ptr l.freed;
            tail = if p == l.tail then prev else l.tail;
            items = l.items - 1;
          }
          elim l.uniq [
            | true ↦ ok (removed + 1, l)
            | false ↦ remove_rest fuel (removed + 1) prev node.next l
          ]
      ]
  ]

unfoldable pub remove_ex : Code → Linked → (wanted cmpf : Ptr) → Run (ℕ × Linked)
remove_ex code l wanted cmpf = if l.head == null then ok (0, l) else (do
  let compare = code.cmp (chosen l cmpf)
  n_assert (not (chosen l cmpf == null))
  (removed, l) ← remove_front compare wanted (rounds l) 0 l
  (if l.head == null
      then (n_assert (l.items == 0) >> ok (removed, l))
      else if ltb 0 removed && l.uniq
      then ok (removed, l)
      else (do
        first ← read l.nodes l.head
        remove_rest compare wanted (rounds l) removed l.head first.next l)))
