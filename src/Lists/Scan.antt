-- ===== src/Lists/Scan.antt =====
-- Walks that change nothing: n_list_nth.c, n_list_lookup_ex.c, n_list_contains_ex.c, n_list_map_arg.c
-- and n_list_iterator.c.
pub mod View
use trurlib.Prelude.{
  ℕ, zero, suc, ◌+◌, Bool, true, false, not, List, [], ◌∷◌, length, ◌==◌, if◌then◌else◌,
}
use trurlib.Prelude.Int.{ℤ, pos, negsuc, is_zero}
use trurlib.Run.{Run, ok, fault, endless, die_if, list_no_cmp, ◌>>=◌, ◌>>◌}
use trurlib.Array.State.{Ptr, null, Code}
use trurlib.Lists.Nodes.{Node, Nodes, read}
use trurlib.Lists.State.{Linked, rounds}

-- `n == nth` for a count `n` and an int
abbrev pub is_index : ℤ → ℕ → Bool
is_index (pos i) n = n == i
is_index (negsuc i) n = false

-- The loop of n_list_nth
unfoldable pub nth_loop : (fuel : ℕ) → Nodes → (p : Ptr) (n : ℕ) → ℤ → Run Ptr
nth_loop zero nodes p n i = fault endless
nth_loop (suc fuel) nodes p n i = elim (p == null) [
  | true ↦ ok null
  | false ↦ do
    node ← read nodes p
    elim (is_index i n) [
      | true ↦ ok node.data_ptr
      | false ↦ nth_loop fuel nodes node.next (n + 1) i
    ]
]

unfoldable pub nth : Linked → ℤ → Run Ptr
nth l i = nth_loop (rounds l) l.nodes l.head 0 i

abbrev pub chosen : Linked → Ptr → Ptr
chosen l cmpf = if cmpf == null then l.cmp_fn else cmpf

-- The loop of n_list_lookup_ex
unfoldable pub lookup_loop : (Ptr → Ptr → ℤ) → (fuel : ℕ) → Nodes → (p wanted : Ptr) → Run Ptr
lookup_loop compare zero nodes p wanted = fault endless
lookup_loop compare (suc fuel) nodes p wanted = elim (p == null) [
  | true ↦ ok null
  | false ↦ do
    node ← read nodes p
    elim (is_zero (compare node.data_ptr wanted)) [
      | true ↦ ok node.data_ptr
      | false ↦ lookup_loop compare fuel nodes node.next wanted
    ]
]

unfoldable pub lookup_ex : Code → Linked → (wanted cmpf : Ptr) → Run Ptr
lookup_ex code l wanted cmpf = do
  die_if (chosen l cmpf == null) list_no_cmp
  lookup_loop (code.cmp (chosen l cmpf)) (rounds l) l.nodes l.head wanted

unfoldable pub contains_ex : Code → Linked → (wanted cmpf : Ptr) → Run Bool
contains_ex code l wanted cmpf = do p ← lookup_ex code l wanted cmpf; ok (not (p == null))

-- The loop of n_list_map_arg: the arguments of the calls of `map_fn`
unfoldable pub visit : (fuel : ℕ) → Nodes → Ptr → Run (List Ptr)
visit zero nodes p = fault endless
visit (suc fuel) nodes p = elim (p == null) [
  | true ↦ ok []
  | false ↦ do node ← read nodes p; rest ← visit fuel nodes node.next; ok (node.data_ptr ∷ rest)
]

-- n_list_map_arg, with a `map_fn`
unfoldable pub map_arg_calls : Linked → Run (List Ptr)
map_arg_calls l = visit (rounds l) l.nodes l.head

-- n_list_iterator_start, and n_list_iterator_get on the node of the iterator: the result and the next
-- node
unfoldable pub iterator_start : Linked → Ptr
iterator_start l = l.head

unfoldable pub iterator_get : Nodes → Ptr → Run (Ptr × Ptr)
iterator_get nodes p = elim (p == null) [
  | true ↦ ok (null, p)
  | false ↦ do node ← read nodes p; ok (node.data_ptr, node.next)
]
