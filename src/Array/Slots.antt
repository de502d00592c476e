-- ===== src/Array/Slots.antt =====
-- Reading and writing by index: n_array_nth.c, n_array_set_nth.c, n_array_remove_nth.c, and the
-- inline n_array_nth of include/trurl/narray.h.
pub mod Read
pub mod Write
pub mod Remove
use trurlib.Prelude.{
  ℕ, ◌+◌, ◌-◌, ◌%◌, ◌^◌, Bool, true, false, not, ◌&&◌, ◌||◌, leb, ltb, ◌==◌, if◌then◌else◌,
}
use trurlib.Prelude.Int.{ℤ, pos, negsuc, is_neg, pos_part}
use trurlib.Run.{Run, ok, die, die_if, nth_oob, set_oob, remove_oob, ◌>>=◌, ◌>>◌, n_assert}
use trurlib.Memory.Block.{load, store, move}
use trurlib.Array.State.{Array, Ptr, null, log_free, die_if_frozen, clr_sorted}
use trurlib.Array.Grow.{grow}

-- `(size_t)i >= arr->items || i < 0`
abbrev pub outside : ℤ → ℕ → Bool
outside i items = leb items (pos_part i) || is_neg i

-- n_array_nth, the function
unfoldable pub nth : Array → ℤ → Run Ptr
nth arr i = do
  n_assert (not (is_neg i))
  n_assert (ltb 0 arr.allocated)
  n_assert (ltb 0 arr.items)
  die_if (outside i arr.items) nth_oob
  load arr.cells (arr.start_index + pos_part i)

-- n_array_nth_inl, which the macro n_array_nth calls
unfoldable pub nth_inl : Array → ℤ → Run Ptr
nth_inl arr i = do
  die_if (outside i arr.items) nth_oob
  load arr.cells (arr.start_index + pos_part i)

-- n_array_set_nth
unfoldable pub set_nth : Array → ℤ → Ptr → Run Array
set_nth arr i p = do
  let at = arr.start_index + pos_part i
  n_assert (not (is_neg i))
  n_assert (ltb 0 arr.allocated)
  die_if_frozen arr
  die_if (is_neg i) set_oob
  arr ←
      (if ltb arr.allocated at
        then (do arr ← grow arr at; ok (record arr { items = at + 1 }))
        else (do
          old ← load arr.cells at
          ok (record arr { freed = log_free arr.free_fn old arr.freed })))
  cells ← store arr.cells at p
  ok (clr_sorted (record arr { cells = cells }))

-- n_array_remove_nth; `pos` is an unsigned int.
unfoldable pub remove_nth : Array → ℤ → Run Array
remove_nth arr i = do
  let at = (arr.start_index + pos_part i) % 2 ^ 32
  die_if_frozen arr
  n_assert (not (is_neg i))
  n_assert (ltb 0 arr.allocated)
  n_assert (ltb 0 arr.items)
  die_if (outside i arr.items) remove_oob
  old ← load arr.cells at
  cells ←
      (if at == arr.items
        then store arr.cells at null
        else move arr.cells at (at + 1) (arr.allocated - 1 - at))
  cells ← store cells (arr.allocated - 1) null
  ok (record arr {
    cells = cells;
    items = arr.items - 1;
    freed = log_free arr.free_fn old arr.freed;
  })
