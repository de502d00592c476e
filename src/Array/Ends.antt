-- ===== src/Array/Ends.antt =====
-- Adding and taking at the ends: n_array_push.c, n_array_pop.c, n_array_shift.c and
-- n_array_unshift.c.
pub mod Push
pub mod Take
pub mod Concat
use trurlib.Prelude.{ℕ, zero, suc, ◌+◌, ◌-◌, List, leb, ltb, ◌==◌, if◌then◌else◌}
use trurlib.Prelude.Int.{ℤ, pos, pos_part}
use trurlib.Run.{Run, ok, die_if, pop_empty, shift_empty, ◌>>=◌, ◌>>◌}
use trurlib.Memory.Block.{load, store, move}
use trurlib.Array.State.{Array, Ptr, null, Code, size, die_if_frozen, clr_sorted}
use trurlib.Array.Grow.{grow}
use trurlib.Array.Slots.{nth_inl}

-- The test and the call of n_array_grow with which n_array_push and n_array_unshift begin
unfoldable pub room_for_one : Array → Run Array
room_for_one arr = if arr.items == arr.allocated then grow arr (arr.allocated + 1) else ok arr

-- The writes of n_array_push
unfoldable pub append_cell : Array → Ptr → Run Array
append_cell arr p = do
  cells ← store arr.cells (arr.start_index + arr.items) p
  ok (clr_sorted (record arr { cells = cells; items = arr.items + 1 }))

-- n_array_push; n_array_push_inl of narray.h does the same.
unfoldable pub push : Array → Ptr → Run Array
push arr p = do die_if_frozen arr; arr ← room_for_one arr; append_cell arr p

unfoldable pub pop : Array → Run (Ptr × Array)
pop arr = do
  die_if_frozen arr
  die_if (leb arr.items 0) pop_empty
  let at = arr.start_index + arr.items - 1
  p ← load arr.cells at
  cells ← store arr.cells at null
  ok (p, record arr { cells = cells; items = arr.items - 1 })

unfoldable pub shift : Array → Run (Ptr × Array)
shift arr = do
  die_if_frozen arr
  die_if (leb arr.items 0) shift_empty
  p ← load arr.cells arr.start_index
  cells ← store arr.cells arr.start_index null
  ok (p, record arr { cells = cells; items = arr.items - 1; start_index = arr.start_index + 1 })

-- The two branches of n_array_unshift: in front of the window, and by moving the cells up.
unfoldable pub unshift_before : Array → Ptr → Run Array
unshift_before arr p = do
  cells ← store arr.cells (arr.start_index - 1) p
  ok (record arr { cells = cells; start_index = arr.start_index - 1 })

unfoldable pub insert_first : Array → Ptr → Run Array
insert_first arr p = do
  cells ← (move arr.cells 1 0 arr.items >>= λ moved. store moved 0 p)
  ok (record arr { cells = cells })

unfoldable pub unshift_moving : Array → Ptr → Run Array
unshift_moving arr p = do arr ← room_for_one arr; insert_first arr p

unfoldable pub unshift : Array → Ptr → Run Array
unshift arr p = do
  die_if_frozen arr
  arr ← (if ltb 0 arr.start_index then unshift_before arr p else unshift_moving arr p)
  ok (clr_sorted (record arr { items = arr.items + 1 }))

-- The loop of n_array_concat_ex: `n` items of `src` are left, from `i` on.
module _ (code : Code) (src : Array) (dup_fn : Ptr) where
  unfoldable pub concat_loop : (n i index : ℕ) → List Ptr → Run (ℕ × List Ptr)
  concat_loop zero i index cells = ok (index, cells)
  concat_loop (suc n) i index cells = do
    item ← nth_inl src (pos i)
    cells ← store cells index (if dup_fn == null then item else code.dup dup_fn i item)
    concat_loop n (i + 1) (index + 1) cells

-- n_array_concat_ex, with `src` another array than `arr`
unfoldable pub concat_ex : Code → Array → Array → Ptr → Run Array
concat_ex code arr src dup_fn = do
  die_if_frozen arr
  arr ←
      (if ltb arr.allocated (arr.items + src.items)
        then grow arr (arr.allocated + src.items)
        else ok arr)
  (index, cells) ←
      concat_loop code src dup_fn (pos_part (size src)) 0 (arr.start_index + arr.items) arr.cells
  ok (clr_sorted (record arr { cells = cells; items = index }))
