-- ===== src/Array/Grow.antt =====
-- n_array_grow_priv.c: how the block of an array grows. The size_t arithmetic is taken modulo
-- 2 ^ 64, where the doubling of a size can wrap.
pub mod Enough
use trurlib.Prelude.{
  ℕ, zero, suc, ◌+◌, ◌-◌, ◌*◌, ◌%◌, ◌^◌, ◌≡◌, Bool, true, false, List, ◌++◌, leb, ltb, ◌==◌,
  if◌then◌else◌, replicate,
}
use trurlib.Prelude.Int.{is_pos, to_int}
use trurlib.Run.{Run, ok, fault, endless, die_if, const_size, ◌>>=◌, ◌>>◌, n_assert}
use trurlib.Memory.Block.{move, fill}
use trurlib.Array.State.{Array, null}

-- n_array_realloc: the new cells are cleared.
realloc : Array → ℕ → Run Array
realloc arr new_size = do
  n_assert (is_pos (to_int (new_size + 2 ^ 64 - arr.allocated)))
  ok (record arr {
    cells = arr.cells ++ replicate (new_size - arr.allocated) null;
    allocated = new_size;
  })

-- The rounds of the doubling loop. A size that starts at 0 or wraps to 0 stays there.
unfoldable pub double_until : ℕ → Bool → (req_size new_size : ℕ) → Run ℕ
double_until zero is_const req_size new_size = fault endless
double_until (suc fuel) is_const req_size new_size =
    let rest = double_until fuel is_const req_size (new_size * 2 % 2 ^ 64) in
    if leb new_size req_size then die_if is_const const_size >> rest else ok new_size

-- n_array_grow. 64 doublings take every size past 2 ^ 64 or to 0.
unfoldable pub grow : Array → ℕ → Run Array
unfolding realloc double_until
grow arr req_size = do
  new_size ← double_until 65 arr.flags.const_size req_size arr.allocated
  if ltb arr.allocated new_size then realloc arr new_size else ok arr

-- n_array__adjust
unfoldable pub adjust : Array → Run Array
adjust arr =
    if arr.start_index == 0
    then ok arr
    else if ltb 0 arr.items
    then (do
      moved ← move arr.cells 0 arr.start_index arr.items
      cells ← fill moved arr.items arr.start_index null
      ok (record arr { cells = cells; start_index = 0 }))
    else ok (record arr { start_index = 0 })
