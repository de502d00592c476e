-- ===== src/Tuple.antt =====
-- The tuples of ntuple.c and include/trurl/ntuple.h: blocks of pointers of a fixed length.
pub mod Order
pub mod Drain
use trurlib.Prelude.{
  ℕ, zero, suc, ◌+◌, ◌-◌, ◌&&◌, ◌||◌, Bool, true, false, not, Option, none, some, List, [], ◌∷◌,
  ltb, leb, ◌==◌, if◌then◌else◌, take, length, replicate,
}
use trurlib.Prelude.Int.{ℤ, pos, negsuc, is_neg, pos_part}
use trurlib.Run.{
  Run, ok, fault, endless, out_of_bounds, null_pointer, die_if, tuple_oob, n_assert, ◌>>=◌, ◌>>◌,
}
use trurlib.Memory.Block.{load, store}
use trurlib.Array.State.{Array, Ptr, null, Code}
use trurlib.Array.State as State
use trurlib.Array.Slots.{outside}
use trurlib.Array.Ends.{shift}
use trurlib.Sort.{isort, qsort, search_idx, search_any}

-- struct trurl_tuple_private
pub record Tuple : Type 0 where
  pub refcnt : ℕ
  pub size : ℕ
  pub cells : List Ptr

-- n_tuple_new. The int `size` passes the test when it is negative; a block of that size, read as a
-- size_t, ends every run of memcpy and memset behind the memory.
unfoldable pub new : ℤ → Option (List Ptr) → Run Tuple
new size given = do
  n_assert (is_neg size || ltb (pos_part size) 65535)
  (if is_neg size then fault out_of_bounds else fill_cells (pos_part size) given)
  where
    fill_cells : ℕ → Option (List Ptr) → Run Tuple
    fill_cells n none = ok (record { refcnt = 0; size = n; cells = replicate n null })
    fill_cells n (some block) =
        if leb n (length block)
        then ok (record { refcnt = 0; size = n; cells = take n block })
        else fault out_of_bounds

-- The loop of n_tuple_new_fromarray, while the array has elements
unfoldable pub drain : (fuel i : ℕ) → Array → List Ptr → Run (Array × List Ptr)
drain zero i arr cells = if ltb 0 arr.items then fault endless else ok (arr, cells)
drain (suc fuel) i arr cells = elim (ltb 0 arr.items) [
  | false ↦ ok (arr, cells)
  | true ↦ do (p, arr) ← shift arr; cells ← store cells i p; drain fuel (i + 1) arr cells
]

-- n_tuple_new_fromarray, on an array of fewer than 2^31 elements, whose size is read as an int
unfoldable pub new_fromarray : Array → Run (Tuple × Array)
new_fromarray arr = do
  tu ← new (State.size arr) none
  (arr, cells) ← drain arr.items 0 arr tu.cells
  ok (record tu { cells = cells }, arr)

-- n_tuple_free: whether the tuple is still there
unfoldable pub free : Tuple → Bool × Tuple
free tu =
    if ltb 0 tu.refcnt
    then (true, record tu { refcnt = tu.refcnt - 1 })
    else (false, record tu { size = 0 })

unfoldable pub nth : Tuple → ℤ → Run Ptr
nth tu i = do die_if (outside i tu.size) tuple_oob; load tu.cells (pos_part i)

unfoldable pub set_nth : Tuple → ℤ → Ptr → Run Tuple
set_nth tu i p = do
  die_if (outside i tu.size) tuple_oob
  cells ← store tu.cells (pos_part i) p
  ok (record tu { cells = cells })

-- A comparison with no function to compare with
abbrev pub needs_cmp : (compares : Bool) → (cmpf : Ptr) → Run (Unit {0})
needs_cmp compares cmpf = if compares && (cmpf == null) then fault null_pointer else ok tt

module _ (code : Code) where
  -- n_tuple_isort_ex, n_tuple_qsort_ex and n_tuple_sort_ex
  unfoldable pub isort_ex : Tuple → Ptr → Run Tuple
  isort_ex tu cmpf = do
    needs_cmp (ltb 1 tu.size) cmpf
    cells ← isort (code.cmp cmpf) tu.cells tu.size
    ok (record tu { cells = cells })

  unfoldable pub qsort_ex : Tuple → Ptr → Run Tuple
  qsort_ex tu cmpf = do
    needs_cmp (ltb 1 tu.size) cmpf
    cells ← qsort (code.cmp cmpf) tu.size tu.cells
    ok (record tu { cells = cells })

  unfoldable pub sort_ex : Tuple → Ptr → Run Tuple
  sort_ex tu cmpf = if ltb 10 tu.size then qsort_ex tu cmpf else isort_ex tu cmpf

  -- n_tuple_bsearch_idx_ex
  unfoldable pub bsearch_idx_ex : Tuple → (wanted cmpf : Ptr) → Run ℤ
  bsearch_idx_ex tu wanted cmpf = do
    needs_cmp (ltb 0 tu.size) cmpf
    (if tu.size == 0 then ok (negsuc 0) else search_idx (code.cmp cmpf) tu.cells tu.size wanted)

  -- n_tuple_bsearch_ex
  unfoldable pub bsearch_ex : Tuple → (wanted cmpf : Ptr) → Run Ptr
  bsearch_ex tu wanted cmpf = do
    needs_cmp (ltb 0 tu.size) cmpf
    (if tu.size == 0 then ok null else (do
      idx ← search_any (code.cmp cmpf) tu.cells tu.size wanted
      elim idx [ negsuc n ↦ ok null | pos i ↦ load tu.cells i ]))
