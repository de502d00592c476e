-- ===== src/Array/Order.antt =====
-- Sorting and searching of arrays: n_array_sorts.c and n_array_bsearch_ex.c. void_tim_sort is code of
-- vendor/sort.h: what it makes of a block is the parameter `timsort`.
pub mod Found
pub mod Sorted
use trurlib.Prelude.{
  ℕ, zero, suc, ◌+◌, ◌-◌, ◌&&◌, Bool, true, false, not, Option, none, some, List, [], ◌∷◌, ◌++◌,
  ltb, leb, ◌==◌, if◌then◌else◌, take, drop, length,
}
use trurlib.Prelude.Int.{ℤ, pos, negsuc}
use trurlib.Run.{
  Run, ok, fault, out_of_bounds, die, die_if, sort_no_cmp, bsearch_no_cmp, ◌>>=◌, ◌>>◌,
}
use trurlib.Memory.Block.{load}
use trurlib.Array.State.{Array, Ptr, null, Code, die_if_frozen, set_sorted, clr_sorted}
use trurlib.Sort.{search_idx, search_any}

-- What autosort leaves: the array, the function to compare with, and whether its order is the
-- array's own
pub record Choice : Type 0 where
  pub arr : Array
  pub cmpf : Ptr
  pub own : Bool

unfoldable pub autosort : Array → Ptr → Run Choice
autosort arr cmpf =
    if cmpf == null
    then (if arr.cmp_fn == null
        then die sort_no_cmp
        else ok (record { arr = arr; cmpf = arr.cmp_fn; own = true }))
    else if cmpf == arr.cmp_fn
    then ok (record { arr = arr; cmpf = cmpf; own = true })
    else ok (record { arr = clr_sorted arr; cmpf = cmpf; own = false })

module _ (timsort : (Ptr → Ptr → ℤ) → List Ptr → List Ptr) (code : Code) where
  -- trurl_timsort_voidp_arr on `&arr->data[arr->start_index]`
  unfoldable pub sort_window : Array → (cmpf : Ptr) → Run Array
  sort_window arr cmpf =
      if leb (arr.start_index + arr.items) (length arr.cells)
      then ok (record arr {
        cells =
            take arr.start_index arr.cells
            ++ (timsort (code.cmp cmpf) (take arr.items (drop arr.start_index arr.cells))
                ++ drop arr.items (drop arr.start_index arr.cells));
      })
      else fault out_of_bounds

  -- n_array_sort_internal; n_array_sort_ex, n_array_qsort_ex and n_array_isort_ex all use timsort.
  unfoldable pub sort_ex : Array → Ptr → Run Array
  sort_ex arr cmpf = do
    c ← autosort arr cmpf
    (if c.arr.flags.autosorted && c.arr.flags.is_sorted then ok c.arr else (do
      die_if_frozen c.arr
      arr ← sort_window c.arr c.cmpf
      ok (if c.own then set_sorted arr else arr)))

  -- The function to compare with, after the array has been sorted if that is to be done
  unfoldable pub searched : Array → Ptr → Run (Array × Ptr)
  searched arr cmpf =
      if cmpf == null
      then (die_if (arr.cmp_fn == null) bsearch_no_cmp
          >> ((if arr.flags.autosorted then sort_ex arr null else ok arr) >>= λ arr.
              ok (arr, arr.cmp_fn)))
      else ok (arr, cmpf)

  -- n_array_bsearch_idx_ex: the int that it returns, and the array
  unfoldable pub bsearch_idx_ex : Array → Ptr → Ptr → Run (ℤ × Array)
  bsearch_idx_ex arr wanted cmpf = do
    (arr, cmpf) ← searched arr cmpf
    (if arr.items == 0
        then ok (negsuc 0, arr)
        else (search_idx (code.cmp cmpf) (drop arr.start_index arr.cells) arr.items wanted
            >>= λ idx. ok (idx, arr)))

  -- n_array_bsearch_ex: the element, or NULL
  unfoldable pub bsearch_ex : Array → Ptr → Ptr → Run (Ptr × Array)
  bsearch_ex arr wanted cmpf = do
    (arr, cmpf) ← searched arr cmpf
    (if arr.items == 0 then ok (null, arr) else (do
      idx ← search_any (code.cmp cmpf) (drop arr.start_index arr.cells) arr.items wanted
      elim idx [
        | negsuc n ↦ ok (null, arr)
        | pos i ↦ load (drop arr.start_index arr.cells) i >>= λ p. ok (p, arr)
      ]))
