-- ===== src/Sort.antt =====
-- Sorting and searching of blocks of pointers: trurl_isort_voidp_arr and trurl_qsort_voidp_arr of
-- n_array_sorts.c, and the binary search that n_array_bsearch_ex.c and ntuple.c share.
pub mod Insertion
pub mod Search
use trurlib.Prelude.{
  ℕ, zero, suc, ◌+◌, ◌-◌, ◌/◌, ◌&&◌, Bool, true, false, not, Option, none, some, List, [], ◌∷◌, ltb,
  ◌==◌, if◌then◌else◌, take, drop, ◌++◌, length,
}
use trurlib.Prelude.Int.{ℤ, pos, negsuc, is_neg, is_zero, is_pos, to_int}
use trurlib.Run.{Run, ok, fault, endless, out_of_bounds, ◌>>=◌}
use trurlib.Memory.Block.{load, store}
use trurlib.Array.State.{Ptr}

module _ (compare : Ptr → Ptr → ℤ) where
  -- The inner loop of trurl_isort_voidp_arr: the elements above `tmp` move up.
  unfoldable pub sift : (j : ℕ) → List Ptr → (tmp : Ptr) → Run (List Ptr × ℕ)
  sift zero arr tmp = ok (arr, 0)
  sift (suc j) arr tmp = do
    p ← load arr j
    elim (is_neg (compare tmp p)) [
      | false ↦ ok (arr, suc j)
      | true ↦ store arr (suc j) p >>= λ arr. sift j arr tmp
    ]

  -- Its outer loop: `n` elements are left, from `i` on.
  unfoldable pub isort_loop : (n i : ℕ) → List Ptr → Run (List Ptr)
  isort_loop zero i arr = ok arr
  isort_loop (suc n) i arr = do
    tmp ← load arr i
    (arr, j) ← sift i arr tmp
    arr ← store arr j tmp
    isort_loop n (i + 1) arr

  unfoldable pub isort : List Ptr → (arr_size : ℕ) → Run (List Ptr)
  isort arr arr_size = isort_loop (arr_size - 1) 1 arr

  -- `do j--; while (j && cmpf(arr[j], arr[0]) > 0)`. From 0 the unsigned `j` wraps.
  unfoldable pub go_down : (j : ℕ) → List Ptr → Run ℕ
  go_down zero arr = fault out_of_bounds
  go_down (suc zero) arr = ok 0
  go_down (suc (suc j)) arr = do
    a ← load arr (suc j)
    b ← load arr 0
    elim (is_pos (compare a b)) [ true ↦ go_down (suc j) arr | false ↦ ok (suc j) ]

  -- `do i++; while (i < j && cmpf(arr[i], arr[0]) < 0)`
  unfoldable pub go_up : (fuel i j : ℕ) → List Ptr → Run ℕ
  go_up zero i j arr = fault endless
  go_up (suc fuel) i j arr = elim (ltb (i + 1) j) [
    | false ↦ ok (i + 1)
    | true ↦ do
      a ← load arr (i + 1)
      b ← load arr 0
      elim (is_neg (compare a b)) [ true ↦ go_up fuel (i + 1) j arr | false ↦ ok (i + 1) ]
  ]

  -- `SWAP_void(arr[i], arr[j])`
  unfoldable pub swap : List Ptr → (i j : ℕ) → Run (List Ptr)
  swap arr i j = do a ← load arr i; b ← load arr j; arr ← store arr i b; store arr j a

  -- The loop of trurl_qsort_voidp_arr around its pivot in the first cell; the result has `j`.
  unfoldable pub partition : (fuel i j : ℕ) → List Ptr → Run (List Ptr × ℕ)
  partition zero i j arr = fault endless
  partition (suc fuel) i j arr = do
    j ← go_down j arr
    i ← go_up (suc j) i j arr
    elim (ltb i j) [ false ↦ ok (arr, j) | true ↦ swap arr i j >>= λ arr. partition fuel i j arr ]

  -- trurl_qsort_voidp_arr. The smaller side is sorted by a call of its own, the other one by the next
  -- round; both are done here on a copy of their cells.
  unfoldable pub qsort : (fuel : ℕ) → List Ptr → Run (List Ptr)
  qsort zero arr = if ltb 1 (length arr) then fault endless else ok arr
  qsort (suc fuel) arr = elim (ltb 1 (length arr)) [
    | false ↦ ok arr
    | true ↦ do
      arr ← swap arr 0 (length arr / 2)
      (arr, j) ← partition (length arr) 0 (length arr) arr
      arr ← swap arr j 0
      pivot ← load arr j
      left ← qsort fuel (take j arr)
      right ← qsort fuel (drop (suc j) arr)
      ok (left ++ (pivot ∷ right))
  ]

  -- The loop of bsearch_voidp_arr and of bsearch_voidp_tu on the cells from `l` to `r`, which become
  -- fewer in every round
  unfoldable pub bsearch_loop : (fuel l r : ℕ) → List Ptr → (wanted : Ptr) → Run (Option ℕ)
  bsearch_loop zero l r arr wanted = if ltb l r then fault endless else ok none
  bsearch_loop (suc fuel) l r arr wanted = elim (ltb l r) [
    | false ↦ ok none
    | true ↦ do
      let i = (l + r) / 2
      p ← load arr i
      elim (is_zero (compare p wanted)) [
        | true ↦ ok (some i)
        | false ↦ elim (is_pos (compare p wanted)) [
          | true ↦ bsearch_loop fuel l i arr wanted
          | false ↦ bsearch_loop fuel (i + 1) r arr wanted
        ]
      ]
  ]

  abbrev as_int : Option ℕ → ℤ
  as_int none = negsuc 0
  as_int (some i) = to_int i

  -- bsearch_voidp_arr and bsearch_voidp_tu: the size_t index becomes an int.
  unfoldable pub bsearch : List Ptr → (arr_size : ℕ) → Ptr → Run ℤ
  bsearch arr arr_size wanted =
      bsearch_loop arr_size 0 arr_size arr wanted >>= λ found. ok (as_int found)

  -- The loop of n_array_bsearch_idx_ex and n_tuple_bsearch_idx_ex: back to the first element that
  -- is equal
  unfoldable pub first_equal : (idx : ℕ) → List Ptr → Ptr → Run ℕ
  first_equal zero arr wanted = ok 0
  first_equal (suc idx) arr wanted = do
    p ← load arr idx
    elim (is_zero (compare p wanted)) [ true ↦ first_equal idx arr wanted | false ↦ ok (suc idx) ]

  abbrev back_from : ℤ → List Ptr → Ptr → Run ℤ
  back_from (negsuc n) arr wanted = ok (negsuc n)
  back_from (pos idx) arr wanted = first_equal idx arr wanted >>= λ idx. ok (pos idx)

  -- The search for an index in `base`, for more than one element and for one
  unfoldable pub search_idx : List Ptr → (items : ℕ) → Ptr → Run ℤ
  search_idx base items wanted = elim (ltb 1 items) [
    | true ↦ bsearch base items wanted >>= λ idx. back_from idx base wanted
    | false ↦ load base 0 >>= λ p. ok (if is_zero (compare p wanted) then pos 0 else negsuc 0)
  ]

  -- The search for any element that is equal
  unfoldable pub search_any : List Ptr → (items : ℕ) → Ptr → Run ℤ
  search_any base items wanted = elim (ltb 1 items) [
    | true ↦ bsearch base items wanted
    | false ↦ load base 0 >>= λ p. ok (if is_zero (compare p wanted) then pos 0 else negsuc 0)
  ]
