-- ===== src/Array/Scan.antt =====
-- Calls that compare elements: n_array_remove_ex.c, n_array_uniq_ex.c and n_array_eq_ex.c.
pub mod Remove
use trurlib.Prelude.{
  ℕ, zero, suc, ◌+◌, ◌-◌, ◌%◌, ◌^◌, Bool, true, false, not, List, [], ◌∷◌, ◌++◌, ltb, ◌==◌,
  if◌then◌else◌,
}
use trurlib.Prelude.Int.{ℤ, pos, is_zero}
use trurlib.Run.{Run, ok, fault, endless, ◌>>=◌, ◌>>◌, n_assert}
use trurlib.Memory.Block.{load, store, move}
use trurlib.Array.State.{Array, Ptr, null, Code, log_free, die_if_frozen}
use trurlib.Array.Slots.{remove_nth}

-- `if (cmpf == NULL) cmpf = arr->cmp_fn;`
abbrev pub chosen : Array → Ptr → Ptr
chosen arr cmpf = if cmpf == null then arr.cmp_fn else cmpf

-- What the loop of n_array_remove_ex changes.
pub record Sweep : Type 0 where
  pub cells : List Ptr
  pub items : ℕ
  pub freed : List Ptr

module _ (compare : Ptr → Ptr → ℤ) (free_fn wanted : Ptr) (allocated : ℕ) where
  -- The element in cell `i` goes, and the cells behind it move down.
  unfoldable pub take_out : ℕ → Ptr → Sweep → Run Sweep
  take_out i p s = do
    let n = allocated - 1 - i
    cells ← (if ltb 0 n then move s.cells i (i + 1) n else ok s.cells)
    cells ← store cells (allocated - 1) null
    ok (record {
      cells = cells;
      items = (s.items + 2 ^ 64 - 1) % 2 ^ 64;
      freed = log_free free_fn p s.freed;
    })

  -- The loop of n_array_remove_ex, while `i < allocated`. After a removal the same cell is looked at
  -- again, so the rounds are bounded by the cells left and the items together.
  unfoldable pub remove_loop : (fuel i : ℕ) → Sweep → Run Sweep
  remove_loop zero i s = if ltb i allocated then fault endless else ok s
  remove_loop (suc fuel) i s = elim (ltb i allocated) [
    | false ↦ ok s
    | true ↦ do
      p ← load s.cells i
      elim (p == null) [
        | true ↦ remove_loop fuel (i + 1) s
        | false ↦ elim (is_zero (compare p wanted)) [
          | false ↦ remove_loop fuel (i + 1) s
          | true ↦ take_out i p s >>= λ s. remove_loop fuel i s
        ]
      ]
  ]

unfoldable pub remove_ex : Code → Array → Ptr → Ptr → Run Array
remove_ex code arr wanted cmpf = do
  die_if_frozen arr
  (if arr.items == 0 then ok arr else (do
    n_assert (not (chosen arr cmpf == null))
    s ←
        remove_loop (code.cmp (chosen arr cmpf)) arr.free_fn wanted arr.allocated
          (arr.allocated + arr.items) arr.start_index
          (record { cells = arr.cells; items = arr.items; freed = arr.freed })
    ok (record arr { cells = s.cells; items = s.items; freed = s.freed })))

-- The loop of n_array_uniq_ex, while `i < items`
module _ (compare : Ptr → Ptr → ℤ) where
  unfoldable pub uniq_loop : (fuel i : ℕ) → Array → Run Array
  uniq_loop zero i arr = if ltb i arr.items then fault endless else ok arr
  uniq_loop (suc fuel) i arr = elim (ltb i arr.items) [
    | false ↦ ok arr
    | true ↦ do
      a ← load arr.cells (i - 1)
      b ← load arr.cells i
      elim (is_zero (compare a b)) [
        | true ↦ remove_nth arr (pos i) >>= λ arr. uniq_loop fuel i arr
        | false ↦ uniq_loop fuel (i + 1) arr
      ]
  ]

-- n_array_uniq_ex: every round moves `i` up or takes an item out.
unfoldable pub uniq_ex : Code → Array → Ptr → Run Array
uniq_ex code arr cmpf = do
  die_if_frozen arr
  n_assert (not (chosen arr cmpf == null))
  uniq_loop (code.cmp (chosen arr cmpf)) arr.items 1 arr

-- The loop of n_array_eq_ex: `n` pairs are left, from `i` on.
unfoldable pub eq_loop : (Ptr → Ptr → ℤ) → (n i : ℕ) → (cells₁ cells₂ : List Ptr) → Run Bool
eq_loop compare zero i cells₁ cells₂ = ok true
eq_loop compare (suc n) i cells₁ cells₂ = do
  a ← load cells₁ i
  b ← load cells₂ i
  elim (is_zero (compare a b)) [ false ↦ ok false | true ↦ eq_loop compare n (i + 1) cells₁ cells₂ ]

unfoldable pub eq_ex : Code → (arr₁ arr₂ : Array) → Ptr → Run Bool
eq_ex code arr₁ arr₂ cmpf = do
  n_assert (not (chosen arr₁ cmpf == null))
  (if arr₁.items == arr₂.items
      then eq_loop (code.cmp (chosen arr₁ cmpf)) arr₁.items 0 arr₁.cells arr₂.cells
      else ok false)
