-- ===== src/Array/Whole.antt =====
-- Calls on a whole array: n_array_clean.c, n_array_free of n_array_new.c, n_array_clone.c,
-- n_array_map.c, n_array_map_arg.c and n_array_reverse of n_array_sorts.c.
pub mod Clean
pub mod Clone
pub mod Visit
use trurlib.Prelude.{
  ℕ, zero, suc, ◌+◌, ◌-◌, Bool, true, false, not, List, [], ◌∷◌, ◌++◌, ltb, ◌==◌, if◌then◌else◌,
}
use trurlib.Prelude.Int.{ℤ, to_int}
use trurlib.Run.{Run, ok, ◌>>=◌, ◌>>◌, n_assert}
use trurlib.Memory.Block.{load, store}
use trurlib.Array.State.{Array, Ptr, null, Code, Flags, new, unfreeze, log_free, die_if_frozen}
use trurlib.Array.Ends.{push}

-- The loop of n_array_clean: `n` cells are left, from `i` on.
module _ (free_fn : Ptr) where
  unfoldable pub clean_loop : (n i : ℕ) → (cells freed : List Ptr) → Run (List Ptr × List Ptr)
  clean_loop zero i cells freed = ok (cells, freed)
  clean_loop (suc n) i cells freed = do
    p ← load cells i
    cells ← (if p == null then ok cells else store cells i null)
    clean_loop n (i + 1) cells (log_free free_fn p freed)

unfoldable pub clean : Array → Run Array
clean arr = do
  die_if_frozen arr
  (cells, freed) ← clean_loop arr.free_fn arr.allocated 0 arr.cells arr.freed
  ok (record arr { cells = cells; freed = freed; start_index = 0; items = 0 })

-- n_array_free: whether the array is still there, with its last state.
unfoldable pub free : Array → Run (Bool × Array)
free arr = if ltb 0 arr.refcnt then ok (true, record arr { refcnt = arr.refcnt - 1 }) else (do
  n_assert (not arr.flags.na)
  arr ← clean (unfreeze arr)
  ok (false, record arr { cells = [] }))

-- The loop of n_array_clone_ex over the items of `arr`
module _ (code : Code) (arr : Array) (dup_fn : Ptr) where
  unfoldable pub clone_loop : (n i : ℕ) → Array → Run Array
  clone_loop zero i dupl = ok dupl
  clone_loop (suc n) i dupl = do
    p ← load arr.cells (arr.start_index + i)
    dupl ← push dupl (code.dup dup_fn i p)
    clone_loop n (i + 1) dupl

-- n_array_clone_ex; n_array_dup is the same call, and n_array_clone the one with `dup_fn` NULL.
unfoldable pub clone_ex : Code → Array → Ptr → Run Array
clone_ex code arr dup_fn = do
  dupl ← new code (to_int arr.allocated) arr.free_fn arr.cmp_fn
  let dupl = record dupl { flags = arr.flags }
  (if dup_fn == null then ok dupl else (do
    dupl ← clone_loop code arr dup_fn arr.items 0 dupl
    n_assert (dupl.items == arr.items)
    ok dupl))

-- The cells that a map visits, from `i` on: the arguments of the calls of `map_fn`, in order.
unfoldable pub visit : (n i : ℕ) → List Ptr → Run (List Ptr)
visit zero i cells = ok []
visit (suc n) i cells = do p ← load cells i; rest ← visit n (i + 1) cells; ok (p ∷ rest)

-- n_array_map: `i` runs from `start_index` up to `items`.
unfoldable pub map_calls : Array → Run (List Ptr)
map_calls arr = visit (arr.items - arr.start_index) arr.start_index arr.cells

-- n_array_map_arg: `i` runs from `start_index` up to `items + start_index`.
unfoldable pub map_arg_calls : Array → Run (List Ptr)
map_arg_calls arr = visit arr.items arr.start_index arr.cells

-- The loop of n_array_reverse, while `i < j`; `n` bounds the rounds.
unfoldable pub reverse_loop : (n i j : ℕ) → List Ptr → Run (List Ptr)
reverse_loop zero i j cells = ok cells
reverse_loop (suc n) i j cells = elim (ltb i j) [
  | false ↦ ok cells
  | true ↦ do
    a ← load cells i
    b ← load cells j
    cells ← store cells i b
    cells ← store cells j a
    reverse_loop n (i + 1) (j - 1) cells
]

-- n_array_reverse; with no items `j` is -1 and the loop does not run.
unfoldable pub reverse : Array → Run Array
reverse arr = do
  die_if_frozen arr
  cells ← reverse_loop arr.items arr.start_index (arr.items - 1) arr.cells
  ok (record arr { cells = cells })
