-- ===== src/Oash/Walk.antt =====
-- Calls that go through a whole table: n_oash_map, n_oash_map_arg, n_oash_values, n_oash_dup,
-- n_oash_free and the iterator of noash.c.
pub mod Iterator
use trurlib.Prelude.{
  ℕ, zero, suc, ◌+◌, ◌-◌, ◌&&◌, Bool, true, false, Option, none, some, List, [], ◌∷◌, ◌++◌, ltb,
  leb, ◌==◌, if◌then◌else◌, map, length,
}
use trurlib.Prelude.Int.{to_int}
use trurlib.Run.{Run, ok, fault, endless, ◌>>=◌}
use trurlib.Memory.Block.{load}
use trurlib.Array.State.{Array, Ptr, null, Code, log_free, new}
use trurlib.Hash.Table.{Key}
use trurlib.Hash.Walk.{push_all}
use trurlib.Oash.Table.{Entry, Dentry, Oash, new_ex, get_dentry}
use trurlib.Oash.Put.{hinsert}

-- The entries with their dentries in the order in which every walk meets them: `n` slots are left,
-- from `i` on.
unfoldable pub walk : (n i : ℕ) → Oash → Run (List (Entry × Dentry))
walk zero i ht = ok []
walk (suc n) i ht = do
  e ← load ht.table i
  elim (e.hash == 0) [
    | true ↦ walk n (i + 1) ht
    | false ↦ do
      de ← get_dentry ht.dentries e.data_index
      rest ← walk n (i + 1) ht
      ok ((e, de) ∷ rest)
  ]

-- n_oash_map and n_oash_map_arg: the calls of `map_fn`, and the number that is returned
unfoldable pub map_calls : Oash → Run (List (Key × Ptr) × ℕ)
map_calls ht = do
  met ← walk ht.cap 0 ht
  ok (map (λ (m : Entry × Dentry). ((m.1).key, (m.1).value)) met, length met)

-- n_oash_values
unfoldable pub values : Code → Oash → Run Array
values code ht = do
  arr ← new code (to_int ht.size) null null
  met ← walk ht.cap 0 ht
  push_all (map (λ (m : Entry × Dentry). (m.1).value) met) arr

-- The inserts of n_oash_dup
unfoldable pub dup_all : (Ptr → Ptr) → List (Entry × Dentry) → Oash → Run Oash
dup_all copy [] h = ok h
dup_all copy ((e, de) ∷ met) h = do
  (at, h) ← hinsert h de.key e.klen e.hash (if de.value == null then null else copy de.value)
  dup_all copy met h

-- n_oash_dup, with a copying function that gives equal pointers equal copies, or NULL
unfoldable pub dup : Oash → Option (Ptr → Ptr) → Run Oash
dup ht dup_fn = do
  h ← new_ex ht.cap ht.free_fn null
  met ← walk ht.cap 0 ht
  dup_all (copier dup_fn) met (record h { rehash = ht.rehash; noreplace = ht.noreplace })
  where
    copier : Option (Ptr → Ptr) → Ptr → Ptr
    copier none p = p
    copier (some f) p = f p

-- The loop of n_oash_free: `n` slots are left, from `i` on.
unfoldable pub free_loop : (n i : ℕ) → Oash → List Ptr → Run (List Ptr)
free_loop zero i ht freed = ok freed
free_loop (suc n) i ht freed = do
  e ← load ht.table i
  elim (e.hash == 0) [
    | true ↦ free_loop n (i + 1) ht freed
    | false ↦ do
      d ← load ht.dentries e.data_index
      elim d [
        | none ↦ free_loop n (i + 1) ht freed
        | some de ↦ free_loop n (i + 1) ht (log_free ht.free_fn de.value freed)
      ]
  ]

-- n_oash_free: whether the table is still there, with its last state.
unfoldable pub free : Oash → Run (Bool × Oash)
free ht = if ltb 0 ht.refcnt then ok (true, record ht { refcnt = ht.refcnt - 1 }) else (do
  freed ← free_loop ht.cap 0 ht ht.freed
  ok (false, record ht { table = []; dentries = []; cap = 0; size = 0; freed = freed }))

-- The first loop of n_oash_it_get reads a slot before it compares its index with `cap`.
unfoldable pub next_slot : (fuel : ℕ) → List Entry → (cap i : ℕ) → Run ℕ
next_slot zero table cap i = fault endless
next_slot (suc fuel) table cap i = do
  e ← load table i
  elim ((e.hash == 0) && ltb i cap) [ true ↦ next_slot fuel table cap (i + 1) | false ↦ ok i ]

-- n_oash_it_get on the position of the iterator: the next dentry, or `none` at the end
unfoldable pub it_get : Oash → (pos : ℕ) → Run (Option Dentry × ℕ)
it_get ht pos = do
  i ← next_slot (suc ht.cap) ht.table ht.cap pos
  (if leb ht.cap i
      then ok (none, pos)
      else (do e ← load ht.table i; de ← get_dentry ht.dentries e.data_index; ok (some de, i + 1)))
