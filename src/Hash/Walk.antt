-- ===== src/Hash/Walk.antt =====
-- Calls that go through a whole table: n_hash_map.c, n_hash_map_arg.c, n_hash_dup.c, n_hash_free.c,
-- n_hash_values of n_hash_keys.c and the iterator of n_hash_get.c.
pub mod All
use trurlib.Prelude.{
  ℕ, zero, suc, ◌+◌, ◌-◌, Bool, true, false, Option, none, some, List, [], ◌∷◌, ◌++◌, ltb, ◌==◌,
  if◌then◌else◌, map, drop, length,
}
use trurlib.Prelude.Int.{to_int}
use trurlib.Run.{Run, ok, n_assert, ◌>>=◌, ◌>>◌}
use trurlib.Memory.Block.{load}
use trurlib.Array.State.{Array, Ptr, null, Code, log_free, new}
use trurlib.Array.Ends.{push}
use trurlib.Hash.Table.{Key, Bucket, Chain, Hash, new_ex}
use trurlib.Hash.Put.{insert}

-- The buckets in the order in which every walk meets them: `n` slots are left, from `i` on.
unfoldable pub walk : (n i : ℕ) → List Chain → Run (List Bucket)
walk zero i tbl = ok []
walk (suc n) i tbl = do chain ← load tbl i; rest ← walk n (i + 1) tbl; ok (chain ++ rest)

-- n_hash_map and n_hash_map_arg: the calls of `map_fn`, and the number that is returned
unfoldable pub map_calls : Hash → Run (List (Key × Ptr) × ℕ)
map_calls ht = do
  bs ← walk ht.size 0 ht.table
  ok (map (λ (b : Bucket). (b.key, b.value)) bs, length bs)

unfoldable pub push_all : List Ptr → Array → Run Array
push_all [] arr = ok arr
push_all (p ∷ ps) arr = push arr p >>= push_all ps

-- n_hash_values
unfoldable pub values : Code → Hash → Run Array
values code ht = do
  arr ← new code (to_int ht.items) null null
  bs ← walk ht.size 0 ht.table
  push_all (map (λ (b : Bucket). b.value) bs) arr

-- The inserts of n_hash_dup: the `k`-th copy is that of the `k`-th bucket.
unfoldable pub dup_all : (Ptr → Ptr) → List Bucket → Hash → Run Hash
dup_all copy [] h = ok h
dup_all copy (b ∷ bs) h = insert h b.key (copy b.value) >>= dup_all copy bs

-- n_hash_dup, with a copying function that gives equal pointers equal copies, or NULL
unfoldable pub dup : Hash → Option (Ptr → Ptr) → Run Hash
dup ht dup_fn = do
  h ← new_ex ht.size null null
  let h = record h {
    size = ht.size;
    free_fn = ht.free_fn;
    nocpkey = false;
    rehash = ht.rehash;
    noreplace = ht.noreplace;
  }
  bs ← walk ht.size 0 ht.table
  dup_all (copy dup_fn) bs h
  where
    copy : Option (Ptr → Ptr) → Ptr → Ptr
    copy none p = p
    copy (some f) p = if p == null then p else f p

unfoldable pub log_values : Ptr → List Bucket → List Ptr → List Ptr
log_values fn [] freed = freed
log_values fn (b ∷ bs) freed = log_values fn bs (log_free fn b.value freed)

-- n_hash_free: whether the table is still there, with its last state.
unfoldable pub free : Hash → Run (Bool × Hash)
free ht = if ltb 0 ht.refcnt then ok (true, record ht { refcnt = ht.refcnt - 1 }) else (do
  bs ← walk ht.size 0 ht.table
  ok (
    false,
    record ht { table = []; size = 0; items = 0; freed = log_values ht.free_fn bs ht.freed },
  ))

-- struct trurl_hash_iterator: the slot, and how many of its buckets have been returned
pub record Iterator : Type 0 where
  pub pos : ℕ
  pub bpos : ℕ

abbrev pub it_init : Iterator
it_init = record { pos = 0; bpos = 0 }

-- The first loop of n_hash_it_get: `n` slots are left, from `i` on.
unfoldable pub next_slot : (n i : ℕ) → List Chain → Run (Option (ℕ × Chain))
next_slot zero i tbl = ok none
next_slot (suc n) i tbl = load tbl i >>= λ chain. elim chain [
  | [] ↦ next_slot n (i + 1) tbl
  | b ∷ c ↦ ok (some (i, b ∷ c))
]

-- n_hash_it_get: the next bucket, or `none` at the end
unfoldable pub it_get : Hash → Iterator → Run (Option Bucket × Iterator)
it_get ht it = do
  at ← next_slot (ht.size - it.pos) it.pos ht.table
  elim at [
    | none ↦ ok (none, it)
    | some (i, chain) ↦ elim (drop it.bpos chain) [
      | [] ↦ n_assert false >> ok (none, it)
      | b ∷ rest ↦ ok (some b, advance i rest)
    ]
  ]
  where
    advance : ℕ → Chain → Iterator
    advance i [] = record { pos = i + 1; bpos = 0 }
    advance i (b ∷ c) = record it { bpos = it.bpos + 1 }
