-- ===== src/Hash/Remove.antt =====
-- n_hash_remove.c and n_hash_clean.c.
pub mod Removed
pub mod Insert
use trurlib.Prelude.{
  ℕ, zero, suc, ◌+◌, ◌-◌, ◌%◌, Option, none, some, [], ◌∷◌, ltb, ◌==◌, if◌then◌else◌, length,
}
use trurlib.Run.{Run, ok, fault, bad_free, ◌>>=◌, ◌>>◌}
use trurlib.Memory.Block.{load, store}
use trurlib.Array.State.{Ptr, null, log_free}
use trurlib.Hash.Murmur.{word}
use trurlib.Hash.Table.{Key, Bucket, Chain, Hash, compute_hash, nextslotv, str_eq}

-- remove_bucket_ll on one chain: the first bucket with the key, and the chain without it
unfoldable pub take_bucket : Key → Chain → Option (Bucket × Chain)
take_bucket key [] = none
take_bucket key (b ∷ c) =
    let rest = take_bucket key c in
    if str_eq key b.key
    then some (b, c)
    else elim rest [ none ↦ none | some (found, c') ↦ some (found, b ∷ c') ]

-- free() of a bucket, without regard to where it comes from: one of an allocator is not malloc()'s.
unfoldable pub free_bucket : Hash → Run (Unit {0})
free_bucket ht = if ht.na == null then ok tt else fault bad_free

-- `if (tbl[i] != NULL) if (remove_bucket_ll(...)) { ht->items--; return ptr; }`
unfoldable pub remove_at : Hash → Key → ℕ → Run (Option (Ptr × Hash))
remove_at ht key i = do
  chain ← load ht.table i
  elim (take_bucket key chain) [
    | none ↦ ok none
    | some (b, c) ↦ do
      table ← store ht.table i c
      free_bucket ht
      ok (some (b.value, record ht { table = table; items = (ht.items + word - 1) % word }))
  ]

-- n_hash_remove
unfoldable pub remove : Hash → Key → Run (Ptr × Hash)
remove ht key = do
  let klen = length key
  khash ← compute_hash ht key klen
  let shift = nextslotv key klen
  let next = (khash + shift) % word
  here ← remove_at ht key khash
  elim here [
    | some r ↦ ok r
    | none ↦ do
      above ← (if ltb next ht.size then remove_at ht key next else ok none)
      elim above [
        | some r ↦ ok r
        | none ↦ do
          below ← (if ltb shift khash then remove_at ht key (khash - shift) else ok none)
          elim below [ some r ↦ ok r | none ↦ ok (null, ht) ]
      ]
  ]

-- The loop of n_hash_clean: `n` slots are left, from `i` on. The inner loop runs once at most, since
-- it clears the slot.
unfoldable pub clean_loop : (n i : ℕ) → Hash → Run Hash
clean_loop zero i ht = ok ht
clean_loop (suc n) i ht = do
  chain ← load ht.table i
  ht ← elim chain [
    | [] ↦ ok ht
    | b ∷ c ↦ do
      (d, ht) ← remove ht b.key
      table ← store ht.table i []
      ok (record ht { table = table; freed = log_free ht.free_fn d ht.freed })
  ]
  clean_loop n (i + 1) ht

unfoldable pub clean : Hash → Run Hash
clean ht = do ht ← clean_loop ht.size 0 ht; ok (record ht { items = 0 })
