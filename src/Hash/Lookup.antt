-- ===== src/Hash/Lookup.antt =====
-- n_hash_get.c: a key is looked for in its own slot, and in the two slots beside it.
pub mod View
use trurlib.Prelude.{
  ℕ, zero, suc, ◌+◌, ◌-◌, ◌%◌, ◌&&◌, Bool, true, false, Option, none, some, List, [], ◌∷◌, ltb, leb,
  ◌==◌, if◌then◌else◌, length,
}
use trurlib.Run.{Run, ok, n_assert, ◌>>=◌, ◌>>◌}
use trurlib.Memory.Block.{load}
use trurlib.Array.State.{Ptr, null}
use trurlib.Hash.Murmur.{word}
use trurlib.Hash.Table.{Key, Bucket, Chain, Hash, compute_hash, nextslotv, str_eq}

-- The test of the loops over a chain
abbrev pub matches : Key → ℕ → Bucket → Bool
matches key klen b = (klen == b.klen) && str_eq key b.key

-- The loop of get_bucket_ll
unfoldable pub find : Key → ℕ → Chain → Option Bucket
find key klen [] = none
find key klen (b ∷ c) = if matches key klen b then some b else find key klen c

-- `if (tbl[i] != NULL) ptr = get_bucket_ll(tbl, key, klen, i)`: the slot and the bucket found there
unfoldable pub probe : List Chain → Key → ℕ → ℕ → Run (Option (ℕ × Bucket))
probe tbl key klen i = do
  chain ← load tbl i
  ok (elim (find key klen chain) [ none ↦ none | some b ↦ some (i, b) ])

-- n_hash_get_bucket
unfoldable pub get_bucket : Hash → Key → (klen khash : ℕ) → Run (Option (ℕ × Bucket))
get_bucket ht key klen khash = do
  n_assert (ltb 0 klen)
  n_assert (ltb klen 65535)
  let shift = nextslotv key klen
  let next = (khash + shift) % word
  here ← probe ht.table key klen khash
  elim here [
    | some p ↦ ok (some p)
    | none ↦ do
      above ← (if ltb next ht.size then probe ht.table key klen next else ok none)
      elim above [
        | some p ↦ ok (some p)
        | none ↦ if ltb shift khash then probe ht.table key klen (khash - shift) else ok none
      ]
  ]

abbrev pub value_of : Option (ℕ × Bucket) → Ptr
value_of none = null
value_of (some (i, b)) = b.value

abbrev pub is_found : Option (ℕ × Bucket) → Bool
is_found none = false
is_found (some p) = true

-- n_hash_get, n_hash_get_ex
unfoldable pub get : Hash → Key → Run Ptr
get ht key = do
  khash ← compute_hash ht key (length key)
  p ← get_bucket ht key (length key) khash
  ok (value_of p)

-- n_hash_exists, n_hash_exists_ex
unfoldable pub exists : Hash → Key → Run Bool
exists ht key = do
  khash ← compute_hash ht key (length key)
  p ← get_bucket ht key (length key) khash
  ok (is_found p)

-- n_hash_hget and n_hash_hexists, with the length and the hash given by the caller
unfoldable pub hget : Hash → Key → (klen khash : ℕ) → Run Ptr
hget ht key klen khash = do p ← get_bucket ht key klen khash; ok (value_of p)

unfoldable pub hexists : Hash → Key → (klen khash : ℕ) → Run Bool
hexists ht key klen khash = do p ← get_bucket ht key klen khash; ok (is_found p)
