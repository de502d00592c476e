-- ===== src/Hash/Put.antt =====
-- n_hash_put.c: inserting, replacing, and growing the table.
pub mod Slots
pub mod Insert
pub mod Replace
use trurlib.Prelude.{
  ℕ, zero, suc, ◌+◌, ◌-◌, ◌*◌, ◌/◌, ◌%◌, ◌&&◌, ◌||◌, Bool, true, false, not, Option, none, some,
  List, [], ◌∷◌, ltb, leb, ◌==◌, if◌then◌else◌, length, replicate,
}
use trurlib.Run.{
  Run, ok, fault, out_of_bounds, die, die_if, key_exists, node_exists, no_replace, n_assert, ◌>>=◌,
  ◌>>◌,
}
use trurlib.Memory.Block.{load, store}
use trurlib.Array.State.{Ptr, null, log_free}
use trurlib.Hash.Murmur.{word}
use trurlib.Hash.Table.{Key, Bucket, Chain, Hash, compute_hash, nextslotv, str_eq}
use trurlib.Hash.Lookup.{matches, find, get_bucket, is_found}

abbrev pub is_empty : Chain → Bool
is_empty [] = true
is_empty (b ∷ c) = false

-- Whether the loop over the chain meets a bucket with the key
abbrev pub meets : Key → ℕ → Chain → Bool
meets key klen c = elim (find key klen c) [ none ↦ false | some b ↦ true ]

-- Whether a chain has a bucket whose key is the string, as the loop of n_hash_put asks
unfoldable pub has_key : Key → Chain → Bool
has_key key [] = false
has_key key (b ∷ c) = str_eq key b.key || has_key key c

-- n_hash_put_node: both branches put the node in front of its slot's chain.
unfoldable pub put_node : Hash → Bucket → Run Hash
put_node ht node = do
  n_assert (ltb 0 node.klen)
  khash ← compute_hash ht node.key node.klen
  chain ← load ht.table khash
  die_if (meets node.key node.klen chain) node_exists
  table ← store ht.table khash (node ∷ chain)
  ok (record ht { items = (ht.items + 1) % word; table = table })

-- The two loops of n_hash_rehash
unfoldable pub put_chain : Chain → Hash → Run Hash
put_chain [] ht = ok ht
put_chain (b ∷ c) ht = put_node ht b >>= put_chain c

unfoldable pub put_table : List Chain → Hash → Run Hash
put_table [] ht = ok ht
put_table (c ∷ cs) ht = put_chain c ht >>= put_table cs

unfoldable pub rehash_table : Hash → Run Hash
rehash_table ht =
    let newsize = 4 * ht.size % word in
    put_table ht.table (record ht { table = replicate newsize []; size = newsize; items = 0 })

-- new_bucket: the copy of `klen + 1` bytes is the whole key if `klen` is its length; any other length
-- leaves a key that later comparisons read beyond its end.
unfoldable pub new_bucket : Hash → Key → ℕ → Ptr → Run Bucket
new_bucket ht key klen p = do
  n_assert (ltb 0 klen)
  (if ht.nocpkey || (klen == length key)
      then ok (record { value = p; key = key; klen = klen })
      else fault out_of_bounds)

-- `ptr->data = data` for the bucket that the lookup found in the chain
unfoldable pub assign : Key → ℕ → Ptr → Chain → Chain
assign key klen p [] = []
assign key klen p (b ∷ c) =
    if matches key klen b then (record b { value = p }) ∷ c else b ∷ assign key klen p c

-- find_free_slot
unfoldable pub find_free_slot : Hash → Key → (klen khash : ℕ) → Run ℕ
find_free_slot ht key klen khash = do
  let shift = nextslotv key klen
  let next = (khash + shift) % word
  above ← (if ltb next ht.size then (load ht.table next >>= λ c. ok (is_empty c)) else ok false)
  elim above [
    | true ↦ ok next
    | false ↦ do
      below ←
          (if ltb shift khash
            then (load ht.table (khash - shift) >>= λ c. ok (is_empty c))
            else ok false)
      ok (if below then khash - shift else khash)
  ]

-- The rest of n_hash_put, where the key is not replaced: a new bucket in the key's own slot or, if
-- that is taken, in the slot of find_free_slot.
unfoldable pub add_bucket : Hash → Key → (klen khash : ℕ) → Ptr → Run Hash
add_bucket ht key klen khash p = do
  home ← load ht.table khash
  slot ← (if is_empty home then ok khash else find_free_slot ht key klen khash)
  chain ← load ht.table slot
  die_if (has_key key chain) key_exists
  b ← new_bucket ht key klen p
  table ← store ht.table slot (b ∷ chain)
  ok (record ht { table = table; items = (ht.items + 1) % word })

-- The branch of n_hash_put for a key that is there
unfoldable pub put_found : Hash → Key → ℕ → Ptr → Bool → ℕ × Bucket → Run Hash
put_found ht key klen p replace (i, b) = do
  die_if (not replace) key_exists
  chain ← load ht.table i
  table ← store ht.table i (assign key klen p chain)
  ok (record ht { table = table; freed = log_free ht.free_fn b.value ht.freed })

-- `(ht->flags & TN_HASH_REHASH) && ht->size - ht->items <= ht->size / 3`, in uint32_t
abbrev pub crowded : Hash → Bool
crowded ht = ht.rehash && leb ((ht.size + word - ht.items) % word) (ht.size / 3)

-- n_hash_put
unfoldable pub put : Hash → Key → (klen khash : ℕ) → Ptr → (replace : Bool) → Run Hash
put ht key klen khash p replace = do
  n_assert (ltb 0 klen)
  n_assert (ltb klen 65535)
  ht' ← (if crowded ht then rehash_table ht else ok ht)
  let given = if crowded ht then 0 else khash
  khash ← (if given == 0 then compute_hash ht' key klen else ok given)
  there ← (if ht'.noreplace then ok none else get_bucket ht' key klen khash)
  elim there [
    | some at ↦ put_found ht' key klen p replace at
    | none ↦ add_bucket ht' key klen khash p
  ]

unfoldable pub insert : Hash → Key → Ptr → Run Hash
insert ht key p = put ht key (length key) 0 p false

-- n_hash_hinsert, and n_hash_insert_ex, which calls it
unfoldable pub hinsert : Hash → Key → (klen khash : ℕ) → Ptr → Run Hash
hinsert ht key klen khash p = put ht key klen khash p false

unfoldable pub hreplace : Hash → Key → (klen khash : ℕ) → Ptr → Run Hash
hreplace ht key klen khash p = do die_if ht.noreplace no_replace; put ht key klen khash p true

unfoldable pub replace : Hash → Key → Ptr → Run Hash
replace ht key p = hreplace ht key (length key) 0 p
