-- ===== src/Hash/Remove/Removed.antt =====
-- n_hash_remove: what it returns, and what the lookups of other keys see of it.
use trurlib.Prelude.{
  ℕ, ◌+◌, ◌-◌, ◌%◌, ◌<◌, ◌≡◌, ◌≢◌, refl, ap, ◌∙◌, inl, inr, true, false, none, some, [], ◌∷◌, arith,
  ◌==◌, if◌then◌else◌, length, set, length-set, get_or-set, Bool-cases,
}
use trurlib.Run.{ok, Returns}
use trurlib.Memory.Laws.{load-get_or, store-set}
use trurlib.Array.State.{Ptr, null}
use trurlib.Hash.Murmur.{word}
use trurlib.Hash.Table.{Key, Chain, Hash, index_hash, str_eq}
use trurlib.Hash.Lookup.{find, get, exists}
use trurlib.Hash.Lookup.View.{
  str_eq_iff, Tidy, chain_at, IsTable, IsKey, home, above, below, spot, seek, home-lt,
  compute_hash-home, exists-seek, get-seek, found_some, seek-lt,
}
use trurlib.Hash.Remove.{take_bucket, free_bucket, remove_at, remove}

-- A chain without its first bucket with the key
unfoldable pub without : Key → Chain → Chain
without key [] = []
without key (b ∷ c) = if str_eq key b.key then c else b ∷ without key c

take_bucket-find :
    (key : Key) (c : Chain)
    → Tidy c
    → take_bucket key c
      ≡ elim (find key (length key) c) [ none ↦ none | some b ↦ some (b, without key c) ]
unfolding take_bucket find without
take_bucket-find key [] t = refl
take_bucket-find key (b ∷ c) t =
    ground
      (arith, take_bucket-find key c t.1, str_eq_iff key b.key, ap length {x = key} {y = b.key})

find-without :
    (key q : Key) (c : Chain)
    → str_eq q key ≡ false
    → find q (length q) (without key c) ≡ find q (length q) c
unfolding find without
find-without key q [] ne = refl
find-without key q (b ∷ c) ne =
    ground
      (arith, find-without key q c ne, str_eq_iff key b.key, str_eq_iff q b.key, str_eq_iff q key)

Tidy-without : (key : Key) (c : Chain) → Tidy c → Tidy (without key c)
unfolding without
Tidy-without key [] t = tt
Tidy-without key (b ∷ c) t = elim (Bool-cases (str_eq key b.key)) [
  | inl e ↦ rw e t.1
  | inr e ↦ rw e (t.0, Tidy-without key c t.1)
]

module _ {ht : Hash} (v : IsTable ht) {key : Key} (k : IsKey key) (own : ht.na ≡ null) where
  -- The table without the bucket of the key in one slot
  abbrev pub gone : ℕ → Hash
  gone i = record ht {
    table = set ht.table i (without key (chain_at ht.table i));
    items = (ht.items + word - 1) % word;
  }

  remove_at-spot :
      (i : ℕ)
      → i < length ht.table
      → remove_at ht key i
        ≡ ok (elim (spot ht.table key i) [ none ↦ none | some (j, b) ↦ some (b.value, gone j) ])
  unfolding remove_at free_bucket spot
  remove_at-spot i h = ground (
    arith,
    own,
    load-get_or ht.table i [] h,
    take_bucket-find key (chain_at ht.table i) (v.tidy i),
    store-set ht.table i (without key (chain_at ht.table i)) h,
  )

  -- The bucket that goes is the one that a lookup of the key finds.
  pub remove-seek :
      remove ht key
      ≡ ok (elim (seek ht key) [ none ↦ (null, ht) | some (j, b) ↦ (b.value, gone j) ])
  unfolding remove seek
  remove-seek = ground (
    arith,
    compute_hash-home v k,
    v.slots,
    home-lt v k,
    remove_at-spot (home ht key),
    remove_at-spot (above ht key),
    remove_at-spot (below ht key),
  )

  module _ (i : ℕ) (h : i < length ht.table) (q : Key) (ne : str_eq q key ≡ false) where
    spot-gone : (j : ℕ) → spot (gone i).table q j ≡ spot ht.table q j
    unfolding spot
    spot-gone j = ground (
      arith,
      get_or-set ht.table i j (without key (chain_at ht.table i)) [] h,
      find-without key q (chain_at ht.table i) ne,
    )

    home-gone : (r : Key) → home (gone i) r ≡ home ht r
    unfolding home index_hash
    home-gone r = refl

    seek-gone : seek (gone i) q ≡ seek ht q
    unfolding seek
    seek-gone =
        ground (
          arith,
          home-gone q,
          spot-gone (home ht q),
          spot-gone (above ht q),
          spot-gone (below ht q),
        )

  IsTable-gone : (i : ℕ) → i < length ht.table → IsTable (gone i)
  IsTable-gone i h = record {
    slots = length-set ht.table i _ ∙ v.slots;
    pos = v.pos;
    small = v.small;
    tidy = λ j. elim (Bool-cases (j == i)) [
      | inl same ↦
          rw (get_or-set ht.table i j (without key (chain_at ht.table i)) [] h, same)
            (Tidy-without key (chain_at ht.table i) (v.tidy i))
      | inr other ↦
          rw (get_or-set ht.table i j (without key (chain_at ht.table i)) [] h, other) (v.tidy j)
    ];
  }

-- The table after the removal of one key, as the lookups of `q` see it
pub record Removed (ht : Hash) (q : Key) (ht' : Hash) : Type 0 where
  pub table : IsTable ht'
  pub there : exists ht' q ≡ exists ht q
  pub found : get ht' q ≡ get ht q
  pub count : ht'.items + 1 ≡ ht.items
  pub freed : ht'.freed ≡ ht.freed

-- n_hash_remove of a key of 1 to 65534 bytes that is there, from a well-formed table without an allocator of its own,
-- whose count is above 0 and below 2 ^ 32, returns the value that n_hash_get returns and does not
-- call `free_fn`; the table is well-formed again, a lookup of
-- any other key `q` is as before, and there is one item less.
pub remove-Removed :
    {ht : Hash} (v : IsTable ht) {key q : Key} (k : IsKey key) (kq : IsKey q) {old : Ptr}
    → q ≢ key
    → ht.na ≡ null
    → 0 < ht.items
    → ht.items < word
    → exists ht key ≡ ok true
    → get ht key ≡ ok old
    → Returns (remove ht key) (λ r. (r.0 ≡ old) × Removed ht q r.1)
remove-Removed {ht} v {key} {q} k kq {old} ne own some_items small there held =
    let ((i, b), e) = found_some (seek ht key) (ground (arith, exists-seek v k)) in
    let h = seek-lt v k i b e in
    let v' = IsTable-gone v k own i h in
    let other = seek-gone v k own i h q (ground (arith, str_eq_iff q key)) in
    (
      (b.value, gone v k own i),
      ground (arith, remove-seek v k own, e),
      (
        ground (arith, held, e, get-seek v k),
        record {
          table = v';
          there = ground (arith, exists-seek v' kq, exists-seek v kq, other);
          found = ground (arith, get-seek v' kq, get-seek v kq, other);
          count = omega (arith, some_items, small);
          freed = refl;
        },
      ),
    )

-- n_hash_remove of a key that is not there in such a table returns NULL and leaves the
-- table as it is.
pub remove-absent :
    {ht : Hash} (v : IsTable ht) {key : Key} (k : IsKey key)
    → ht.na ≡ null
    → exists ht key ≡ ok false
    → remove ht key ≡ ok (null, ht)
remove-absent {ht} v {key} k own absent = ground (arith, remove-seek v k own, exists-seek v k)
