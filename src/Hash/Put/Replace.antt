-- ===== src/Hash/Put/Replace.antt =====
-- n_hash_replace: a key that is there gets the new value, the others are found as before.
use trurlib.Prelude.{
  ℕ, ◌<◌, ◌≡◌, refl, ◌∙◌, inl, inr, true, false, Option, none, some, [], ◌∷◌, arith, ◌==◌,
  if◌then◌else◌, length, set, length-set, get_or-set, Bool-cases,
}
use trurlib.Run.{ok, die, no_replace, Returns}
use trurlib.Memory.Laws.{load-get_or, store-set}
use trurlib.Array.State.{Ptr, log_free}
use trurlib.Hash.Table.{Key, Bucket, Chain, Hash, index_hash, str_eq}
use trurlib.Hash.Lookup.{matches, find, get, exists, is_found}
use trurlib.Hash.Lookup.View.{
  str_eq_iff, Tidy, chain_at, IsTable, IsKey, home, above, below, spot, seek, found_some,
  spot-index, seek-lt, compute_hash-home, get_bucket-seek, exists-seek, get-seek,
}
use trurlib.Hash.Put.{assign, put_found, crowded, put, hreplace, replace}

abbrev with_value : Ptr → Option Bucket → Option Bucket
with_value p none = none
with_value p (some b) = some (record b { value = p })

find-assign :
    (key q : Key) (p : Ptr) (c : Chain)
    → find q (length q) (assign key (length key) p c)
      ≡ (if str_eq q key then with_value p (find q (length q) c) else find q (length q) c)
unfolding find assign
find-assign key q p [] = ground arith
find-assign key q p (b ∷ c) =
    ground
      (arith, find-assign key q p c, str_eq_iff q key, str_eq_iff q b.key, str_eq_iff key b.key)

Tidy-assign : (key : Key) (klen : ℕ) (p : Ptr) (c : Chain) → Tidy c → Tidy (assign key klen p c)
unfolding assign
Tidy-assign key klen p [] t = tt
Tidy-assign key klen p (b ∷ c) t = elim (Bool-cases (matches key klen b)) [
  | inl e ↦ rw e t
  | inr e ↦ rw e (t.0, Tidy-assign key klen p c t.1)
]

module _ {ht : Hash} (v : IsTable ht) {key : Key} (k : IsKey key) (p : Ptr) where
  -- The table after the replacement of the value `old` of the key, as the lookups of `q` see it
  pub record Replaced (q : Key) (old : Ptr) (ht' : Hash) : Type 0 where
    pub table : IsTable ht'
    pub there : exists ht' q ≡ exists ht q
    pub found : get ht' q ≡ (if str_eq q key then ok p else get ht q)
    pub count : ht'.items ≡ ht.items
    pub freed : ht'.freed ≡ log_free ht.free_fn old ht.freed

  module _ (i : ℕ) (b : Bucket) (h : i < length ht.table) where
    abbrev changed : Hash
    changed = record ht {
      table = set ht.table i (assign key (length key) p (chain_at ht.table i));
      freed = log_free ht.free_fn b.value ht.freed;
    }

    home-changed : (q : Key) → home changed q ≡ home ht q
    unfolding home index_hash
    home-changed q = refl

    abbrev spot_with : Option (ℕ × Bucket) → Option (ℕ × Bucket)
    spot_with none = none
    spot_with (some (j, c)) = some (j, record c { value = p })

    spot-changed :
        (q : Key) (j : ℕ)
        → spot changed.table q j ≡ (
            if j == i
            then (if str_eq q key then spot_with (spot ht.table q j) else spot ht.table q j)
            else spot ht.table q j)
    unfolding spot
    spot-changed q j = ground (
      arith,
      get_or-set ht.table i j (assign key (length key) p (chain_at ht.table i)) [],
      find-assign key q p (chain_at ht.table j),
    )

    -- Each lookup finds a bucket in the same slot as before, another key the same bucket.
    seek-changed :
        (q : Key)
        → (is_found (seek changed q) ≡ is_found (seek ht q))
          × (str_eq q key ≡ false → seek changed q ≡ seek ht q)
    unfolding seek
    seek-changed q = ground (
      arith,
      home-changed q,
      spot-changed q (home ht q),
      spot-changed q (above ht q),
      spot-changed q (below ht q),
    )

    seek-changed_self :
        seek ht key ≡ some (i, b) → seek changed key ≡ some (i, record b { value = p })
    unfolding seek
    seek-changed_self e = ground (
      arith,
      home-changed key,
      spot-changed key (home ht key),
      spot-changed key (above ht key),
      spot-changed key (below ht key),
      spot-index ht.table key (home ht key) (i, b),
      spot-index ht.table key (above ht key) (i, b),
      spot-index ht.table key (below ht key) (i, b),
      str_eq_iff key key,
    )

    Tidy-changed : (j : ℕ) → Tidy (chain_at changed.table j)
    Tidy-changed j =
        let new = assign key (length key) p (chain_at ht.table i) in
        elim (Bool-cases (j == i)) [
          | inl same ↦
              rw (get_or-set ht.table i j new [] h, same)
                (Tidy-assign key (length key) p (chain_at ht.table i) (v.tidy i))
          | inr other ↦ rw (get_or-set ht.table i j new [] h, other) (v.tidy j)
        ]

    changed-Replaced :
        {q : Key} (kq : IsKey q) {old : Ptr}
        → seek ht key ≡ some (i, b)
        → get ht key ≡ ok old
        → Replaced q old changed
    changed-Replaced {q} kq e g =
        let v' : IsTable changed = record {
          slots = length-set ht.table i _ ∙ v.slots;
          pos = v.pos;
          small = v.small;
          tidy = λ j. Tidy-changed j;
        } in
        let self = seek-changed_self e in
        let sees = str_eq_iff q key in
        record {
          table = v';
          there = ground (arith, exists-seek v' kq, exists-seek v kq, seek-changed q);
          found = ground (arith, get-seek v' kq, get-seek v kq, self, seek-changed q, sees);
          count = refl;
          freed = ground (arith, e, g, get-seek v k);
        }

-- n_hash_replace of a key that is there, in a well-formed table that looks for duplicates and
-- needs no growing: the key's value is the new one, the old one goes to `free_fn`, a lookup of any
-- other key `q` is as before, and the number of items stays.
pub replace-Replaced :
    {ht : Hash} (v : IsTable ht) {key q : Key} (k : IsKey key) (kq : IsKey q) (p : Ptr) {old : Ptr}
    → crowded ht ≡ false
    → ht.noreplace ≡ false
    → exists ht key ≡ ok true
    → get ht key ≡ ok old
    → Returns (replace ht key p) (Replaced v k p q old)
unfolding replace hreplace put put_found
replace-Replaced {ht} v {key} {q} k kq p roomy checked there held =
    let ((i, b), e) = found_some (seek ht key) (ground (arith, exists-seek v k)) in
    let h = seek-lt v k i b e in
    (
      changed v k p i b h,
      ground (
        arith,
        roomy,
        checked,
        k.some_bytes,
        k.short,
        compute_hash-home v k,
        get_bucket-seek v k,
        e,
        load-get_or ht.table i [] h,
        store-set ht.table i (assign key (length key) p (chain_at ht.table i)) h,
      ),
      changed-Replaced v k p i b h kq e held,
    )

-- A table that is set not to look for duplicates refuses to replace.
pub replace-refused :
    (ht : Hash) (key : Key) (p : Ptr) → ht.noreplace ≡ true → replace ht key p ≡ die no_replace
unfolding replace hreplace
replace-refused ht key p e = ground arith
