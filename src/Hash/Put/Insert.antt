-- ===== src/Hash/Put/Insert.antt =====
-- n_hash_insert: a new key is found afterwards, the others as before; a key that is there is refused.
use trurlib.Prelude.{
  ℕ, ◌+◌, ◌<◌, ◌≡◌, refl, ap, inl, inr, true, false, none, [], ◌∷◌, arith, if◌then◌else◌, length,
  Bool-cases, ==_refl,
}
use trurlib.Run.{ok, die, key_exists, Returns}
use trurlib.Memory.Laws.{load-get_or, store-set}
use trurlib.Array.State.{Ptr}
use trurlib.Hash.Murmur.{word}
use trurlib.Hash.Table.{Key, Bucket, Chain, Hash, str_eq}
use trurlib.Hash.Lookup.{matches, find, get, exists}
use trurlib.Hash.Lookup.View.{
  str_eq_iff, Tidy, chain_at, IsTable, IsKey, home, spot, seek, home-lt, compute_hash-home,
  get_bucket-seek, exists-seek, get-seek,
}
use trurlib.Hash.Put.{
  is_empty, find_free_slot, has_key, new_bucket, add_bucket, put_found, crowded, put, insert,
}
use trurlib.Hash.Put.Slots.{
  IsPlace, at_home, IsPlace-lt, find_free_slot-IsPlace, place_cases, added, seek-added_ne,
  seek-added_self, IsTable-added,
}

-- Where the lookup finds no bucket of the key, the loop of n_hash_put meets none either.
has_key-find :
    (key : Key) (c : Chain) → Tidy c → find key (length key) c ≡ none → has_key key c ≡ false
unfolding find has_key
has_key-find key [] t e = refl
has_key-find key (b ∷ c) t e =
    ground (arith, has_key-find key c t.1, str_eq_iff key b.key, ap length {x = key} {y = b.key})

module _ {ht : Hash} (v : IsTable ht) {key : Key} (k : IsKey key) where
  find-seek :
      {j : ℕ}
      → seek ht key ≡ none
      → IsPlace ht key j
      → find key (length key) (chain_at ht.table j) ≡ none
  unfolding seek spot
  find-seek e place = ground (arith, place_cases place)

  -- The slot that n_hash_put takes is one of those that a lookup of the key visits.
  slot_choice :
      Returns
        (if is_empty (chain_at ht.table (home ht key))
          then ok (home ht key)
          else find_free_slot ht key (length key) (home ht key))
        (IsPlace ht key)
  slot_choice = elim (Bool-cases (is_empty (chain_at ht.table (home ht key)))) [
    | inl e ↦ (home ht key, rw e, at_home refl)
    | inr e ↦ let (j, run, place) = find_free_slot-IsPlace v k in (j, rw e run, place)
  ]

  module _ (p : Ptr) where
    abbrev pub fresh : Bucket
    fresh = record { value = p; key = key; klen = length key }

    add_bucket-added :
        seek ht key ≡ none
        → (j : ℕ) × (place : IsPlace ht key j) × (add_bucket ht key (length key) (home ht key) p
            ≡ ok (added v j fresh (IsPlace-lt v k place)))
    unfolding add_bucket new_bucket
    add_bucket-added absent =
        let (j, run, place) = slot_choice in
        let h = IsPlace-lt v k place in
        let free = has_key-find key (chain_at ht.table j) (v.tidy j) (find-seek absent place) in
        (
          j,
          place,
          ground (
            arith,
            run,
            load-get_or ht.table (home ht key) [] (home-lt v k),
            load-get_or ht.table j [] h,
            free,
            ==_refl (length key),
            k.some_bytes,
            store-set ht.table j (fresh ∷ chain_at ht.table j) h,
          ),
        )

    module _ (q : Key) where
      -- The table after the insertion of a new key, as the lookups of `q` see it
      pub record Inserted (ht' : Hash) : Type 0 where
        pub table : IsTable ht'
        pub there : exists ht' q ≡ (if str_eq q key then ok true else exists ht q)
        pub found : get ht' q ≡ (if str_eq q key then ok p else get ht q)
        pub count : ht'.items ≡ ht.items + 1
        pub freed : ht'.freed ≡ ht.freed

      added-Inserted :
          IsKey q
          → ht.items + 1 < word
          → seek ht key ≡ none
          → (j : ℕ) (place : IsPlace ht key j) → Inserted (added v j fresh (IsPlace-lt v k place))
      added-Inserted kq small absent j place =
          let h = IsPlace-lt v k place in
          let v' = IsTable-added v j fresh h refl in
          let same : matches key (length key) fresh ≡ true =
            ground (arith, (str_eq_iff key key).1 refl) in
          let self = seek-added_self v j fresh h key same absent place in
          let other = seek-added_ne v j fresh h q in
          let sees = str_eq_iff q key in
          record {
            table = v';
            there = ground (arith, exists-seek v' kq, exists-seek v kq, self, other, sees);
            found = ground (arith, get-seek v' kq, get-seek v kq, self, other, sees);
            count = omega (arith, small);
            freed = refl;
          }

-- n_hash_insert puts the bucket of a new key into one of the three slots that its lookup visits.
pub insert-added :
    {ht : Hash} (v : IsTable ht) {key : Key} (k : IsKey key) (p : Ptr)
    → crowded ht ≡ false
    → ht.noreplace ≡ false
    → seek ht key ≡ none
    → (j : ℕ) × (place : IsPlace ht key j) × (insert ht key p
        ≡ ok (added v j (fresh v k p) (IsPlace-lt v k place)))
unfolding insert put
insert-added {ht} v {key} k p roomy checked none_there =
    let (j, place, run) = add_bucket-added v k p none_there in
    (
      j,
      place,
      ground (
        arith,
        roomy,
        checked,
        k.some_bytes,
        k.short,
        compute_hash-home v k,
        get_bucket-seek v k,
        none_there,
        run,
      ),
    )

-- n_hash_insert of a new key of 1 to 65534 bytes into a well-formed table with fewer than 2 ^ 32 - 1
-- items that looks for duplicates and needs no growing returns a well-formed table, where the key is found with its value, a lookup of any
-- other key `q` is as before, there is one item more, and nothing has been freed.
pub insert-Inserted :
    {ht : Hash} (v : IsTable ht) {key q : Key} (k : IsKey key) (kq : IsKey q) (p : Ptr)
    → crowded ht ≡ false
    → ht.noreplace ≡ false
    → ht.items + 1 < word
    → exists ht key ≡ ok false
    → Returns (insert ht key p) (Inserted v k p q)
insert-Inserted {ht} v {key} {q} k kq p roomy checked small absent =
    let none_there : seek ht key ≡ none = ground (arith, exists-seek v k) in
    let (j, place, run) = insert-added v k p roomy checked none_there in
    (added v j _ (IsPlace-lt v k place), run, added-Inserted v k p q kq small none_there j place)

-- n_hash_insert of a key that is there, in a well-formed table that looks for duplicates and needs
-- no growing, dies with its message.
pub insert-exists :
    {ht : Hash} (v : IsTable ht) {key : Key} (k : IsKey key) (p : Ptr)
    → crowded ht ≡ false
    → ht.noreplace ≡ false
    → exists ht key ≡ ok true
    → insert ht key p ≡ die key_exists
unfolding insert put put_found
insert-exists {ht} v {key} k p roomy checked there =
    ground
      (arith, k.some_bytes, k.short, compute_hash-home v k, get_bucket-seek v k, exists-seek v k)
