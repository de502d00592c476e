-- ===== src/Hash/Put/Slots.antt =====
-- Where a new bucket goes, and what the other lookups see of it.
use trurlib.Prelude.{
  ℕ, ◌+◌, ◌%◌, ◌<◌, ◌≡◌, refl, ◌∙◌, ◌&&◌, ◌⊎◌, inl, inr, true, false, none, some, [], ◌∷◌, arith,
  ◌==◌, if◌then◌else◌, length, set, length-set, get_or-set, Bool-cases,
}
use trurlib.Run.{Returns}
use trurlib.Memory.Laws.{load-get_or}
use trurlib.Hash.Murmur.{word}
use trurlib.Hash.Table.{Key, Bucket, Hash, index_hash, str_eq}
use trurlib.Hash.Lookup.{matches, find}
use trurlib.Hash.Lookup.View.{
  chain_at, IsTable, IsKey, home, above, below, has_above, has_below, spot, seek, home-lt,
}
use trurlib.Hash.Put.{is_empty, find_free_slot}

-- The slot is one of the three that a lookup of the key visits.
pub data IsPlace (ht : Hash) (key : Key) (j : ℕ) : Type 0 where
  at_home : j ≡ home ht key → IsPlace ht key j
  at_above : j ≡ above ht key → has_above ht key ≡ true → IsPlace ht key j
  at_below : j ≡ below ht key → has_below ht key ≡ true → IsPlace ht key j

pub IsPlace-lt :
    {ht : Hash} (v : IsTable ht) {key : Key} (k : IsKey key) {j : ℕ}
    → IsPlace ht key j
    → j < length ht.table
IsPlace-lt v k (at_home e) = rw e (home-lt v k)
IsPlace-lt v k (at_above e h) = rw v.slots (ground arith)
IsPlace-lt v k (at_below e h) = omega (arith, home-lt v k)

-- The slot of find_free_slot is one of the three.
pub find_free_slot-IsPlace :
    {ht : Hash} (v : IsTable ht) {key : Key} (k : IsKey key)
    → Returns (find_free_slot ht key (length key) (home ht key)) (IsPlace ht key)
unfolding find_free_slot
find_free_slot-IsPlace {ht} v {key} k =
    let up = has_above ht key && is_empty (chain_at ht.table (above ht key)) in
    let down = has_below ht key && is_empty (chain_at ht.table (below ht key)) in
    let read_up = load-get_or ht.table (above ht key) [] in
    let read_down = load-get_or ht.table (below ht key) [] in
    let inside = home-lt v k in
    elim (Bool-cases up) [
      | inl e ↦
          (above ht key, ground (arith, e, v.slots, read_up), at_above refl (ground (arith, e)))
      | inr e ↦ elim (Bool-cases down) [
        | inl d ↦ (
          below ht key,
          ground (arith, e, d, v.slots, inside, read_up, read_down),
          at_below refl (ground (arith, d)),
        )
        | inr d ↦
            (home ht key, ground (arith, e, d, v.slots, inside, read_up, read_down), at_home refl)
      ]
    ]

pub place_cases :
    {ht : Hash} {key : Key} {j : ℕ}
    → IsPlace ht key j
    → (j ≡ home ht key)
      ⊎ (((j ≡ above ht key) × (has_above ht key ≡ true))
          ⊎ ((j ≡ below ht key) × (has_below ht key ≡ true)))
place_cases (at_home e) = inl e
place_cases (at_above e h) = inr (inl (e, h))
place_cases (at_below e h) = inr (inr (e, h))

module _ {ht : Hash} (v : IsTable ht) (j : ℕ) (b : Bucket) (h : j < length ht.table) where
  -- The table with the bucket in front of a chain
  abbrev pub added : Hash
  added = record ht {
    table = set ht.table j (b ∷ chain_at ht.table j);
    items = (ht.items + 1) % word;
  }

  spot-added :
      (q : Key) (i : ℕ)
      → spot added.table q i ≡ (
          if i == j
          then (if matches q (length q) b then some (i, b) else spot ht.table q i)
          else spot ht.table q i)
  unfolding spot find
  spot-added q i = ground (arith, get_or-set ht.table j i (b ∷ chain_at ht.table j) [])

  pub home-added : (q : Key) → home added q ≡ home ht q
  unfolding home index_hash
  home-added q = refl

  -- Another key is found as before.
  pub seek-added_ne : (q : Key) → str_eq q b.key ≡ false → seek added q ≡ seek ht q
  unfolding seek
  seek-added_ne q ne = ground (
    arith,
    home-added q,
    spot-added q (home ht q),
    spot-added q (above ht q),
    spot-added q (below ht q),
  )

  -- A key that was nowhere is found where its bucket was put.
  pub seek-added_self :
      (key : Key)
      → matches key (length key) b ≡ true
      → seek ht key ≡ none
      → IsPlace ht key j
      → seek added key ≡ some (j, b)
  unfolding seek
  seek-added_self key e absent place = ground (
    arith,
    home-added key,
    spot-added key (home ht key),
    spot-added key (above ht key),
    spot-added key (below ht key),
    place_cases place,
  )

  pub IsTable-added : b.klen ≡ length b.key → IsTable added
  IsTable-added e = record {
    slots = length-set ht.table j _ ∙ v.slots;
    pos = v.pos;
    small = v.small;
    tidy = λ i. elim (Bool-cases (i == j)) [
      | inl same ↦ rw (get_or-set ht.table j i (b ∷ chain_at ht.table j) [] h, same) (e, v.tidy j)
      | inr other ↦ rw (get_or-set ht.table j i (b ∷ chain_at ht.table j) [] h, other) (v.tidy i)
    ];
  }
