-- ===== src/Oash/Put/Insert.antt =====
-- n_oash_put of a new key: the key is found afterwards, and so is every key that was.
use trurlib.Prelude.{
  subst, ℕ, ◌*◌, ◌^◌, ◌<◌, ◌≤◌, ◌≡◌, ◌≢◌, refl, sym, inl, inr, true, Bool-cases, some, arith,
  length, take,
}
use trurlib.Run.{ok, Returns}
use trurlib.Memory.Laws.{load-get_or, store-set}
use trurlib.Array.State.{Ptr}
use trurlib.Hash.Table.{Key}
use trurlib.Oash.Table.{Entry, empty, Oash, compute_hash, new_dentry}
use trurlib.Oash.Probe.{Placed, strncmp_eq}
use trurlib.Oash.Probe.Ring.{IsCap}
use trurlib.Oash.Probe.Robin.{slot}
use trurlib.Oash.Probe.Added.{IsNew, IsAdded, put_entry-IsAdded}
use trurlib.Oash.Put.{Mode, dying, crowded, fill_slot, place, put, insert}
use trurlib.Oash.Put.Grow.{rehash_all-IsGrown}
use trurlib.Oash.Put.Data.{put_dentry-IsFree}
use trurlib.Oash.Put.Store.{IsStore, strncmp_eq-take, strncmp_eq_refl, IsInserted}
use trurlib.Oash.Put.Label.{labelled, labelled-IsInserted}
use trurlib.Oash.Put.Grown.{grown-IsInserted}
use trurlib.Oash.Put.Seen.{hexists-there, hexists-hit, hget-there}
use trurlib.Oash.Remove.{hexists, get, exists}

-- The entry that n_oash_put makes for a key
abbrev pub new_entry : (klen khash : ℕ) → Entry
new_entry klen khash = record { hash = khash; psl = 0; klen = klen; data_index = 0 }

new_dentry-same :
    (ht : Oash) (key : Key) (klen : ℕ) (v : Ptr)
    → 0 < klen
    → klen ≤ length key
    → Returns
        (new_dentry ht key klen v)
        (λ de. (strncmp_eq klen key de.key ≡ true) × (de.value ≡ v))
unfolding new_dentry
new_dentry-same ht key klen v some_key le = elim (Bool-cases ht.nocpkey) [
  | inl e ↦ (
    record { value = v; key = key },
    ground (arith, e, some_key),
    (strncmp_eq_refl klen key, refl),
  )
  | inr e ↦ (
    record { value = v; key = take klen key },
    ground (arith, e, some_key, le),
    (strncmp_eq-take klen key le, refl),
  )
]

-- The branch of n_oash_put for a new key, whose entry lies in its slot
filled-IsInserted :
    (ht : Oash) (w : IsStore ht) (key : Key) (klen khash : ℕ) (v : Ptr) (p : Placed)
    → IsAdded ht.cap ht.table ht.size (new_entry klen khash) p
    → IsNew ht.table ht.dentries (some key) (new_entry klen khash)
    → ht.size < ht.cap
    → ht.cap * 2 < 2 ^ 16
    → khash ≢ 0
    → 0 < klen
    → klen ≤ length key
    → Returns
        (fill_slot (record ht { table = p.table; size = p.size }) key klen v p.slot)
        (IsInserted ht key klen khash v)
unfolding fill_slot
filled-IsInserted ht w key klen khash v p a new room small some_hash some_key le =
    let hd = record ht { table = p.table; size = p.size } in
    let (de, made, (same, value)) = new_dentry-same hd key klen v some_key le in
    let dcap_same = w.dcap_same in
    let (index, put, free) =
      put_dentry-IsFree hd de (subst IsCap (sym dcap_same) ((w.fits).whole).cap_ok) w.data_slots
        (omega (arith, w.data_counted, room, dcap_same)) in
    let hl : p.slot < length p.table = omega (arith, (a.robin).slots, a.inside) in
    let e = record (slot p.table p.slot) { data_index = index } in
    let ht1 = labelled ht p index de in
    let q =
      labelled-IsInserted ht w (new_entry klen khash) p a index de free key v new some_hash same
        value in
    let read = load-get_or p.table p.slot empty hl in
    let write = store-set p.table p.slot e hl in
    elim (Bool-cases (crowded ht1)) [
      | inl c ↦
          let (ht2, grown, g) =
            rehash_all-IsGrown ht1 (q.whole).fits small (omega (arith, small, dcap_same)) in
          (
            (some index, ht2),
            rw (made, put, read, write, c, grown) refl,
            grown-IsInserted ht ht1 ht2 key klen khash v index some_hash q g,
          )
      | inr c ↦ ((some index, ht1), rw (made, put, read, write, c) refl, q)
    ]

place-IsInserted :
    (ht : Oash) (w : IsStore ht) (key : Key) (klen khash : ℕ) (v : Ptr) (mode : Mode)
    → IsNew ht.table ht.dentries (some key) (new_entry klen khash)
    → ht.size < ht.cap
    → ht.cap * 2 < 2 ^ 16
    → khash ≢ 0
    → 0 < klen
    → klen ≤ length key
    → Returns (place ht key klen khash v mode) (IsInserted ht key klen khash v)
unfolding place
place-IsInserted ht w key klen khash v mode new room small some_hash some_key le =
    let (p, placed, a) =
      put_entry-IsAdded ht (new_entry klen khash) (some key) w.fits room some_hash new in
    let (out, filled, q) =
      filled-IsInserted ht w key klen khash v p a new room small some_hash some_key le in
    (out, rw (placed, a.fresh, filled) refl, q)

-- n_oash_put in any mode of a key of 1 to 65534 bytes that is new (no slot passes for one of it),
-- with a hash that is not 0, into a whole table of fewer than 2^15 slots that is not full: the
-- table is whole again, also if it has grown, it has one entry more, and every key that was in it
-- still is. The key is in it, with the value given wherever it lies.
pub put-IsInserted :
    (ht : Oash) (w : IsStore ht) (key : Key) (klen khash : ℕ) (v : Ptr) (mode : Mode)
    → IsNew ht.table ht.dentries (some key) (new_entry klen khash)
    → ht.size < ht.cap
    → ht.cap * 2 < 2 ^ 16
    → khash ≢ 0
    → 0 < klen
    → klen < 65535
    → klen ≤ length key
    → Returns (put ht key klen khash v mode) (IsInserted ht key klen khash v)
unfolding put
put-IsInserted ht w key klen khash v mode new room small some_hash some_key short le =
    let (out, placed, q) =
      place-IsInserted ht w key klen khash v mode new room small some_hash some_key le in
    (out, ground (arith, some_key, short, some_hash, room, placed), q)

-- After n_oash_insert of a key of 1 to 65534 bytes that is new (no slot passes for one of it) and
-- whose hash is not 0, into a whole table of fewer than 2^15 slots that is not full, n_oash_get
-- gets its value and n_oash_exists sees it; what n_oash_hexists saw before, under a hash that is
-- not 0, it still sees.
pub insert-get :
    (ht : Oash) (w : IsStore ht) (key : Key) (v : Ptr) (khash : ℕ)
    → compute_hash key (length key) ≡ ok khash
    → khash ≢ 0
    → IsNew ht.table ht.dentries (some key) (new_entry (length key) khash)
    → ht.size < ht.cap
    → ht.cap * 2 < 2 ^ 16
    → 0 < length key
    → length key < 65535
    → Returns (insert ht key v) (λ out.
      (get (out.1) key ≡ ok v)
      × (exists (out.1) key ≡ ok true)
      × ((key2 : Key) (klen2 khash2 : ℕ)
          → khash2 ≢ 0
          → hexists ht key2 klen2 khash2 ≡ ok true
          → hexists (out.1) key2 klen2 khash2 ≡ ok true))
unfolding insert put get exists
insert-get ht w key v khash hashed some_hash new room small some_key short =
    let (out, placed, q) =
      place-IsInserted ht w key (length key) khash v dying new room small some_hash some_key
        (omega arith) in
    let there : (slot (out.1).table q.at).hash ≢ 0 = ground (arith, (q.hit).hash, some_hash) in
    (
      out,
      ground (arith, some_key, short, hashed, room, placed),
      (
        rw hashed (
            hget-there out.1 q.whole key (length key) khash q.at v q.at_inside some_hash q.hit
              q.values),
        rw hashed (hexists-there out.1 q.whole key (length key) khash q.at q.at_inside there q.hit),
        λ key2 klen2 khash2 some_hash2 seen.
            let (i, h, there2, hit) = hexists-hit ht w key2 klen2 khash2 some_hash2 seen in
            let (j, hj, there3, hit3) = q.kept key2 klen2 khash2 i h there2 hit in
            hexists-there out.1 q.whole key2 klen2 khash2 j hj there3 hit3,
      ),
    )
