-- ===== src/Oash/Put/Seen.antt =====
-- What the lookups see in a whole table.
use trurlib.Prelude.{subst, ℕ, ◌<◌, ◌≡◌, ◌≢◌, refl, ap, inl, inr, true, arith, length}
use trurlib.Run.{ok}
use trurlib.Memory.Laws.{load-get_or}
use trurlib.Array.State.{Ptr}
use trurlib.Hash.Table.{Key}
use trurlib.Oash.Table.{empty, Oash}
use trurlib.Oash.Probe.Robin.{slot}
use trurlib.Oash.Probe.Find.{IsHit, IsAnswer, get_entry-IsAnswer, get_entry-finds}
use trurlib.Oash.Put.Rehash.{slot-inside}
use trurlib.Oash.Put.Data.{option_cases}
use trurlib.Oash.Put.Store.{IsStore}
use trurlib.Oash.Remove.{value_at, hget, hexists}

-- What a whole table holds n_oash_hexists sees.
pub hexists-there :
    (ht : Oash) (w : IsStore ht) (key : Key) (klen khash i : ℕ)
    → i < ht.cap
    → (slot ht.table i).hash ≢ 0
    → IsHit ht.table ht.dentries key klen khash i
    → hexists ht key klen khash ≡ ok true
unfolding hexists
hexists-there ht w key klen khash i h there hit =
    let (j, run, hit2) =
      get_entry-finds ht (w.fits).whole (w.fits).robin key klen khash i h there hit in
    rw run refl

pub hexists-hit :
    (ht : Oash) (w : IsStore ht) (key : Key) (klen khash : ℕ)
    → khash ≢ 0
    → hexists ht key klen khash ≡ ok true
    → (i : ℕ) × (i < ht.cap)
      × ((slot ht.table i).hash ≢ 0)
      × IsHit ht.table ht.dentries key klen khash i
unfolding hexists
hexists-hit ht w key klen khash some_hash e =
    let (o, run, answer) = get_entry-IsAnswer ht (w.fits).whole key klen khash in
    elim (option_cases o) [
      | inl n ↦ absurd (ground (arith, run, e, n))
      | inr (i, found) ↦
          let hit = subst (IsAnswer (w.fits).whole key klen khash) found answer in
          let there : (slot ht.table i).hash ≢ 0 = ground (arith, hit.hash, some_hash) in
          (i, omega (arith, slot-inside ht.table i there, ((w.fits).whole).slots), there, hit)
    ]

-- What n_oash_hget returns is the value of a slot that holds the key.
pub hget-there :
    (ht : Oash) (w : IsStore ht) (key : Key) (klen khash i : ℕ) (v : Ptr)
    → i < ht.cap
    → khash ≢ 0
    → IsHit ht.table ht.dentries key klen khash i
    → ((j : ℕ)
        → j < ht.cap
        → (slot ht.table j).hash ≢ 0
        → (hit : IsHit ht.table ht.dentries key klen khash j) → (hit.de).value ≡ v)
    → hget ht key klen khash ≡ ok v
unfolding hget value_at
hget-there ht w key klen khash i v h some_hash hit values =
    let slots = ((w.fits).whole).slots in
    let there : (slot ht.table i).hash ≢ 0 = ground (arith, hit.hash, some_hash) in
    let (j, run, hit2) =
      get_entry-finds ht (w.fits).whole (w.fits).robin key klen khash i h there hit in
    let there2 : (slot ht.table j).hash ≢ 0 = ground (arith, hit2.hash, some_hash) in
    let hj : j < length ht.table = slot-inside ht.table j there2 in
    let value = values j (omega (arith, hj, slots)) there2 hit2 in
    rw (run, load-get_or ht.table j empty hj, hit2.data_there) (ap ok value)
