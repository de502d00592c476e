-- ===== src/Hash/Table/New.antt =====
-- A new table: its size, and that it holds no key.
use trurlib.Prelude.{
  ℕ, zero, suc, ◌*◌, ◌%◌, ◌^◌, ◌<◌, ◌≤◌, ◌≡◌, refl, ap, false, [], arith, ltb, replicate,
  length-replicate, get_or, Bool-cases, inl, inr, ◌⊎◌,
}
use native.Mathlib.Nat.{pow-suc}
use trurlib.Run.{ok, Returns}
use trurlib.Array.State.{Ptr, null}
use trurlib.Hash.Murmur.{word}
use trurlib.Hash.Table.{Key, Chain, Hash, new_sized, round_up, new_rounded, new_ex}
use trurlib.Hash.Lookup.{find, exists}
use trurlib.Hash.Lookup.View.{chain_at, IsTable, IsKey, home, above, below, spot, seek, exists-seek}

get_or-replicate : (n i : ℕ) → get_or {A = Chain} (replicate n []) i [] ≡ []
get_or-replicate zero i = refl
get_or-replicate (suc n) zero = refl
get_or-replicate (suc n) (suc i) = get_or-replicate n i

-- The doubling ends, at most at twice the size asked for.
round_up-enough :
    (fuel size rsize : ℕ)
    → 0 < rsize
    → rsize < 2 ^ 32
    → size < 2 ^ 31
    → size < rsize * 2 ^ fuel
    → Returns
        (round_up (suc fuel) size rsize)
        (λ r. (size ≤ r) × (rsize ≤ r) × ((r ≤ rsize) ⊎ (r < 2 * size)))
unfolding round_up
round_up-enough zero size rsize p small asked enough = (rsize, ground arith, ground arith)
round_up-enough (suc fuel) size rsize p small asked enough = elim (Bool-cases (ltb rsize size)) [
  | inl less ↦
      let wraps : rsize * 2 % 2 ^ 64 ≡ rsize * 2 = omega arith in
      let (r, run, (reached, grown, bound)) =
        round_up-enough fuel size (rsize * 2) (omega arith) (ground arith) asked
          (omega (arith, ap (λ t. rsize * t) (pow-suc 2 fuel))) in
      (r, ground (arith, less, wraps, run), (reached, omega arith, ground arith))
  | inr done ↦ (rsize, ground (arith, done), ground (arith, done))
]

-- Where every chain is empty, no key is found.
absent :
    {ht : Hash} (v : IsTable ht) {key : Key} (k : IsKey key)
    → ((i : ℕ) → chain_at ht.table i ≡ [])
    → exists ht key ≡ ok false
unfolding seek spot find
absent {ht} v {key} k e =
    ground (arith, exists-seek v k, e (home ht key), e (above ht key), e (below ht key))

-- n_hash_new_ex without a hash function, for fewer than 2 ^ 31 slots, makes a well-formed table
-- with no items where a key is not found; its slots are at least as many as asked for, and at most
-- four or fewer than twice as many.
pub new_ex-empty :
    (size : ℕ) (freefn : Ptr) {key : Key} (k : IsKey key)
    → size < 2 ^ 31
    → Returns (new_ex size freefn null) (λ ht.
      IsTable ht
      × ((size ≤ ht.size) × ((ht.size ≤ 4) ⊎ (ht.size < 2 * size)))
      × (ht.items ≡ 0)
      × (exists ht key ≡ ok false))
unfolding new_ex new_rounded new_sized
new_ex-empty size freefn {key} k asked =
    let (r, run, (reached, grown, bound)) =
      round_up-enough 64 size 4 (omega arith) (omega arith) asked (omega arith) in
    let small : r % word ≡ r = omega (arith, bound) in
    let ht = new_sized null r freefn in
    let v : IsTable ht = record {
      slots = rw small (length-replicate r []);
      pos = omega (arith, small);
      small = omega (arith, small);
      tidy = λ i. rw (get_or-replicate r i) tt;
    } in
    (
      ht,
      ground (arith, run),
      (
        v,
        (omega (arith, small), ground (arith, bound, small)),
        refl,
        absent v k (λ i. get_or-replicate r i),
      ),
    )
