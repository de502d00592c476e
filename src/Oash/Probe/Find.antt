-- ===== src/Oash/Probe/Find.antt =====
-- ohash_get_entry ends on every table, and finds every key that the table holds.
use trurlib.Prelude.{
  subst, ℕ, zero, suc, ◌+◌, ◌<◌, ◌≤◌, ◌≡◌, ◌≢◌, refl, ap, sym, ◌∙◌, inl, inr, ◌&&◌, ◌||◌, not, Bool,
  true, false, Bool-cases, Option, none, some, List, arith, length, ltb, ◌==◌, if◌then◌else◌,
}
use trurlib.Run.{ok, Returns, ◌>>=◌}
use trurlib.Memory.Laws.{load-get_or}
use trurlib.Hash.Table.{Key}
use trurlib.Oash.Table.{Entry, empty, Dentry, Oash, tindex, get_dentry}
use trurlib.Oash.Probe.{strncmp_eq, psldiff, get_loop, get_entry}
use trurlib.Oash.Probe.Ring.{IsCap, tindex-lt, tindex-next}
use trurlib.Oash.Probe.Robin.{slot, next, ahead, IsRobin, psldiff-lt, ahead-psldiff, IsRobin-back}

-- The slots, a power of two below 2 ^ 16 of them, and the data of a table fit together: every entry has
-- its dentry.
pub record IsHeld (cap : ℕ) (t : List Entry) (dentries : List (Option Dentry)) : Type 0 where
  pub cap_ok : IsCap cap
  pub slots : length t ≡ cap
  pub held :
      (i : ℕ)
      → i < cap
      → (slot t i).hash ≢ 0
      → (de : Dentry) × (get_dentry dentries (slot t i).data_index ≡ ok de)

-- The slot holds an entry of the key.
pub record IsHit (t : List Entry) (dentries : List (Option Dentry)) (key : Key) (klen khash i : ℕ)
    : Type 0 where
  pub hash : khash ≡ (slot t i).hash
  pub len : klen ≡ (slot t i).klen
  pub de : Dentry
  pub data_there : get_dentry dentries (slot t i).data_index ≡ ok de
  pub same : strncmp_eq klen key de.key ≡ true

module _ {cap : ℕ} {t : List Entry} {dentries : List (Option Dentry)} (w : IsHeld cap t dentries)
    (key : Key) (klen khash : ℕ) where
  -- What the loop does on one slot
  abbrev goes_on : ℕ → Bool
  goes_on i = (khash == (slot t i).hash) && (klen == (slot t i).klen)

  -- The result of the comparison in one slot, and what it means
  compared :
      (i : ℕ)
      → i < cap
      → (slot t i).hash ≢ 0
      → (same : Bool) × ((if goes_on i
            then (get_dentry dentries (slot t i).data_index >>= λ de.
                ok (strncmp_eq klen key de.key))
            else ok false)
          ≡ ok same)
        × (same ≡ true → IsHit t dentries key klen khash i)
        × (IsHit t dentries key klen khash i → same ≡ true)
  compared i h some_entry =
      let (de, there) = w.held i h some_entry in
      elim (Bool-cases (goes_on i)) [
        | inl e ↦ (
          strncmp_eq klen key de.key,
          ground (arith, e, there),
          λ same. record {
            hash = ground (arith, e);
            len = ground (arith, e);
            de = de;
            data_there = there;
            same = same;
          },
          λ hit. ground (arith, hit.same, hit.data_there, there),
        )
        | inr e ↦
            (false, ground (arith, e), λ same. cc, λ hit. ground (arith, hit.hash, hit.len, e))
      ]

  -- What is found is the key.
  abbrev pub IsAnswer : Option ℕ → Type 0
  IsAnswer none = Unit
  IsAnswer (some i) = IsHit t dentries key klen khash i

  stops : (index i np : ℕ) → Bool
  stops index i np =
      ((slot t i).hash == 0)
      || (ltb (psldiff cap (slot t i) i) np || (not (i == index) && ((slot t i).psl == 0)))

  -- With as much fuel as there are slots left to try the loop ends.
  get_loop-ends :
      (fuel index i np : ℕ)
      → i < cap
      → np ≤ cap
      → cap < fuel + np
      → Returns (get_loop cap dentries fuel t key klen khash index i np) IsAnswer
  unfolding get_loop stops
  get_loop-ends zero index i np h le enough = absurd (omega arith)
  get_loop-ends (suc fuel) index i np h le enough =
      let read = load-get_or t i empty (ground (arith, w.slots)) in
      elim (Bool-cases (stops index i np)) [
        | inl e ↦ (none, ground (arith, read, e), tt)
        | inr e ↦
            let far = psldiff-lt w.cap_ok (slot t i) i h in
            let (same, run, sound, complete) = compared i h (ground (arith, e)) in
            elim (Bool-cases same) [
              | inl y ↦ (some i, ground (arith, read, e, run, y), sound y)
              | inr n ↦
                  let (o, rest, answer) =
                    get_loop-ends fuel index (tindex cap (i + 1)) (np + 1)
                      (tindex-lt w.cap_ok (i + 1)) (ground (arith, e, far)) (omega arith) in
                  (o, ground (arith, read, e, run, n, rest), answer)
            ]
      ]

  -- On the way to a slot that holds the key, `g` slots ahead, the loop does not stop without a hit.
  get_loop-finds :
      (r : IsRobin cap t) (g fuel index i np : ℕ)
      → i < cap
      → g < fuel
      → (np ≡ 0 → i ≡ index)
      → IsHit t dentries key klen khash (ahead cap g i)
      → (slot t (ahead cap g i)).hash ≢ 0
      → np + g ≤ (slot t (ahead cap g i)).psl
      → (j : ℕ) × (get_loop cap dentries fuel t key klen khash index i np ≡ ok (some j))
        × IsHit t dentries key klen khash j
  unfolding get_loop stops ahead
  get_loop-finds r g zero index i np h enough start hit here far = absurd (omega arith)
  get_loop-finds r zero (suc fuel) index i np h enough start hit here far =
      let read = load-get_or t i empty (ground (arith, w.slots)) in
      let dist = r.dist i h here in
      let going : stops index i np ≡ false = ground (arith, here, far, dist, start) in
      let (same, run, sound, complete) = compared i h here in
      (i, ground (arith, read, going, run, complete hit), hit)
  get_loop-finds r (suc g) (suc fuel) index i np h enough start hit here far =
      let read = load-get_or t i empty (ground (arith, w.slots)) in
      let (held, near) = IsRobin-back r (suc g) i np h here (omega arith) in
      let dist = r.dist i h held in
      let going : stops index i np ≡ false = ground (arith, held, near, dist, start) in
      let (same, run, sound, complete) = compared i h held in
      elim (Bool-cases same) [
        | inl y ↦ (i, ground (arith, read, going, run, y), sound y)
        | inr n ↦
            let (j, rest, there) =
              get_loop-finds r g fuel index (next cap i) (np + 1) (ground arith) (omega arith)
                (λ e. absurd (omega arith)) hit here (omega arith) in
            (j, ground (arith, read, going, run, n, tindex-next w.cap_ok i h, rest), there)
      ]

-- ohash_get_entry ends on every table whose slots and data fit together, also on one without an empty
-- slot, and the slot that it finds holds the key.
pub get_entry-IsAnswer :
    (ht : Oash) (w : IsHeld ht.cap ht.table ht.dentries) (key : Key) (klen khash : ℕ)
    → Returns (get_entry ht key klen khash) (IsAnswer w key klen khash)
unfolding get_entry
get_entry-IsAnswer ht w key klen khash =
    get_loop-ends w key klen khash (suc ht.cap) (tindex ht.cap khash) (tindex ht.cap khash) 0
      (tindex-lt w.cap_ok khash) (omega arith) (omega arith)

-- In a table of a power of two, below 2 ^ 16, of slots, where every used one has its data, that keeps
-- the Robin Hood order, ohash_get_entry finds a key that some used slot holds.
pub get_entry-finds :
    (ht : Oash) (w : IsHeld ht.cap ht.table ht.dentries) (r : IsRobin ht.cap ht.table) (key : Key)
    (klen khash i : ℕ)
    → i < ht.cap
    → (slot ht.table i).hash ≢ 0
    → IsHit ht.table ht.dentries key klen khash i
    → (j : ℕ) × (get_entry ht key klen khash ≡ ok (some j))
      × IsHit ht.table ht.dentries key klen khash j
unfolding get_entry
get_entry-finds ht w r key klen khash i h here hit =
    let e = slot ht.table i in
    let home : tindex ht.cap khash ≡ tindex ht.cap e.hash = ap (tindex ht.cap) hit.hash in
    let there = ap (λ s. ahead ht.cap (psldiff ht.cap e i) s) home ∙ ahead-psldiff w.cap_ok e i h in
    let far = psldiff-lt w.cap_ok e i h in
    get_loop-finds w key klen khash r (psldiff ht.cap e i) (suc ht.cap) (tindex ht.cap khash)
      (tindex ht.cap khash) 0 (tindex-lt w.cap_ok khash) (omega arith) (λ z. refl)
      (subst (λ s. IsHit ht.table ht.dentries key klen khash s) (sym there) hit)
      (subst (λ s. (slot ht.table s).hash ≢ 0) (sym there) here)
      (subst (λ s. 0 + psldiff ht.cap e i ≤ (slot ht.table s).psl) (sym there)
        (omega (arith, r.dist i h here)))
