-- ===== src/Oash/Put/Store.antt =====
-- A table of noash.c between two calls, and what the insertion of a key is to leave.
use trurlib.Prelude.{
  ℕ, zero, suc, ◌+◌, ◌<◌, ◌≤◌, ◌≡◌, ◌≢◌, refl, ap, sym, ◌∙◌, true, Option, some, List, [], ◌∷◌,
  arith, length, set, length-set, take,
}
use trurlib.Run.{Run, ok}
use trurlib.Array.State.{Ptr}
use trurlib.Hash.Table.{Key}
use trurlib.Oash.Table.{Entry, Dentry, Oash, get_dentry}
use trurlib.Oash.Probe.{strncmp_eq, same_key, psldiff}
use trurlib.Oash.Probe.Robin.{slot, next, IsRobin}
use trurlib.Oash.Probe.Find.{IsHit}
use trurlib.Oash.Probe.Place.{SameEntry, slot-set}
use trurlib.Oash.Probe.Added.{IsTable, IsNew}
use trurlib.Oash.Put.Data.{stored}

-- A whole table with its data, as calls leave it that stay below 2 ^ 16 slots
pub record IsStore (ht : Oash) : Type 0 where
  pub fits : IsTable ht.cap ht.table ht.size ht.dentries
  pub dcap_same : ht.dcap ≡ ht.cap
  pub data_slots : length ht.dentries ≡ ht.dcap
  pub data_counted : stored ht.dentries ≡ ht.size

-- Two entries for the same key with the same data hold the same keys.
pub IsHit-moved :
    (t t' : List Entry) (ds ds' : List (Option Dentry)) (key : Key) (klen khash i j : ℕ)
    → SameEntry (slot t i) (slot t' j)
    → ((n : ℕ) (de : Dentry) → get_dentry ds n ≡ ok de → get_dentry ds' n ≡ ok de)
    → IsHit t ds key klen khash i
    → IsHit t' ds' key klen khash j
IsHit-moved t t' ds ds' key klen khash i j s more hit = record {
  hash = hit.hash ∙ sym s.hash;
  len = hit.len ∙ sym s.klen;
  de = hit.de;
  data_there = ap (get_dentry ds') s.data_index ∙ more (slot t i).data_index hit.de hit.data_there;
  same = hit.same;
}

pub strncmp_eq-take : (n : ℕ) (key : Key) → n ≤ length key → strncmp_eq n key (take n key) ≡ true
unfolding strncmp_eq
strncmp_eq-take zero key h = refl
strncmp_eq-take (suc n) [] h = absurd (omega arith)
strncmp_eq-take (suc n) (x ∷ key) h = ground (arith, strncmp_eq-take n key (omega arith))

pub strncmp_eq_refl : (n : ℕ) (key : Key) → strncmp_eq n key key ≡ true
unfolding strncmp_eq
strncmp_eq_refl zero key = refl
strncmp_eq_refl (suc n) [] = refl
strncmp_eq_refl (suc n) (x ∷ key) = ground (arith, strncmp_eq_refl n key)

pub strncmp_eq_sym : (n : ℕ) (a b : Key) → strncmp_eq n a b ≡ strncmp_eq n b a
unfolding strncmp_eq
strncmp_eq_sym zero a b = refl
strncmp_eq_sym (suc n) [] [] = refl
strncmp_eq_sym (suc n) [] (y ∷ b) = refl
strncmp_eq_sym (suc n) (x ∷ a) [] = refl
strncmp_eq_sym (suc n) (x ∷ a) (y ∷ b) = ground (arith, strncmp_eq_sym n a b)

pub one_result {ℓ} : {A : Type ℓ} {call : Run A} {x y : A} → call ≡ ok x → call ≡ ok y → x ≡ y
one_result e e2 = cc

-- A slot that holds the key passes for one.
pub hit-not_new :
    (t : List Entry) (ds : List (Option Dentry)) (key : Key) (entry : Entry) (i : ℕ)
    → IsNew t ds (some key) entry
    → (slot t i).hash ≢ 0
    → IsHit t ds key entry.klen entry.hash i
    → ⊥
unfolding same_key
hit-not_new t ds key entry i new there hit =
    let passes = new.safe i hit.de there hit.data_there in
    let same = hit.same in
    let turned = strncmp_eq_sym entry.klen key (hit.de).key in
    ground (arith, passes, hit.hash, hit.len, same, turned)

-- An entry may be given its data.
pub relabelled :
    {cap : ℕ} {t : List Entry} (r : IsRobin cap t) (i n : ℕ)
    → i < cap
    → IsRobin cap (set t i (record (slot t i) { data_index = n }))
unfolding psldiff
relabelled {cap} {t} r i n h =
    let e = record (slot t i) { data_index = n } in
    let hl : i < length t = omega (arith, r.slots) in
    record {
      slots = length-set t i e ∙ r.slots;
      dist = λ j hj there. ground (arith, slot-set t i j e hl, r.dist j hj, there);
      step = λ j hj there away.
          ground
            (arith, slot-set t i j e hl, slot-set t i (next cap j) e hl, r.step j hj, there, away);
    }

-- What the insertion of a key leaves
pub record IsInserted (ht : Oash) (key : Key) (klen khash : ℕ) (v : Ptr) (out : Option ℕ × Oash)
    : Type 0 where
  pub whole : IsStore (out.1)
  pub counted : (out.1).size ≡ ht.size + 1
  pub at : ℕ
  pub at_inside : at < (out.1).cap
  pub hit : IsHit (out.1).table (out.1).dentries key klen khash at
  pub values :
      (j : ℕ)
      → j < (out.1).cap
      → (slot (out.1).table j).hash ≢ 0
      → (h : IsHit (out.1).table (out.1).dentries key klen khash j) → (h.de).value ≡ v
  pub returned : out.0 ≡ some (slot (out.1).table at).data_index
  pub kept :
      (key2 : Key) (klen2 khash2 i : ℕ)
      → i < ht.cap
      → (slot ht.table i).hash ≢ 0
      → IsHit ht.table ht.dentries key2 klen2 khash2 i
      → (j : ℕ) × (j < (out.1).cap)
        × ((slot (out.1).table j).hash ≢ 0)
        × IsHit (out.1).table (out.1).dentries key2 klen2 khash2 j
