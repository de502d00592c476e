-- ===== src/Oash/Remove/Taken.antt =====
-- n_oash_remove of a key that is in a whole table.
use trurlib.Prelude.{
  subst, ℕ, zero, suc, ◌+◌, ◌-◌, ◌%◌, ◌<◌, ◌≡◌, ◌≢◌, refl, ap, sym, ◌∙◌, inl, inr, Bool-cases,
  Option, none, List, [], ◌∷◌, arith, length, ◌==◌, set, ==_refl,
}
use trurlib.Run.{ok, Returns}
use trurlib.Memory.Block.{load}
use trurlib.Memory.Laws.{load-get_or, store-set}
use trurlib.Hash.Murmur.{word}
use trurlib.Hash.Table.{Key}
use trurlib.Oash.Table.{Entry, empty, Dentry, Oash, compute_hash, get_dentry}
use trurlib.Oash.Probe.Ring.{IsCap, tindex-next}
use trurlib.Oash.Probe.Robin.{slot, next, ahead, IsRobin, ahead-sum}
use trurlib.Oash.Probe.Used.{used, used-set, empty_slot, reach}
use trurlib.Oash.Probe.Find.{IsHit, get_entry-finds}
use trurlib.Oash.Probe.Place.{SameEntry, slot-set}
use trurlib.Oash.Probe.Added.{IsTable}
use trurlib.Oash.Put.Rehash.{slot-inside}
use trurlib.Oash.Remove.{shift_back, take_entry, remove}
use trurlib.Oash.Remove.Hole.{freed_slot, ==→≡, IsHole-start}
use trurlib.Oash.Remove.Back.{IsFreed, shift_back-IsFreed}

-- A slot of a table has been freed: the order of the slots is kept, every other entry is there, and
-- nothing else.
pub record IsTaken (cap : ℕ) (t : List Entry) (eindex : ℕ) (t' : List Entry) : Type 0 where
  pub robin : IsRobin cap t'
  pub filled : used t' + 1 ≡ used t
  pub kept :
      (j : ℕ)
      → j < cap
      → j ≢ eindex
      → (slot t j).hash ≢ 0
      → (k : ℕ) × (k < cap) × SameEntry (slot t j) (slot t' k)
  pub nothing_else :
      (k : ℕ)
      → k < cap
      → (slot t' k).hash ≢ 0
      → (j : ℕ) × (j < cap)
        × (j ≢ eindex)
        × ((slot t j).hash ≢ 0)
        × SameEntry (slot t j) (slot t' k)

get_dentry-inside :
    (ds : List (Option Dentry)) (n : ℕ) (de : Dentry) → get_dentry ds n ≡ ok de → n < length ds
unfolding get_dentry load
get_dentry-inside [] n de e = cc
get_dentry-inside (d ∷ ds) zero de e = omega arith
get_dentry-inside (d ∷ ds) (suc n) de e = omega (arith, get_dentry-inside ds n de e)

-- What n_oash_remove has returned and left
pub record IsRemoved (ht : Oash) (value : ℕ) (eindex : ℕ) (out : ℕ × Oash) : Type 0 where
  pub got : out.0 ≡ value
  pub cap_same : (out.1).cap ≡ ht.cap
  pub counted : (out.1).size + 1 ≡ ht.size
  pub taken : IsTaken ht.cap ht.table eindex (out.1).table

module _ {cap : ℕ} (t : List Entry) (eindex : ℕ) (out : List Entry × ℕ) where
  freed-IsTaken :
      {c : IsCap cap} (q : IsFreed c t eindex out)
      → IsTaken cap t eindex (set out.0 out.1 (freed_slot (slot out.0 out.1)))
  freed-IsTaken q =
      let e = freed_slot (slot out.0 out.1) in
      let hl : out.1 < length out.0 = omega (arith, q.slots, q.inside) in
      record {
        robin = q.robin;
        filled = ground (arith, used-set out.0 out.1 e hl, q.held, q.filled);
        kept = λ j hj away there.
            let (k, hk, off, s) = q.kept j hj away there in
            let same : slot (set out.0 out.1 e) k ≡ slot out.0 k =
              ground (arith, slot-set out.0 out.1 k e hl, off) in
            (k, hk, subst (λ x. SameEntry (slot t j) x) (sym same) s);
        nothing_else = λ k hk there. elim (Bool-cases (k == out.1)) [
          | inl at ↦ absurd (
              there
                (ap (λ n. (slot (set out.0 out.1 e) n).hash) (==→≡ at) ∙ freed e out.0 out.1 hl))
          | inr off ↦
              let same : slot (set out.0 out.1 e) k ≡ slot out.0 k =
                ground (arith, slot-set out.0 out.1 k e hl, off) in
              let (j, hj, away, held, s) =
                q.nothing_else k hk (ground (arith, off))
                  (subst (λ (x : Entry). x.hash ≢ 0) same there) in
              (j, hj, away, held, subst (λ x. SameEntry (slot t j) x) (sym same) s)
        ];
      }
    where
      freed :
          (e : Entry) (l : List Entry) (i : ℕ)
          → i < length l
          → (slot (set l i (freed_slot e)) i).hash ≡ 0
      freed e l i h = ap (λ (x : Entry). x.hash) (slot-set l i i (freed_slot e) h) ∙ ground arith

reach_short :
    (cap i z g : ℕ) → i < cap → g < cap → ahead cap g (next cap i) ≡ z → z ≢ i → suc g < cap
reach_short cap i z g h hg at away = ground (arith, ahead-sum cap g (next cap i), h, hg, at, away)

-- The work on the slot of an entry whose data are there
take_entry-IsRemoved :
    (ht : Oash) (eindex : ℕ) (de : Dentry)
    → IsTable ht.cap ht.table ht.size ht.dentries
    → ht.size < ht.cap
    → eindex < ht.cap
    → (slot ht.table eindex).hash ≢ 0
    → get_dentry ht.dentries (slot ht.table eindex).data_index ≡ ok de
    → Returns (take_entry ht (slot ht.table eindex).hash eindex) (IsRemoved ht de.value eindex)
unfolding take_entry
take_entry-IsRemoved ht eindex de w room inside there data_there =
    let c = (w.whole).cap_ok in
    let slots = (w.whole).slots in
    let counted = w.counted in
    let next_in : next ht.cap eindex < ht.cap = ground (arith, inside) in
    let (z, hz, free) = empty_slot ht.table (omega (arith, room, slots, counted)) in
    let (g, hg, at) = reach ht.cap (next ht.cap eindex) z next_in (omega (arith, hz, slots)) in
    let free2 = ap (λ s. (slot ht.table s).hash) at ∙ free in
    let short : suc g < ht.cap =
      reach_short ht.cap eindex z g inside hg at
        (λ e. there (ap (λ n. (slot ht.table n).hash) (sym e) ∙ free)) in
    let (out, run, q) =
      shift_back-IsFreed c g ht.cap ht.table eindex (slot ht.table eindex).psl hg short
        (IsHole-start c w.robin eindex inside there) free2 in
    let run2 = ap (shift_back ht.cap ht.cap ht.table eindex) (tindex-next c eindex inside) ∙ run in
    let taken = freed-IsTaken ht.table eindex out q in
    let hl : out.1 < length out.0 = omega (arith, q.slots, q.inside) in
    let index = (slot ht.table eindex).data_index in
    let stored =
      store-set ht.dentries index none (get_dentry-inside ht.dentries index de data_there) in
    let t' = set out.0 out.1 (freed_slot (slot out.0 out.1)) in
    let read = load-get_or ht.table eindex empty (omega (arith, inside, slots)) in
    let read2 = load-get_or out.0 out.1 empty hl in
    let write2 = store-set out.0 out.1 (freed_slot (slot out.0 out.1)) hl in
    (
      (
        de.value,
        record ht {
          table = t';
          dentries = set ht.dentries index none;
          dsize = (ht.dsize + word - 1) % word;
          size = (ht.size + word - 1) % word;
        },
      ),
      rw (read, ==_refl (slot ht.table eindex).hash, run2, read2, write2, data_there, stored) refl,
      record {
        got = refl;
        cap_same = refl;
        counted = omega (arith, taken.filled, counted, room, c.small);
        taken = taken;
      },
    )

-- n_oash_remove of a key whose hash is not 0 and that some slot of a whole table holds (`IsTable`: a
-- power of two, below 2 ^ 16, of slots in Robin Hood order, every used one with its data, and a right
-- count), when not every slot is in use, returns the value of a slot that holds the key and frees that slot: the
-- Robin Hood order is kept, one entry less is counted, every other entry is still in the table, and
-- nothing else.
pub remove-IsRemoved :
    (ht : Oash) (key : Key) (khash i : ℕ)
    → IsTable ht.cap ht.table ht.size ht.dentries
    → ht.size < ht.cap
    → compute_hash key (length key) ≡ ok khash
    → khash ≢ 0
    → IsHit ht.table ht.dentries key (length key) khash i
    → (j : ℕ) × (hit : IsHit ht.table ht.dentries key (length key) khash j) × Returns
        (remove ht key)
        (IsRemoved ht (hit.de).value j)
unfolding remove
remove-IsRemoved ht key khash i w room hashed some_hash hit =
    let slots = (w.whole).slots in
    let there : (slot ht.table i).hash ≢ 0 = ground (arith, hit.hash, some_hash) in
    let (j, found, hit2) =
      get_entry-finds ht w.whole w.robin key (length key) khash i
        (omega (arith, slot-inside ht.table i there, slots)) there hit in
    let there2 : (slot ht.table j).hash ≢ 0 = ground (arith, hit2.hash, some_hash) in
    let (out, run, q) =
      take_entry-IsRemoved ht j hit2.de w room (omega (arith, slot-inside ht.table j there2, slots))
        there2 hit2.data_there in
    let run2 = ap (λ h. take_entry ht h j) hit2.hash ∙ run in
    (j, hit2, (out, rw (hashed, found) run2, q))
