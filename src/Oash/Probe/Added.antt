-- ===== src/Oash/Probe/Added.antt =====
-- n_oash_put_entry on a table that is not full.
use trurlib.Prelude.{
  subst, ℕ, ◌+◌, ◌<◌, ◌≡◌, ◌≢◌, refl, ap, sym, ◌∙◌, inl, inr, ◌⊎◌, false, Option, none, List, arith,
}
use trurlib.Run.{ok, Returns}
use trurlib.Hash.Table.{Key}
use trurlib.Oash.Table.{Entry, Dentry, Oash, tindex, get_dentry}
use trurlib.Oash.Probe.{Placed, same_key, put_entry}
use trurlib.Oash.Probe.Ring.{tindex-lt}
use trurlib.Oash.Probe.Robin.{slot, ahead, IsRobin, ahead-sum, ahead-lt, psldiff-home}
use trurlib.Oash.Probe.Used.{used, empty_slot, first_empty, reach}
use trurlib.Oash.Probe.Find.{IsHeld}
use trurlib.Oash.Probe.Place.{SameEntry, IsWay}
use trurlib.Oash.Probe.Settle.{put_loop-IsPlaced}

-- The slots of a table of a power of two, below 2 ^ 16, of slots: every used one has its data, the
-- order of Robin Hood hashing is kept, and `size` counts them. n_oash_new also makes larger tables,
-- where a distance may not fit into 16 bits: they are outside of this.
pub record IsTable (cap : ℕ) (t : List Entry) (size : ℕ) (dentries : List (Option Dentry))
    : Type 0 where
  pub whole : IsHeld cap t dentries
  pub robin : IsRobin cap t
  pub counted : size ≡ used t

-- No slot passes for one of the key, neither with the hash and length of the new entry (`safe`) nor
-- with those of another entry of the table, which may be moved for the new one (`apart`).
pub record IsNew (t : List Entry) (dentries : List (Option Dentry)) (key : Option Key)
    (entry : Entry) : Type 0 where
  pub safe :
      (i : ℕ) (de : Dentry)
      → (slot t i).hash ≢ 0
      → get_dentry dentries (slot t i).data_index ≡ ok de
      → same_key key (slot t i) entry.hash entry.klen de ≡ false
  pub apart :
      (i j : ℕ) (de : Dentry)
      → i ≢ j
      → (slot t i).hash ≢ 0
      → (slot t j).hash ≢ 0
      → get_dentry dentries (slot t j).data_index ≡ ok de
      → same_key key (slot t j) (slot t i).hash (slot t i).klen de ≡ false

-- Without a key nothing is compared.
pub IsNew-rehash :
    {t : List Entry} {dentries : List (Option Dentry)} {entry : Entry} → IsNew t dentries none entry
unfolding same_key
IsNew-rehash = record { safe = λ i de h e. refl; apart = λ i j de n h h' e. refl }

-- What n_oash_put_entry changes in a whole table
pub record IsAdded (cap : ℕ) (t : List Entry) (size : ℕ) (entry : Entry) (p : Placed) : Type 0 where
  pub robin : IsRobin cap p.table
  pub counted : p.size ≡ size + 1
  pub filled : used p.table ≡ used t + 1
  pub fresh : p.found ≡ false
  pub inside : p.slot < cap
  pub own_entry : SameEntry entry (slot p.table p.slot)
  pub kept :
      (i : ℕ)
      → i < cap
      → (slot t i).hash ≢ 0
      → (j : ℕ) × (j < cap) × (j ≢ p.slot) × SameEntry (slot t i) (slot p.table j)
  pub nothing_else :
      (j : ℕ)
      → j < cap
      → (slot p.table j).hash ≢ 0
      → (j ≡ p.slot)
        ⊎ ((i : ℕ) × (i < cap) × ((slot t i).hash ≢ 0) × SameEntry (slot t i) (slot p.table j))

module _ {cap : ℕ} {t : List Entry} {size : ℕ} {dentries : List (Option Dentry)}
    (w : IsTable cap t size dentries) where
  IsWay-there :
      (key : Option Key) (entry : Entry) (m : ℕ)
      → IsNew t dentries key entry
      → entry.hash ≢ 0
      → m < cap
      → (slot t (ahead cap m (tindex cap entry.hash))).hash ≡ 0
      → ((k : ℕ) → k < m → (slot t (ahead cap k (tindex cap entry.hash))).hash ≢ 0)
      → IsWay (w.whole).cap_ok dentries key t (record entry { psl = 0 }) (tindex cap entry.hash) m
  IsWay-there key entry m new some_entry short free before =
      let c = (w.whole).cap_ok in
      let home = tindex cap entry.hash in
      let inside = tindex-lt c entry.hash in
      record {
        robin = w.robin;
        inside = inside;
        short = omega (arith, short);
        free = free;
        some_entry = some_entry;
        dist = sym (psldiff-home c (record entry { psl = 0 }));
        before = λ j h e away. absurd (omega (arith, away));
        held = λ k h there. (w.whole).held (ahead cap k home) (ahead-lt cap k home inside) there;
        safe = λ k de h e. new.safe (ahead cap k home) de (before k h) e;
        apart = λ k l de kl lm e.
            new.apart (ahead cap k home) (ahead cap l home) de
              (ground (arith, ahead-sum cap k home, ahead-sum cap l home, inside, short, kl, lm))
              (before k (omega (arith, kl, lm))) (before l lm) e;
      }

-- In a whole table (`IsTable`: a power of two, below 2 ^ 16, of slots in Robin Hood order, every used
-- one with its data, and a right count) that is not full, n_oash_put_entry finds a place for an entry
-- whose hash is not 0. The key is none, or new: no slot's data pass for it under the hash and length
-- of the new entry, nor under those of an entry in another slot, with which the assertion behind the
-- swap would fail. Then the order is kept, no entry is lost, one more is counted, and the slot that is
-- returned holds the new one.
pub put_entry-IsAdded :
    (ht : Oash) (entry : Entry) (key : Option Key)
    → IsTable ht.cap ht.table ht.size ht.dentries
    → ht.size < ht.cap
    → entry.hash ≢ 0
    → IsNew ht.table ht.dentries key entry
    → Returns (put_entry ht entry key) (IsAdded ht.cap ht.table ht.size entry)
unfolding put_entry
put_entry-IsAdded ht entry key w room some_entry new =
    let c = (w.whole).cap_ok in
    let home = tindex ht.cap entry.hash in
    let inside = tindex-lt c entry.hash in
    let slots = (w.whole).slots in
    let counted = w.counted in
    let (z, hz, free) = empty_slot ht.table (omega (arith, room, slots, counted)) in
    let (g, hg, there) = reach ht.cap home z inside (omega (arith, hz, slots)) in
    let (m, le, empty_there, before) =
      first_empty ht.cap ht.table g home (ap (λ s. (slot ht.table s).hash) there ∙ free) in
    let way = IsWay-there w key entry m new some_entry (omega (arith, le, hg)) empty_there before in
    let (p, run, q) =
      put_loop-IsPlaced c ht.dentries key m ht.cap ht.table ht.size (record entry { psl = 0 }) home
        none (omega (arith, le, hg)) way in
    let back : p.slot ≡ q.own = q.returned refl in
    let same = q.own_entry in
    (
      p,
      run,
      record {
        robin = q.robin;
        counted = q.counted;
        filled = q.filled;
        fresh = q.fresh;
        inside = subst (λ s. s < ht.cap) (sym back) q.own_inside;
        own_entry =
            subst (λ s. SameEntry entry (slot p.table s)) (sym back)
              (record { hash = same.hash; klen = same.klen; data_index = same.data_index });
        kept = λ i h held.
            let (j, hj, apart, near, s) = q.kept i h held in (j, hj, λ e. apart (e ∙ back), s);
        nothing_else = λ j h held. elim (q.nothing_else j h held) [
          | inl e ↦ inl (e ∙ sym back)
          | inr o ↦ inr (o.at, o.inside, o.some_entry, o.same)
        ];
      },
    )

-- The table stays whole if the new entry has its data.
pub IsAdded-IsTable :
    {cap : ℕ} {t : List Entry} {size : ℕ} {dentries : List (Option Dentry)} {entry : Entry}
    {p : Placed}
    → IsTable cap t size dentries
    → IsAdded cap t size entry p
    → (de : Dentry) × (get_dentry dentries entry.data_index ≡ ok de)
    → IsTable cap p.table p.size dentries
IsAdded-IsTable {cap} {t} {size} {dentries} {entry} {p} w q own = record {
  whole = record {
    cap_ok = (w.whole).cap_ok;
    slots = (q.robin).slots;
    held = λ j h there. elim (q.nothing_else j h there) [
      | inl e ↦
          subst (λ n. (de : Dentry) × (get_dentry dentries n ≡ ok de))
            (sym (ap (λ n. (slot p.table n).data_index) e ∙ (q.own_entry).data_index)) own
      | inr (i, hi, some_entry, s) ↦
          subst (λ n. (de : Dentry) × (get_dentry dentries n ≡ ok de)) (sym s.data_index)
            ((w.whole).held i hi some_entry)
    ];
  };
  robin = q.robin;
  counted = omega (arith, w.counted, q.counted, q.filled);
}
