-- ===== src/Oash/Put/Label.antt =====
-- The table after n_oash_put has placed an entry for a new key and given it its data.
use trurlib.Prelude.{
  subst, ℕ, ◌+◌, ◌<◌, ◌≡◌, ◌≢◌, ap, sym, ◌∙◌, inl, inr, true, Bool-cases, some, arith, length, ◌==◌,
  set, length-set,
}
use trurlib.Run.{ok}
use trurlib.Array.State.{Ptr}
use trurlib.Hash.Table.{Key}
use trurlib.Oash.Table.{Entry, Dentry, Oash, get_dentry}
use trurlib.Oash.Probe.{Placed, strncmp_eq}
use trurlib.Oash.Probe.Robin.{slot}
use trurlib.Oash.Probe.Used.{used-set}
use trurlib.Oash.Probe.Find.{IsHit}
use trurlib.Oash.Probe.Place.{SameEntry, slot-set}
use trurlib.Oash.Probe.Added.{IsNew, IsAdded}
use trurlib.Oash.Put.Store.{IsStore, IsHit-moved, one_result, hit-not_new, relabelled, IsInserted}
use trurlib.Oash.Put.Data.{stored-set, get_dentry-set, get_dentry-own, IsFree}

-- The table with the new entry, once the entry has its data
abbrev pub labelled : Oash → Placed → (index : ℕ) → Dentry → Oash
labelled ht p index de = record ht {
  table = set p.table p.slot (record (slot p.table p.slot) { data_index = index });
  size = p.size;
  dentries = set ht.dentries index (some de);
  dsize = ht.dsize + 1;
}

module _ (ht : Oash) (w : IsStore ht) (entry : Entry) (p : Placed)
    (a : IsAdded ht.cap ht.table ht.size entry p) (index : ℕ) (de : Dentry)
    (free : IsFree ht.dentries index) where
  inside : p.slot < length p.table
  inside = omega (arith, (a.robin).slots, a.inside)

  own_slot :
      slot (labelled ht p index de).table p.slot
      ≡ record (slot p.table p.slot) { data_index = index }
  own_slot = ground (
    arith,
    slot-set p.table p.slot p.slot (record (slot p.table p.slot) { data_index = index }) inside,
  )

  other_slot : (j : ℕ) → j ≢ p.slot → slot (labelled ht p index de).table j ≡ slot p.table j
  other_slot j away = ground (
    arith,
    slot-set p.table p.slot j (record (slot p.table p.slot) { data_index = index }) inside,
    away,
  )

  data_kept :
      (n : ℕ) (d : Dentry)
      → get_dentry ht.dentries n ≡ ok d
      → get_dentry (labelled ht p index de).dentries n ≡ ok d
  data_kept n d e = get_dentry-set ht.dentries index n de d free.1 e

  labelled-held :
      (j : ℕ)
      → j < ht.cap
      → (slot (labelled ht p index de).table j).hash ≢ 0
      → (d : Dentry) × (get_dentry
            (labelled ht p index de).dentries
            (slot (labelled ht p index de).table j).data_index
          ≡ ok d)
  labelled-held j h there = elim (Bool-cases (j == p.slot)) [
    | inl e ↦ (
      de,
      ap
            (λ s.
              get_dentry (labelled ht p index de).dentries
                (slot (labelled ht p index de).table s).data_index)
            (ground (arith, e))
          ∙ (ap (λ (s : Entry). get_dentry (labelled ht p index de).dentries s.data_index) own_slot
              ∙ get_dentry-own ht.dentries index de free.0),
    )
    | inr e ↦
        let same = other_slot j (ground (arith, e)) in
        elim (a.nothing_else j h (subst (λ (s : Entry). s.hash ≢ 0) same there)) [
          | inl own ↦ absurd (ground (arith, e, own))
          | inr (i, hi, some_entry, s) ↦
              let (d, e2) = ((w.fits).whole).held i hi some_entry in
              (
                d,
                ap (λ (s : Entry). get_dentry (labelled ht p index de).dentries s.data_index) same
                    ∙ (ap (get_dentry (labelled ht p index de).dentries) s.data_index
                        ∙ data_kept (slot ht.table i).data_index d e2),
              )
        ]
  ]

  labelled-IsStore : IsStore (labelled ht p index de)
  labelled-IsStore = record {
    fits = record {
      whole = record {
        cap_ok = ((w.fits).whole).cap_ok;
        slots =
            length-set p.table p.slot (record (slot p.table p.slot) { data_index = index })
            ∙ (a.robin).slots;
        held = labelled-held;
      };
      robin = relabelled a.robin p.slot index a.inside;
      counted = ground (
        arith,
        used-set p.table p.slot (record (slot p.table p.slot) { data_index = index }) inside,
        (w.fits).counted,
        a.counted,
        a.filled,
      );
    };
    dcap_same = w.dcap_same;
    data_slots = length-set ht.dentries index (some de) ∙ w.data_slots;
    data_counted =
        omega (arith, stored-set ht.dentries index de free.0 free.1, w.data_counted, a.counted);
  }

  another :
      (key : Key)
      → IsNew ht.table ht.dentries (some key) entry
      → (j : ℕ) → j < ht.cap
      → j ≢ p.slot
      → (slot (labelled ht p index de).table j).hash ≢ 0
      → IsHit
          (labelled ht p index de).table
          (labelled ht p index de).dentries
          key
          entry.klen
          entry.hash
          j
      → ⊥
  another key new j h away there hit =
      let same = other_slot j away in
      elim (a.nothing_else j h (subst (λ (s : Entry). s.hash ≢ 0) same there)) [
        | inl own ↦ away own
        | inr (i, hi, some_entry, s) ↦
            let (d, e2) = ((w.fits).whole).held i hi some_entry in
            let de_same : hit.de ≡ d = one_result hit.data_there (
              ap (λ (s : Entry). get_dentry (labelled ht p index de).dentries s.data_index) same
              ∙ (ap (get_dentry (labelled ht p index de).dentries) s.data_index
                  ∙ data_kept (slot ht.table i).data_index d e2)) in
            hit-not_new ht.table ht.dentries key entry i new some_entry (record {
              hash = hit.hash ∙ (ap (λ (s : Entry). s.hash) same ∙ s.hash);
              len = hit.len ∙ (ap (λ (s : Entry). s.klen) same ∙ s.klen);
              de = d;
              data_there = e2;
              same =
                  subst (λ (x : Dentry). strncmp_eq entry.klen key x.key ≡ true) de_same hit.same;
            })
      ]

  pub labelled-IsInserted :
      (key : Key) (v : Ptr)
      → IsNew ht.table ht.dentries (some key) entry
      → entry.hash ≢ 0
      → strncmp_eq entry.klen key de.key ≡ true
      → de.value ≡ v
      → IsInserted ht key entry.klen entry.hash v (some index, labelled ht p index de)
  labelled-IsInserted key v new some_entry same value =
      let own = a.own_entry in
      record {
        whole = labelled-IsStore;
        counted = a.counted;
        at = p.slot;
        at_inside = a.inside;
        hit = record {
          hash = sym (ap (λ (s : Entry). s.hash) own_slot ∙ own.hash);
          len = sym (ap (λ (s : Entry). s.klen) own_slot ∙ own.klen);
          de = de;
          data_there =
              ap (λ (s : Entry). get_dentry (labelled ht p index de).dentries s.data_index) own_slot
              ∙ get_dentry-own ht.dentries index de free.0;
          same = same;
        };
        values = λ j h there hit2. elim (Bool-cases (j == p.slot)) [
          | inl e ↦
              ap (λ (d : Dentry). d.value)
                (one_result hit2.data_there (
                  ap
                    (λ n.
                      get_dentry (labelled ht p index de).dentries
                        (slot (labelled ht p index de).table n).data_index)
                    (ground (arith, e))
                  ∙ (ap (λ (s : Entry). get_dentry (labelled ht p index de).dentries s.data_index)
                        own_slot
                      ∙ get_dentry-own ht.dentries index de free.0)))
              ∙ value
          | inr e ↦ absurd (another key new j h (ground (arith, e)) there hit2)
        ];
        returned = ap (λ (s : Entry). some s.data_index) (sym own_slot);
        kept = λ key2 klen2 khash2 i h there hit2.
            let (j, hj, apart, s) = a.kept i h there in
            let s2 = subst (λ x. SameEntry (slot ht.table i) x) (sym (other_slot j apart)) s in
            (
              j,
              hj,
              ground (arith, s2.hash, there),
              IsHit-moved ht.table (labelled ht p index de).table ht.dentries
                  (labelled ht p index de).dentries key2 klen2 khash2 i j s2 data_kept hit2,
            );
      }
