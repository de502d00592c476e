-- ===== src/Oash/Put/Rehash.antt =====
-- ohash_rehash moves every entry into a table of twice the size.
use trurlib.Prelude.{
  subst, ℕ, zero, suc, ◌+◌, ◌<◌, ◌≤◌, ◌≡◌, ◌≢◌, refl, inl, inr, ◌⊎◌, true, Bool-cases, none, List,
  [], ◌∷◌, arith, length, ◌==◌,
}
use trurlib.Run.{ok, Returns}
use trurlib.Oash.Table.{Entry, Dentry, Oash, get_dentry}
use trurlib.Oash.Probe.{Placed}
use trurlib.Oash.Probe.Robin.{slot}
use trurlib.Oash.Probe.Used.{used}
use trurlib.Oash.Probe.Place.{SameEntry, SameEntry-trans}
use trurlib.Oash.Probe.Added.{IsTable, IsNew-rehash, IsAdded, put_entry-IsAdded, IsAdded-IsTable}
use trurlib.Oash.Put.{rehash_entries}

pub slot-inside : (t : List Entry) (i : ℕ) → (slot t i).hash ≢ 0 → i < length t
slot-inside [] i h = absurd (h refl)
slot-inside (e ∷ t) zero h = omega arith
slot-inside (e ∷ t) (suc i) h = omega (arith, slot-inside t i h)

-- One of the entries of a table
pub record IsFrom (t : List Entry) (e : Entry) : Type 0 where
  pub at : ℕ
  pub some_entry : (slot t at).hash ≢ 0
  pub same : SameEntry (slot t at) e

-- The entries of `es` have come into the table, and those in it have stayed.
pub record IsRefilled (ht : Oash) (es : List Entry) (ht' : Oash) : Type 0 where
  pub shape : ht' ≡ record ht { table = ht'.table; size = ht'.size }
  pub fits : IsTable ht.cap ht'.table ht'.size ht.dentries
  pub counted : ht'.size ≡ ht.size + used es
  pub moved :
      (i : ℕ)
      → (slot es i).hash ≢ 0
      → (j : ℕ) × (j < ht.cap) × SameEntry (slot es i) (slot ht'.table j)
  pub kept :
      (i : ℕ)
      → i < ht.cap
      → (slot ht.table i).hash ≢ 0
      → (j : ℕ) × (j < ht.cap) × SameEntry (slot ht.table i) (slot ht'.table j)
  pub nothing_else :
      (j : ℕ)
      → j < ht.cap
      → (slot ht'.table j).hash ≢ 0
      → IsFrom es (slot ht'.table j) ⊎ IsFrom ht.table (slot ht'.table j)

pub rehash_entries-IsRefilled :
    (es : List Entry) (ht : Oash)
    → IsTable ht.cap ht.table ht.size ht.dentries
    → ht.size + used es ≤ ht.cap
    → ((i : ℕ)
        → (slot es i).hash ≢ 0
        → (de : Dentry) × (get_dentry ht.dentries (slot es i).data_index ≡ ok de))
    → Returns (rehash_entries es ht) (IsRefilled ht es)
unfolding rehash_entries used
rehash_entries-IsRefilled [] ht w room held = (
  ht,
  refl,
  record {
    shape = refl;
    fits = w;
    counted = omega arith;
    moved = λ i h. absurd (h refl);
    kept = λ i h there. (i, h, record { hash = refl; klen = refl; data_index = refl });
    nothing_else = λ j h there. inr (record {
      at = j;
      some_entry = there;
      same = record { hash = refl; klen = refl; data_index = refl };
    });
  },
)
rehash_entries-IsRefilled (e ∷ es) ht w room held = elim (Bool-cases (e.hash == 0)) [
  | inl e0 ↦
      let (ht', run, q) =
        rehash_entries-IsRefilled es ht w (ground (arith, room)) (λ i h. held (suc i) h) in
      (
        ht',
        ground (arith, e0, run),
        record {
          shape = q.shape;
          fits = q.fits;
          counted = ground (arith, q.counted, e0);
          moved = first e es ht ht' e0 q;
          kept = λ i h there. q.kept i h there;
          nothing_else = λ j h there. elim (q.nothing_else j h there) [
            | inl f ↦ inl (record { at = suc f.at; some_entry = f.some_entry; same = f.same })
            | inr f ↦ inr f
          ];
        },
      )
  | inr e0 ↦
      let some_entry : e.hash ≢ 0 = ground (arith, e0) in
      let (p, placed, a) =
        put_entry-IsAdded ht e none w (ground (arith, room, e0)) some_entry IsNew-rehash in
      let fits = IsAdded-IsTable w a (held 0 some_entry) in
      let (ht', run, q) =
        rehash_entries-IsRefilled es (record ht { table = p.table; size = p.size }) fits
          (ground (arith, room, e0, a.counted)) (λ i h. held (suc i) h) in
      (
        ht',
        ground (arith, e0, placed, run),
        record {
          shape = q.shape;
          fits = q.fits;
          counted = ground (arith, q.counted, a.counted, e0);
          moved = others e es ht ht' p a q some_entry;
          kept = λ i h there.
              let (j, hj, apart, s) = a.kept i h there in
              let (k, hk, s') = q.kept j hj (ground (arith, s.hash, there)) in
              (k, hk, SameEntry-trans s s');
          nothing_else = λ j h there. elim (q.nothing_else j h there) [
            | inl f ↦ inl (record { at = suc f.at; some_entry = f.some_entry; same = f.same })
            | inr f ↦ from e es ht p (slot ht'.table j) a some_entry f
          ];
        },
      )
]
  where
    first :
        (e : Entry) (es : List Entry) (ht ht' : Oash)
        → (e.hash == 0) ≡ true
        → IsRefilled ht es ht'
        → (i : ℕ) → (slot (e ∷ es) i).hash ≢ 0
        → (j : ℕ) × (j < ht.cap) × SameEntry (slot (e ∷ es) i) (slot ht'.table j)
    first e es ht ht' e0 q zero h = absurd (ground (arith, e0, h))
    first e es ht ht' e0 q (suc i) h = q.moved i h

    from :
        (e : Entry) (es : List Entry) (ht : Oash) (p : Placed) (found : Entry)
        → IsAdded ht.cap ht.table ht.size e p
        → e.hash ≢ 0
        → IsFrom p.table found
        → IsFrom (e ∷ es) found ⊎ IsFrom ht.table found
    from e es ht p found a some_entry f =
        elim (a.nothing_else f.at
          (omega (arith, slot-inside p.table f.at f.some_entry, (a.robin).slots)) f.some_entry) [
            | inl own ↦ inl (record {
              at = 0;
              some_entry = some_entry;
              same =
                  SameEntry-trans a.own_entry
                    (subst (λ n. SameEntry (slot p.table n) found) own f.same);
            })
            | inr (i, hi, there, s) ↦
                inr (record { at = i; some_entry = there; same = SameEntry-trans s f.same })
          ]

    others :
        (e : Entry) (es : List Entry) (ht ht' : Oash) (p : Placed)
        → IsAdded ht.cap ht.table ht.size e p
        → IsRefilled (record ht { table = p.table; size = p.size }) es ht'
        → e.hash ≢ 0
        → (i : ℕ) → (slot (e ∷ es) i).hash ≢ 0
        → (j : ℕ) × (j < ht.cap) × SameEntry (slot (e ∷ es) i) (slot ht'.table j)
    others e es ht ht' p a q some_entry zero h =
        let own = a.own_entry in
        let (j, hj, s) = q.kept _ a.inside (ground (arith, own.hash, h)) in
        (j, hj, SameEntry-trans own s)
    others e es ht ht' p a q some_entry (suc i) h = q.moved i h
