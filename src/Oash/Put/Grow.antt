-- ===== src/Oash/Put/Grow.antt =====
-- ohash_rehash moves a whole table into one of twice the size.
use trurlib.Prelude.{
  subst, ℕ, zero, suc, ◌-◌, ◌*◌, ◌%◌, ◌^◌, ◌<◌, ◌≤◌, ◌≡◌, ◌≢◌, refl, ap, sym, ◌∙◌, inl, inr, Option,
  none, List, [], ◌∷◌, ◌++◌, arith, length, replicate, length-replicate,
}
use native.Mathlib.Nat.{pow-suc}
use trurlib.Run.{ok, Returns, >>=-eq-ok}
use trurlib.Memory.Block.{load}
use trurlib.Hash.Murmur.{word}
use trurlib.Oash.Table.{Entry, empty, Dentry, Oash, get_dentry}
use trurlib.Oash.Probe.Ring.{IsCap}
use trurlib.Oash.Probe.Robin.{slot, next}
use trurlib.Oash.Probe.Used.{used, used-replicate}
use trurlib.Oash.Probe.Place.{SameEntry}
use trurlib.Oash.Probe.Added.{IsTable}
use trurlib.Oash.Put.Rehash.{IsFrom, slot-inside, rehash_entries-IsRefilled}
use trurlib.Oash.Put.{rehash_all}

slot-replicate : (n i : ℕ) → slot (replicate n empty) i ≡ empty
slot-replicate zero i = refl
slot-replicate (suc n) zero = refl
slot-replicate (suc n) (suc i) = slot-replicate n i

-- An empty table is whole.
pub fresh-IsTable :
    {cap : ℕ} (c : IsCap cap) (dentries : List (Option Dentry))
    → IsTable cap (replicate cap empty) 0 dentries
fresh-IsTable {cap} c dentries = record {
  whole = record {
    cap_ok = c;
    slots = length-replicate cap empty;
    held = λ i h there. absurd (there (ap (λ (e : Entry). e.hash) (slot-replicate cap i)));
  };
  robin = record {
    slots = length-replicate cap empty;
    dist = λ i h there. absurd (there (ap (λ (e : Entry). e.hash) (slot-replicate cap i)));
    step = λ i h there away.
        absurd (there (ap (λ (e : Entry). e.hash) (slot-replicate cap (next cap i))));
  };
  counted = sym (used-replicate cap);
}

load-append_ok {ℓ} :
    {A : Type ℓ} (xs ys : List A) (i : ℕ) (x : A) → load xs i ≡ ok x → load (xs ++ ys) i ≡ ok x
unfolding load
load-append_ok [] ys i x e = cc
load-append_ok (y ∷ xs) ys zero x e = e
load-append_ok (y ∷ xs) ys (suc i) x e = load-append_ok xs ys i x e

pub get_dentry-append :
    (ds more : List (Option Dentry)) (i : ℕ) (de : Dentry)
    → get_dentry ds i ≡ ok de
    → get_dentry (ds ++ more) i ≡ ok de
unfolding get_dentry
get_dentry-append ds more i de e =
    let (d, there, rest) = >>=-eq-ok (load ds i) _ e in rw (load-append_ok ds more i d there) rest

-- What ohash_rehash leaves
pub record IsGrown (ht ht' : Oash) : Type 0 where
  pub doubled : ht'.cap ≡ ht.cap * 2
  pub size : ht'.size ≡ ht.size
  pub fits : IsTable ht'.cap ht'.table ht'.size ht'.dentries
  pub moved :
      (i : ℕ)
      → i < ht.cap
      → (slot ht.table i).hash ≢ 0
      → (j : ℕ) × (j < ht'.cap) × SameEntry (slot ht.table i) (slot ht'.table j)
  pub nothing_else :
      (j : ℕ) → j < ht'.cap → (slot ht'.table j).hash ≢ 0 → IsFrom ht.table (slot ht'.table j)
  pub ddoubled : ht'.dcap ≡ ht.dcap * 2
  pub more_data : ht'.dentries ≡ ht.dentries ++ replicate (ht.dcap * 2 - ht.dcap) none
  pub data_kept :
      (i : ℕ) (de : Dentry) → get_dentry ht.dentries i ≡ ok de → get_dentry ht'.dentries i ≡ ok de

used-le : (t : List Entry) → used t ≤ length t
unfolding used
used-le [] = omega arith
used-le (e ∷ t) = ground (arith, used-le t)

-- A whole table of fewer than 2^15 slots, with fewer than 2^31 data slots, is moved by ohash_rehash
-- into one of twice the size, which is whole again: every entry is in it, nothing else is, and the
-- data that were found still are.
pub rehash_all-IsGrown :
    (ht : Oash)
    → IsTable ht.cap ht.table ht.size ht.dentries
    → ht.cap * 2 < 2 ^ 16
    → ht.dcap * 2 < word
    → Returns (rehash_all ht) (IsGrown ht)
unfolding rehash_all
rehash_all-IsGrown ht w small dsmall =
    let c = (w.whole).cap_ok in
    let slots = (w.whole).slots in
    let more = replicate (ht.dcap * 2 - ht.dcap) none in
    let twice : IsCap (ht.cap * 2) = record {
      bits = suc c.bits;
      pow = ap (λ n. n * 2) c.pow ∙ sym (pow-suc 2 c.bits);
      small = small;
    } in
    let ht2 = record ht {
      table = replicate (ht.cap * 2) empty;
      cap = ht.cap * 2;
      size = 0;
      dentries = ht.dentries ++ more;
      dcap = ht.dcap * 2;
    } in
    let cap_same : ht.cap * 2 % word ≡ ht.cap * 2 = omega (arith, small) in
    let dcap_same : ht.dcap * 2 % word ≡ ht.dcap * 2 = omega (arith, dsmall) in
    let (ht', run, q) =
      rehash_entries-IsRefilled ht.table ht2 (fresh-IsTable twice (ht.dentries ++ more))
        (omega (arith, used-le ht.table, slots))
        (λ i h.
          let (de, e) = (w.whole).held i (omega (arith, slot-inside ht.table i h, slots)) h in
          (de, get_dentry-append ht.dentries more (slot ht.table i).data_index de e)) in
    (
      ht',
      ground (arith, cap_same, dcap_same, run),
      record {
        doubled = ap (λ (h : Oash). h.cap) q.shape;
        size = omega (arith, q.counted, w.counted);
        fits =
            subst (λ (n : ℕ). IsTable n ht'.table ht'.size ht'.dentries)
              (sym (ap (λ (h : Oash). h.cap) q.shape))
              (subst (λ ds. IsTable (ht.cap * 2) ht'.table ht'.size ds)
                (sym (ap (λ (h : Oash). h.dentries) q.shape)) q.fits);
        moved = λ i h there.
            let (j, hj, s) = q.moved i there in
            (j, subst (λ n. j < n) (sym (ap (λ (h : Oash). h.cap) q.shape)) hj, s);
        nothing_else = λ j h there.
            elim (q.nothing_else j (subst (λ n. j < n) (ap (λ (h : Oash). h.cap) q.shape) h)
              there) [
                | inl f ↦ f
                | inr f ↦
                    absurd
                      (f.some_entry (ap (λ (e : Entry). e.hash) (slot-replicate (ht.cap * 2) f.at)))
              ];
        ddoubled = ap (λ (h : Oash). h.dcap) q.shape;
        more_data = ap (λ (h : Oash). h.dentries) q.shape;
        data_kept = λ i de e.
            subst (λ ds. get_dentry ds i ≡ ok de) (sym (ap (λ (h : Oash). h.dentries) q.shape))
              (get_dentry-append ht.dentries more i de e);
      },
    )
