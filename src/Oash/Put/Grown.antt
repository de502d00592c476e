-- ===== src/Oash/Put/Grown.antt =====
-- The growing of a table keeps what the insertion of a key has left.
use trurlib.Prelude.{
  subst, ℕ, ◌-◌, ◌*◌, ◌≡◌, ◌≢◌, ap, sym, ◌∙◌, true, Option, none, some, arith, length,
  length-append, length-replicate, replicate,
}
use trurlib.Array.State.{Ptr}
use trurlib.Hash.Table.{Key}
use trurlib.Oash.Table.{Dentry, Oash, get_dentry}
use trurlib.Oash.Probe.{strncmp_eq}
use trurlib.Oash.Probe.Robin.{slot}
use trurlib.Oash.Put.Rehash.{slot-inside}
use trurlib.Oash.Put.Grow.{IsGrown}
use trurlib.Oash.Put.Data.{stored, stored-append_none}
use trurlib.Oash.Put.Store.{IsHit-moved, one_result, IsInserted}

-- The growing of the table keeps what the insertion has left.
pub grown-IsInserted :
    (ht ht1 ht2 : Oash) (key : Key) (klen khash : ℕ) (v : Ptr) (index : ℕ)
    → khash ≢ 0
    → IsInserted ht key klen khash v (some index, ht1)
    → IsGrown ht1 ht2
    → IsInserted ht key klen khash v (some index, ht2)
grown-IsInserted ht ht1 ht2 key klen khash v index some_hash q g =
    let there : (slot ht1.table q.at).hash ≢ 0 = ground (arith, (q.hit).hash, some_hash) in
    let (at, h, s) = g.moved q.at q.at_inside there in
    record {
      whole = record {
        fits = g.fits;
        dcap_same = omega (arith, (q.whole).dcap_same, g.doubled, g.ddoubled);
        data_slots =
            ap (λ ds. length ds) g.more_data
            ∙ omega (
              arith,
              length-append ht1.dentries (replicate (ht1.dcap * 2 - ht1.dcap) none),
              length-replicate {A = Option Dentry} (ht1.dcap * 2 - ht1.dcap) none,
              (q.whole).data_slots,
              g.ddoubled,
            );
        data_counted =
            ap stored g.more_data
            ∙ (stored-append_none ht1.dentries (ht1.dcap * 2 - ht1.dcap)
                ∙ ((q.whole).data_counted ∙ sym g.size));
      };
      counted = g.size ∙ q.counted;
      at = at;
      at_inside = h;
      hit =
          IsHit-moved ht1.table ht2.table ht1.dentries ht2.dentries key klen khash q.at at s
            g.data_kept q.hit;
      values = λ j h there hit.
          let f = g.nothing_else j h there in
          let (d, e) =
            ((((q.whole).fits).whole).held f.at
              (omega
                (arith, slot-inside ht1.table f.at f.some_entry, (((q.whole).fits).whole).slots))
              f.some_entry) in
          let same : hit.de ≡ d = one_result hit.data_there (
            ap (get_dentry ht2.dentries) (f.same).data_index
            ∙ g.data_kept (slot ht1.table f.at).data_index d e) in
          ap (λ (d : Dentry). d.value) same
          ∙ q.values f.at
              (omega
                (arith, slot-inside ht1.table f.at f.some_entry, (((q.whole).fits).whole).slots))
              f.some_entry
              (record {
                hash = hit.hash ∙ (f.same).hash;
                len = hit.len ∙ (f.same).klen;
                de = d;
                data_there = e;
                same = subst (λ (x : Dentry). strncmp_eq klen key x.key ≡ true) same hit.same;
              });
      returned = q.returned ∙ ap some (sym s.data_index);
      kept = λ key2 klen2 khash2 i h there hit.
          let (j, hj, there1, hit1) = q.kept key2 klen2 khash2 i h there hit in
          let (k, hk, s) = g.moved j hj there1 in
          (
            k,
            hk,
            ground (arith, s.hash, there1),
            IsHit-moved ht1.table ht2.table ht1.dentries ht2.dentries key2 klen2 khash2 j k s
                g.data_kept hit1,
          );
    }
