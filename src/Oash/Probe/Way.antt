-- ===== src/Oash/Probe/Way.antt =====
-- One round of the loop of n_oash_put_entry: the way of an entry goes on one slot further.
use trurlib.Prelude.{
  subst, ℕ, suc, ◌+◌, ◌<◌, ◌≤◌, ◌≡◌, ◌≢◌, ap, sym, ◌∙◌, false, Option, List, arith, length, set,
}
use trurlib.Run.{ok}
use trurlib.Hash.Table.{Key}
use trurlib.Oash.Table.{Entry, Dentry, get_dentry}
use trurlib.Oash.Probe.{psldiff, same_key}
use trurlib.Oash.Probe.Place.{slot-set, IsRobin-set, IsWay}
use trurlib.Oash.Probe.Ring.{IsCap}
use trurlib.Oash.Probe.Robin.{slot, next, ahead, ahead-sum, psldiff-next}

module _ {cap : ℕ} (c : IsCap cap) (dentries : List (Option Dentry)) (key : Option Key) where
  pub away_from : (k index : ℕ) → index < cap → suc k < cap → ahead cap k (next cap index) ≢ index
  away_from k index h hk = ground (arith, ahead-sum cap k (next cap index))

  -- One slot further on, with the entry that is carried or the one that it takes the place of
  pub IsWay-passed :
      {t : List Entry} {entry : Entry} {index m : ℕ}
      → IsWay c dentries key t entry index (suc m)
      → (slot t index).hash ≢ 0
      → entry.psl ≤ (slot t index).psl
      → IsWay c dentries key t (record entry { psl = entry.psl + 1 }) (next cap index) m
  unfolding ahead psldiff
  IsWay-passed {t} {entry} {index} {m} w there near =
      let short = w.short in
      let dist = w.dist in
      let further = psldiff-next c entry index w.inside (omega (arith, short, dist)) in
      record {
        robin = w.robin;
        inside = ground (arith, w.inside);
        short = omega (arith, short);
        free = w.free;
        some_entry = w.some_entry;
        dist = ap (λ n. n + 1) dist ∙ sym further;
        before = λ j h e away. ground (arith, w.inside, e, h, there, near);
        held = λ k h. w.held (suc k) (omega arith);
        safe = λ k de h. w.safe (suc k) de (omega arith);
        apart = λ k l de kl lm. w.apart (suc k) (suc l) de (omega arith) (omega arith);
      }

  module _ {t : List Entry} {entry : Entry} {index m : ℕ}
      (w : IsWay c dentries key t entry index (suc m)) where
    moved :
        (k : ℕ)
        → k ≤ m
        → slot (set t index entry) (ahead cap k (next cap index)) ≡ slot t (ahead cap (suc k) index)
    unfolding ahead
    moved k h = ground (
      arith,
      slot-set t index (ahead cap k (next cap index)) entry
          (omega (arith, w.inside, (w.robin).slots)),
      away_from k index w.inside (omega (arith, w.short)),
    )

    pub IsWay-swapped :
        (slot t index).hash ≢ 0
        → (slot t index).psl < entry.psl
        → IsWay c dentries key
            (set t index entry)
            (record (slot t index) { psl = (slot t index).psl + 1 })
            (next cap index)
            m
    unfolding ahead psldiff
    IsWay-swapped there nearer =
        let e = slot t index in
        let short = w.short in
        let hl : index < length t = omega (arith, w.inside, (w.robin).slots) in
        let dist = (w.robin).dist index w.inside there in
        let further = psldiff-next c e index w.inside (omega (arith, short, dist)) in
        record {
          robin =
              IsRobin-set c w.robin index entry w.inside w.some_entry w.dist w.before
                (λ held away. omega (arith, ((w.robin).step index w.inside held away).1));
          inside = ground (arith, w.inside);
          short = omega (arith, short);
          free = ap (λ (s : Entry). s.hash) (moved m (omega arith)) ∙ w.free;
          some_entry = there;
          dist = ap (λ n. n + 1) dist ∙ sym further;
          before = λ j h e away.
              ground (arith, w.inside, e, h, slot-set t index j entry hl, w.some_entry, nearer);
          held = λ k h.
              subst
                (λ (s : Entry).
                  s.hash ≢ 0 → (de : Dentry) × (get_dentry dentries s.data_index ≡ ok de))
                (sym (moved k (omega arith))) (w.held (suc k) (omega arith));
          safe = λ k de h.
              subst
                (λ (s : Entry).
                  get_dentry dentries s.data_index ≡ ok de
                  → same_key key s e.hash e.klen de ≡ false)
                (sym (moved k (omega arith))) (w.apart 0 (suc k) de (omega arith) (omega arith));
          apart = λ k l de kl lm.
              subst
                (λ (s : Entry).
                  get_dentry dentries s.data_index ≡ ok de
                  → same_key key s (slot (set t index entry) (ahead cap k (next cap index))).hash
                      (slot (set t index entry) (ahead cap k (next cap index))).klen de
                    ≡ false)
                (sym (moved l (omega arith)))
                (subst
                  (λ (s : Entry).
                    get_dentry dentries (slot t (ahead cap (suc l) index)).data_index ≡ ok de
                    → same_key key (slot t (ahead cap (suc l) index)) s.hash s.klen de ≡ false)
                  (sym (moved k (omega arith)))
                  (w.apart (suc k) (suc l) de (omega arith) (omega arith)));
        }
