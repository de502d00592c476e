-- ===== src/Oash/Probe/Settle.antt =====
-- The loop of n_oash_put_entry on a whole table.
use trurlib.Prelude.{
  subst, ℕ, zero, suc, ◌+◌, ◌%◌, ◌^◌, ◌<◌, ◌≤◌, ◌≡◌, ◌≢◌, refl, sym, ◌∙◌, inl, inr, ◌⊎◌, false,
  Bool-cases, Option, some, List, arith, length, ltb, ◌==◌, set,
}
use trurlib.Run.{Returns}
use trurlib.Memory.Laws.{load-get_or, store-set}
use trurlib.Hash.Table.{Key}
use trurlib.Oash.Table.{Entry, empty, Dentry}
use trurlib.Oash.Probe.{Placed, first_of, put_loop}
use trurlib.Oash.Probe.Ring.{IsCap, tindex-next}
use trurlib.Oash.Probe.Used.{used-set}
use trurlib.Oash.Probe.Robin.{slot, next, ahead}
use trurlib.Oash.Probe.Place.{SameEntry, slot-set, IsWay, IsPlaced, IsPlaced-here}
use trurlib.Oash.Probe.Way.{away_from, IsWay-passed, IsWay-swapped}

module _ {cap : ℕ} (c : IsCap cap) (dentries : List (Option Dentry)) (key : Option Key) where
  later :
      (at j index m : ℕ) {there : ℕ}
      → (at ≡ j) ⊎ ((k : ℕ) × (k ≤ m) × (ahead cap k (next cap index) ≡ there))
      → (at ≡ j) ⊎ ((k : ℕ) × (k ≤ suc m) × (ahead cap k index ≡ there))
  unfolding ahead
  later at j index m (inl e) = inl e
  later at j index m (inr (k, le, e)) = inr (suc k, omega (arith, le), e)

  after-passed :
      {t : List Entry} {entry : Entry} {index m size : ℕ} {re : Option ℕ} {p : Placed}
      → IsPlaced c dentries key t size
          (record entry { psl = entry.psl + 1 })
          (next cap index)
          m
          re
          p
      → IsPlaced c dentries key t size entry index (suc m) re p
  unfolding ahead
  after-passed {index = index} {m = m} q = record {
    robin = q.robin;
    counted = q.counted;
    filled = q.filled;
    fresh = q.fresh;
    own = q.own;
    own_inside = q.own_inside;
    own_way = let (k, le, e) = q.own_way in (suc k, omega (arith, le), e);
    own_entry = record {
      hash = (q.own_entry).hash;
      klen = (q.own_entry).klen;
      data_index = (q.own_entry).data_index;
    };
    known = λ s e. q.known s e;
    returned = λ e. q.returned e;
    kept = λ i h there.
        let (j, hj, apart, near, s) = q.kept i h there in (j, hj, apart, later i j index m near, s);
    nothing_else = λ j h there. elim (q.nothing_else j h there) [
      | inl e ↦ inl e
      | inr o ↦ inr (record {
        at = o.at;
        inside = o.inside;
        some_entry = o.some_entry;
        same = o.same;
        near = later o.at j index m o.near;
      })
    ];
    untouched = λ j away. q.untouched j (λ k le. away (suc k) (omega arith));
  }

  after-swapped :
      {t : List Entry} {entry : Entry} {index m size : ℕ} (re : Option ℕ) {p : Placed}
      → IsWay c dentries key t entry index (suc m)
      → (slot t index).hash ≢ 0
      → IsPlaced c dentries key
          (set t index entry)
          size
          (record (slot t index) { psl = (slot t index).psl + 1 })
          (next cap index)
          m
          (some (first_of re index))
          p
      → IsPlaced c dentries key t size entry index (suc m) re p
  unfolding ahead
  after-swapped {t} {entry} {index} {m} re {p} w there q =
      let hl : index < length t = omega (arith, w.inside, (w.robin).slots) in
      let stays : slot p.table index ≡ entry =
        q.untouched index
          (λ k le. away_from c dentries key k index w.inside (omega (arith, w.short)))
        ∙ ground (arith, slot-set t index index entry hl) in
      let apart_there : (i j : ℕ)
          → i ≢ index
          → (i ≡ j) ⊎ ((k : ℕ) × (k ≤ m) × (ahead cap k (next cap index) ≡ j))
          → j ≢ index =
        λ i j away near back. elim near [
          | inl e ↦ away (e ∙ back)
          | inr (k, le, reached) ↦
              away_from c dentries key k index w.inside (omega (arith, w.short, le))
                (reached ∙ back)
        ] in
      let slot_is = q.known (first_of re index) refl in
      record {
        robin = q.robin;
        counted = q.counted;
        filled = q.filled ∙ ground (arith, used-set t index entry hl, there, w.some_entry);
        fresh = q.fresh;
        own = index;
        own_inside = w.inside;
        own_way = (0, omega arith, refl);
        own_entry = ground (arith, stays);
        known = λ s e. ground (arith, slot_is, e);
        returned = λ e. ground (arith, slot_is, e);
        kept = λ i h held. elim (Bool-cases (i == index)) [
          | inl e ↦
              let (k, le, reached) = q.own_way in
              let away = away_from c dentries key k index w.inside (omega (arith, w.short, le)) in
              (
                q.own,
                q.own_inside,
                λ back. away (reached ∙ back),
                inr (suc k, omega (arith, le), reached),
                ground (arith, e, q.own_entry),
              )
          | inr e ↦
              let same : slot (set t index entry) i ≡ slot t i =
                ground (arith, e, slot-set t index i entry hl) in
              let (j, hj, apart, near, s) = q.kept i h (ground (arith, same, held)) in
              (
                j,
                hj,
                apart_there i j (ground (arith, e)) near,
                later i j index m near,
                ground (arith, same, s),
              )
        ];
        nothing_else = λ j h held. elim (q.nothing_else j h held) [
          | inl e ↦ inr (record {
            at = index;
            inside = w.inside;
            some_entry = there;
            same =
                subst (λ n. SameEntry (slot t index) (slot p.table n)) (sym e)
                  (record {
                    hash = (q.own_entry).hash;
                    klen = (q.own_entry).klen;
                    data_index = (q.own_entry).data_index;
                  });
            near = inr (0, omega arith, refl);
          })
          | inr o ↦ elim (Bool-cases (o.at == index)) [
            | inl e ↦ inl (elim o.near [
              | inl stay ↦ ground (arith, e, stay)
              | inr (k, le, reached) ↦ absurd (
                  away_from c dentries key k index w.inside (omega (arith, w.short, le))
                    (reached ∙ ground (arith, e)))
            ])
            | inr e ↦
                let same : slot (set t index entry) o.at ≡ slot t o.at =
                  ground (arith, e, slot-set t index o.at entry hl) in
                inr (record {
                  at = o.at;
                  inside = o.inside;
                  some_entry = subst (λ (s : Entry). s.hash ≢ 0) same o.some_entry;
                  same = subst (λ s. SameEntry s (slot p.table j)) same o.same;
                  near = later o.at j index m o.near;
                })
          ]
        ];
        untouched = λ j away.
            q.untouched j (λ k le. away (suc k) (omega arith))
            ∙ ground (arith, slot-set t index j entry hl, away 0 (omega arith));
      }

  -- With an empty slot ahead the loop ends there or before, and the entry has its place.
  pub put_loop-IsPlaced :
      (m fuel : ℕ) (t : List Entry) (size : ℕ) (entry : Entry) (index : ℕ) (re : Option ℕ)
      → m < fuel
      → IsWay c dentries key t entry index m
      → Returns
          (put_loop cap dentries fuel key t size entry index re)
          (IsPlaced c dentries key t size entry index m re)
  unfolding put_loop ahead
  put_loop-IsPlaced m zero t size entry index re enough w = absurd (omega arith)
  put_loop-IsPlaced zero (suc fuel) t size entry index re enough w =
      let hl : index < length t = omega (arith, w.inside, (w.robin).slots) in
      (
        record {
          table = set t index entry;
          size = size + 1;
          slot = first_of re index;
          found = false;
        },
        ground (arith, load-get_or t index empty hl, store-set t index entry hl, w.free),
        IsPlaced-here c dentries key w size re w.free,
      )
  put_loop-IsPlaced (suc m) (suc fuel) t size entry index re enough w =
      let hl : index < length t = omega (arith, w.inside, (w.robin).slots) in
      let read = load-get_or t index empty hl in
      let write = store-set t index entry hl in
      elim (Bool-cases ((slot t index).hash == 0)) [
        | inl e ↦ (
          record {
            table = set t index entry;
            size = size + 1;
            slot = first_of re index;
            found = false;
          },
          ground (arith, read, write, e),
          IsPlaced-here c dentries key w size re (ground (arith, e)),
        )
        | inr e ↦
            let there : (slot t index).hash ≢ 0 = ground (arith, e) in
            let (de, held) = w.held 0 (omega arith) there in
            let safe = w.safe 0 de (omega arith) held in
            let step = tindex-next c index w.inside in
            let short = w.short in
            elim (Bool-cases (ltb (slot t index).psl entry.psl)) [
              | inl nearer ↦
                  let way = IsWay-swapped c dentries key w there (ground (arith, nearer)) in
                  let (p, run, q) =
                    put_loop-IsPlaced m fuel (set t index entry) size
                      (record (slot t index) { psl = (slot t index).psl + 1 }) (next cap index)
                      (some (first_of re index)) (omega arith) way in
                  let wrap : ((slot t index).psl + 1) % 2 ^ 16 ≡ (slot t index).psl + 1 =
                    ground (arith, nearer, short, c.small) in
                  (
                    p,
                    ground (arith, read, write, e, held, safe, nearer, wrap, step, run),
                    after-swapped re w there q,
                  )
              | inr farther ↦
                  let way = IsWay-passed c dentries key w there (ground (arith, farther)) in
                  let (p, run, q) =
                    put_loop-IsPlaced m fuel t size (record entry { psl = entry.psl + 1 })
                      (next cap index) re (omega arith) way in
                  let wrap : (entry.psl + 1) % 2 ^ 16 ≡ entry.psl + 1 =
                    omega (arith, short, c.small) in
                  (p, ground (arith, read, e, held, safe, farther, wrap, step, run), after-passed q)
            ]
      ]
