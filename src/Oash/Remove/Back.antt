-- ===== src/Oash/Remove/Back.antt =====
-- n_oash_remove moves the entries behind the removed one back, and loses no other.
use trurlib.Prelude.{
  subst, ℕ, zero, suc, ◌+◌, ◌<◌, ◌≡◌, ◌≢◌, refl, ap, sym, ◌∙◌, inl, inr, true, not, ◌&&◌,
  Bool-cases, List, arith, length, ltb, ◌==◌, set, length-set,
}
use trurlib.Run.{ok, Returns}
use trurlib.Memory.Block.{load, store}
use trurlib.Memory.Laws.{load-get_or, store-set}
use trurlib.Oash.Table.{Entry, empty, tindex}
use trurlib.Oash.Probe.Ring.{IsCap, tindex-next}
use trurlib.Oash.Probe.Robin.{slot, next, ahead, IsRobin, ahead-sum}
use trurlib.Oash.Probe.Used.{used}
use trurlib.Oash.Probe.Place.{SameEntry, SameEntry-trans, slot-set}
use trurlib.Oash.Remove.{shift_back}
use trurlib.Oash.Remove.Hole.{
  nearer, freed_slot, ==→≡, ≠→≢, IsHole, pulled, used-pulled, at_hole, at_others, IsHole-moved,
}

module _ {cap : ℕ} (c : IsCap cap) where
  -- The table from `t` on, when the slot `hole` has gone round to `out.1`
  pub record IsFreed (t : List Entry) (hole : ℕ) (out : List Entry × ℕ) : Type 0 where
    pub robin : IsRobin cap (set out.0 out.1 (freed_slot (slot out.0 out.1)))
    pub inside : out.1 < cap
    pub held : (slot out.0 out.1).hash ≢ 0
    pub slots : length out.0 ≡ cap
    pub filled : used out.0 ≡ used t
    pub kept :
        (j : ℕ)
        → j < cap
        → j ≢ hole
        → (slot t j).hash ≢ 0
        → (k : ℕ) × (k < cap) × (k ≢ out.1) × SameEntry (slot t j) (slot out.0 k)
    pub nothing_else :
        (k : ℕ)
        → k < cap
        → k ≢ out.1
        → (slot out.0 k).hash ≢ 0
        → (j : ℕ) × (j < cap)
          × (j ≢ hole)
          × ((slot t j).hash ≢ 0)
          × SameEntry (slot t j) (slot out.0 k)

  -- The slot behind is empty, or its entry is at home: the freed slot may stay where it is.
  stopped-IsFreed :
      {t : List Entry} {hole p : ℕ}
      → IsHole c t hole p
      → ((slot t (next cap hole)).hash ≢ 0 → 0 < (slot t (next cap hole)).psl → ⊥)
      → IsFreed t hole (t, hole)
  stopped-IsFreed {t} {hole} w stop =
      let e = freed_slot (slot t hole) in
      let hl : hole < length t = omega (arith, w.slots, w.inside) in
      record {
        robin = record {
          slots = length-set t hole e ∙ w.slots;
          dist = λ j hj there. ground (arith, slot-set t hole j e hl, w.dist j hj, there);
          step = λ j hj there far. ground (
            arith,
            slot-set t hole j e hl,
            slot-set t hole (next cap j) e hl,
            stop,
            w.step j hj,
            there,
            far,
          );
        };
        inside = w.inside;
        held = w.held;
        slots = w.slots;
        filled = refl;
        kept = λ j hj away there.
            (j, hj, away, record { hash = refl; klen = refl; data_index = refl });
        nothing_else = λ k hk away there.
            (k, hk, away, there, record { hash = refl; klen = refl; data_index = refl });
      }

  moved-IsFreed :
      {t : List Entry} {hole p : ℕ} {out : List Entry × ℕ} (w : IsHole c t hole p)
      (there : (slot t (next cap hole)).hash ≢ 0) (far : 0 < (slot t (next cap hole)).psl)
      (apart : next cap hole ≢ hole)
      → IsFreed (pulled c w there far apart) (next cap hole) out
      → IsFreed t hole out
  moved-IsFreed {t} {hole} {p} {out} w there far apart q =
      let i = next cap hole in
      record {
        robin = q.robin;
        inside = q.inside;
        held = q.held;
        slots = q.slots;
        filled = q.filled ∙ used-pulled c w there far apart;
        kept = λ j hj away held. elim (Bool-cases (j == i)) [
          | inl e ↦
              let moved = at_hole c w there far apart in
              let (k, hk, off, s) =
                q.kept hole w.inside (λ e. apart (sym e))
                  (subst (λ (s : Entry). s.hash ≢ 0) (sym moved) there) in
              (
                k,
                hk,
                off,
                subst (λ n. SameEntry (slot t n) (slot out.0 k)) (sym (==→≡ e))
                    (SameEntry-trans (record { hash = refl; klen = refl; data_index = refl })
                      (subst (λ s. SameEntry s (slot out.0 k)) moved s)),
              )
          | inr e ↦
              let same = at_others c w there far apart j away (≠→≢ e) in
              let (k, hk, off, s) =
                q.kept j hj (≠→≢ e) (subst (λ (s : Entry). s.hash ≢ 0) (sym same) held) in
              (k, hk, off, subst (λ s. SameEntry s (slot out.0 k)) same s)
        ];
        nothing_else = λ k hk off held.
            let (j, hj, away, some_entry, s) = q.nothing_else k hk off held in
            elim (Bool-cases (j == hole)) [
              | inl e ↦
                  let moved =
                    ap (slot (pulled c w there far apart)) (==→≡ e) ∙ at_hole c w there far apart in
                  (
                    i,
                    ground (arith, w.inside),
                    apart,
                    there,
                    SameEntry-trans (record { hash = refl; klen = refl; data_index = refl })
                        (subst (λ s. SameEntry s (slot out.0 k)) moved s),
                  )
              | inr e ↦
                  let same = at_others c w there far apart j (≠→≢ e) away in
                  (
                    j,
                    hj,
                    ≠→≢ e,
                    subst (λ (s : Entry). s.hash ≢ 0) same some_entry,
                    subst (λ s. SameEntry s (slot out.0 k)) same s,
                  )
            ];
      }

  shift_back-step :
      (fuel : ℕ) (t t1 t2 : List Entry) (hole i : ℕ) (e : Entry)
      → load t i ≡ ok e
      → (not (e.hash == 0) && ltb 0 e.psl) ≡ true
      → store t i (nearer e) ≡ ok t1
      → store t1 hole (nearer e) ≡ ok t2
      → shift_back (suc fuel) cap t hole i ≡ shift_back fuel cap t2 i (tindex cap (i + 1))
  unfolding shift_back
  shift_back-step fuel t t1 t2 hole i e read go first second =
      ground (arith, read, go, first, second)

  -- With an empty slot ahead the loop ends there or before.
  pub shift_back-IsFreed :
      (g fuel : ℕ) (t : List Entry) (hole p : ℕ)
      → g < fuel
      → suc g < cap
      → IsHole c t hole p
      → (slot t (ahead cap g (next cap hole))).hash ≡ 0
      → Returns (shift_back fuel cap t hole (next cap hole)) (IsFreed t hole)
  unfolding shift_back ahead pulled
  shift_back-IsFreed g zero t hole p enough small w free = absurd (omega arith)
  shift_back-IsFreed zero (suc fuel) t hole p enough small w free =
      let h : next cap hole < length t = ground (arith, w.slots, w.inside) in
      (
        (t, hole),
        ground (arith, load-get_or t (next cap hole) empty h, free),
        stopped-IsFreed w (λ there far. there free),
      )
  shift_back-IsFreed (suc g) (suc fuel) t hole p enough small w free =
      let i = next cap hole in
      let hi : i < cap = ground (arith, w.inside) in
      let h : i < length t = omega (arith, w.slots, hi) in
      let hh : hole < length t = omega (arith, w.slots, w.inside) in
      let read = load-get_or t i empty h in
      elim (Bool-cases (not ((slot t i).hash == 0) && ltb 0 (slot t i).psl)) [
        | inr stop ↦ (
          (t, hole),
          ground (arith, read, stop),
          stopped-IsFreed w (λ there far. ground (arith, stop, there, far)),
        )
        | inl go ↦
            let there : (slot t i).hash ≢ 0 = ground (arith, go) in
            let far : 0 < (slot t i).psl = ground (arith, go) in
            let apart : i ≢ hole = ground (arith, w.inside, small) in
            let away : ahead cap g (next cap i) ≢ hole =
              ground (arith, ahead-sum cap g (next cap i), w.inside, small) in
            let away2 : ahead cap g (next cap i) ≢ i =
              ground (arith, ahead-sum cap g (next cap i), hi, small) in
            let free2 =
              ap (λ (s : Entry). s.hash)
                (at_others c w there far apart (ahead cap g (next cap i)) away away2)
              ∙ free in
            let (out, run, q) =
              shift_back-IsFreed g fuel (pulled c w there far apart) i (slot t i).psl (omega arith)
                (omega arith) (IsHole-moved c w there far apart) free2 in
            let e = nearer (slot t i) in
            let step =
              shift_back-step fuel t (set t i e) (pulled c w there far apart) hole i (slot t i) read
                go (store-set t i e h)
                (store-set (set t i e) hole e (omega (arith, length-set t i e, hh))) in
            (
              out,
              step
                  ∙ (ap (shift_back fuel cap (pulled c w there far apart) i) (tindex-next c i hi)
                      ∙ run),
              moved-IsFreed w there far apart q,
            )
      ]
