-- ===== src/Oash/Remove/Hole.antt =====
-- The slot that n_oash_remove frees goes round the ring: what holds of the other slots meanwhile.
use trurlib.Prelude.{
  subst, ℕ, ◌+◌, ◌-◌, ◌<◌, ◌≤◌, ◌≡◌, ◌≢◌, ap, sym, ◌∙◌, inl, inr, true, false, Bool-cases, List,
  arith, length, ltb, ◌==◌, if◌then◌else◌, set, length-set,
}
use trurlib.Oash.Table.{Entry}
use trurlib.Oash.Probe.{psldiff}
use trurlib.Oash.Probe.Ring.{IsCap, tindex-lt}
use trurlib.Oash.Probe.Robin.{slot, next, IsRobin, psldiff-lt, psldiff-next}
use trurlib.Oash.Probe.Used.{used, used-set}
use trurlib.Oash.Probe.Place.{slot-set}

-- One slot nearer to its home
abbrev pub nearer : Entry → Entry
nearer e = record e { psl = e.psl - 1 }

abbrev pub freed_slot : Entry → Entry
freed_slot e = record e { hash = 0 }

pub ==→≡ : {a b : ℕ} → (a == b) ≡ true → a ≡ b
==→≡ e = ground (arith, e)

pub ≠→≢ : {a b : ℕ} → (a == b) ≡ false → a ≢ b
≠→≢ e = ground (arith, e)

module _ {cap : ℕ} (c : IsCap cap) where
  -- Robin Hood order but for one slot, in which an entry with the distance `p` was
  pub record IsHole (t : List Entry) (hole p : ℕ) : Type 0 where
    pub slots : length t ≡ cap
    pub inside : hole < cap
    pub held : (slot t hole).hash ≢ 0
    pub dist :
        (j : ℕ)
        → j < cap
        → j ≢ hole
        → (slot t j).hash ≢ 0
        → (slot t j).psl ≡ psldiff cap (slot t j) j
    pub step :
        (j : ℕ)
        → j < cap
        → j ≢ hole
        → next cap j ≢ hole
        → (slot t (next cap j)).hash ≢ 0
        → 0 < (slot t (next cap j)).psl
        → ((slot t j).hash ≢ 0) × ((slot t (next cap j)).psl ≤ (slot t j).psl + 1)
    pub after :
        (slot t (next cap hole)).hash ≢ 0
        → 0 < (slot t (next cap hole)).psl
        → next cap hole ≢ hole
        → (slot t (next cap hole)).psl ≤ p + 1
    pub before :
        (k : ℕ)
        → k < cap
        → k ≢ hole
        → next cap k ≡ hole
        → 0 < p
        → ((slot t k).hash ≢ 0) × (p ≤ (slot t k).psl + 1)

  pub IsHole-start :
      {t : List Entry} (r : IsRobin cap t) (hole : ℕ)
      → hole < cap
      → (slot t hole).hash ≢ 0
      → IsHole t hole (slot t hole).psl
  IsHole-start {t} r hole h there = record {
    slots = r.slots;
    inside = h;
    held = there;
    dist = λ j hj away there2. r.dist j hj there2;
    step = λ j hj away away2 there2 far. r.step j hj there2 far;
    after = λ there2 far away. (r.step hole h there2 far).1;
    before = λ k hk away e far. ground (arith, r.step k hk, e, there, far);
  }

  psldiff-wraps :
      (e : Entry) (i : ℕ) → i < cap → psldiff cap e i + 1 ≡ cap → psldiff cap e (next cap i) ≡ 0
  unfolding psldiff
  psldiff-wraps e i h last = ground (arith, tindex-lt c e.hash)

  -- An entry away from its home is one nearer to it in the slot in front.
  psldiff-nearer :
      (e : Entry) (i : ℕ)
      → i < cap
      → 0 < psldiff cap e (next cap i)
      → psldiff cap e i ≡ psldiff cap e (next cap i) - 1
  psldiff-nearer e i h far =
      let small = psldiff-lt c e i h in
      elim (Bool-cases (ltb (psldiff cap e i + 1) cap)) [
        | inl more ↦ omega (arith, psldiff-next c e i h (ground (arith, more)))
        | inr last ↦ absurd (omega (arith, psldiff-wraps e i h (ground (arith, last, small)), far))
      ]

  module _ {t : List Entry} {hole p : ℕ} (w : IsHole t hole p)
      (there : (slot t (next cap hole)).hash ≢ 0) (far : 0 < (slot t (next cap hole)).psl)
      (apart : next cap hole ≢ hole) where
    unfoldable pub pulled : List Entry
    pulled =
        set (set t (next cap hole) (nearer (slot t (next cap hole)))) hole
          (nearer (slot t (next cap hole)))

    next-inside : next cap hole < cap
    next-inside = ground (arith, w.inside)

    pub slot-pulled :
        (j : ℕ)
        → slot pulled j ≡ (
            if j == hole
            then nearer (slot t (next cap hole))
            else if j == next cap hole
            then nearer (slot t (next cap hole))
            else slot t j)
    unfolding pulled
    slot-pulled j =
        let e = nearer (slot t (next cap hole)) in
        ground (
          arith,
          slot-set (set t (next cap hole) e) hole j e
              (omega (arith, length-set t (next cap hole) e, w.slots, w.inside)),
          slot-set t (next cap hole) j e (omega (arith, next-inside, w.slots)),
        )

    pub used-pulled : used pulled ≡ used t
    unfolding pulled
    used-pulled =
        let e = nearer (slot t (next cap hole)) in
        let first = used-set t (next cap hole) e (omega (arith, next-inside, w.slots)) in
        let second =
          used-set (set t (next cap hole) e) hole e
            (omega (arith, length-set t (next cap hole) e, w.slots, w.inside)) in
        ground (
          arith,
          first,
          second,
          there,
          w.held,
          slot-set t (next cap hole) hole e (omega (arith, next-inside, w.slots)),
        )

    length-pulled : length pulled ≡ cap
    unfolding pulled
    length-pulled =
        let e = nearer (slot t (next cap hole)) in
        length-set (set t (next cap hole) e) hole e ∙ (length-set t (next cap hole) e ∙ w.slots)

    pub at_hole : slot pulled hole ≡ nearer (slot t (next cap hole))
    at_hole = ground (arith, slot-pulled hole)

    pub at_next : slot pulled (next cap hole) ≡ nearer (slot t (next cap hole))
    at_next = ground (arith, slot-pulled (next cap hole))

    pub at_others : (j : ℕ) → j ≢ hole → j ≢ next cap hole → slot pulled j ≡ slot t j
    at_others j away away2 = ground (arith, slot-pulled j, away, away2)

    dist-hole : (slot pulled hole).psl ≡ psldiff cap (slot pulled hole) hole
    unfolding psldiff
    dist-hole =
        let e = slot t (next cap hole) in
        let d = w.dist (next cap hole) next-inside apart there in
        let less : psldiff cap e hole ≡ e.psl - 1 =
          psldiff-nearer e hole w.inside (omega (arith, d, far)) ∙ ap (λ n. n - 1) (sym d) in
        ap (λ (s : Entry). s.psl) at_hole
        ∙ (sym less ∙ sym (ap (λ (s : Entry). psldiff cap s hole) at_hole))

    step-hole :
        (j : ℕ)
        → j < cap
        → j ≢ hole
        → next cap j ≡ hole
        → 1 < (slot t (next cap hole)).psl
        → ((slot t j).hash ≢ 0) × ((slot t (next cap hole)).psl - 1 ≤ (slot t j).psl + 1)
    step-hole j hj away e far2 =
        let near = w.after there far apart in
        let (held, close) = w.before j hj away e (omega (arith, near, far2)) in
        (held, omega (arith, near, close))

    next_same : (k : ℕ) → k < cap → next cap k ≡ next cap hole → k ≡ hole
    next_same k hk e = ground (arith, w.inside, hk, e)

    pub IsHole-moved : IsHole pulled (next cap hole) (slot t (next cap hole)).psl
    IsHole-moved = record {
      slots = length-pulled;
      inside = next-inside;
      held = subst (λ (s : Entry). s.hash ≢ 0) (sym at_next) there;
      dist = λ j hj away there2. elim (Bool-cases (j == hole)) [
        | inl e ↦
            subst (λ n. (slot pulled n).psl ≡ psldiff cap (slot pulled n) n) (ground (arith, e))
              dist-hole
        | inr e ↦
            let same = at_others j (ground (arith, e)) away in
            subst (λ (s : Entry). s.psl ≡ psldiff cap s j) (sym same)
              (w.dist j hj (ground (arith, e)) (subst (λ (s : Entry). s.hash ≢ 0) same there2))
      ];
      step = λ j hj away away2 there2 far2.
          let from : j ≢ hole = λ e. away2 (ap (next cap) e) in
          let same = at_others j from away in
          elim (Bool-cases (next cap j == hole)) [
            | inl e ↦
                let to : next cap j ≡ hole = ground (arith, e) in
                let moved = ap (slot pulled) to ∙ at_hole in
                let psl_moved = ap (λ (s : Entry). s.psl) moved in
                let psl_same = ap (λ (s : Entry). s.psl) same in
                let (held, close) = step-hole j hj from to (omega (arith, psl_moved, far2)) in
                (
                  subst (λ (s : Entry). s.hash ≢ 0) (sym same) held,
                  omega (arith, psl_moved, psl_same, close),
                )
            | inr e ↦
                let to : next cap j ≢ hole = ground (arith, e) in
                let same2 = at_others (next cap j) to away2 in
                let psl_same2 = ap (λ (s : Entry). s.psl) same2 in
                let psl_same = ap (λ (s : Entry). s.psl) same in
                let (held, close) =
                  w.step j hj from to (subst (λ (s : Entry). s.hash ≢ 0) same2 there2)
                    (omega (arith, psl_same2, far2)) in
                (
                  subst (λ (s : Entry). s.hash ≢ 0) (sym same) held,
                  omega (arith, psl_same2, psl_same, close),
                )
          ];
      after = λ there2 far2 away. elim (Bool-cases (next cap (next cap hole) == hole)) [
        | inl e ↦
            let psl_moved = ap (λ (s : Entry). s.psl) (ap (slot pulled) (==→≡ e) ∙ at_hole) in
            omega (arith, psl_moved)
        | inr e ↦
            let to : next cap (next cap hole) ≢ hole = ≠→≢ e in
            let same = at_others (next cap (next cap hole)) to away in
            let psl_same = ap (λ (s : Entry). s.psl) same in
            let (held, close) =
              w.step (next cap hole) next-inside apart to
                (subst (λ (s : Entry). s.hash ≢ 0) same there2) (omega (arith, psl_same, far2)) in
            omega (arith, psl_same, close)
      ];
      before = λ k hk away e far2.
          let at : k ≡ hole = next_same k hk e in
          let moved = ap (slot pulled) at ∙ at_hole in
          let psl_moved = ap (λ (s : Entry). s.psl) moved in
          (subst (λ (s : Entry). s.hash ≢ 0) (sym moved) there, omega (arith, psl_moved, far));
    }
