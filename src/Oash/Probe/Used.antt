-- ===== src/Oash/Probe/Used.antt =====
-- The number of entries in the slots of a table.
use trurlib.Prelude.{
  ℕ, zero, suc, ◌+◌, ◌-◌, ◌<◌, ◌≤◌, ◌≡◌, ◌≢◌, refl, inl, inr, false, Bool-cases, List, [], ◌∷◌,
  arith, length, ltb, ◌==◌, if◌then◌else◌, set, replicate,
}
use trurlib.Oash.Table.{Entry, empty}
use trurlib.Oash.Probe.Robin.{slot, next, ahead, ahead-sum}

abbrev pub one_of : Entry → ℕ
one_of e = if e.hash == 0 then 0 else 1

unfoldable pub used : List Entry → ℕ
used [] = 0
used (e ∷ t) = one_of e + used t

pub used-set :
    (t : List Entry) (i : ℕ) (e : Entry)
    → i < length t
    → used (set t i e) + one_of (slot t i) ≡ used t + one_of e
unfolding used
used-set [] i e h = absurd (omega arith)
used-set (x ∷ t) zero e h = omega arith
used-set (x ∷ t) (suc i) e h = omega (arith, used-set t i e (omega arith))

pub used-replicate : (n : ℕ) → used (replicate n empty) ≡ 0
unfolding used
used-replicate zero = refl
used-replicate (suc n) = omega (arith, used-replicate n)

-- A table that is not full has an empty slot.
pub empty_slot :
    (t : List Entry) → used t < length t → (z : ℕ) × (z < length t) × ((slot t z).hash ≡ 0)
unfolding used
empty_slot [] h = absurd (omega arith)
empty_slot (e ∷ t) h = elim (Bool-cases (e.hash == 0)) [
  | inl here ↦ (0, omega arith, ground (arith, here))
  | inr away ↦
      let (z, hz, free) = empty_slot t (ground (arith, h, away)) in (suc z, omega (arith, hz), free)
]

-- The first empty slot at most `g` slots ahead
pub first_empty :
    (cap : ℕ) (t : List Entry) (g i : ℕ)
    → (slot t (ahead cap g i)).hash ≡ 0
    → (m : ℕ) × (m ≤ g)
      × ((slot t (ahead cap m i)).hash ≡ 0)
      × ((k : ℕ) → k < m → (slot t (ahead cap k i)).hash ≢ 0)
unfolding ahead
first_empty cap t zero i free = (0, omega arith, free, λ k h. absurd (omega (arith, h)))
first_empty cap t (suc g) i free = elim (Bool-cases ((slot t i).hash == 0)) [
  | inl here ↦ (0, omega arith, ground (arith, here), λ k h. absurd (omega (arith, h)))
  | inr away ↦
      let (m, le, there, more) = first_empty cap t g (next cap i) free in
      (suc m, omega (arith, le), there, later i m away more)
]
  where
    later :
        (i m : ℕ)
        → ((slot t i).hash == 0) ≡ false
        → ((k : ℕ) → k < m → (slot t (ahead cap k (next cap i))).hash ≢ 0)
        → (k : ℕ) → k < suc m
        → (slot t (ahead cap k i)).hash ≢ 0
    later i m away more zero h = ground (arith, away)
    later i m away more (suc k) h = more k (omega arith)

-- Every slot lies less than a round ahead of every other.
pub reach : (cap i z : ℕ) → i < cap → z < cap → (g : ℕ) × (g < cap) × (ahead cap g i ≡ z)
reach cap i z h hz =
    let g = if ltb z i then cap + z - i else z - i in
    let small : g < cap = ground arith in (g, small, ground (arith, ahead-sum cap g i h small))
