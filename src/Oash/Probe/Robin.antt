-- ===== src/Oash/Probe/Robin.antt =====
-- The order that Robin Hood hashing keeps in a table, and steps around the ring of its slots.
use trurlib.Prelude.{
  ℕ, zero, suc, ◌+◌, ◌-◌, ◌<◌, ◌≤◌, ◌≡◌, ◌≢◌, List, arith, length, ltb, ◌==◌, if◌then◌else◌, get_or,
}
use trurlib.Oash.Table.{Entry, empty, tindex}
use trurlib.Oash.Probe.{psldiff}
use trurlib.Oash.Probe.Ring.{IsCap, tindex-lt}

abbrev pub slot : List Entry → ℕ → Entry
slot t i = get_or t i empty

abbrev pub next : (cap i : ℕ) → ℕ
next cap i = if i + 1 == cap then 0 else i + 1

-- `g` slots further on
unfoldable pub ahead : (cap g i : ℕ) → ℕ
ahead cap zero i = i
ahead cap (suc g) i = ahead cap g (next cap i)

-- Every stored distance is the true one, and an entry that is away from its home follows one that is
-- at most one nearer to its own.
pub record IsRobin (cap : ℕ) (t : List Entry) : Type 0 where
  pub slots : length t ≡ cap
  pub dist : (i : ℕ) → i < cap → (slot t i).hash ≢ 0 → (slot t i).psl ≡ psldiff cap (slot t i) i
  pub step :
      (i : ℕ)
      → i < cap
      → (slot t (next cap i)).hash ≢ 0
      → 0 < (slot t (next cap i)).psl
      → ((slot t i).hash ≢ 0) × ((slot t (next cap i)).psl ≤ (slot t i).psl + 1)

pub ahead-sum :
    (cap g i : ℕ)
    → i < cap
    → g < cap
    → ahead cap g i ≡ (if ltb (i + g) cap then i + g else i + g - cap)
unfolding ahead
ahead-sum cap zero i h hg = ground arith
ahead-sum cap (suc g) i h hg = ground (arith, ahead-sum cap g (next cap i))

pub ahead-lt : (cap g i : ℕ) → i < cap → ahead cap g i < cap
unfolding ahead
ahead-lt cap zero i h = h
ahead-lt cap (suc g) i h = ahead-lt cap g (next cap i) (ground arith)

module _ {cap : ℕ} (c : IsCap cap) (e : Entry) where
  pub psldiff-lt : (i : ℕ) → i < cap → psldiff cap e i < cap
  unfolding psldiff
  psldiff-lt i h = ground (arith, tindex-lt c e.hash)

  pub psldiff-next :
      (i : ℕ)
      → i < cap
      → psldiff cap e i + 1 < cap
      → psldiff cap e (next cap i) ≡ psldiff cap e i + 1
  unfolding psldiff
  psldiff-next i h more = ground (arith, tindex-lt c e.hash)

  pub psldiff-home : psldiff cap e (tindex cap e.hash) ≡ 0
  unfolding psldiff
  psldiff-home = ground arith

  pub ahead-psldiff : (i : ℕ) → i < cap → ahead cap (psldiff cap e i) (tindex cap e.hash) ≡ i
  unfolding psldiff
  ahead-psldiff i h = ground (
    arith,
    tindex-lt c e.hash,
    psldiff-lt i h,
    ahead-sum cap (psldiff cap e i) (tindex cap e.hash),
  )

-- Between its home and its slot an entry meets none that is nearer to its own home than it is.
pub IsRobin-back :
    {cap : ℕ} {t : List Entry} (r : IsRobin cap t) (g i np : ℕ)
    → i < cap
    → (slot t (ahead cap g i)).hash ≢ 0
    → np + g ≤ (slot t (ahead cap g i)).psl
    → ((slot t i).hash ≢ 0) × (np ≤ (slot t i).psl)
unfolding ahead
IsRobin-back r zero i np h here far = (here, omega arith)
IsRobin-back {cap} r (suc g) i np h here far =
    let (held, more) = IsRobin-back r g (next cap i) (np + 1) (ground arith) here (omega arith) in
    let (there, near) = r.step i h held (omega arith) in (there, omega arith)
