-- ===== src/Oash/Probe/Ring.antt =====
-- The slots of a table as a ring: its size is a power of two, so that the mask of tindex is a
-- remainder.
use Prim.Native.Nat.{min, bit_and, bit_and-bitwise, digits}
use native.Mathlib.Nat.{
  pow-suc, div-add-mod, mod-lt, mul-add-mod_self_left, mod-eq_of_lt, zero-mod, mod-one, mod_self,
}
use trurlib.Prelude.{
  ℕ, zero, suc, ◌+◌, ◌-◌, ◌*◌, ◌/◌, ◌%◌, ◌^◌, ◌<◌, ◌≤◌, ◌≡◌, ap, sym, ◌∙◌, arith, ◌==◌,
  if◌then◌else◌,
}
use trurlib.Hash.Murmur.{word}
use trurlib.Oash.Table.{tindex}

pow-pos : (k : ℕ) → 0 < 2 ^ k
pow-pos zero = omega arith
pow-pos (suc k) = omega (arith, pow-suc 2 k, pow-pos k)

mod-double : (a p : ℕ) → 0 < p → a % (p * 2) ≡ (a / 2 % p) * 2 + a % 2
mod-double a p h =
    let q = a / 2 / p in
    let r = a / 2 % p in
    let split : a ≡ p * 2 * q + (r * 2 + a % 2) = omega (arith, div-add-mod (a / 2) p) in
    let low : r * 2 + a % 2 < p * 2 = omega (arith, mod-lt (a / 2) h) in
    ap (λ t. t % (p * 2)) split
    ∙ (mul-add-mod_self_left (p * 2) q (r * 2 + a % 2) ∙ mod-eq_of_lt low)

digits-mask : (n a k m : ℕ) → a ≤ n → m + 1 ≡ 2 ^ k → digits (λ b. zero) min n a m ≡ a % 2 ^ k
digits-mask zero zero k m h e = sym (zero-mod (2 ^ k))
digits-mask zero (suc a) k m h e = absurd (omega arith)
digits-mask (suc n) zero k m h e = sym (zero-mod (2 ^ k))
digits-mask (suc n) (suc a) zero m h e =
    omega
      (arith, digits-mask n (suc a / 2) 0 (m / 2) (omega arith) (omega arith), mod-one (suc a / 2))
digits-mask (suc n) (suc a) (suc k) m h e =
    let p = pow-suc 2 k in
    let half = digits-mask n (suc a / 2) k (m / 2) (omega arith) (omega (arith, p)) in
    let whole = ap (λ t. suc a % t) p ∙ mod-double (suc a) (2 ^ k) (pow-pos k) in
    let odd : m % 2 ≡ 1 = omega (arith, p) in omega (arith, half, whole, odd)

bit_and-mask : (a k m : ℕ) → m + 1 ≡ 2 ^ k → bit_and a m ≡ a % 2 ^ k
bit_and-mask a k m e = omega (arith, bit_and-bitwise a m, digits-mask a a k m (omega arith) e)

-- A size with which tindex is a remainder and a distance fits into 16 bits
pub record IsCap (cap : ℕ) : Type 0 where
  pub bits : ℕ
  pub pow : cap ≡ 2 ^ bits
  pub small : cap < 2 ^ 16

pub IsCap-pos : {cap : ℕ} → IsCap cap → 0 < cap
IsCap-pos c = rw c.pow (pow-pos c.bits)

pub tindex-mod : {cap : ℕ} (c : IsCap cap) (h : ℕ) → tindex cap h ≡ h % cap
unfolding tindex
tindex-mod {cap} c h =
    let pos = IsCap-pos c in
    let mask : (cap + word - 1) % word ≡ cap - 1 = omega (arith, c.small, pos) in
    ap (bit_and h) mask
    ∙ (bit_and-mask h c.bits (cap - 1) (omega (arith, c.pow, pos)) ∙ ap (λ t. h % t) (sym c.pow))

pub tindex-lt : {cap : ℕ} (c : IsCap cap) (h : ℕ) → tindex cap h < cap
tindex-lt c h = omega (arith, tindex-mod c h, mod-lt h (IsCap-pos c))

-- The slot behind a slot
pub tindex-next :
    {cap : ℕ} (c : IsCap cap) (i : ℕ)
    → i < cap
    → tindex cap (i + 1) ≡ (if i + 1 == cap then 0 else i + 1)
tindex-next {cap} c i h =
    ground (arith, tindex-mod c (i + 1), mod_self cap, mod-eq_of_lt {n = i + 1} {m = cap})
