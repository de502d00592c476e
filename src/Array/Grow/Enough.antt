-- ===== src/Array/Grow/Enough.antt =====
-- Growing ends and makes room.
use Prim.Native.Nat.{max}
use native.Mathlib.Nat.{pow-suc}
use trurlib.Prelude.{
  ℕ, zero, suc, ◌+◌, ◌-◌, ◌*◌, ◌%◌, ◌^◌, ◌<◌, ◌≤◌, ◌≡◌, lt→not_leb, ap, ◌∙◌, inl, inr, true, false,
  ◌++◌, arith, leb, replicate, Bool-cases, lt→ltb,
}
use trurlib.Prelude.Int.{to_int, is_pos}
use trurlib.Run.{ok, Returns}
use trurlib.Array.State.{Array, null}
use trurlib.Array.Grow.{realloc, double_until, grow}

pub double_until-ok :
    (fuel req n : ℕ)
    → 0 < n
    → req < 2 ^ 62
    → req < n * 2 ^ fuel
    → Returns (double_until (suc fuel) false req n) (λ m. (req < m) × (m ≤ max n (2 * req)))
unfolding double_until
double_until-ok zero req n pos small enough =
    (n, rw (lt→not_leb n req (omega arith)), (omega arith, omega arith))
double_until-ok (suc fuel) req n pos small enough = elim (Bool-cases (leb n req)) [
  | inl more ↦
      let le : n ≤ req = ground arith in
      let e : n * 2 % 2 ^ 64 ≡ n * 2 = omega arith in
      let (m, run, (above, below)) =
        double_until-ok fuel req (n * 2) (omega arith) small
          (omega (arith, ap (λ t. n * t) (pow-suc 2 fuel))) in
      (m, rw more (ap (double_until (suc fuel) false req) e ∙ run), (above, omega arith))
  | inr done ↦ (n, rw done, (ground arith, omega arith))
]

pub int_diff_pos : (n a : ℕ) → a < n → n < 2 ^ 31 → is_pos (to_int (n + 2 ^ 64 - a)) ≡ true
int_diff_pos n a h small = ground arith

-- A request below 2 ^ 30, and not below the size, on an array that may grow and has a cell is met
-- with more cells than asked for, and at most twice as many: the cells keep their values, those
-- that come new are NULL, and nothing else changes.
pub grow-ok :
    (arr : Array) (req : ℕ)
    → arr.flags.const_size ≡ false
    → 0 < arr.allocated
    → arr.allocated ≤ req
    → req < 2 ^ 30
    → (n : ℕ) × (req < n)
      × (n ≤ 2 * req)
      × (grow arr req
          ≡ ok (record arr {
            cells = arr.cells ++ replicate (n - arr.allocated) null;
            allocated = n;
          }))
unfolding grow realloc
grow-ok arr req grows pos le small =
    let (n, run, (above, below)) =
      double_until-ok 64 req arr.allocated pos (omega arith) (omega arith) in
    (
      n,
      above,
      omega arith,
      rw (
        grows,
        run,
        lt→ltb arr.allocated n (omega arith),
        int_diff_pos n arr.allocated (omega arith) (omega arith),
      ),
    )
