-- ===== src/Buf/Write/Room.antt =====
-- Growing ends and makes the room that a write needs.
use Prim.Native.Nat.{max}
use trurlib.Prelude.{
  ℕ, zero, suc, ◌+◌, ◌-◌, ◌*◌, ◌%◌, ◌^◌, ◌<◌, ◌≤◌, ◌≡◌, refl, ap, sym, ◌∙◌, inl, inr, Bool, true,
  false, Option, none, some, List, [], ◌++◌, append-nil, arith, leb, le→leb, lt→not_leb, Bool-cases,
  length, length-append, if◌then◌else◌, ◌==◌,
}
use trurlib.Prelude.Int.{pos}
use trurlib.Prelude.Pieces.{take_long}
use trurlib.Run.{ok, die, buf_const_size, Returns}
use trurlib.Array.Grow
use trurlib.Array.Grow.Enough.{double_until-ok, int_diff_pos}
use trurlib.Buf.Host.{Host, malloc}
use trurlib.Buf.State.{Buf}
use trurlib.Buf.State.View.{block_of, IsBuf}
use trurlib.Buf.Write.{double_until, bigger, realloc, grow, one_if, is_short, make_room}

double_until-eq : (fuel req n : ℕ) → double_until fuel req n ≡ Grow.double_until fuel false req n
unfolding double_until Grow.double_until
double_until-eq zero req n = refl
double_until-eq (suc fuel) req n = rw (double_until-eq fuel req (n * 2 % 2 ^ 64)) (ground arith)

pub bigger-ok :
    (host : Host) (cells : Option (List ℕ)) (n : ℕ)
    → length (block_of cells) ≤ n
    → n < 2 ^ 31
    → Returns
        (bigger host cells n)
        (λ b. (extra : List ℕ) × (b ≡ block_of cells ++ extra) × (length b ≡ n))
unfolding bigger malloc
bigger-ok host none n le small =
    (host.fresh n, ground arith, (host.fresh n, refl, host.length-fresh n))
bigger-ok host (some block) n le small =
    let extra = host.fresh (n - length block) in
    (
      block ++ extra,
      rw (lt→not_leb (2 ^ 63) n (omega arith), take_long block n le),
      (extra, refl, omega (arith, length-append block extra, host.length-fresh (n - length block))),
    )

-- The buffer with a block that goes on
abbrev pub lengthened : Buf → List ℕ → ℕ → Buf
lengthened buf extra n = record buf { cells = some (block_of buf.cells ++ extra); allocated = n }

first_size-positive : (n : ℕ) → 0 < (if n == 0 then 2 else n)
first_size-positive n = ground arith

module _ (host : Host) (buf : Buf) (wf : IsBuf buf) where
  grow-ok :
      (req : ℕ)
      → buf.flags.const_size ≡ false
      → buf.allocated < req
      → req < 2 ^ 30
      → Returns (grow host buf req) (λ b.
        (extra : List ℕ) × (n : ℕ) × (b ≡ lengthened buf extra n)
        × (req < n)
        × (n ≤ 2 * req)
        × (length (block_of buf.cells ++ extra) ≡ n))
  unfolding grow realloc
  grow-ok req grows more small =
      let first = if buf.allocated == 0 then 2 else buf.allocated in
      let first_le : first ≤ req + 1 = ground arith in
      let (n, run, (above, below)) =
        double_until-ok 64 req first (first_size-positive buf.allocated) (omega arith)
          (omega (arith, first_size-positive buf.allocated)) in
      let (block, got, (extra, e, len)) =
        bigger-ok host buf.cells n (omega (arith, wf.counted)) (omega arith) in
      (
        lengthened buf extra n,
        rw (
          double_until-eq 65 req first ∙ run,
          int_diff_pos n buf.allocated (omega arith) (omega arith),
          grows,
          got,
          e,
        ),
        (extra, n, refl, above, omega arith, ap length (sym e) ∙ len),
      )

pub one_if-le : (ended : Bool) → one_if ended ≤ 1
one_if-le true = omega arith
one_if-le false = omega arith

-- The test for room is the comparison that it means, when the offset lies in the block.
is_short_iff :
    (buf : Buf) (n : ℕ) (ended : Bool)
    → buf.off ≤ buf.allocated
    → buf.allocated + n < 2 ^ 30
    → is_short buf (pos n) ended ≡ leb buf.allocated (buf.off + n + one_if ended)
unfolding is_short
is_short_iff buf n ended inside small =
    let a : (buf.allocated + 2 ^ 64 - buf.off) % 2 ^ 64 ≡ buf.allocated - buf.off = omega arith in
    let b : (n % 2 ^ 32 + one_if ended + 1) % 2 ^ 32 ≡ n + one_if ended + 1 =
      omega (arith, one_if-le ended) in
    rw (a, b) (ground (arith, inside))

pub has_block :
    (cells : Option (List ℕ)) → 0 < length (block_of cells) → cells ≡ some (block_of cells)
has_block none some_length = absurd (omega arith)
has_block (some block) some_length = refl

lengthened-nil :
    (buf : Buf) → 0 < length (block_of buf.cells) → buf ≡ lengthened buf [] buf.allocated
lengthened-nil buf some_length =
    ap (λ c. record buf { cells = c })
      (has_block buf.cells some_length ∙ ap some (sym (append-nil (block_of buf.cells))))

-- What a write has after it made room
unfoldable pub HasRoom : Buf → ℕ → Buf → Type 0
HasRoom buf need room =
    (extra : List ℕ) × (n : ℕ) × (room ≡ lengthened buf extra n)
    × (need < n)
    × (n < 2 ^ 31)
    × (length (block_of buf.cells ++ extra) ≡ n)
    × (n ≤ max buf.allocated (4 * need + 2))

module _ (host : Host) (buf : Buf) (n : ℕ) (ended : Bool) (wf : IsBuf buf)
    (inside : buf.off ≤ buf.allocated) (small : buf.allocated + n + 2 < 2 ^ 30) where
  pub make_room-ok :
      buf.flags.const_size ≡ false
      → Returns (make_room host buf (pos n) ended) (HasRoom buf (buf.off + n + one_if ended))
  unfolding make_room HasRoom
  make_room-ok grows = elim (Bool-cases (leb buf.allocated (buf.off + n + one_if ended))) [
    | inl short ↦
        let req = (buf.allocated + n + one_if ended + 1) % 2 ^ 64 in
        let le : buf.allocated ≤ buf.off + n + one_if ended = ground arith in
        let e : req ≡ buf.allocated + n + one_if ended + 1 = omega (arith, one_if-le ended) in
        let (room, run, (extra, m, is_room, above, below, len)) =
          grow-ok host buf wf req grows (omega arith) (omega (arith, one_if-le ended)) in
        (
          room,
          rw (is_short_iff buf n ended inside (omega arith), short) run,
          (
            extra,
            m,
            is_room,
            omega (arith, e),
            omega (arith, e, one_if-le ended),
            len,
            omega (arith, le, e),
          ),
        )
    | inr fits ↦
        let enough : buf.off + n + one_if ended < buf.allocated = ground arith in
        (
          buf,
          rw (is_short_iff buf n ended inside (omega arith), fits),
          (
            [],
            buf.allocated,
            lengthened-nil buf (omega (arith, wf.counted)),
            enough,
            omega arith,
            ap length (append-nil (block_of buf.cells)) ∙ wf.counted,
            omega arith,
          ),
        )
  ]

  pub make_room-fits :
      buf.off + n + one_if ended < buf.allocated → make_room host buf (pos n) ended ≡ ok buf
  unfolding make_room
  make_room-fits fits = rw (
    is_short_iff buf n ended inside (omega arith),
    lt→not_leb buf.allocated (buf.off + n + one_if ended) fits,
  )

  pub make_room-const :
      buf.flags.const_size ≡ true
      → buf.allocated ≤ buf.off + n + one_if ended
      → make_room host buf (pos n) ended ≡ die buf_const_size
  unfolding make_room grow realloc
  make_room-const const short =
      let req = buf.allocated + n + one_if ended + 1 in
      let e : (buf.allocated + n + one_if ended + 1) % 2 ^ 64 ≡ req =
        omega (arith, one_if-le ended) in
      let first = if buf.allocated == 0 then 2 else buf.allocated in
      let first_le : first ≤ req + 1 = ground arith in
      let (m, run, (above, below)) =
        double_until-ok 64 req first (first_size-positive buf.allocated)
          (omega (arith, one_if-le ended))
          (omega (arith, first_size-positive buf.allocated, one_if-le ended)) in
      rw (
        is_short_iff buf n ended inside (omega arith),
        le→leb buf.allocated (buf.off + n + one_if ended) short,
        e,
        double_until-eq 65 req first ∙ run,
        int_diff_pos m buf.allocated (omega arith) (omega (arith, one_if-le ended)),
        const,
      )
