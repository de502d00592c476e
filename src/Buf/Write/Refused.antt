-- ===== src/Buf/Write/Refused.antt =====
-- The writes that a buffer of constant size refuses, and those that leave the block.
use trurlib.Prelude.{
  ℕ, ◌+◌, ◌-◌, ◌%◌, ◌^◌, ◌<◌, ◌≤◌, ◌≡◌, Bool, true, false, some, List, arith, ltb, le→not_ltb,
  lt→not_leb, length,
}
use trurlib.Prelude.Int.{pos}
use trurlib.Run.{die, fault, out_of_bounds, buf_const_size, ◌>>=◌}
use trurlib.Buf.Host.{Host}
use trurlib.Buf.State.{Buf, at, seek, seek_set}
use trurlib.Buf.State.View.{IsBuf}
use trurlib.Buf.Write.{copy_in, one_if, is_short, make_room, put, write_ex}
use trurlib.Buf.Write.Room.{make_room-const}

-- On a buffer of constant size, a write dies when its bytes, the 0 that is asked for and one cell
-- more do not fit in the block behind the offset, which lies in the block.
pub write_ex-const :
    (host : Host) (buf : Buf) (src : List ℕ) (ended : Bool)
    → IsBuf buf
    → buf.flags.const_size ≡ true
    → buf.off ≤ buf.allocated
    → buf.allocated + length src + 2 < 2 ^ 30
    → buf.allocated ≤ buf.off + length src + one_if ended
    → write_ex host buf src (pos (length src)) ended ≡ die buf_const_size
unfolding write_ex
write_ex-const host buf src ended wf const inside small short =
    rw (make_room-const host buf (length src) ended wf inside small const short)

not_short :
    (alloc k n e : ℕ)
    → alloc < k
    → k < 2 ^ 31
    → n < 2 ^ 31
    → ltb ((alloc + 2 ^ 64 - k) % 2 ^ 64) ((n % 2 ^ 32 + e + 1) % 2 ^ 32) ≡ false
not_short alloc k n e beyond small some_size = le→not_ltb _ _ (omega arith)

-- A seek to an offset behind the block is taken, and the next write, of any length, is not given
-- room: the size_t difference in the test wraps, and the copy leaves the block.
pub seek-write_ex :
    (host : Host) (buf : Buf) (block src : List ℕ) (k : ℕ) (ended : Bool)
    → buf.cells ≡ some block
    → length block ≡ buf.allocated
    → buf.allocated < k
    → k < 2 ^ 31
    → length src < 2 ^ 31
    → (seek buf (pos k) seek_set >>= λ (at, sought).
        write_ex host sought src (pos (length src)) ended)
      ≡ fault out_of_bounds
unfolding seek write_ex make_room is_short put at copy_in
seek-write_ex host buf block src k ended has_block len beyond small some_size = rw (
  not_short buf.allocated k (length src) (one_if ended) beyond small some_size,
  has_block,
  lt→not_leb (k + length src) (length block) (omega arith),
)
