-- ===== src/Buf/Restore.antt =====
-- Buffers in streams: n_buf_store, n_buf_restore_skip and n_buf_restore_ex of nbuf.c.
pub mod RoundTrip
use trurlib.Prelude.{
  ℕ, ◌-◌, ◌%◌, ◌^◌, Bool, true, false, Option, none, some, List, leb, ◌==◌, if◌then◌else◌, length,
  take,
}
use trurlib.Prelude.Int.{ℤ, pos, negsuc, to_int}
use trurlib.Run.{Run, ok, fault, assert_fail, out_of_bounds, ◌>>=◌, ◌>>◌, n_assert}
use trurlib.Buf.Host.{Host, malloc}
use trurlib.Buf.State.{Buf, Flags, to_size_t, init, new, seek_cur}
use trurlib.Buf.State.View.{block_of}
use trurlib.Buf.Store.{SizeBits, nil, bits8, bits16, bits32, other, size_of, lt_int}
use trurlib.Stream
use trurlib.Stream.{Table, Stream, read_uint8, read_uint16, read_uint32, write_uint16, write_uint32}
use trurlib.Store.{store_uint32, restore_uint32}

abbrev pub same_int : ℤ → ℤ → Bool
same_int (pos m) (pos n) = m == n
same_int (negsuc m) (negsuc n) = m == n
same_int (pos m) (negsuc n) = false
same_int (negsuc m) (pos n) = false

-- The first `n` bytes of the block
unfoldable pub bytes_of : Buf → ℕ → Run (List ℕ)
bytes_of buf n =
    if leb n (length (block_of buf.cells))
    then ok (take n (block_of buf.cells))
    else fault out_of_bounds

module _ (T : Table) (host : Host) where
  -- The size at the head; what the writers return is not looked at.
  unfoldable pub store_head : Buf → Stream T → SizeBits → Run (Stream T)
  store_head buf st nil =
      let (done, after) = store_uint32 T host st (to_size_t (size_of buf) % 2 ^ 32) in ok after
  store_head buf st bits8 = assert_fail
  store_head buf st bits16 =
      n_assert (lt_int (size_of buf) (2 ^ 15 - 1))
      >> (let (done, after) = write_uint16 T host st (to_size_t (size_of buf) % 2 ^ 16) in ok after)
  store_head buf st bits32 =
      n_assert (lt_int (size_of buf) (2 ^ 31 - 1))
      >> (let (done, after) = write_uint32 T host st (to_size_t (size_of buf) % 2 ^ 32) in ok after)
  store_head buf st other = ok st

  -- n_buf_store
  unfoldable pub store : Buf → Stream T → SizeBits → Run (Bool × Stream T)
  store buf st mode = do
    headed ← store_head buf st mode
    bytes ← bytes_of buf (to_size_t (size_of buf))
    ok (sent (Stream.write T headed bytes))
    where
      sent : ℤ × Stream T → Bool × Stream T
      sent (n, after) = (same_int n (size_of buf), after)

  abbrev or_0 : Option ℕ × Stream T → ℕ × Stream T
  or_0 (none, after) = (0, after)
  or_0 (some v, after) = (v, after)

  -- The size that restore_skip and restore_ex read: 0 where the read fails
  unfoldable pub restore_head : Stream T → SizeBits → Run (ℕ × Stream T)
  restore_head st nil = restore_uint32 T host st >>= λ (rc, val, after). ok (val, after)
  restore_head st bits8 = ok (or_0 (read_uint8 T st))
  restore_head st bits16 = ok (or_0 (read_uint16 T host st))
  restore_head st bits32 = ok (or_0 (read_uint32 T host st))
  restore_head st other = assert_fail

  -- n_buf_restore_skip
  unfoldable pub restore_skip : Stream T → SizeBits → Run (ℤ × Stream T)
  restore_skip st mode =
      restore_head st mode >>= λ (size, after). ok (Stream.seek T after size seek_cur)

  -- What n_buf_restore_ex does with the bytes that were read: a buffer that owns them for `bptr`,
  -- or a call of `process_buf` on a buffer that does not.
  unfoldable pub wrap :
      (process_buf : Option (Buf → ℤ)) (bytes : List ℕ) (size : ℤ) → Run (ℤ × Option Buf)
  wrap process_buf bytes size = do
    empty ← new host (pos 0)
    buf ← init empty bytes size
    ok (elim process_buf [
      | none ↦ (pos 1, some (record buf { flags = record buf.flags { const_data = false } }))
      | some process ↦ (process buf, none)
    ])

  -- n_buf_restore_ex: what it returns, what is at `bptr`, and the stream
  unfoldable pub restore_ex :
      Stream T → SizeBits → (process_buf : Option (Buf → ℤ)) → Run (ℤ × Option Buf × Stream T)
  restore_ex st mode process_buf = do
    (size, headed) ← restore_head st mode
    block ← malloc host size
    received size (Stream.read T headed size)
    where
      received : ℕ → ℤ × List ℕ × Stream T → Run (ℤ × Option Buf × Stream T)
      received size (count, bytes, after) =
          let whole = wrap process_buf bytes (to_int size) in
          if same_int count (to_int size)
          then (whole >>= λ (rc, buf). ok (rc, buf, after))
          else ok (pos 0, none, after)
