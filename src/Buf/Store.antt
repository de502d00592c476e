-- ===== src/Buf/Store.antt =====
-- n_buf_store_buf of nbuf.c: a buffer written to another, behind its size.
pub mod Stored
use trurlib.Prelude.{ℕ, ◌-◌, ◌^◌, Bool, true, false, Option, List, ltb, ◌∷◌}
use trurlib.Prelude.Int.{ℤ, pos, negsuc, to_int}
use trurlib.Run.{Run, ok, assert_fail, ◌>>=◌, ◌>>◌, n_assert}
use trurlib.Buf.Host.{Host}
use trurlib.Buf.State.{Buf}
use trurlib.Buf.State.View.{block_of}
use trurlib.Buf.Write.{write, write_int16, write_int32}

-- TN_BUF_STORE_NIL, TN_BUF_STORE_8B, TN_BUF_STORE_16B, TN_BUF_STORE_32B, and every other number
pub data SizeBits : Type 0 where
  nil bits8 bits16 bits32 other : SizeBits

-- n_buf_size, which returns the size as an int
unfoldable pub size_of : Buf → ℤ
size_of buf = to_int buf.size

abbrev pub lt_int : ℤ → ℕ → Bool
lt_int (pos n) k = ltb n k
lt_int (negsuc n) k = true

-- The size at the head, as store_buf writes it
store_size : Host → Buf → Buf → SizeBits → Run Buf
store_size host buf to nil = assert_fail
store_size host buf to bits8 = assert_fail
store_size host buf to bits16 =
    n_assert (lt_int (size_of buf) (2 ^ 15 - 1))
    >> write_int16 host to (size_of buf)
    >>= λ (n, after). ok after
store_size host buf to bits32 =
    n_assert (lt_int (size_of buf) (2 ^ 31 - 1))
    >> write_int32 host to (size_of buf)
    >>= λ (n, after). ok after
store_size host buf to other = ok to

-- n_buf_store_buf, where the buffers are not the same
unfoldable pub store_buf : Host → (buf to : Buf) → SizeBits → Run (ℤ × Buf)
unfolding store_size
store_buf host buf to mode = do
  headed ← store_size host buf to mode
  write host headed (block_of buf.cells) (size_of buf)
