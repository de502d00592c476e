-- ===== src/Store.antt =====
-- nstore.c: a uint32_t in a stream, behind a byte that tells its width.
pub mod RoundTrip
use trurlib.Prelude.{
  ℕ, ◌-◌, ◌%◌, ◌^◌, Bool, true, false, Option, none, some, List, [], ◌∷◌, ltb, ◌==◌, if◌then◌else◌,
  length,
}
use trurlib.Prelude.Int.{ℤ, pos}
use trurlib.Run.{Run, ok, assert_fail, ◌>>=◌}
use trurlib.Buf.Host.{Host}
use trurlib.Stream.{Table, Stream, int_eq, write, read_exact, read_uint8, read_uint16, read_uint32}

module _ (T : Table) (host : Host) where
  -- The flag and the bytes that are written
  unfoldable pub packed : (val : ℕ) → ℕ × List ℕ
  packed val =
      if ltb val (2 ^ 8 - 1)
      then (0, (val % 2 ^ 8) ∷ [])
      else if ltb val (2 ^ 16 - 1)
      then (1, host.bytes16 (host.hton16 (val % 2 ^ 16)))
      else (2, host.bytes32 (host.hton32 val))

  -- n_store_uint32: what it returns, and the stream. The size is that of the C type.
  unfoldable pub store_uint32 : Stream T → (val : ℕ) → Bool × Stream T
  store_uint32 st val =
      let (flag, bytes) = packed val in
      let (m, flagged) = write T st (flag ∷ []) in
      let (n, done) = write T flagged bytes in (int_eq n (length bytes), done)

  -- The switch of n_restore_uint32: the value, `none` when the read fails
  unfoldable pub unpack : (flag : ℕ) → Stream T → Run (Option ℕ × Stream T)
  unpack flag st =
      if flag == 0
      then ok (read_uint8 T st)
      else if flag == 1
      then ok (read_uint16 T host st)
      else if flag == 2
      then ok (read_uint32 T host st)
      else assert_fail

  -- n_restore_uint32: what it returns, what is at `vptr`, and the stream. `rc` is 0 and stays so.
  unfoldable pub restore_uint32 : Stream T → Run (ℕ × ℕ × Stream T)
  restore_uint32 st = behind_flag (read_uint8 T st)
    where
      returned : Option ℕ × Stream T → Run (ℕ × ℕ × Stream T)
      returned (none, after) = ok (0, 0, after)
      returned (some val, after) = ok (0, val, after)

      behind_flag : Option ℕ × Stream T → Run (ℕ × ℕ × Stream T)
      behind_flag (none, after) = ok (0, 0, after)
      behind_flag (some flag, after) = unpack flag after >>= returned
