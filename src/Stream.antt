-- ===== src/Stream.antt =====
-- The streams of include/trurl/nstream.h. The functions in the table of a stream are those of the
-- C library, of zlib or of zstd, and belong to the caller of this module.
pub mod File
pub mod Moves
pub mod Getline
pub mod Open
use trurlib.Prelude.{
  ℕ, ◌+◌, ◌%◌, ◌^◌, Bool, true, false, Option, none, some, List, [], ◌∷◌, length, ◌==◌,
  if◌then◌else◌,
}
use trurlib.Prelude.Int.{ℤ, pos, negsuc, to_int}
use trurlib.Buf.Host.{Host}
use trurlib.Buf.State.{Whence}

-- The functions of the table, on the state behind `stream`. `read` gives the bytes that come into
-- the block, `gets` the string, and `getc` no character at the end.
pub record Table : Type 1 where
  pub State : Type 0
  pub read : State → ℕ → ℤ × List ℕ × State
  pub write : State → List ℕ → ℤ × State
  pub gets : State → ℕ → Option (List ℕ) × State
  pub getc : State → Option ℕ × State
  pub seek : State → ℕ → Whence → ℤ × State
  pub tell : State → ℕ

-- struct trurl_stream_private: the state, the file descriptor, and the hook of the writes, which
-- is true of the bytes that are to be written.
pub record Stream (T : Table) : Type 0 where
  pub state : T.State
  pub fd : ℤ
  pub write_hook : Option (List ℕ → Bool)

abbrev pub int_eq : ℤ → ℕ → Bool
int_eq (pos n) k = n == k
int_eq (negsuc n) k = false

module _ (T : Table) where
  unfoldable pub fdno : Stream T → ℤ
  fdno st = st.fd

  unfoldable pub set_write_hook : Stream T → Option (List ℕ → Bool) → Stream T
  set_write_hook st hook = record st { write_hook = hook }

  -- n_stream_read
  unfoldable pub read : Stream T → ℕ → ℤ × List ℕ × Stream T
  read st size = let (n, bytes, s) = T.read st.state size in (n, bytes, record st { state = s })

  -- n_stream_write
  unfoldable pub write : Stream T → List ℕ → ℤ × Stream T
  write st bytes =
      if is_faked st.write_hook
      then (to_int (length bytes), st)
      else let (n, s) = T.write st.state bytes in (n, record st { state = s })
    where
      is_faked : Option (List ℕ → Bool) → Bool
      is_faked none = false
      is_faked (some hook) = if hook bytes then false else true

  -- n_stream_seek and n_stream_tell
  unfoldable pub seek : Stream T → ℕ → Whence → ℤ × Stream T
  seek st offset whence =
      let (rc, s) = T.seek st.state offset whence in (rc, record st { state = s })

  unfoldable pub tell : Stream T → ℕ
  tell st = T.tell st.state

  -- `n_stream_read(st, &v, size)`: the bytes, when all of them came
  unfoldable pub read_exact : Stream T → ℕ → Option (List ℕ) × Stream T
  read_exact st size =
      let (n, bytes, st) = read st size in ((if int_eq n size then some bytes else none), st)

  abbrev first_of : List ℕ → ℕ
  first_of [] = 0
  first_of (v ∷ rest) = v

  abbrev decoded : (List ℕ → ℕ) → Option (List ℕ) → Option ℕ
  decoded word none = none
  decoded word (some bytes) = some (word bytes)

  -- n_stream_read_uint8, n_stream_read_uint16 and n_stream_read_uint32: `none` when they return 0
  unfoldable pub read_uint8 : Stream T → Option ℕ × Stream T
  read_uint8 st = let (bytes, st) = read_exact st 1 in (decoded first_of bytes, st)

  unfoldable pub read_uint16 : Host → Stream T → Option ℕ × Stream T
  read_uint16 host st =
      let (bytes, st) = read_exact st 2 in (decoded (λ b. host.ntoh16 (host.word16 b)) bytes, st)

  unfoldable pub read_uint32 : Host → Stream T → Option ℕ × Stream T
  read_uint32 host st =
      let (bytes, st) = read_exact st 4 in (decoded (λ b. host.ntoh32 (host.word32 b)) bytes, st)

  -- n_stream_write_uint8 returns the count, the other two whether all was written.
  unfoldable pub write_uint8 : Stream T → ℕ → ℤ × Stream T
  write_uint8 st v = write st (v ∷ [])

  unfoldable pub write_uint16 : Host → Stream T → ℕ → Bool × Stream T
  write_uint16 host st v = let (n, st) = write st (host.bytes16 (host.hton16 v)) in (int_eq n 2, st)

  unfoldable pub write_uint32 : Host → Stream T → ℕ → Bool × Stream T
  write_uint32 host st v = let (n, st) = write st (host.bytes32 (host.hton32 v)) in (int_eq n 4, st)
