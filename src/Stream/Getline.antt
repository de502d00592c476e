-- ===== src/Stream/Getline.antt =====
-- n_stream_gets and n_stream_getline of nstream.c.
pub mod Text
pub mod Line
pub mod First
pub mod Read
use trurlib.Prelude.{
  ℕ, zero, suc, ◌+◌, ◌-◌, ◌*◌, ◌%◌, ◌^◌, true, false, Option, none, some, List, [], ◌∷◌, ◌++◌, ltb,
  ◌==◌, if◌then◌else◌, length,
}
use trurlib.Run.{Run, ok, fault, endless, out_of_bounds, ◌>>=◌}
use trurlib.Memory.Block.{store}
use trurlib.Buf.Host.{Host, malloc}
use trurlib.Buf.Write.{copy_in, bigger}
use trurlib.Stream.{Table, Stream}

-- The length of the string that starts the block
unfoldable pub strlen : List ℕ → Run ℕ
strlen [] = fault out_of_bounds
strlen (x ∷ xs) = if x == 0 then ok 0 else (strlen xs >>= λ n. ok (suc n))

module _ (T : Table) where
  -- n_stream_gets: what it returns, the block at `buf`, and the stream
  unfoldable pub gets : Stream T → (block : List ℕ) (size : ℕ) → Run (ℕ × List ℕ × Stream T)
  gets st block size = got (T.gets st.state size)
    where
      got : Option (List ℕ) × T.State → Run (ℕ × List ℕ × Stream T)
      got (none, s) = ok (0, block, record st { state = s })
      got (some text, s) = copy_in block 0 (text ++ (0 ∷ [])) (length text + 1) >>= λ b.
          strlen b >>= λ n. ok (n, b, record st { state = s })

  -- `if (n == size - 1)`, the block is made longer.
  unfoldable pub longer : Host → (block : List ℕ) (size n : ℕ) → Run (List ℕ × ℕ)
  longer host block size n =
      if n == (size + 2 ^ 64 - 1) % 2 ^ 64
      then (bigger host (some block) (size * 2 % 2 ^ 64) >>= λ b. ok (b, size * 2 % 2 ^ 64))
      else ok (block, size)

  -- What a round of the loop does with the character it got: `rest` are the rounds that follow.
  unfoldable pub add_char :
      (n : ℕ) (block : List ℕ)
      → Option ℕ × T.State
      → (rest : List ℕ → T.State → Run (ℕ × List ℕ × T.State)) → Run (ℕ × List ℕ × T.State)
  add_char n block (none, s) rest = ok (n, block, s)
  add_char n block (some c, s) rest =
      store block n c >>= λ b. if c == 10 then ok (n + 1, b, s) else rest b s

  -- The loop of n_stream_getline: the characters in the block, the block, and the state
  unfoldable pub getline_loop :
      (fuel : ℕ) → Host → T.State → (block : List ℕ) (size n : ℕ) → Run (ℕ × List ℕ × T.State)
  getline_loop zero host s block size n = fault endless
  getline_loop (suc fuel) host s block size n = longer host block size n >>= λ (room, more).
      add_char n room (T.getc s) (λ b t. getline_loop fuel host t b more (n + 1))

  unfoldable pub obtain :
      Host → (max_canon : ℕ) (bufptr : Option (List ℕ)) (size : ℕ) → Run (List ℕ × ℕ)
  obtain host max_canon none size = malloc host max_canon >>= λ block. ok (block, max_canon)
  obtain host max_canon (some block) size = ok (block, size)

  -- n_stream_getline behind the call of n_stream_gets
  unfoldable pub go_on :
      (fuel : ℕ) → Host → (size : ℕ) → ℕ × List ℕ × Stream T → Run (ℕ × List ℕ × Stream T)
  go_on fuel host size (n, block, st) =
      if ltb n ((size + 2 ^ 64 - 1) % 2 ^ 64)
      then ok (n, block, st)
      else (getline_loop fuel host st.state block size n >>= λ (m, longest, s).
          store longest m 0 >>= λ b. ok (m, b, record st { state = s }))

  -- n_stream_getline: what it returns, the block at `bufptr`, and the stream. Every round of the
  -- loop takes a character from the stream, so that `fuel` is a bound on those.
  unfoldable pub getline :
      (fuel : ℕ)
      → Host
      → (max_canon : ℕ) → Stream T
      → (bufptr : Option (List ℕ)) (size : ℕ) → Run (ℕ × List ℕ × Stream T)
  getline fuel host max_canon st bufptr size =
      obtain host max_canon bufptr size >>= λ (block, room).
      store block 0 0 >>= λ b. gets st b room >>= go_on fuel host room
