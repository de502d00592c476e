-- ===== src/Stream/Moves.antt =====
-- Whole reads and writes on a stream that is a file.
use trurlib.Prelude.{
  ℕ, ◌^◌, ◌<◌, ◌≡◌, ap, ◌∙◌, true, none, some, List, [], ◌∷◌, ◌++◌, append-nil, arith, length,
  ==_refl,
}
use trurlib.Prelude.Int.{pos}
use trurlib.Buf.Host.{Host, net16, net32}
use trurlib.Buf.State.{seek_cur, seek_set}
use trurlib.Stream.{
  Table, Stream, write_uint16, write_uint32, read, write, seek, read_exact, read_uint8, read_uint16,
  read_uint32,
}
use trurlib.Stream.File.{IsFile}

module _ (T : Table) (file : IsFile T) where
  -- The stream has no hook, and what is behind and ahead of its place
  pub record IsAt (st : Stream T) (behind ahead : List ℕ) : Type 0 where
    pub past : file.behind st.state ≡ behind
    pub next : file.ahead st.state ≡ ahead
    pub unhooked : st.write_hook ≡ none

  pub write-IsAt :
      (st : Stream T) (behind bytes : List ℕ)
      → IsAt st behind []
      → length bytes < 2 ^ 31
      → (after : Stream T) × (write T st bytes ≡ (pos (length bytes), after))
        × IsAt after (behind ++ bytes) []
  unfolding write
  write-IsAt st behind bytes here small =
      let (s, run, b, a) = file.write-append st.state bytes here.next small in
      (
        record st { state = s },
        rw (here.unhooked, run),
        record { past = b ∙ ap (λ p. p ++ bytes) here.past; next = a; unhooked = here.unhooked },
      )

  module _ (st : Stream T) (behind : List ℕ) (v : ℕ) (host : Host) where
    pub write_uint16-IsAt :
        v < 2 ^ 16
        → IsAt st behind []
        → (after : Stream T) × (write_uint16 T host st v ≡ (true, after))
          × IsAt after (behind ++ net16 v) []
    unfolding write_uint16
    write_uint16-IsAt small here =
        let (after, run, done) = write-IsAt st behind (net16 v) here (omega arith) in
        (after, rw (host.bytes16-hton16 v small, run), done)

    pub write_uint32-IsAt :
        v < 2 ^ 32
        → IsAt st behind []
        → (after : Stream T) × (write_uint32 T host st v ≡ (true, after))
          × IsAt after (behind ++ net32 v) []
    unfolding write_uint32
    write_uint32-IsAt small here =
        let (after, run, done) = write-IsAt st behind (net32 v) here (omega arith) in
        (after, rw (host.bytes32-hton32 v small, run), done)

  pub read-IsAt :
      (st : Stream T) (behind bytes rest : List ℕ)
      → IsAt st behind (bytes ++ rest)
      → length bytes < 2 ^ 31
      → (after : Stream T) × (read T st (length bytes) ≡ (pos (length bytes), bytes, after))
        × IsAt after (behind ++ bytes) rest
  unfolding read
  read-IsAt st behind bytes rest here small =
      let (s, run, b, a) = file.read-all st.state bytes rest here.next small in
      (
        record st { state = s },
        rw run,
        record { past = b ∙ ap (λ p. p ++ bytes) here.past; next = a; unhooked = here.unhooked },
      )

  pub read_exact-IsAt :
      (st : Stream T) (behind bytes rest : List ℕ)
      → IsAt st behind (bytes ++ rest)
      → length bytes < 2 ^ 31
      → (after : Stream T) × (read_exact T st (length bytes) ≡ (some bytes, after))
        × IsAt after (behind ++ bytes) rest
  unfolding read_exact
  read_exact-IsAt st behind bytes rest here small =
      let (after, run, done) = read-IsAt st behind bytes rest here small in
      (after, rw (run, ==_refl (length bytes)), done)

  -- To go back to a place that is behind
  pub seek_set-IsAt :
      (st : Stream T) (behind bytes : List ℕ)
      → IsAt st (behind ++ bytes) []
      → (after : Stream T) × (seek T st (length behind) seek_set ≡ (pos 0, after))
        × IsAt after behind bytes
  unfolding seek
  seek_set-IsAt st behind bytes here =
      let (s, run, b, a) =
        file.seek-set st.state behind bytes
          (rw (here.past, here.next) (append-nil (behind ++ bytes))) in
      (record st { state = s }, rw run, record { past = b; next = a; unhooked = here.unhooked })

  pub seek_cur-IsAt :
      (st : Stream T) (behind bytes rest : List ℕ)
      → IsAt st behind (bytes ++ rest)
      → (after : Stream T) × (seek T st (length bytes) seek_cur ≡ (pos 0, after))
        × IsAt after (behind ++ bytes) rest
  unfolding seek
  seek_cur-IsAt st behind bytes rest here =
      let (s, run, b, a) = file.seek-skip st.state bytes rest here.next in
      (
        record st { state = s },
        rw run,
        record { past = b ∙ ap (λ p. p ++ bytes) here.past; next = a; unhooked = here.unhooked },
      )

  module _ (st : Stream T) (behind : List ℕ) (v : ℕ) (rest : List ℕ) where
    pub read_uint8-IsAt :
        IsAt st behind (v ∷ rest)
        → (after : Stream T) × (read_uint8 T st ≡ (some v, after))
          × IsAt after (behind ++ (v ∷ [])) rest
    unfolding read_uint8
    read_uint8-IsAt here =
        let (after, run, done) = read_exact-IsAt st behind (v ∷ []) rest here (omega arith) in
        (after, rw run, done)

    pub read_uint16-IsAt :
        (host : Host)
        → v < 2 ^ 16
        → IsAt st behind (net16 v ++ rest)
        → (after : Stream T) × (read_uint16 T host st ≡ (some v, after))
          × IsAt after (behind ++ net16 v) rest
    unfolding read_uint16
    read_uint16-IsAt host small here =
        let (after, run, done) = read_exact-IsAt st behind (net16 v) rest here (omega arith) in
        (after, rw (run, host.ntoh16-word16 v small), done)

    pub read_uint32-IsAt :
        (host : Host)
        → v < 2 ^ 32
        → IsAt st behind (net32 v ++ rest)
        → (after : Stream T) × (read_uint32 T host st ≡ (some v, after))
          × IsAt after (behind ++ net32 v) rest
    unfolding read_uint32
    read_uint32-IsAt host small here =
        let (after, run, done) = read_exact-IsAt st behind (net32 v) rest here (omega arith) in
        (after, rw (run, host.ntoh32-word32 v small), done)
