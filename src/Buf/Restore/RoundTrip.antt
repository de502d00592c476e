-- ===== src/Buf/Restore/RoundTrip.antt =====
-- A buffer that n_buf_store put in a stream is restored, or skipped.
use trurlib.Prelude.{
  ℕ, ◌-◌, ◌%◌, ◌^◌, ◌<◌, ◌≡◌, refl, sym, subst, true, false, none, some, List, [], ◌++◌, append-nil,
  append_assoc, arith, length, lt→ltb, le→leb, ==_refl,
}
use trurlib.Prelude.Int.{pos, to_int-small}
use trurlib.Prelude.Pieces.{take_long}
use trurlib.Run.{ok}
use trurlib.Buf.Host.{Host, net16, net32, malloc}
use trurlib.Buf.State.{Buf, seek_cur, seek_set, is_null, init, new}
use trurlib.Buf.State.View.{block_of, contents, IsBuf, length-contents}
use trurlib.Buf.Store.{SizeBits, nil, bits16, bits32, size_of}
use trurlib.Stream
use trurlib.Stream.{Table, Stream, write_uint16, write_uint32, seek}
use trurlib.Stream.File.{IsFile}
use trurlib.Stream.Moves.{
  IsAt, write-IsAt, read-IsAt, write_uint16-IsAt, write_uint32-IsAt, seek_set-IsAt, seek_cur-IsAt,
  read_uint16-IsAt, read_uint32-IsAt,
}
use trurlib.Store.RoundTrip.{number, store_uint32-IsAt, restore_uint32-IsAt}
use trurlib.Buf.Restore.{store_head, store, bytes_of, restore_head, restore_skip, wrap, restore_ex}

-- The forms of the size, with the bytes of it and the sizes that are taken
pub data IsHeader (size : ℕ) : SizeBits → List ℕ → Type 0 where
  in_number : size < 2 ^ 31 → IsHeader size nil (number size)
  in_16 : size < 2 ^ 15 - 1 → IsHeader size bits16 (net16 size)
  in_32 : size < 2 ^ 31 - 1 → IsHeader size bits32 (net32 size)

pub IsHeader-lt :
    {size : ℕ} {mode : SizeBits} {head : List ℕ} → IsHeader size mode head → size < 2 ^ 31
IsHeader-lt (in_number less) = less
IsHeader-lt (in_16 less) = omega arith
IsHeader-lt (in_32 less) = omega arith

module _ (T : Table) (file : IsFile T) (host : Host) where
  store_head-IsAt :
      (buf : Buf) (st : Stream T) (behind : List ℕ) {mode : SizeBits} {head : List ℕ}
      → IsHeader buf.size mode head
      → IsAt T file st behind []
      → (after : Stream T) × (store_head T host buf st mode ≡ ok after)
        × IsAt T file after (behind ++ head) []
  unfolding store_head size_of
  store_head-IsAt buf st behind (in_number less) here =
      let (after, run, done) =
        store_uint32-IsAt T file host st behind buf.size here (omega (arith, less)) in
      let e : buf.size % 2 ^ 32 ≡ buf.size = omega (arith, less) in
      (after, rw (to_int-small buf.size less, e, run), done)
  store_head-IsAt buf st behind (in_16 less) here =
      let (after, run, done) =
        write_uint16-IsAt T file st behind buf.size host (omega (arith, less)) here in
      let e : buf.size % 2 ^ 16 ≡ buf.size = omega (arith, less) in
      (
        after,
        rw (to_int-small buf.size (omega (arith, less)), lt→ltb buf.size (2 ^ 15 - 1) less, e, run),
        done,
      )
  store_head-IsAt buf st behind (in_32 less) here =
      let (after, run, done) =
        write_uint32-IsAt T file st behind buf.size host (omega (arith, less)) here in
      let e : buf.size % 2 ^ 32 ≡ buf.size = omega (arith, less) in
      (
        after,
        rw (to_int-small buf.size (omega (arith, less)), lt→ltb buf.size (2 ^ 31 - 1) less, e, run),
        done,
      )

  bytes_of-contents : (buf : Buf) → IsBuf buf → bytes_of buf buf.size ≡ ok (contents buf)
  unfolding bytes_of
  bytes_of-contents buf wf =
      rw (le→leb buf.size (length (block_of buf.cells)) (omega (arith, wf.counted, wf.within)))

  store-IsAt :
      (buf : Buf) (st : Stream T) (behind : List ℕ) {mode : SizeBits} {head : List ℕ}
      → IsHeader buf.size mode head
      → IsBuf buf
      → IsAt T file st behind []
      → (after : Stream T) × (store T host buf st mode ≡ ok (true, after))
        × IsAt T file after (behind ++ (head ++ contents buf)) []
  unfolding store size_of
  store-IsAt buf st behind {head} header wf here =
      let (headed, run, there) = store_head-IsAt buf st behind header here in
      let len = length-contents buf wf in
      let small = IsHeader-lt header in
      let (after, run', done) =
        write-IsAt T file headed (behind ++ head) (contents buf) there
          (omega (arith, len, small)) in
      (
        after,
        rw (
          run,
          to_int-small buf.size small,
          bytes_of-contents buf wf,
          run',
          len,
          ==_refl buf.size,
        ),
        subst (λ b. IsAt T file after b []) (append_assoc behind head (contents buf)) done,
      )

  restore_head-IsAt :
      (st : Stream T) (behind rest : List ℕ) {size : ℕ} {mode : SizeBits} {head : List ℕ}
      → IsHeader size mode head
      → IsAt T file st behind (head ++ rest)
      → (after : Stream T) × (restore_head T host st mode ≡ ok (size, after))
        × IsAt T file after (behind ++ head) rest
  unfolding restore_head
  restore_head-IsAt st behind rest {size} (in_number less) here =
      let (after, run, done) =
        restore_uint32-IsAt T file host st behind rest size here (omega (arith, less)) in
      (after, rw run, done)
  restore_head-IsAt st behind rest {size} (in_16 less) here =
      let (after, run, done) =
        read_uint16-IsAt T file st behind size rest host (omega (arith, less)) here in
      (after, rw run, done)
  restore_head-IsAt st behind rest {size} (in_32 less) here =
      let (after, run, done) =
        read_uint32-IsAt T file st behind size rest host (omega (arith, less)) here in
      (after, rw run, done)

  -- A buffer that owns the bytes, of constant size
  restored : List ℕ → ℕ → Buf
  restored bytes n = record {
    refcnt = 0;
    flags = record { const_size = true; const_data = false };
    cells = some bytes;
    allocated = n;
    size = n;
    off = 0;
  }

  restore_ex-step :
      (st headed after : Stream T) (mode : SizeBits) (bytes : List ℕ) (size : ℕ)
      → size < 2 ^ 31
      → restore_head T host st mode ≡ ok (size, headed)
      → Stream.read T headed size ≡ (pos size, bytes, after)
      → restore_ex T host st mode none ≡ ok (pos 1, some (restored bytes size), after)
  unfolding restore_ex wrap new init is_null malloc restored
  restore_ex-step st headed after mode bytes size small run run' = rw (
    run,
    lt→ltb size (2 ^ 63) (omega (arith, small)),
    run',
    to_int-small size small,
    ==_refl size,
  )

  restore_skip-step :
      (st headed after : Stream T) (mode : SizeBits) (size : ℕ)
      → restore_head T host st mode ≡ ok (size, headed)
      → Stream.seek T headed size seek_cur ≡ (pos 0, after)
      → restore_skip T host st mode ≡ ok (pos 0, after)
  unfolding restore_skip
  restore_skip-step st headed after mode size run run' = rw (run, run')

  module _ (buf : Buf) (st : Stream T) (behind : List ℕ) (mode : SizeBits) (head : List ℕ)
      (header : IsHeader buf.size mode head) (wf : IsBuf buf) where
    -- A buffer below 2 ^ 31 bytes, or below the limit of its form, stored at the end of a stream
    -- that is a file without a hook, where the call reports success: behind a seek to the old end
    -- it is restored for `bptr` as a buffer with the same bytes, whose fields fit each other, of
    -- constant size and owner of its block, and the stream is at its end.
    pub store-restore_ex :
        IsAt T file st behind []
        → (after back last : Stream T) × (other : Buf) × (store T host buf st mode
            ≡ ok (true, after))
          × (Stream.seek T after (length behind) seek_set ≡ (pos 0, back))
          × (restore_ex T host back mode none ≡ ok (pos 1, some other, last))
          × (contents other ≡ contents buf)
          × IsBuf other
          × (other.flags ≡ record { const_size = true; const_data = false })
          × IsAt T file last (behind ++ (head ++ contents buf)) []
    unfolding restored
    store-restore_ex here =
        let bytes = contents buf in
        let len = length-contents buf wf in
        let small = IsHeader-lt header in
        let (after, stored, there) = store-IsAt buf st behind header wf here in
        let (back, sought, again) = seek_set-IsAt T file after behind (head ++ bytes) there in
        let (headed, first, near) = restore_head-IsAt back behind bytes header again in
        let (last, second, done) =
          read-IsAt T file headed (behind ++ head) bytes []
            (subst (λ b. IsAt T file headed (behind ++ head) b) (sym (append-nil bytes)) near)
            (omega (arith, len, small)) in
        let second' : Stream.read T headed buf.size ≡ (pos buf.size, bytes, last) =
          subst (λ n. Stream.read T headed n ≡ (pos n, bytes, last)) len second in
        (
          after,
          back,
          last,
          restored bytes buf.size,
          stored,
          sought,
          restore_ex-step back headed last mode bytes buf.size small first second',
          take_long bytes buf.size (omega (arith, len)),
          record { counted = len; within = omega arith },
          refl,
          subst (λ b. IsAt T file last b []) (append_assoc behind head bytes) done,
        )

    -- The same, where n_buf_restore_skip comes in place of the restore: it returns 0, and the
    -- stream is behind the buffer.
    pub store-restore_skip :
        IsAt T file st behind []
        → (after back last : Stream T) × (store T host buf st mode ≡ ok (true, after))
          × (Stream.seek T after (length behind) seek_set ≡ (pos 0, back))
          × (restore_skip T host back mode ≡ ok (pos 0, last))
          × IsAt T file last (behind ++ (head ++ contents buf)) []
    store-restore_skip here =
        let bytes = contents buf in
        let len = length-contents buf wf in
        let (after, stored, there) = store-IsAt buf st behind header wf here in
        let (back, sought, again) = seek_set-IsAt T file after behind (head ++ bytes) there in
        let (headed, first, near) = restore_head-IsAt back behind bytes header again in
        let (last, second, done) =
          seek_cur-IsAt T file headed (behind ++ head) bytes []
            (subst (λ b. IsAt T file headed (behind ++ head) b) (sym (append-nil bytes)) near) in
        let second' : Stream.seek T headed buf.size seek_cur ≡ (pos 0, last) =
          subst (λ n. Stream.seek T headed n seek_cur ≡ (pos 0, last)) len second in
        (
          after,
          back,
          last,
          stored,
          sought,
          restore_skip-step back headed last mode buf.size first second',
          subst (λ b. IsAt T file last b []) (append_assoc behind head bytes) done,
        )
