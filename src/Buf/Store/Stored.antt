-- ===== src/Buf/Store/Stored.antt =====
-- A buffer that n_buf_store_buf stored is read back.
use Prim.Native.Nat.{max}
use trurlib.Prelude.{
  ℕ, ◌+◌, ◌-◌, ◌*◌, ◌^◌, ◌<◌, ◌≤◌, ◌≡◌, sym, ap, ◌∙◌, subst, Option, none, some, List, [], ◌++◌,
  append-nil, append_assoc, arith, length, length-append, lt→ltb,
}
use trurlib.Prelude.Int.{ℤ, pos, to_int-small}
use trurlib.Run.{Run, ok, Returns, ◌>>=◌}
use trurlib.Buf.Host.{Host}
use trurlib.Buf.State.{Buf}
use trurlib.Buf.State.View.{block_of, contents, IsBuf, length-contents}
use trurlib.Buf.Write.{write}
use trurlib.Buf.Write.Appended.{IsOpen, write-append, write-take}
use trurlib.Buf.Iterator.{It, get, read, bytes_at}
use trurlib.Buf.Iterator.Reads.{it_at, bytes_at_lem}
use trurlib.Buf.Fields.{
  Width, w16, w32, write_one, read_one, value, encode, write_one-eq, length-encode, read_one-value,
}
use trurlib.Buf.Store.{SizeBits, bits16, bits32, size_of, store_size, store_buf}

-- The width of the size at the head, and the sizes that are taken
pub data IsHead : SizeBits → Width → ℕ → Type 0 where
  head16 : IsHead bits16 w16 (2 ^ 15 - 1)
  head32 : IsHead bits32 w32 (2 ^ 31 - 1)

-- The size, and as many bytes
unfoldable pub read_stored : Host → Buf → It → Width → Run (Option (List ℕ) × It)
read_stored host buf it w = read_one host buf it w >>= λ (size, next). elim size [
  | none ↦ ok (none, next)
  | some n ↦ read buf next n >>= λ (count, bytes, last). ok (bytes, last)
]

size_of-pos : (buf : Buf) → buf.size < 2 ^ 31 → size_of buf ≡ pos buf.size
unfolding size_of
size_of-pos buf small = to_int-small buf.size small

store_size-head :
    (host : Host) (buf to : Buf) {mode : SizeBits} {w : Width} {limit : ℕ}
    → IsHead mode w limit
    → buf.size < limit
    → store_size host buf to mode ≡ (write_one host to (w, pos buf.size) >>= λ (n, after). ok after)
unfolding store_size write_one
store_size-head host buf to head16 small =
    rw (size_of-pos buf (omega arith), lt→ltb buf.size (2 ^ 15 - 1) small)
store_size-head host buf to head32 small =
    rw (size_of-pos buf (omega arith), lt→ltb buf.size (2 ^ 31 - 1) small)

value-head :
    (n : ℕ) {mode : SizeBits} {w : Width} {limit : ℕ}
    → IsHead mode w limit
    → n < limit
    → value (w, pos n) ≡ n
value-head n head16 small = omega arith
value-head n head32 small = omega arith

limit-le : {mode : SizeBits} {w : Width} {limit : ℕ} → IsHead mode w limit → limit ≤ 2 ^ 31 - 1
limit-le head16 = omega arith
limit-le head32 = omega arith

module _ (host : Host) (buf to : Buf) (mode : SizeBits) (w : Width) (limit : ℕ)
    (head : IsHead mode w limit) (fits : buf.size < limit) (wf : IsBuf buf) (ready : IsOpen to)
    (small : max to.allocated (4 * (to.size + buf.size) + 22) + buf.size + 8 < 2 ^ 30) where
  store_buf-append : Returns (store_buf host buf to mode) (λ (n, after).
      (n ≡ pos buf.size)
      × IsOpen after
      × (contents after ≡ contents to ++ (encode (w, pos buf.size) ++ contents buf)))
  unfolding store_buf
  store_buf-append =
      let f : Width × ℤ = (w, pos buf.size) in
      let len = length-contents buf wf in
      let ((_, headed), run, (_, ready', e, tight)) =
        write-append host to (encode f) ready (omega (arith, length-encode f)) in
      let ((n, after), run', (en, ready'', e', _)) =
        write-append host headed (contents buf) ready'
          (omega (arith, tight, length-encode f, len)) in
      let cut =
        write-take host headed (block_of buf.cells) buf.size
          (omega (arith, wf.counted, wf.within)) in
      let last = ap (λ k. write host headed (contents buf) (pos k)) (sym len) ∙ run' in
      (
        (n, after),
        rw (
          store_size-head host buf to head fits,
          write_one-eq host to f,
          run,
          size_of-pos buf (omega (arith, limit-le head, fits)),
          cut ∙ last,
        ),
        (
          en ∙ ap pos len,
          ready'',
          rw (e', e) (append_assoc (contents to) (encode f) (contents buf)),
        ),
      )

  read_stored-contents :
      (after : Buf)
      → IsOpen after
      → contents after ≡ contents to ++ (encode (w, pos buf.size) ++ contents buf)
      → read_stored host after (it_at to.size) w ≡ ok (some (contents buf), it_at after.size)
  unfolding read_stored read
  read_stored-contents after done e =
      let f : Width × ℤ = (w, pos buf.size) in
      let bytes = contents buf in
      let pre = contents to ++ encode f in
      let len = length-contents buf wf in
      let old = length-contents to ready.fits in
      let place : length pre ≡ length (contents to) + length (encode f) =
        length-append (contents to) (encode f) in
      let total : length pre + length bytes ≡ after.size = omega (
        arith,
        ap length e,
        length-append (contents to) (encode f ++ bytes),
        length-append (encode f) bytes,
        length-contents after done.fits,
        place,
      ) in
      let below : after.size < 2 ^ 31 =
        omega (arith, total, place, length-encode f, old, len, small) in
      let some_size : 0 < after.size = omega (arith, total, place, some_head) in
      let size =
        ap (λ i. read_one host after (it_at i) w) (sym old)
        ∙ read_one-value host after done.fits below f (contents to) bytes e in
      let split =
        e
        ∙ (sym (append_assoc (contents to) (encode f) bytes)
            ∙ ap (λ t. pre ++ t) (sym (append-nil bytes))) in
      let body = bytes_at_lem after pre bytes [] done.fits split some_size below in
      let body' : bytes_at after buf.size
            (get after (it_at (length (contents to) + length (encode f))) buf.size)
          ≡ ok (some bytes, it_at after.size) =
        subst
          (λ k.
            bytes_at after k (get after (it_at (length (contents to) + length (encode f))) k)
            ≡ ok (some bytes, it_at after.size))
          len
          (subst
            (λ i.
              bytes_at after (length bytes) (get after (it_at i) (length bytes))
              ≡ ok (some bytes, it_at after.size))
            place (body ∙ ap (λ i. ok (some bytes, it_at i)) total)) in
      rw (size, value-head buf.size head fits, body')
    where
      some_head : 0 < length (encode (w, pos buf.size))
      some_head = positive head
        where
          positive :
              {b : SizeBits} {v : Width} {l : ℕ}
              → IsHead b v l
              → 0 < length (encode (v, pos buf.size))
          positive head16 = omega arith
          positive head32 = omega arith

-- A buffer stored at the end of another, in the form with 16 or with 32 mode for the size, which
-- is below 2 ^ 15 - 1 and 2 ^ 31 - 1, while what the other then needs is below 2 ^ 30: the call
-- returns the size, and an iterator at the old end reads the size and then the bytes that the
-- buffer holds, up to the new end.
pub store_buf-read_stored :
    (host : Host) (buf to : Buf) (mode : SizeBits) (w : Width) (limit : ℕ)
    → IsHead mode w limit
    → buf.size < limit
    → IsBuf buf
    → IsOpen to
    → max to.allocated (4 * (to.size + buf.size) + 22) + buf.size + 8 < 2 ^ 30
    → Returns (store_buf host buf to mode) (λ (n, after).
      (n ≡ pos buf.size)
      × (read_stored host after (it_at to.size) w ≡ ok (some (contents buf), it_at after.size)))
store_buf-read_stored host buf to mode w limit head fits wf ready small =
    let ((n, after), run, (en, done, e)) =
      store_buf-append host buf to mode w limit head fits wf ready small in
    (
      (n, after),
      run,
      (en, read_stored-contents host buf to mode w limit head fits wf ready small after done e),
    )
