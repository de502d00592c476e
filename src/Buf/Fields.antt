-- ===== src/Buf/Fields.antt =====
-- Numbers written to a buffer and read back: n_buf_write_int8, n_buf_write_int16 and
-- n_buf_write_int32 against n_buf_it_get_int8, n_buf_it_get_int16 and n_buf_it_get_int32.
use trurlib.Prelude.{
  ℕ, ◌+◌, ◌*◌, ◌%◌, ◌^◌, ◌<◌, ◌≤◌, ◌≡◌, refl, sym, ap, ◌∙◌, Option, some, List, [], ◌∷◌, ◌++◌, map,
  append-nil, append_assoc, arith, length, length-append,
}
use Prim.Native.Nat.{max}
use trurlib.Prelude.Int.{ℤ, pos}
use trurlib.Run.{Run, ok, Returns, ◌>>=◌}
use trurlib.Buf.Host.{Host, net16, net32}
use trurlib.Buf.State.{Buf, to_size_t}
use trurlib.Buf.State.View.{contents, IsBuf, length-contents}
use trurlib.Buf.Write.{write, write_int8, write_int16, write_int32}
use trurlib.Buf.Write.Appended.{IsOpen, write-append}
use trurlib.Buf.Iterator.{It, get_int8, get_int16, get_int32}
use trurlib.Buf.Iterator.Reads.{it_at, bytes_at_lem, get_lem, load_at, block-eq}

pub data Width : Type 0 where
  w8 w16 w32 : Width

unfoldable pub write_one : Host → Buf → Width × ℤ → Run (ℤ × Buf)
write_one host buf (w8, v) = write_int8 host buf v
write_one host buf (w16, v) = write_int16 host buf v
write_one host buf (w32, v) = write_int32 host buf v

unfoldable pub write_fields : Host → Buf → List (Width × ℤ) → Run Buf
write_fields host buf [] = ok buf
write_fields host buf (f ∷ fs) = write_one host buf f >>= λ (n, after). write_fields host after fs

unfoldable pub read_one : Host → Buf → It → Width → Run (Option ℕ × It)
read_one host buf it w8 = get_int8 buf it
read_one host buf it w16 = get_int16 host buf it
read_one host buf it w32 = get_int32 host buf it

unfoldable pub read_fields : Host → Buf → It → List Width → Run (List (Option ℕ) × It)
read_fields host buf it [] = ok ([], it)
read_fields host buf it (w ∷ ws) = do
  (v, it) ← read_one host buf it w
  (vs, it) ← read_fields host buf it ws
  ok (v ∷ vs, it)

-- The unsigned value that a field of the width holds
abbrev pub value : Width × ℤ → ℕ
value (w8, v) = to_size_t v % 2 ^ 8
value (w16, v) = to_size_t v % 2 ^ 16
value (w32, v) = to_size_t v % 2 ^ 32

-- The bytes of a field, in network order
abbrev pub encode : Width × ℤ → List ℕ
encode (w8, v) = (to_size_t v % 2 ^ 8) ∷ []
encode (w16, v) = net16 (to_size_t v % 2 ^ 16)
encode (w32, v) = net32 (to_size_t v % 2 ^ 32)

abbrev pub encode_all : List (Width × ℤ) → List ℕ
encode_all [] = []
encode_all (f ∷ fs) = encode f ++ encode_all fs

pub write_one-eq :
    (host : Host) (buf : Buf) (f : Width × ℤ)
    → write_one host buf f ≡ write host buf (encode f) (pos (length (encode f)))
unfolding write_one write_int8 write_int16 write_int32
write_one-eq host buf (w8, v) = refl
write_one-eq host buf (w16, v) = rw (host.bytes16-hton16 (to_size_t v % 2 ^ 16) (omega arith))
write_one-eq host buf (w32, v) = rw (host.bytes32-hton32 (to_size_t v % 2 ^ 32) (omega arith))

pub length-encode : (f : Width × ℤ) → length (encode f) ≤ 4
length-encode (w8, v) = omega arith
length-encode (w16, v) = omega arith
length-encode (w32, v) = omega arith

write_fields-append :
    (host : Host) (buf : Buf) (fs : List (Width × ℤ))
    → IsOpen buf
    → max buf.allocated (4 * (buf.size + length (encode_all fs)) + 6) + 8 < 2 ^ 30
    → Returns
        (write_fields host buf fs)
        (λ after. IsOpen after × (contents after ≡ contents buf ++ encode_all fs))
unfolding write_fields
write_fields-append host buf [] ready small = (buf, refl, (ready, sym (append-nil (contents buf))))
write_fields-append host buf (f ∷ fs) ready small =
    let ((n, next), run, (en, ready', is_next, tight)) =
      write-append host buf (encode f) ready
        (omega (arith, length-encode f, length-append (encode f) (encode_all fs))) in
    let size : next.size ≡ buf.size + length (encode f) = omega (
      arith,
      ap length is_next,
      length-append (contents buf) (encode f),
      length-contents buf ready.fits,
      length-contents next ready'.fits,
    ) in
    let (after, run', (ready'', e)) =
      write_fields-append host next fs ready'
        (omega (arith, size, tight, small, length-append (encode f) (encode_all fs))) in
    (
      after,
      rw (write_one-eq host buf f, run, run'),
      (ready'', rw (e, is_next) (append_assoc (contents buf) (encode f) (encode_all fs))),
    )

module _ (host : Host) (buf : Buf) (wf : IsBuf buf) (small : buf.size < 2 ^ 31) where
  pub read_one-value :
      (f : Width × ℤ) (pre post : List ℕ)
      → contents buf ≡ pre ++ (encode f ++ post)
      → read_one host buf (it_at (length pre)) (f.0)
        ≡ ok (some (value f), it_at (length pre + length (encode f)))
  unfolding read_one get_int8 get_int16 get_int32
  read_one-value (w8, v) pre post e =
      let some_size : 0 < buf.size =
        omega (
          arith,
          length-append pre (encode (w8, v) ++ post),
          ap length e,
          length-contents buf wf,
        ) in
      rw (
        get_lem buf pre (encode (w8, v)) post wf e some_size small,
        block-eq buf pre (encode (w8, v)) post wf e some_size small,
        load_at buf pre (value (w8, v)) post wf e,
      )
  read_one-value (w16, v) pre post e =
      let some_size : 0 < buf.size =
        omega (
          arith,
          length-append pre (encode (w16, v) ++ post),
          ap length e,
          length-contents buf wf,
        ) in
      rw (
        bytes_at_lem buf pre (encode (w16, v)) post wf e some_size small,
        host.ntoh16-word16 (value (w16, v)) (omega arith),
      )
  read_one-value (w32, v) pre post e =
      let some_size : 0 < buf.size =
        omega (
          arith,
          length-append pre (encode (w32, v) ++ post),
          ap length e,
          length-contents buf wf,
        ) in
      rw (
        bytes_at_lem buf pre (encode (w32, v)) post wf e some_size small,
        host.ntoh32-word32 (value (w32, v)) (omega arith),
      )

  read_fields-values :
      (fs : List (Width × ℤ)) (pre post : List ℕ)
      → contents buf ≡ pre ++ (encode_all fs ++ post)
      → read_fields host buf (it_at (length pre)) (map (λ f. f.0) fs)
        ≡ ok (map (λ f. some (value f)) fs, it_at (length pre + length (encode_all fs)))
  unfolding read_fields
  read_fields-values [] pre post e = ap (λ i. ok ([], it_at i)) (omega arith)
  read_fields-values (f ∷ fs) pre post e =
      let bytes = encode f in
      let e' : contents buf ≡ pre ++ (bytes ++ (encode_all fs ++ post)) =
        e ∙ ap (λ t. pre ++ t) (append_assoc bytes (encode_all fs) post) in
      let place : length (pre ++ bytes) ≡ length pre + length bytes = length-append pre bytes in
      let go =
        read_fields-values fs (pre ++ bytes) post
          (e' ∙ sym (append_assoc pre bytes (encode_all fs ++ post))) in
      let go' = ap (λ i. read_fields host buf (it_at i) (map (λ g. g.0) fs)) (sym place) ∙ go in
      rw (read_one-value f pre (encode_all fs ++ post) e', go')
        (ap (λ i. ok (map (λ g. some (value g)) (f ∷ fs), it_at i))
          (omega (arith, place, length-append bytes (encode_all fs))))

-- 8, 16 and 32 bit fields written at the end of a buffer that may grow, while what it then needs
-- is below 2 ^ 30, are read back by an iterator that stands at its old end: the unsigned value of
-- every field, with the iterator at the new end.
pub write_fields-read_fields :
    (host : Host) (buf : Buf) (fs : List (Width × ℤ))
    → IsOpen buf
    → max buf.allocated (4 * (buf.size + length (encode_all fs)) + 6) + 8 < 2 ^ 30
    → Returns (write_fields host buf fs) (λ after.
      read_fields host after (it_at buf.size) (map (λ f. f.0) fs)
      ≡ ok (map (λ f. some (value f)) fs, it_at after.size))
write_fields-read_fields host buf fs ready small =
    let (after, run, (ready', e)) = write_fields-append host buf fs ready small in
    let bytes = encode_all fs in
    let old = length-contents buf ready.fits in
    let size : length (contents buf) + length bytes ≡ after.size =
      omega (
        arith,
        ap length e,
        length-append (contents buf) bytes,
        length-contents after ready'.fits,
      ) in
    let go =
      read_fields-values host after ready'.fits (omega (arith, size, old, small)) fs (contents buf)
        [] (e ∙ ap (λ t. contents buf ++ t) (sym (append-nil bytes))) in
    (
      after,
      run,
      ap (λ i. read_fields host after (it_at i) (map (λ f. f.0) fs)) (sym old)
          ∙ (go ∙ ap (λ i. ok (map (λ f. some (value f)) fs, it_at i)) size),
    )
