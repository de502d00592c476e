-- ===== src/Buf/Write/Appended.antt =====
-- A write at the end of a buffer appends.
use Prim.Native.Nat.{max}
use trurlib.Prelude.{
  ℕ, ◌+◌, ◌*◌, ◌%◌, ◌^◌, ◌<◌, ◌≤◌, ◌≡◌, sym, refl, ap, ◌∙◌, false, le→leb, Option, none, some, take,
  List, ◌++◌, append-nil, arith, length,
}
use trurlib.Prelude.Int.{ℤ, pos}
use trurlib.Prelude.Pieces.{take_long, drop_long, take-take, length-take}
use trurlib.Run.{Run, ok, assert_fail, die, fault, Returns, ◌>>=◌}
use trurlib.Buf.Host.{Host}
use trurlib.Buf.State.{Buf, at}
use trurlib.Buf.State.View.{contents, IsBuf, length-contents}
use trurlib.Buf.Write.{copy_in, end_at, put, make_room, write_ex, write}
use trurlib.Buf.Write.Overwritten.{write_ex-IsWritten, overwrite}

overwrite-end :
    (off : ℕ) (src xs : List ℕ) → off ≡ length xs → overwrite off src false xs ≡ xs ++ src
overwrite-end off src xs e =
    rw (
      take_long xs off (omega arith),
      drop_long (off + length src) xs (omega arith),
      append-nil src,
    )

-- The fields fit each other, the offset is at the end, and the buffer may grow.
pub record IsOpen (buf : Buf) : Type 0 where
  pub fits : IsBuf buf
  pub at_end : buf.off ≡ buf.size
  pub grows : buf.flags.const_size ≡ false

-- A write of all of some bytes at the end appends them.
pub write-append :
    (host : Host) (buf : Buf) (src : List ℕ)
    → IsOpen buf
    → buf.allocated + length src + 2 < 2 ^ 30
    → Returns (write host buf src (pos (length src))) (λ (n, after).
      (n ≡ pos (length src))
      × IsOpen after
      × (contents after ≡ contents buf ++ src)
      × (after.allocated ≤ max buf.allocated (4 * (buf.size + length src) + 6)))
unfolding write
write-append host buf src ready small =
    let ((n, after), run, (en, done)) =
      write_ex-IsWritten host buf src false ready.fits ready.grows (omega (arith, ready.at_end))
        small in
    (
      (n, after),
      run,
      (
        en,
        record {
          fits = done.fits;
          at_end = omega (arith, done.moved, done.longer, ready.at_end);
          grows = ap (λ f. f.const_size) (done.kept.1) ∙ ready.grows;
        },
        done.written
            ∙ overwrite-end buf.off src (contents buf)
                (ready.at_end ∙ sym (length-contents buf ready.fits)),
        omega (arith, done.tight, ready.at_end),
      ),
    )

copy_in-take :
    (block src : List ℕ) (i n : ℕ)
    → n ≤ length src
    → copy_in block i src n ≡ copy_in block i (take n src) n
unfolding copy_in
copy_in-take block src i n le = rw (
  le→leb n (length src) le,
  le→leb n (length (take n src)) (omega (arith, length-take n src le)),
  take-take src n n (omega arith),
)

at-take :
    (cells : Option (List ℕ)) (src : List ℕ) (i n : ℕ) (rest : List ℕ → Run (List ℕ))
    → n ≤ length src
    → at cells (λ b. copy_in b i src n >>= rest)
      ≡ at cells (λ b. copy_in b i (take n src) n >>= rest)
unfolding at
at-take none src i n rest le = refl
at-take (some block) src i n rest le = rw (copy_in-take block src i n le)

-- Only the bytes that are counted are read.
pub write-take :
    (host : Host) (buf : Buf) (src : List ℕ) (n : ℕ)
    → n ≤ length src
    → write host buf src (pos n) ≡ write host buf (take n src) (pos n)
unfolding write write_ex put
write-take host buf src n le = again (make_room host buf (pos n) false)
  where
    same : (room : Buf) → put room src (pos n) false ≡ put room (take n src) (pos n) false
    same room = rw (at-take room.cells src room.off n (end_at false ((room.off + n) % 2 ^ 64)) le)

    put_all : List ℕ → Buf → Run (ℤ × Buf)
    put_all bytes room = put room bytes (pos n) false >>= λ done. ok (pos n, done)

    again : (room : Run Buf) → (room >>= put_all src) ≡ (room >>= put_all (take n src))
    again assert_fail = refl
    again (die why) = refl
    again (fault what) = refl
    again (ok room) = rw (same room)
