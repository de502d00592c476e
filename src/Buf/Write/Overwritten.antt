-- ===== src/Buf/Write/Overwritten.antt =====
-- What n_buf_write_ex does to the bytes that a buffer holds.
use Prim.Native.Nat.{max}
use trurlib.Prelude.{
  ℕ, zero, suc, ◌+◌, ◌-◌, ◌*◌, ◌%◌, ◌^◌, ◌<◌, ◌≤◌, ◌≡◌, refl, sym, ap, ◌∙◌, Bool, true, false, some,
  List, [], ◌∷◌, ◌++◌, append_assoc, arith, le→leb, length, length-append, take, drop,
}
use trurlib.Prelude.Int.{pos}
use trurlib.Prelude.Pieces.{
  length-take, length-drop, take_long, take-append_left, take-append_right, take-take, drop-take,
}
use trurlib.Run.{ok, Returns, ◌>>=◌}
use trurlib.Memory.Block.{load}
use trurlib.Memory.Laws.{load-append_right, store-append}
use trurlib.Buf.Host.{Host}
use trurlib.Buf.State.{Buf, at}
use trurlib.Buf.State.View.{block_of, contents, IsBuf}
use trurlib.Buf.Write.{copy_in, one_if, end_at, put, write_ex}
use trurlib.Buf.Write.Room.{lengthened, HasRoom, one_if-le, make_room-ok}

-- With an end, the byte behind what is written becomes 0.
abbrev pub stamp : Bool → List ℕ → List ℕ
stamp false xs = xs
stamp true [] = []
stamp true (x ∷ xs) = 0 ∷ xs

-- `src` over the bytes from `off` on
abbrev pub overwrite : (off : ℕ) (src : List ℕ) (ended : Bool) → List ℕ → List ℕ
overwrite off src ended xs = take off xs ++ (src ++ stamp ended (drop (off + length src) xs))

take-stamp :
    (ended : Bool) (k : ℕ) (xs : List ℕ) → take k (stamp ended xs) ≡ stamp ended (take k xs)
take-stamp false k xs = refl
take-stamp true zero [] = refl
take-stamp true zero (x ∷ xs) = refl
take-stamp true (suc k) [] = refl
take-stamp true (suc k) (x ∷ xs) = refl

length-stamp : (ended : Bool) (xs : List ℕ) → length (stamp ended xs) ≡ length xs
length-stamp false xs = refl
length-stamp true [] = refl
length-stamp true (x ∷ xs) = refl

load-stamp : (xs : List ℕ) → 0 < length xs → load (stamp true xs) 0 ≡ ok 0
unfolding load
load-stamp [] some_length = absurd (omega arith)
load-stamp (x ∷ xs) some_length = refl

end_at-stamp :
    (ended : Bool) (pre xs : List ℕ) (i : ℕ)
    → i ≡ length pre
    → 0 < length xs
    → end_at ended i (pre ++ xs) ≡ ok (pre ++ stamp ended xs)
unfolding end_at
end_at-stamp false pre xs i e some_length = refl
end_at-stamp true pre [] i e some_length = absurd (omega arith)
end_at-stamp true pre (x ∷ xs) i e some_length = store-append pre x 0 xs i e

module _ (block src : List ℕ) (off : ℕ) (ended : Bool)
    (fits : off + length src < length block) where
  copied :
      (copy_in block off src (length src) >>= end_at ended (off + length src))
      ≡ ok (overwrite off src ended block)
  unfolding copy_in
  copied =
      let pre = take off block ++ src in
      rw
        (
          le→leb (off + length src) (length block) (omega arith),
          le→leb (length src) (length src) (omega arith),
          take_long src (length src) (omega arith),
          ← append_assoc (take off block) src (drop (off + length src) block),
          end_at-stamp ended pre (drop (off + length src) block) (off + length src)
              (omega
                (arith, length-append (take off block) src, length-take off block (omega arith)))
              (omega (arith, length-drop (off + length src) block)),
        )
        (ap ok (append_assoc (take off block) src _))

  length-overwrite : length (overwrite off src ended block) ≡ length block
  length-overwrite =
      let rest = drop (off + length src) block in
      omega (
        arith,
        length-append (take off block) (src ++ stamp ended rest),
        length-append src (stamp ended rest),
        length-stamp ended rest,
        length-take off block (omega arith),
        length-drop (off + length src) block,
      )

  end-overwrite : ended ≡ true → load (overwrite off src ended block) (off + length src) ≡ ok 0
  end-overwrite e =
      let rest = drop (off + length src) block in
      load-append_right (take off block) (src ++ stamp ended rest) (off + length src) (length src)
        (omega (arith, length-take off block (omega arith)))
      ∙ (load-append_right src (stamp ended rest) (length src) 0 (omega arith)
          ∙ rw e (load-stamp rest (omega (arith, length-drop (off + length src) block))))

  -- The bytes below the new size are the bytes below the old size, written over.
  take-overwrite :
      (size : ℕ)
      → off ≤ size
      → take (max size (off + length src)) (overwrite off src ended block)
        ≡ overwrite off src ended (take size block)
  take-overwrite size inside =
      let e = off + length src in
      let pre = take off block ++ src in
      let rest = drop e block in
      let len : max size e ≡ length pre + (size - e) =
        omega (arith, length-append (take off block) src, length-take off block (omega arith)) in
      ap (take (max size e)) (sym (append_assoc (take off block) src (stamp ended rest)))
      ∙ (take-append_right pre (stamp ended rest) (max size e) (size - e) len
          ∙ (append_assoc (take off block) src _
              ∙ rw (
                take-stamp ended (size - e) rest,
                drop-take block e size,
                take-take block off size inside,
              )))

-- What a write leaves
pub record IsWritten (buf : Buf) (src : List ℕ) (ended : Bool) (after : Buf) : Type 0 where
  pub written : contents after ≡ overwrite buf.off src ended (contents buf)
  pub moved : after.off ≡ buf.off + length src
  pub longer : after.size ≡ max buf.size (buf.off + length src)
  pub spare : after.off < after.allocated
  pub closed : ended ≡ true → load (block_of after.cells) after.off ≡ ok 0
  pub kept : (after.refcnt ≡ buf.refcnt) × (after.flags ≡ buf.flags)
  pub fits : IsBuf after
  pub tight : after.allocated ≤ max buf.allocated (4 * (buf.off + length src) + 6)

module _ (buf : Buf) (src : List ℕ) (ended : Bool) (extra : List ℕ) (n : ℕ)
    (inside : buf.off ≤ buf.size) (within : buf.size ≤ length (block_of buf.cells))
    (len : length (block_of buf.cells ++ extra) ≡ n)
    (roomy : buf.off + length src + one_if ended < n) (small : n < 2 ^ 31)
    (modest : n ≤ max buf.allocated (4 * (buf.off + length src + one_if ended) + 2)) where
  block : List ℕ
  block = block_of buf.cells ++ extra

  after : Buf
  unfolding block
  after = record buf {
    cells = some (overwrite buf.off src ended block);
    allocated = n;
    off = buf.off + length src;
    size = max buf.size (buf.off + length src);
  }

  put_after : put (lengthened buf extra n) src (pos (length src)) ended ≡ ok after
  unfolding put at after block
  put_after =
      let e : (buf.off + length src) % 2 ^ 64 ≡ buf.off + length src = omega arith in
      rw (e, copied (block_of buf.cells ++ extra) src buf.off ended (omega arith)) (ground arith)

  after-IsWritten : IsWritten buf src ended after
  unfolding after block
  after-IsWritten = record {
    written =
        take-overwrite (block_of buf.cells ++ extra) src buf.off ended (omega arith) buf.size inside
        ∙ ap (overwrite buf.off src ended)
            (take-append_left (block_of buf.cells) extra buf.size within);
    moved = refl;
    longer = refl;
    spare = omega arith;
    closed = end-overwrite (block_of buf.cells ++ extra) src buf.off ended (omega arith);
    kept = (refl, refl);
    fits = record {
      counted =
          length-overwrite (block_of buf.cells ++ extra) src buf.off ended (omega arith) ∙ len;
      within = omega (arith, length-append (block_of buf.cells) extra);
    };
    tight = omega (arith, modest, one_if-le ended);
  }

-- A write of bytes at an offset in a buffer that may grow, while what the buffer then needs is
-- below 2 ^ 30, returns the number of bytes. It has the bytes over those from the offset on, and a
-- 0 behind them when one is asked for, which stands over a byte of the buffer if the buffer goes
-- on; the other bytes are kept, the offset is behind what was written, with a cell of the block to
-- spare, and the fields fit each other. The
-- block is no longer than before, or than four times the end of what was written, and six.
pub write_ex-IsWritten :
    (host : Host) (buf : Buf) (src : List ℕ) (ended : Bool)
    → IsBuf buf
    → buf.flags.const_size ≡ false
    → buf.off ≤ buf.size
    → buf.allocated + length src + 2 < 2 ^ 30
    → Returns
        (write_ex host buf src (pos (length src)) ended)
        (λ (n, after). (n ≡ pos (length src)) × IsWritten buf src ended after)
unfolding write_ex HasRoom
write_ex-IsWritten host buf src ended wf grows inside small =
    let (room, run, (extra, n, is_room, roomy, below, len, modest)) =
      make_room-ok host buf (length src) ended wf (omega (arith, wf.within)) small grows in
    let within : buf.size ≤ length (block_of buf.cells) = omega (arith, wf.counted, wf.within) in
    (
      (pos (length src), after buf src ended extra n inside within len roomy below modest),
      rw (run, is_room, put_after buf src ended extra n inside within len roomy below modest),
      (refl, after-IsWritten buf src ended extra n inside within len roomy below modest),
    )
