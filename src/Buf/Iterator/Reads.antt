-- ===== src/Buf/Iterator/Reads.antt =====
-- What the iterator reads of a buffer, at the place that the bytes before it have.
use trurlib.Prelude.{
  ℕ, zero, suc, ◌+◌, ◌-◌, ◌%◌, ◌^◌, ◌<◌, ◌≤◌, ◌≡◌, refl, sym, ap, ◌∙◌, some, List, [], ◌∷◌, ◌++◌,
  arith, le→leb, le→not_ltb, length, length-append, take, drop,
}
use trurlib.Prelude.Int.{to_int-small}
use trurlib.Prelude.Pieces.{take-take, drop-take, take-drop_at}
use trurlib.Run.{ok}
use trurlib.Memory.Block.{load}
use trurlib.Memory.Laws.{load-append}
use trurlib.Buf.State.{Buf}
use trurlib.Buf.State.View.{block_of, contents, IsBuf, length-contents}
use trurlib.Buf.Write.Room.{has_block}
use trurlib.Buf.Iterator.{It, get, copy_out, bytes_at}

abbrev pub it_at : ℕ → It
it_at i = record { offs = i }

load-take : (xs : List ℕ) (n i : ℕ) → i < n → load (take n xs) i ≡ load xs i
unfolding load
load-take xs zero i h = absurd (omega arith)
load-take [] (suc n) i h = refl
load-take (x ∷ xs) (suc n) zero h = refl
load-take (x ∷ xs) (suc n) (suc i) h = load-take xs n i (omega arith)

module _ (buf : Buf) (pre bytes post : List ℕ) (wf : IsBuf buf)
    (e : contents buf ≡ pre ++ (bytes ++ post)) (some_length : 0 < buf.size)
    (small : buf.size < 2 ^ 31) where
  total : length pre + (length bytes + length post) ≡ buf.size
  total = omega (
    arith,
    length-append pre (bytes ++ post),
    length-append bytes post,
    ap length e,
    length-contents buf wf,
  )

  pub block-eq : buf.cells ≡ some (block_of buf.cells)
  block-eq = has_block buf.cells (omega (arith, total, wf.counted, wf.within))

  pub get_lem :
      get buf (it_at (length pre)) (length bytes)
      ≡ (some (length pre), it_at (length pre + length bytes))
  unfolding get
  get_lem =
      let end = length pre + length bytes in
      let less : end ≤ buf.size = omega (arith, total) in
      let a : end % 2 ^ 64 ≡ end = omega arith in
      rw (
        to_int-small (length pre) (omega arith),
        a,
        le→not_ltb buf.size end less,
        to_int-small end (omega arith),
      )

  pub copy_out_lem : copy_out buf (length pre) (length bytes) ≡ ok bytes
  unfolding copy_out
  copy_out_lem =
      let block = block_of buf.cells in
      let end = length pre + length bytes in
      let less : end ≤ buf.size = omega (arith, total) in
      let bound : end ≤ length block = omega (arith, less, wf.counted, wf.within) in
      let fewer : length bytes ≤ buf.size - length pre = omega (arith, total) in
      rw (block-eq, le→leb end (length block) bound)
        (ap ok (
          sym (take-take (drop (length pre) block) (length bytes) (buf.size - length pre) fewer)
          ∙ (ap (take (length bytes))
                (sym (drop-take block (length pre) buf.size) ∙ ap (drop (length pre)) e)
              ∙ take-drop_at pre bytes post)))

  -- The bytes at the iterator, which goes behind them
  pub bytes_at_lem :
      bytes_at buf (length bytes) (get buf (it_at (length pre)) (length bytes))
      ≡ ok (some bytes, it_at (length pre + length bytes))
  unfolding bytes_at
  bytes_at_lem = rw (get_lem, copy_out_lem)

pub load_at :
    (buf : Buf) (pre : List ℕ) (x : ℕ) (post : List ℕ)
    → IsBuf buf
    → contents buf ≡ pre ++ (x ∷ post)
    → load (block_of buf.cells) (length pre) ≡ ok x
load_at buf pre x post wf e =
    let less : length pre < buf.size =
      omega (arith, length-append pre (x ∷ post), ap length e, length-contents buf wf) in
    sym (load-take (block_of buf.cells) buf.size (length pre) less)
    ∙ (ap (λ b. load b (length pre)) e ∙ load-append pre x post (length pre) refl)
