-- ===== src/Buf/Iterator/Lines.antt =====
-- Reading a buffer line by line with n_buf_it_gets_ext ends, and gives the lines.
use trurlib.Prelude.{
  ℕ, zero, suc, ◌+◌, ◌-◌, ◌%◌, ◌^◌, ◌<◌, ◌≤◌, ◌≡◌, refl, sym, ap, ◌∙◌, inl, inr, none, some, List,
  [], ◌∷◌, ◌++◌, arith, append_assoc, leb, lt→ltb, le→not_ltb, length, length-append, take, drop,
  ◌==◌, if◌then◌else◌, Bool-cases, Bool, true, false,
}
use trurlib.Prelude.Pieces.{length-take, length-drop, take-append-drop, drop_long}
use trurlib.Run.{Run, ok, fault, endless, ◌>>=◌}
use trurlib.Buf.State.{Buf}
use trurlib.Buf.State.View.{block_of, contents, IsBuf, length-contents}
use trurlib.Buf.Write.Room.{has_block}
use trurlib.Buf.Iterator.{It, init, copy_out, find_end, gets_ext}
use trurlib.Buf.Iterator.Reads.{it_at, load_at, copy_out_lem}

-- A loop of n_buf_it_gets_ext, with the lines it points to
unfoldable pub read_lines : (fuel : ℕ) → Buf → It → (endl : ℕ) → Run (List (List ℕ))
read_lines zero buf it endl = fault endless
read_lines (suc fuel) buf it endl = gets_ext buf it endl >>= λ (line, after). elim line [
  | none ↦ ok []
  | some (i, n) ↦ (do
    bytes ← copy_out buf i n
    rest ← read_lines fuel buf after endl
    ok (bytes ∷ rest))
]

-- How many bytes come before the first `endl`, or all
abbrev until : ℕ → List ℕ → ℕ
until endl [] = 0
until endl (x ∷ xs) = if x == endl then 0 else suc (until endl xs)

abbrev join : ℕ → List (List ℕ) → List (List ℕ)
join x [] = (x ∷ []) ∷ []
join x (line ∷ lines) = (x ∷ line) ∷ lines

-- The lines of a text: every `endl` ends one, and the last may have no end.
abbrev pub split : ℕ → List ℕ → List (List ℕ)
split endl [] = []
split endl (x ∷ xs) = if x == endl then [] ∷ split endl xs else join x (split endl xs)

until-le : (endl : ℕ) (xs : List ℕ) → until endl xs ≤ length xs
until-le endl [] = omega arith
until-le endl (x ∷ xs) = ground (arith, until-le endl xs)

split-first :
    (endl x : ℕ) (xs : List ℕ)
    → split endl (x ∷ xs)
      ≡ take (until endl (x ∷ xs)) (x ∷ xs) ∷ split endl (drop (suc (until endl (x ∷ xs))) (x ∷ xs))
split-first endl x [] = elim (Bool-cases (x == endl)) [
  | inl ends ↦ rw ends
  | inr goes_on ↦ rw goes_on
]
split-first endl x (y ∷ ys) = elim (Bool-cases (x == endl)) [
  | inl ends ↦ rw ends
  | inr goes_on ↦ rw goes_on (ap (join x) (split-first endl y ys))
]

module _ (buf : Buf) (endl : ℕ) (wf : IsBuf buf) (small : buf.size < 2 ^ 31) where
  find_end-until :
      (xs : List ℕ) (fuel : ℕ) (pre : List ℕ)
      → contents buf ≡ pre ++ xs
      → length xs < fuel
      → find_end fuel (block_of buf.cells) buf.size (length pre) endl
        ≡ ok (length pre + until endl xs)
  unfolding find_end
  find_end-until xs zero pre e enough = absurd (omega arith)
  find_end-until [] (suc fuel) pre e enough =
      let at_end : buf.size ≤ length pre =
        omega (arith, ap length e, length-append pre [], length-contents buf wf) in
      rw (le→not_ltb (length pre) buf.size at_end) (ap ok (omega arith))
  find_end-until (x ∷ xs) (suc fuel) pre e enough =
      let inside : length pre < buf.size =
        omega (arith, ap length e, length-append pre (x ∷ xs), length-contents buf wf) in
      let one_more : length (pre ++ (x ∷ [])) ≡ length pre + 1 =
        omega (arith, length-append pre (x ∷ [])) in
      let go =
        find_end-until xs fuel (pre ++ (x ∷ [])) (e ∙ sym (append_assoc pre (x ∷ []) xs))
          (omega arith) in
      let next : find_end fuel (block_of buf.cells) buf.size (length pre + 1) endl
          ≡ ok (length pre + suc (until endl xs)) =
        ap (λ i. find_end fuel (block_of buf.cells) buf.size i endl) (sym one_more)
        ∙ (go ∙ ap ok (omega (arith, one_more))) in
      rw (lt→ltb (length pre) buf.size inside, load_at buf pre x xs wf e, next) (which (x == endl))
    where
      which :
          (b : Bool)
          → (if b then ok (length pre) else ok (length pre + suc (until endl xs)))
            ≡ ok (length pre + (if b then 0 else suc (until endl xs)))
      which true = ap ok (omega arith)
      which false = refl

  read_lines-past :
      (fuel offs : ℕ)
      → buf.size ≤ offs
      → offs < 2 ^ 32
      → read_lines (suc fuel) buf (it_at offs) endl ≡ ok []
  unfolding read_lines gets_ext
  read_lines-past fuel offs past bound =
      let e : (offs + 1) % 2 ^ 64 ≡ offs + 1 = omega arith in
      rw (e, lt→ltb buf.size (offs + 1) (omega arith))

  module _ (pre xs : List ℕ) (x : ℕ) (e : contents buf ≡ pre ++ (x ∷ xs)) where
    line : List ℕ
    line = take (until endl (x ∷ xs)) (x ∷ xs)

    total : length pre + suc (length xs) ≡ buf.size
    total = omega (arith, ap length e, length-append pre (x ∷ xs), length-contents buf wf)

    length-line : length line ≡ until endl (x ∷ xs)
    unfolding line
    length-line = length-take (until endl (x ∷ xs)) (x ∷ xs) (until-le endl (x ∷ xs))

    gets_ext-line :
        gets_ext buf (it_at (length pre)) endl
        ≡ ok (some (length pre, length line), it_at (length pre + length line + 1))
    unfolding gets_ext
    gets_ext-line =
        let i = length pre in
        let n = until endl (x ∷ xs) in
        let first : (i + 1) % 2 ^ 64 ≡ i + 1 = omega (arith, total) in
        let inside : i + 1 ≤ buf.size = omega (arith, total) in
        let bound : buf.size ≤ length (block_of buf.cells) = omega (arith, wf.counted, wf.within) in
        let there = has_block buf.cells (omega (arith, inside)) in
        let stop =
          find_end-until (x ∷ xs) (suc (length (block_of buf.cells))) pre e
            (omega (arith, total)) in
        let len : i + n - i ≡ n = omega arith in
        rw (first, le→not_ltb buf.size (i + 1) inside, there, stop, len, length-line)

    copy_out-line : copy_out buf (length pre) (length line) ≡ ok line
    unfolding line
    copy_out-line =
        let n = until endl (x ∷ xs) in
        copy_out_lem buf pre line (drop n (x ∷ xs)) wf
          (e ∙ ap (λ t. pre ++ t) (sym (take-append-drop n (x ∷ xs)))) (omega (arith, total)) small

    last_line :
        (fuel : ℕ)
        → length xs < until endl (x ∷ xs)
        → 0 < fuel
        → read_lines fuel buf (it_at (length pre + until endl (x ∷ xs) + 1)) endl ≡ ok []
    last_line zero more some_fuel = absurd (omega arith)
    last_line (suc fuel) more some_fuel =
        let n = until endl (x ∷ xs) in
        let le : n ≤ suc (length xs) = until-le endl (x ∷ xs) in
        read_lines-past fuel (length pre + n + 1) (omega (arith, total)) (omega (arith, total, le))

    read_lines-step :
        (fuel : ℕ) {lines : List (List ℕ)}
        → read_lines fuel buf (it_at (length pre + until endl (x ∷ xs) + 1)) endl ≡ ok lines
        → read_lines (suc fuel) buf (it_at (length pre)) endl
          ≡ ok (take (until endl (x ∷ xs)) (x ∷ xs) ∷ lines)
    unfolding read_lines line
    read_lines-step fuel go =
        let n = until endl (x ∷ xs) in
        let next =
          ap (λ m. read_lines fuel buf (it_at (length pre + m + 1)) endl) length-line ∙ go in
        rw (gets_ext-line, copy_out-line, next)

  read_lines-split :
      (fuel : ℕ) (pre xs : List ℕ)
      → contents buf ≡ pre ++ xs
      → length xs < fuel
      → read_lines fuel buf (it_at (length pre)) endl ≡ ok (split endl xs)
  read_lines-split zero pre xs e enough = absurd (omega arith)
  read_lines-split (suc fuel) pre [] e enough =
      let past : buf.size ≤ length pre =
        omega (arith, ap length e, length-append pre [], length-contents buf wf) in
      read_lines-past fuel (length pre) past
        (omega (arith, ap length e, length-append pre [], length-contents buf wf))
  read_lines-split (suc fuel) pre (x ∷ xs) e enough =
      let n = until endl (x ∷ xs) in
      let pre' = pre ++ take (suc n) (x ∷ xs) in
      let left = drop (suc n) (x ∷ xs) in
      let e' : contents buf ≡ pre' ++ left =
        e
        ∙ (ap (λ t. pre ++ t) (sym (take-append-drop (suc n) (x ∷ xs)))
            ∙ sym (append_assoc pre (take (suc n) (x ∷ xs)) left)) in
      let fewer : length left < fuel = omega (arith, length-drop n xs, enough) in
      rw
        (read_lines-step pre xs x e fuel (elim (Bool-cases (leb n (length xs))) [
          | inl more ↦
              let le : n ≤ length xs = ground arith in
              let place : length pre + n + 1 ≡ length pre' =
                omega (arith, length-append pre (take (suc n) (x ∷ xs)), length-take n xs le) in
              ap (λ i. read_lines fuel buf (it_at i) endl) place
              ∙ read_lines-split fuel pre' left e' fewer
          | inr last ↦
              rw (drop_long n xs (ground arith))
                (last_line pre xs x e fuel (ground arith) (omega (arith, fewer)))
        ]))
        (ap ok (sym (split-first endl x xs)))

-- For a buffer below 2 ^ 31 bytes, the loop that calls n_buf_it_gets_ext from the start until it
-- returns NULL ends, and the lines are those of the bytes that the buffer holds: each `endl` ends
-- one and belongs to none, and bytes behind the last `endl` are a line too.
pub read_lines-all :
    (buf : Buf) (endl : ℕ)
    → IsBuf buf
    → buf.size < 2 ^ 31
    → read_lines (suc (length (contents buf))) buf init endl ≡ ok (split endl (contents buf))
read_lines-all buf endl wf small =
    read_lines-split buf endl wf small (suc (length (contents buf))) [] (contents buf) refl
      (omega arith)
