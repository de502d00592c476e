-- ===== src/Stream/Getline/Line.antt =====
-- What the loop of n_stream_getline reads: the characters up to the end of the line.
use Prim.Native.Nat.{max}
use trurlib.Prelude.{
  ℕ, zero, suc, ◌+◌, ◌-◌, ◌*◌, ◌%◌, ◌^◌, ◌<◌, ◌≤◌, ◌≡◌, ◌≢◌, refl, sym, ap, ◌∙◌, subst, inl, inr,
  Bool, true, false, none, some, List, [], ◌∷◌, ◌++◌, append-nil, append_assoc, arith, length,
  length-append, drop, ◌==◌, if◌then◌else◌, Bool-cases,
}
use trurlib.Run.{Run, ok, Returns, ◌>>=◌}
use trurlib.Memory.Block.{store}
use trurlib.Memory.Laws.{store-append}
use trurlib.Buf.Host.{Host}
use trurlib.Buf.Write.{bigger}
use trurlib.Buf.Write.Room.{bigger-ok}
use trurlib.Stream.{Table}
use trurlib.Stream.File.{IsFile}
use trurlib.Stream.Getline.{longer, add_char, getline_loop}
use trurlib.Stream.Getline.Text.{first_line}

two_cells : (xs : List ℕ) → 2 ≤ length xs → (y z : ℕ) × (rest : List ℕ) × (xs ≡ y ∷ z ∷ rest)
two_cells [] le = absurd (omega arith)
two_cells (y ∷ []) le = absurd (omega arith)
two_cells (y ∷ z ∷ rest) le = (y, z, rest, refl)

-- A block with at least two cells behind the characters, of a size that is bounded by the old one
-- and by the number of characters
Roomy : (done junk : List ℕ) → List ℕ × ℕ → Type 0
Roomy done junk (b, m) =
    (y z : ℕ) × (rest : List ℕ) × (b ≡ done ++ (y ∷ z ∷ rest))
    × (m ≡ length b)
    × (m ≤ max (length (done ++ junk)) (2 * (length done + 1)))

module _ (T : Table) (host : Host) where
  longer-full :
      (block b : List ℕ) (size n m : ℕ)
      → (n == (size + 2 ^ 64 - 1) % 2 ^ 64) ≡ true
      → size * 2 % 2 ^ 64 ≡ m
      → bigger host (some block) m ≡ ok b
      → longer T host block size n ≡ ok (b, m)
  unfolding longer
  longer-full block b size n m full twice run = rw full (
      ap (λ k. bigger host (some block) k >>= λ c. ok (c, k)) twice
      ∙ ap (λ r. r >>= λ c. ok (c, m)) run)

  longer-ok :
      (done junk : List ℕ)
      → 0 < length junk
      → length (done ++ junk) < 2 ^ 29
      → Returns
          (longer T host (done ++ junk) (length (done ++ junk)) (length done))
          (Roomy done junk)
  unfolding longer Roomy
  longer-ok done junk some_room small =
      let block = done ++ junk in
      let size = length block in
      let total = length-append done junk in
      let last : (size + 2 ^ 64 - 1) % 2 ^ 64 ≡ size - 1 = omega (arith, some_room, small) in
      let twice : size * 2 % 2 ^ 64 ≡ size * 2 = omega (arith, small) in
      elim (Bool-cases (length done == size - 1)) [
        | inl full ↦
            let e : length done ≡ size - 1 = ground arith in
            let (b, run, (extra, eb, len)) =
              bigger-ok host (some block) (size * 2) (omega arith) (omega (arith, small)) in
            let len' : length b ≡ size + length extra = ap length eb ∙ length-append block extra in
            let (y, z, rest, ej) =
              two_cells (junk ++ extra)
                (omega (arith, length-append junk extra, len, len', some_room, total)) in
            (
              (b, size * 2),
              longer-full block b size (length done) (size * 2) (rw (last, full)) twice run,
              (
                y,
                z,
                rest,
                eb ∙ (append_assoc done junk extra ∙ ap (λ t. done ++ t) ej),
                sym len,
                omega (arith, e, total, some_room),
              ),
            )
        | inr spare ↦
            let less : length done ≢ size - 1 = ground arith in
            let (y, z, rest, ej) = two_cells junk (omega (arith, less, total, some_room)) in
            (
              (block, size),
              rw (last, spare),
              (y, z, rest, ap (λ t. done ++ t) ej, refl, omega arith),
            )
      ]

  module _ (file : IsFile T) where
    -- The characters and the line behind them, in a block that goes on, and the text that is left
    unfoldable pub HasLine : (done text : List ℕ) → ℕ × List ℕ × T.State → Type 0
    HasLine done text (n, block, s) =
        (y : ℕ) × (rest : List ℕ) × (n ≡ length (done ++ first_line text))
        × (block ≡ (done ++ first_line text) ++ (y ∷ rest))
        × (file.ahead s ≡ drop (length (first_line text)) text)

    round :
        (fuel : ℕ) (s t : T.State) (block room next : List ℕ) (size m n x : ℕ)
        → longer T host block size n ≡ ok (room, m)
        → T.getc s ≡ (some x, t)
        → store room n x ≡ ok next
        → getline_loop T (suc fuel) host s block size n
          ≡ (if x == 10 then ok (n + 1, next, t) else getline_loop T fuel host t next m (n + 1))
    unfolding getline_loop add_char
    round fuel s t block room next size m n x run got put = rw (run, got, put)

    last_round :
        (fuel : ℕ) (s : T.State) (block room : List ℕ) (size m n : ℕ)
        → longer T host block size n ≡ ok (room, m)
        → T.getc s ≡ (none, s)
        → getline_loop T (suc fuel) host s block size n ≡ ok (n, room, s)
    unfolding getline_loop add_char
    last_round fuel s block room size m n run got = rw (run, got)

    which :
        (b : Bool) (done xs : List ℕ) (x z : ℕ) (rest : List ℕ) (t : T.State)
        → file.ahead t ≡ xs
        → (loop : Run (ℕ × List ℕ × T.State)) → Returns loop (HasLine (done ++ (x ∷ [])) xs)
        → Returns
            (if b then ok (length done + 1, done ++ (x ∷ z ∷ rest), t) else loop)
            (λ (n, block, s).
              (y : ℕ) × (r : List ℕ) × (n
                ≡ length (done ++ (if b then x ∷ [] else x ∷ first_line xs)))
              × (block ≡ (done ++ (if b then x ∷ [] else x ∷ first_line xs)) ++ (y ∷ r))
              × (file.ahead s ≡ drop (length (if b then x ∷ [] else x ∷ first_line xs)) (x ∷ xs)))
    unfolding HasLine
    which true done xs x z rest t left loop go = (
      (length done + 1, done ++ (x ∷ z ∷ rest), t),
      refl,
      (
        z,
        rest,
        sym (length-append done (x ∷ [])),
        sym (append_assoc done (x ∷ []) (z ∷ rest)),
        left,
      ),
    )
    which false done xs x z rest t left loop ((n, block, s), run, (y, r, en, eb, el)) =
        let e : (done ++ (x ∷ [])) ++ first_line xs ≡ done ++ (x ∷ first_line xs) =
          append_assoc done (x ∷ []) (first_line xs) in
        ((n, block, s), run, (y, r, en ∙ ap length e, eb ∙ ap (λ d. d ++ (y ∷ r)) e, el))

    next_round :
        (fuel : ℕ) (s t : T.State) (x m y z : ℕ) (xs done junk room rest : List ℕ)
        → longer T host (done ++ junk) (length (done ++ junk)) (length done) ≡ ok (room, m)
        → room ≡ done ++ (y ∷ z ∷ rest)
        → m ≡ length room
        → T.getc s ≡ (some x, t)
        → file.ahead t ≡ xs
        → Returns
            (getline_loop T fuel host t
              ((done ++ (x ∷ [])) ++ (z ∷ rest))
              (length ((done ++ (x ∷ [])) ++ (z ∷ rest)))
              (length (done ++ (x ∷ []))))
            (HasLine (done ++ (x ∷ [])) xs)
        → Returns
            (getline_loop T (suc fuel) host s (done ++ junk) (length (done ++ junk)) (length done))
            (HasLine done (x ∷ xs))
    unfolding HasLine
    next_round fuel s t x m y z xs done junk room rest run er em got left (r, run', good) =
        let next = done ++ (x ∷ z ∷ rest) in
        let put : store room (length done) x ≡ ok next =
          ap (λ b. store b (length done) x) er
          ∙ store-append done y x (z ∷ rest) (length done) refl in
        let is_next : (done ++ (x ∷ [])) ++ (z ∷ rest) ≡ next =
          append_assoc done (x ∷ []) (z ∷ rest) in
        let size : length next ≡ m = omega (
          arith,
          length-append done (x ∷ z ∷ rest),
          em,
          ap length er,
          length-append done (y ∷ z ∷ rest),
        ) in
        let one_more : length (done ++ (x ∷ [])) ≡ length done + 1 = length-append done (x ∷ []) in
        let step =
          round fuel s t (done ++ junk) room next (length (done ++ junk)) m (length done) x run got
            put in
        let conv : getline_loop T fuel host t next m (length done + 1) ≡ ok r =
          subst (λ k. getline_loop T fuel host t next k (length done + 1) ≡ ok r) size
            (subst (λ k. getline_loop T fuel host t next (length next) k ≡ ok r) one_more
              (subst
                (λ b. getline_loop T fuel host t b (length b) (length (done ++ (x ∷ []))) ≡ ok r)
                is_next run')) in
        let (last, eq, has) =
          which (x == 10) done xs x z rest t left
            (getline_loop T fuel host t next m (length done + 1)) (r, conv, good) in
        (last, step ∙ eq, has)

    pub getline_loop-line :
        (text : List ℕ) (fuel : ℕ) (s : T.State) (done junk : List ℕ)
        → file.ahead s ≡ text
        → length text < fuel
        → 0 < length junk
        → max (length (done ++ junk)) (2 * (length done + length text + 1)) < 2 ^ 29
        → Returns
            (getline_loop T fuel host s (done ++ junk) (length (done ++ junk)) (length done))
            (HasLine done text)
    unfolding HasLine Roomy
    getline_loop-line text zero s done junk e enough some_room small = absurd (omega arith)
    getline_loop-line [] (suc fuel) s done junk e enough some_room small =
        let ((room, m), run, (y, z, rest, er, em, bound)) =
          longer-ok done junk some_room (omega arith) in
        (
          (length done, room, s),
          last_round fuel s (done ++ junk) room (length (done ++ junk)) m (length done) run
              (file.getc-none s e),
          (
            y,
            z ∷ rest,
            ap length (sym (append-nil done)),
            er ∙ ap (λ d. d ++ (y ∷ z ∷ rest)) (sym (append-nil done)),
            e,
          ),
        )
    getline_loop-line (x ∷ xs) (suc fuel) s done junk e enough some_room small =
        let ((room, m), run, (y, z, rest, er, em, bound)) =
          longer-ok done junk some_room (omega arith) in
        let (t, got, left) = file.getc-some s x xs e in
        let done' = done ++ (x ∷ []) in
        let one_more : length done' ≡ length done + 1 = length-append done (x ∷ []) in
        let size : length (done' ++ (z ∷ rest)) ≡ m = omega (
          arith,
          length-append done' (z ∷ rest),
          one_more,
          em,
          ap length er,
          length-append done (y ∷ z ∷ rest),
        ) in
        next_round fuel s t x m y z xs done junk room rest run er em got left (
          getline_loop-line xs fuel t done' (z ∷ rest) left (omega arith) (omega arith)
            (omega (arith, size, bound, one_more, small)))
