-- ===== src/Stream/Getline/First.antt =====
-- n_stream_getline, as what n_stream_gets and the loop behind it read.
use trurlib.Prelude.{
  ℕ, zero, suc, ◌+◌, ◌-◌, ◌*◌, ◌%◌, ◌^◌, ◌<◌, ◌≤◌, ◌≡◌, refl, sym, ap, ◌∙◌, subst, inl, inr, Option,
  List, [], ◌∷◌, ◌++◌, append_assoc, arith, length, length-append, drop, ◌==◌, le→leb, lt→ltb,
  le→not_ltb, Bool-cases,
}
use trurlib.Prelude.Pieces.{take_long, drop_long, length-drop}
use trurlib.Run.{ok, Returns}
use trurlib.Memory.Block.{store}
use trurlib.Memory.Laws.{store-append}
use trurlib.Buf.Host.{Host}
use trurlib.Buf.Write.{copy_in}
use trurlib.Str.Copied.{IsText, nothing, more}
use trurlib.Stream.{Table, Stream}
use trurlib.Stream.File.{IsFile, line_part}
use trurlib.Stream.Getline.{strlen, gets, getline_loop, obtain, go_on, getline}
use trurlib.Stream.Getline.Line.{getline_loop-line, HasLine}
use trurlib.Stream.Getline.Text.{first_line, line_part-le, line_part-short}

pub strlen-lem : (text rest : List ℕ) → IsText text → strlen (text ++ (0 ∷ rest)) ≡ ok (length text)
unfolding strlen
strlen-lem [] rest is_text = refl
strlen-lem (x ∷ xs) rest (more _ _ some_char is_text) =
    rw (strlen-lem xs rest is_text) (ground arith)

line_part-IsText : (k : ℕ) (text : List ℕ) → IsText text → IsText (line_part k text)
line_part-IsText zero text is_text = nothing
line_part-IsText (suc k) [] is_text = nothing
line_part-IsText (suc k) (x ∷ xs) (more _ _ some_char is_text) = elim (Bool-cases (x == 10)) [
  | inl ends ↦ rw ends (more x [] some_char nothing)
  | inr goes_on ↦ rw goes_on (more x _ some_char (line_part-IsText k xs is_text))
]

copy_in-string :
    (block text : List ℕ)
    → length text < length block
    → copy_in block 0 (text ++ (0 ∷ [])) (length text + 1)
      ≡ ok (text ++ (0 ∷ drop (length text + 1) block))
unfolding copy_in
copy_in-string block text fits =
    let len = length-append text (0 ∷ []) in
    let e : 0 + (length text + 1) ≡ length text + 1 = omega arith in
    rw
      (
        e,
        le→leb (length text + 1) (length block) (omega arith),
        le→leb (length text + 1) (length (text ++ (0 ∷ []))) (omega (arith, len)),
        take_long (text ++ (0 ∷ [])) (length text + 1) (omega (arith, len)),
      )
      (ap ok (append_assoc text (0 ∷ []) (drop (length text + 1) block)))

module _ (T : Table) (host : Host) (file : IsFile T) where
  -- A line with its 0 in the block, and the text that is left
  pub IsLine : (line left : List ℕ) → ℕ × List ℕ × Stream T → Type 0
  IsLine line left (n, block, st) =
      (rest : List ℕ) × (n ≡ length line)
      × (block ≡ line ++ (0 ∷ rest))
      × (file.ahead st.state ≡ left)

  gets-part :
      (text : List ℕ) (st : Stream T) (block : List ℕ) (k : ℕ)
      → 0 < length text
      → file.ahead st.state ≡ text
      → IsText text
      → k < length block
      → (s : T.State) × (gets T st block (suc k)
          ≡ ok (
            length (line_part k text),
            line_part k text ++ (0 ∷ drop (length (line_part k text) + 1) block),
            record st { state = s },
          ))
        × (file.ahead s ≡ drop (length (line_part k text)) text)
  unfolding gets
  gets-part [] st block k some_text e is_text room = absurd (omega arith)
  gets-part (x ∷ xs) st block k some_text e is_text room =
      let (s, got, left) = file.gets-some st.state x xs k e in
      let part = line_part k (x ∷ xs) in
      let fits : length part < length block = omega (arith, line_part-le k (x ∷ xs)) in
      (
        s,
        rw (
          got,
          copy_in-string block part fits,
          strlen-lem part (drop (length part + 1) block) (line_part-IsText k (x ∷ xs) is_text),
        ),
        left,
      )

  go_on-short :
      (fuel k n : ℕ) (block : List ℕ) (st : Stream T)
      → n < k
      → k < 2 ^ 29
      → go_on T fuel host (suc k) (n, block, st) ≡ ok (n, block, st)
  unfolding go_on
  go_on-short fuel k n block st less small =
      let e : (suc k + 2 ^ 64 - 1) % 2 ^ 64 ≡ k = omega arith in rw (e, lt→ltb n k less)

  go_on-step :
      (fuel k n m : ℕ) (block longest last : List ℕ) (st : Stream T) (s : T.State)
      → k ≤ n
      → k < 2 ^ 29
      → getline_loop T fuel host st.state block (suc k) n ≡ ok (m, longest, s)
      → store longest m 0 ≡ ok last
      → go_on T fuel host (suc k) (n, block, st) ≡ ok (m, last, record st { state = s })
  unfolding go_on
  go_on-step fuel k n m block longest last st s le small run put =
      let e : (suc k + 2 ^ 64 - 1) % 2 ^ 64 ≡ k = omega arith in rw (e, le→not_ltb n k le, run, put)

  go_on-full :
      (fuel k : ℕ) (part rest : List ℕ) (st : Stream T)
      → file.ahead st.state ≡ rest
      → k ≡ length part
      → length rest < fuel
      → 2 * (k + length rest + 1) < 2 ^ 29
      → Returns
          (go_on T fuel host (suc k) (k, part ++ (0 ∷ []), st))
          (IsLine (part ++ first_line rest) (drop (length (first_line rest)) rest))
  unfolding IsLine HasLine
  go_on-full fuel k part rest st e ek enough small =
      let len : length (part ++ (0 ∷ [])) ≡ suc k =
        omega (arith, length-append part (0 ∷ []), ek) in
      let ((m, b, s), run, (y, r, em, eb, left)) =
        getline_loop-line T host file rest fuel st.state part (0 ∷ []) e enough (omega arith)
          (omega (arith, len, ek, small)) in
      let line = part ++ first_line rest in
      let run' : getline_loop T fuel host st.state (part ++ (0 ∷ [])) (suc k) k ≡ ok (m, b, s) =
        subst (λ i. getline_loop T fuel host st.state (part ++ (0 ∷ [])) i k ≡ ok (m, b, s)) len
          (subst
            (λ i.
              getline_loop T fuel host st.state (part ++ (0 ∷ [])) (length (part ++ (0 ∷ []))) i
              ≡ ok (m, b, s))
            (sym ek) run) in
      let put : store b m 0 ≡ ok (line ++ (0 ∷ r)) =
        ap (λ c. store c m 0) eb ∙ store-append line y 0 r m em in
      (
        (m, line ++ (0 ∷ r), record st { state = s }),
        go_on-step fuel k k m (part ++ (0 ∷ [])) b (line ++ (0 ∷ r)) st s (omega arith)
            (omega (arith, small)) run' put,
        (r, em, refl, left),
      )

  store-first :
      (block : List ℕ) (n : ℕ)
      → length block ≡ suc n
      → (b : List ℕ) × (store block 0 0 ≡ ok (0 ∷ b)) × (length b ≡ n)
  store-first [] n e = absurd (omega arith)
  store-first (x ∷ xs) n e = (xs, store-append [] x 0 xs 0 refl, omega (arith, e))

  module _ (fuel max_canon k : ℕ) (st : Stream T) (bufptr : Option (List ℕ)) (size : ℕ)
      (block : List ℕ) (given : obtain T host max_canon bufptr size ≡ ok (block, suc k))
      (whole : length block ≡ suc k) (text : List ℕ) (e : file.ahead st.state ≡ text)
      (is_text : IsText text) (enough : length text < fuel) (some_room : 0 < k)
      (small : 2 * (k + length text + 1) < 2 ^ 29) where
    getline-step :
        (b : List ℕ) (r : ℕ × List ℕ × Stream T)
        → store block 0 0 ≡ ok b
        → gets T st b (suc k) ≡ ok r
        → getline T fuel host max_canon st bufptr size ≡ go_on T fuel host (suc k) r
    unfolding getline
    getline-step b r put got = rw (given, put, got)

    pub getline-none :
        text ≡ []
        → Returns
            (getline T fuel host max_canon st bufptr size)
            (IsLine (first_line text) (drop (length (first_line text)) text))
    unfolding IsLine gets
    getline-none none_left =
        let (b, put, len) = store-first block k whole in
        let got : gets T st (0 ∷ b) (suc k) ≡ ok (0, 0 ∷ b, st) =
          rw (file.gets-none st.state (suc k) (e ∙ none_left)) in
        (
          (0, 0 ∷ b, st),
          getline-step (0 ∷ b) (0, 0 ∷ b, st) put got
              ∙ go_on-short fuel k 0 (0 ∷ b) st some_room (omega (arith, small)),
          rw none_left (b, refl, refl, e ∙ none_left),
        )

    module _ (some_text : 0 < length text) where
      pub getline-short :
          length (line_part k text) < k
          → Returns
              (getline T fuel host max_canon st bufptr size)
              (IsLine (first_line text) (drop (length (first_line text)) text))
      unfolding IsLine
      getline-short less =
          let (b, put, len) = store-first block k whole in
          let part = line_part k text in
          let (s, got, left) =
            gets-part text st (0 ∷ b) k some_text e is_text (omega (arith, len)) in
          let is_first = line_part-short k text less in
          let block' = part ++ (0 ∷ drop (length part + 1) (0 ∷ b)) in
          (
            (length part, block', record st { state = s }),
            getline-step (0 ∷ b) (length part, block', record st { state = s }) put got
                ∙ go_on-short fuel k (length part) block' (record st { state = s }) less
                    (omega (arith, small)),
            rw (← is_first) (drop (length part + 1) (0 ∷ b), refl, refl, left),
          )

      pub getline-full :
          k ≤ length (line_part k text)
          → Returns (getline T fuel host max_canon st bufptr size) (
              IsLine
                (line_part k text ++ first_line (drop k text))
                (drop (length (first_line (drop k text))) (drop k text)))
      getline-full full =
          let (b, put, len) = store-first block k whole in
          let part = line_part k text in
          let ek : length part ≡ k = omega (arith, line_part-le k text, full) in
          let (s, got, left) =
            gets-part text st (0 ∷ b) k some_text e is_text (omega (arith, len)) in
          let st' : Stream T = record st { state = s } in
          let nothing_left : drop (length part + 1) (0 ∷ b) ≡ [] =
            drop_long (length part + 1) (0 ∷ b) (omega (arith, len, ek)) in
          let got' : gets T st (0 ∷ b) (suc k) ≡ ok (k, part ++ (0 ∷ []), st') =
            got
            ∙ (ap (λ r. ok (length part, part ++ (0 ∷ r), st')) nothing_left
                ∙ ap (λ n. ok (n, part ++ (0 ∷ []), st')) ek) in
          let rest = drop k text in
          let shorter = length-drop k text in
          let (r, run, line) =
            go_on-full fuel k part rest st' (left ∙ ap (λ n. drop n text) ek) (sym ek)
              (omega (arith, shorter, enough)) (omega (arith, shorter, small)) in
          (r, getline-step (0 ∷ b) (k, part ++ (0 ∷ []), st') put got' ∙ run, line)
