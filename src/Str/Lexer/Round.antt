-- ===== src/Str/Lexer/Round.antt =====
-- A round of the loop of lp_parse keeps what holds between the rounds.
use trurlib.Prelude.{
  ℕ, ◌+◌, ◌-◌, ◌*◌, ◌<◌, ◌≤◌, ◌≡◌, ◌≢◌, refl, ap, ◌∙◌, inl, inr, Bool, true, false, not, ◌&&◌, List,
  arith, length, ◌==◌, Bool-cases,
}
use trurlib.Run.{ok, Returns}
use trurlib.Memory.Block.{load}
use trurlib.Str.Copied.{IsText}
use trurlib.Str.Lexer.{
  Lexer, State, st_white, st_token, st_quote, strchr, storechr, stop, next, on_break, on_quote,
  on_white, on_char, is_special, escaped, on_escape_in, on_escape, round,
}
use trurlib.Str.Lexer.Taken.{
  text_at, length-storechr, weight, IsTaken, Moved, rounds, IsFine, to_next-IsFine, on_break-IsFine,
  on_quote-IsFine, on_char-IsFine, on_white-IsFine,
}

not_both : (b : Bool) → b ≡ true → b ≡ false → ⊥
not_both true e f = cc
not_both false e f = cc

module _ (text : List ℕ) (start : ℕ) where
  module _ (is_text : IsText text) where
    char_of :
        (st : Lexer) (tok : List ℕ) (i : ℕ)
        → IsTaken text start st tok
        → i < length text
        → (c : ℕ) × (load st.line i ≡ ok c)
    char_of st tok i t less =
        let (c, read, _, _) = text_at text i is_text (omega arith) in
        (c, ap (λ l. load l i) t.same ∙ read)

    escaped-IsFine :
        (st : Lexer) (state : State) (tok : List ℕ) (toksize nc before : ℕ)
        → IsTaken text start st tok
        → st.lindex < length text
        → (is_special st nc ≡ true → st.lindex + 1 < length text)
        → 2 * (length text - st.lindex) ≤ before
        → Returns (escaped st state tok toksize nc) (IsFine text start before)
    unfolding escaped
    escaped-IsFine st state tok toksize nc before t less more_text enough =
        elim (Bool-cases (is_special st nc)) [
          | inl special ↦
              let (ch, read) = char_of st tok (st.lindex + 1) t (more_text special) in
              (
                next (record st { lindex = st.lindex + 1 + 1; state = state })
                    (storechr tok toksize ch),
                rw (special, read),
                to_next-IsFine text start (record st { lindex = st.lindex + 1 }) tok
                    (storechr tok toksize ch) state before
                    (record {
                      same = t.same;
                      inside = omega (arith, less);
                      fewer = omega (arith, t.fewer);
                    })
                    (more_text special) (length-storechr tok toksize ch) (omega arith),
              )
          | inr plain ↦
              let (ch, read) = char_of st tok st.lindex t less in
              (
                next (record st { lindex = st.lindex + 1; state = state })
                    (storechr tok toksize ch),
                rw (plain, read),
                to_next-IsFine text start st tok (storechr tok toksize ch) state before t less
                    (length-storechr tok toksize ch) enough,
              )
        ]

    on_escape_in-IsFine :
        (st : Lexer) (state : State) (tok : List ℕ) (toksize nc before : ℕ)
        → IsTaken text start st tok
        → st.lindex < length text
        → Moved text start (record st { state = st_token })
        → (is_special st nc ≡ true → st.lindex + 1 < length text)
        → 2 * (length text - st.lindex) + weight state ≤ before
        → Returns (on_escape_in st state tok toksize nc) (IsFine text start before)
    unfolding on_escape_in
    on_escape_in-IsFine st st_white tok toksize nc before t less moved more_text enough = (
      next (record st { state = st_token }) tok,
      refl,
      (record { same = t.same; inside = t.inside; fewer = t.fewer }, moved, omega (arith, enough)),
    )
    on_escape_in-IsFine st st_token tok toksize nc before t less moved more_text enough =
        escaped-IsFine st st_token tok toksize nc before t less more_text (omega arith)
    on_escape_in-IsFine st st_quote tok toksize nc before t less moved more_text enough =
        escaped-IsFine st st_quote tok toksize nc before t less more_text (omega arith)

    module _ (st : Lexer) (tok : List ℕ) (toksize c : ℕ) (t : IsTaken text start st tok)
        (less : st.lindex < length text) where
      on_escape-IsFine :
          (nc : ℕ)
          → (nc ≢ 0 → st.lindex + 1 < length text)
          → load st.line st.lindex ≡ ok c
          → strchr st.white c ≡ false
          → is_special st c ≡ false
          → c ≡ st.escape
          → Returns (on_escape st tok toksize c nc) (IsFine text start (rounds text start st))
      unfolding on_escape
      on_escape-IsFine nc more_text read not_white plain is_escape =
          let both : Lexer = record st { is_break = 0; lindex = st.lindex + 1 } in
          let t' : IsTaken text start both (storechr tok toksize c) = record {
            same = t.same;
            inside = omega (arith, less);
            fewer = omega (arith, t.fewer, length-storechr tok toksize c);
          } in
          elim (Bool-cases (nc == 0)) [
            | inl at_end ↦
                (stop both (storechr tok toksize c), rw at_end, (t', omega (arith, t.fewer)))
            | inr inside ↦
                let some_char : nc ≢ 0 = ground arith in
                elim (Bool-cases (nc == st.escape)) [
                  | inl twice ↦
                      let same : nc ≡ c = ground arith in
                      let (step, run, fine) =
                        on_escape_in-IsFine both st.state (storechr tok toksize c) toksize nc
                          (rounds text start st) t' (more_text some_char)
                          (inl (omega (arith, t.fewer)))
                          (λ special.
                            absurd (
                              not_both (is_special st nc) special
                                (ap (is_special st) same ∙ plain)))
                          (omega arith) in
                      (step, rw (inside, twice) run, fine)
                  | inr once ↦
                      let (step, run, fine) =
                        on_escape_in-IsFine st st.state tok toksize nc (rounds text start st) t less
                          (inr (inr (c, read, not_white))) (λ special. more_text some_char)
                          (omega arith) in
                      (step, rw (inside, once) run, fine)
                ]
          ]

      round-escape :
          (nc : ℕ)
          → strchr st.brk c ≡ false
          → strchr st.quote c ≡ false
          → strchr st.white c ≡ false
          → (not (st.escape == 0) && c == st.escape) ≡ true
          → load st.line (st.lindex + 1) ≡ ok nc
          → round st tok toksize c ≡ on_escape st tok toksize c nc
      unfolding round
      round-escape nc not_brk not_quote not_white escapes behind =
          rw (not_brk, not_quote, not_white, escapes, behind)

      pub round-IsFine :
          load st.line st.lindex ≡ ok c
          → Moved text start st
          → Returns (round st tok toksize c) (IsFine text start (rounds text start st))
      unfolding round
      round-IsFine read moved = elim (Bool-cases (strchr st.brk c)) [
        | inl brk ↦ (
          on_break st st.state tok toksize c,
          rw brk,
          on_break-IsFine text start st tok toksize c t less st.state,
        )
        | inr not_brk ↦ elim (Bool-cases (strchr st.quote c)) [
          | inl quote ↦ (
            on_quote st st.state tok toksize c,
            rw (not_brk, quote),
            on_quote-IsFine text start st tok toksize c t less st.state,
          )
          | inr not_quote ↦ elim (Bool-cases (strchr st.white c)) [
            | inl white ↦ (
              on_white st st.state tok toksize c,
              rw (not_brk, not_quote, white),
              on_white-IsFine text start st tok toksize c t less st.state (was_moved white moved),
            )
            | inr not_white ↦ elim (Bool-cases (not (st.escape == 0) && c == st.escape)) [
              | inl escapes ↦
                  let (nc, behind, more_text, _) =
                    text_at text (st.lindex + 1) is_text (omega (arith, less)) in
                  let (step, run, fine) =
                    on_escape-IsFine nc more_text read not_white
                      (rw (not_white, not_brk, not_quote)) (ground (arith, escapes)) in
                  (
                    step,
                    round-escape nc not_brk not_quote not_white escapes
                          (ap (λ l. load l (st.lindex + 1)) t.same ∙ behind)
                        ∙ run,
                    fine,
                  )
              | inr plain ↦ (
                on_char st st.state tok toksize c,
                rw (not_brk, not_quote, not_white, plain),
                on_char-IsFine text start st tok toksize c t less st.state,
              )
            ]
          ]
        ]
      ]
        where
          same_char : (d : ℕ) → load st.line st.lindex ≡ ok d → d ≡ c
          same_char d read' = cc

          was_moved :
              strchr st.white c ≡ true
              → Moved text start st
              → st.state ≡ st_token
              → start < st.lindex
          was_moved white (inl past) e = past
          was_moved white (inr (inl begins)) e = cc
          was_moved white (inr (inr (d, read', other))) e = absurd (
              not_both (strchr st.white d) (ap (strchr st.white) (same_char d read') ∙ white) other)
