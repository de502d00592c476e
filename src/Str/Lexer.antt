-- ===== src/Str/Lexer.antt =====
-- The lexer of nstr_tokl.c: lp_parse takes one token of a line, and n_str_etokl_ext takes all. The
-- array of tokens is the list of its strings (see Array.Ends.Push for n_array_push).
pub mod Taken
pub mod Round
pub mod Ends
pub mod Words
pub mod Loop
pub mod Plain
use trurlib.Prelude.{
  ℕ, zero, suc, ◌+◌, Bool, true, false, not, ◌&&◌, ◌||◌, Option, none, some, List, [], ◌∷◌, ◌++◌,
  ◌*◌, ◌^◌, ltb, ◌==◌, if◌then◌else◌, length,
}
use trurlib.Run.{Run, ok, fault, endless, overflow, ◌>>=◌, ◌>>◌, n_assert}
use trurlib.Memory.Block.{load}

-- ST_WHITE, ST_TOKEN and ST_QUOTE
pub data State : Type 0 where
  st_white st_token st_quote : State

-- struct lp_state: `line` is the block of the line, with its 0; the other strings are without it.
pub record Lexer : Type 0 where
  pub line : List ℕ
  pub lindex : ℕ
  pub white : List ℕ
  pub brk : List ℕ
  pub quote : List ℕ
  pub escape : ℕ
  pub state : State
  pub curr_quote : ℕ
  pub is_break : ℕ

-- `strchr(s, c)`, as a test: the 0 at the end of `s` counts.
unfoldable pub strchr : List ℕ → ℕ → Bool
strchr [] c = c == 0
strchr (x ∷ xs) c = if x == c then true else strchr xs c

-- storechr: the token is the characters below `sindex`.
unfoldable pub storechr : List ℕ → (slen : ℕ) → ℕ → List ℕ
storechr tok slen c = if ltb (length tok) slen then tok ++ (c ∷ []) else tok

-- lp_init
unfoldable pub lp_init : (line white brk quote : List ℕ) (escape : ℕ) → Lexer
lp_init line white brk quote escape = record {
  line = line;
  lindex = 0;
  white = white;
  brk = brk;
  quote = quote;
  escape = escape;
  state = st_white;
  curr_quote = 0;
  is_break = 0;
}

-- How a round of the loop of lp_parse ends: at `l_end`, or at the next character, where `lindex`
-- is that of the character.
pub data Step : Type 0 where
  stop : Lexer → List ℕ → Step
  next : Lexer → List ℕ → Step

-- The next round, with the state and with the token
abbrev to_next : Lexer → State → List ℕ → Step
to_next st state tok = next (record st { lindex = st.lindex + 1; state = state }) tok

unfoldable pub on_break : Lexer → State → List ℕ → (toksize c : ℕ) → Step
on_break st st_quote tok toksize c = to_next st st_quote (storechr tok toksize c)
on_break st st_white tok toksize c = stop (record st { lindex = st.lindex + 1; is_break = c }) tok
on_break st st_token tok toksize c = stop (record st { lindex = st.lindex + 1; is_break = c }) tok

unfoldable pub on_quote : Lexer → State → List ℕ → (toksize c : ℕ) → Step
on_quote st st_quote tok toksize c =
    if c == st.curr_quote
    then to_next (record st { curr_quote = 0 }) st_token tok
    else to_next st st_quote (storechr tok toksize c)
on_quote st st_white tok toksize c = to_next (record st { curr_quote = c }) st_quote tok
on_quote st st_token tok toksize c = to_next (record st { curr_quote = c }) st_quote tok

unfoldable pub on_white : Lexer → State → List ℕ → (toksize c : ℕ) → Step
on_white st st_white tok toksize c = to_next st st_white tok
on_white st st_token tok toksize c = stop (record st { state = st_white }) tok
on_white st st_quote tok toksize c = to_next st st_quote (storechr tok toksize c)

unfoldable pub on_char : Lexer → State → List ℕ → (toksize c : ℕ) → Step
on_char st st_white tok toksize c = to_next st st_token (storechr tok toksize c)
on_char st st_token tok toksize c = to_next st st_token (storechr tok toksize c)
on_char st st_quote tok toksize c = to_next st st_quote (storechr tok toksize c)

abbrev pub is_special : Lexer → ℕ → Bool
is_special st c = strchr st.white c || strchr st.brk c || strchr st.quote c

-- The character at `lindex`, or the one behind it when `nc` is special
unfoldable pub escaped : Lexer → State → List ℕ → (toksize nc : ℕ) → Run Step
escaped st state tok toksize nc =
    let i = if is_special st nc then st.lindex + 1 else st.lindex in
    load st.line i >>= λ c. ok (to_next (record st { lindex = i }) state (storechr tok toksize c))

-- The switch for an escape character before `nc`. In ST_WHITE, `lindex--` takes the character once
-- more, in ST_TOKEN.
unfoldable pub on_escape_in : Lexer → State → List ℕ → (toksize nc : ℕ) → Run Step
on_escape_in st st_white tok toksize nc = ok (next (record st { state = st_token }) tok)
on_escape_in st st_token tok toksize nc = escaped st st_token tok toksize nc
on_escape_in st st_quote tok toksize nc = escaped st st_quote tok toksize nc

unfoldable pub on_escape : Lexer → List ℕ → (toksize c nc : ℕ) → Run Step
on_escape st tok toksize c nc =
    let both = record st { is_break = 0; lindex = st.lindex + 1 } in
    if nc == 0
    then ok (stop both (storechr tok toksize c))
    else if nc == st.escape
    then on_escape_in both st.state (storechr tok toksize c) toksize nc
    else on_escape_in st st.state tok toksize nc

-- A round of the loop of lp_parse, at the character `c`
unfoldable pub round : Lexer → List ℕ → (toksize c : ℕ) → Run Step
round st tok toksize c =
    if strchr st.brk c
    then ok (on_break st st.state tok toksize c)
    else if strchr st.quote c
    then ok (on_quote st st.state tok toksize c)
    else if strchr st.white c
    then ok (on_white st st.state tok toksize c)
    else if not (st.escape == 0) && c == st.escape
    then (load st.line (st.lindex + 1) >>= on_escape st tok toksize c)
    else ok (on_char st st.state tok toksize c)

-- What the loop does after a round
unfoldable pub on_step :
    Step → (again : Lexer → List ℕ → Run (Lexer × List ℕ)) → Run (Lexer × List ℕ)
on_step (stop st tok) again = ok (st, tok)
on_step (next st tok) again = again st tok

-- The loop of lp_parse
unfoldable pub lp_loop : (fuel : ℕ) → Lexer → List ℕ → (toksize : ℕ) → Run (Lexer × List ℕ)
lp_loop zero st tok toksize = fault endless
lp_loop (suc fuel) st tok toksize = load st.line st.lindex >>= λ c.
    if c == 0
    then ok (st, tok)
    else (round st tok toksize c >>= λ step.
        on_step step (λ after taken. lp_loop fuel after taken toksize))

-- lp_parse: the token, `none` at the end of the line, and the lexer. The characters of the line
-- are taken twice each, at most.
unfoldable pub lp_parse : Lexer → (toksize : ℕ) → Run (Option (List ℕ) × Lexer)
lp_parse st toksize =
    let fresh = record st { state = st_white; curr_quote = 0; is_break = 0 } in
    load st.line st.lindex >>= λ c.
    if c == 0
    then ok (none, fresh)
    else (lp_loop (2 * suc (length st.line)) fresh [] toksize >>= λ (after, tok).
        n_assert (ltb (length tok) toksize) >> ok (some tok, after))

-- What a call of lp_parse adds to the array
unfoldable pub pushed : List ℕ → (is_break : ℕ) → List (List ℕ)
pushed tok is_break =
    (if ltb 0 (length tok) then tok ∷ [] else [])
    ++ (if is_break == 0 then [] else (is_break ∷ []) ∷ [])

-- What the loop of n_str_etokl_ext does with the result of lp_parse
unfoldable pub on_token :
    List (List ℕ)
    → (again : Lexer → List (List ℕ) → Run (List (List ℕ))) → Option (List ℕ) × Lexer
    → Run (List (List ℕ))
on_token tl again (none, after) = ok tl
on_token tl again (some tok, after) = again after (tl ++ pushed tok after.is_break)

unfoldable pub etokl_loop : (fuel : ℕ) → Lexer → (toksize : ℕ) → List (List ℕ) → Run (List (List ℕ))
etokl_loop zero st toksize tl = fault endless
etokl_loop (suc fuel) st toksize tl =
    lp_parse st toksize >>= on_token tl (λ after more. etokl_loop fuel after toksize more)

abbrev or_default : Option (List ℕ) → List ℕ → List ℕ
or_default none default = default
or_default (some given) default = given

-- n_str_etokl_ext on the text of a line: " \t", ";|" and "\"'" stand for NULL. `toksize` and `lindex`
-- are ints: from 2 ^ 31 - 1 characters on the size for alloca() is negative, or `lindex` overflows.
unfoldable pub etokl_ext :
    (text : List ℕ) (white brk quote : Option (List ℕ)) (escape : ℕ) → Run (List (List ℕ))
etokl_ext text white brk quote escape =
    let st =
      lp_init (text ++ (0 ∷ [])) (or_default white (32 ∷ 9 ∷ [])) (or_default brk (59 ∷ 124 ∷ []))
        (or_default quote (34 ∷ 39 ∷ [])) escape in
    if ltb (length text + 1) (2 ^ 31)
    then etokl_loop (suc (length text)) st (length text + 1) []
    else fault overflow
