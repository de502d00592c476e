-- ===== src/Str/Join/Joined.antt =====
-- n_str_concat joins its arguments.
use trurlib.Prelude.{
  ℕ, ◌+◌, ◌-◌, ◌%◌, ◌^◌, ◌<◌, ◌≡◌, refl, sym, ap, ◌∙◌, List, [], ◌∷◌, ◌++◌, append-nil,
  append_assoc, arith, le→leb, length, length-append, drop, lt→ltb,
}
use trurlib.Prelude.Int.{pos, to_int-small}
use trurlib.Prelude.Pieces.{take_long, length-drop}
use trurlib.Run.{ok}
use trurlib.Memory.Laws.{take_at, drop-append_more}
use trurlib.Buf.Host.{Host, malloc}
use trurlib.Buf.Write.{copy_in}
use trurlib.Str.Copied.{IsText, more}
use trurlib.Stream.Getline.First.{strlen-lem}
use trurlib.Str.Join.{add_lengths, str_vlen, strcpy, strcat, strcat_all, str_vconcat}

abbrev pub concat : List (List ℕ) → List ℕ
concat [] = []
concat (p ∷ ps) = p ++ concat ps

-- The strings are without the character 0.
pub data AllText : List (List ℕ) → Type 0 where
  none_left : AllText []
  one_more : (p : List ℕ) (ps : List (List ℕ)) → IsText p → AllText ps → AllText (p ∷ ps)

add_lengths-sum :
    (args : List (List ℕ)) (len : ℕ)
    → len + length (concat args) < 2 ^ 32
    → add_lengths len args ≡ len + length (concat args)
unfolding add_lengths
add_lengths-sum [] len small = omega arith
add_lengths-sum (p ∷ ps) len small =
    let e : (len + length p) % 2 ^ 32 ≡ len + length p =
      omega (arith, small, length-append p (concat ps)) in
    ap (λ l. add_lengths l ps) e
    ∙ (add_lengths-sum ps (len + length p) (omega (arith, small, length-append p (concat ps)))
        ∙ omega (arith, length-append p (concat ps)))

IsText-append : (xs ys : List ℕ) → IsText xs → IsText ys → IsText (xs ++ ys)
IsText-append [] ys none text = text
IsText-append (x ∷ xs) ys (more _ _ some_char rest) text =
    more x (xs ++ ys) some_char (IsText-append xs ys rest text)

-- A string written over the end of another
copy_in-end :
    (acc s junk : List ℕ)
    → length s < length junk
    → copy_in (acc ++ junk) (length acc) (s ++ (0 ∷ [])) (length s + 1)
      ≡ ok ((acc ++ s) ++ (0 ∷ drop (length s + 1) junk))
unfolding copy_in
copy_in-end acc s junk room =
    let len = length-append s (0 ∷ []) in
    rw
      (
        le→leb (length acc + (length s + 1)) (length (acc ++ junk))
            (omega (arith, length-append acc junk)),
        le→leb (length s + 1) (length (s ++ (0 ∷ []))) (omega (arith, len)),
        take_at acc junk (length acc) refl,
        take_long (s ++ (0 ∷ [])) (length s + 1) (omega (arith, len)),
        drop-append_more acc junk (length acc + (length s + 1)) (length s + 1) refl,
        append_assoc s (0 ∷ []) (drop (length s + 1) junk),
      )
      (ap ok (sym (append_assoc acc s (0 ∷ drop (length s + 1) junk))))

strcat_all-concat :
    (args : List (List ℕ)) (acc junk : List ℕ)
    → IsText acc
    → AllText args
    → length junk ≡ length (concat args)
    → strcat_all (acc ++ (0 ∷ junk)) args ≡ ok ((acc ++ concat args) ++ (0 ∷ []))
unfolding strcat_all strcat
strcat_all-concat [] acc [] is_text all e = ap (λ k. ok (k ++ (0 ∷ []))) (sym (append-nil acc))
strcat_all-concat [] acc (y ∷ junk) is_text all e = absurd (omega arith)
strcat_all-concat (p ∷ ps) acc junk is_text (one_more _ _ p_text all) e =
    let len = length-append p (concat ps) in
    rw (strlen-lem acc junk is_text, copy_in-end acc p (0 ∷ junk) (omega (arith, e, len)))
      (strcat_all-concat ps (acc ++ p) (drop (length p + 1) (0 ∷ junk))
          (IsText-append acc p is_text p_text) all
          (omega (arith, length-drop (length p + 1) (0 ∷ junk), e, len))
        ∙ ap (λ k. ok (k ++ (0 ∷ []))) (append_assoc acc p (concat ps)))

-- For strings of less than 2 ^ 31 - 1 characters together, n_str_concat returns a block that is
-- filled by the characters of all, in order, and one 0, and n_str_len returns their number.
pub str_vconcat-concat :
    (host : Host) (s : List ℕ) (args : List (List ℕ))
    → IsText s
    → AllText args
    → length s + length (concat args) < 2 ^ 31 - 1
    → (str_vconcat host s args ≡ ok ((s ++ concat args) ++ (0 ∷ [])))
      × (str_vlen s args ≡ pos (length (s ++ concat args)))
unfolding str_vconcat str_vlen strcpy malloc
str_vconcat-concat host s args is_text all small =
    let n = length s + length (concat args) in
    let first : length s % 2 ^ 32 ≡ length s = omega (arith, small) in
    let sum = add_lengths-sum args (length s) (omega (arith, small)) in
    let size = host.length-fresh (n + 1) in
    let copied = copy_in-end [] s (host.fresh (n + 1)) (omega (arith, size)) in
    let joined =
      strcat_all-concat args s (drop (length s + 1) (host.fresh (n + 1))) is_text all
        (omega (arith, length-drop (length s + 1) (host.fresh (n + 1)), size)) in
    (
      rw (
        first,
        sum,
        to_int-small (n + 1) (omega (arith, small)),
        lt→ltb (n + 1) (2 ^ 63) (omega (arith, small)),
        copied,
        joined,
      ),
      rw (first, sum, to_int-small n (omega (arith, small)))
          (ap pos (sym (length-append s (concat args)))),
    )
