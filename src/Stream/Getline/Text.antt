-- ===== src/Stream/Getline/Text.antt =====
-- The first line of a text, and the part of it that n_stream_gets reads.
use trurlib.Prelude.{
  ℕ, zero, suc, ◌<◌, ◌≤◌, ◌≡◌, ◌≢◌, refl, ap, inl, inr, Bool, true, false, List, [], ◌∷◌, ◌++◌,
  arith, length, drop, ◌==◌, if◌then◌else◌, Bool-cases,
}
use trurlib.Stream.File.{line_part}

-- The first line of a text, with its end where it has one
abbrev pub first_line : List ℕ → List ℕ
first_line [] = []
first_line (x ∷ xs) = if x == 10 then x ∷ [] else x ∷ first_line xs

pub first_line-le : (xs : List ℕ) → length (first_line xs) ≤ length xs
first_line-le [] = omega arith
first_line-le (x ∷ xs) = ground (arith, first_line-le xs)

pub line_part-le : (k : ℕ) (xs : List ℕ) → length (line_part k xs) ≤ k
line_part-le zero xs = omega arith
line_part-le (suc k) [] = omega arith
line_part-le (suc k) (x ∷ xs) = ground (arith, line_part-le k xs)

-- A part that is shorter than it may be is the first line.
pub line_part-short :
    (k : ℕ) (xs : List ℕ) → length (line_part k xs) < k → line_part k xs ≡ first_line xs
line_part-short zero xs less = absurd (omega arith)
line_part-short (suc k) [] less = refl
line_part-short (suc k) (x ∷ xs) less = elim (Bool-cases (x == 10)) [
  | inl ends ↦ rw ends
  | inr goes_on ↦
      rw goes_on (ap (λ t. x ∷ t) (line_part-short k xs (longer_tail (x == 10) goes_on less)))
]
  where
    longer_tail :
        (b : Bool)
        → b ≡ false
        → length (if b then x ∷ [] else x ∷ line_part k xs) < suc k
        → length (line_part k xs) < k
    longer_tail true e h = cc
    longer_tail false e h = omega arith

-- The first line is the part of it, and the line that follows where that is not at its end.
pub line_part-first_line :
    (k : ℕ) (xs : List ℕ)
    → k ≤ length (line_part k xs)
    → length (first_line xs) ≢ k
    → line_part k xs ++ first_line (drop k xs) ≡ first_line xs
line_part-first_line zero xs full other = refl
line_part-first_line (suc k) [] full other = absurd (omega arith)
line_part-first_line (suc k) (x ∷ xs) full other = elim (Bool-cases (x == 10)) [
  | inl ends ↦ absurd (ground arith)
  | inr goes_on ↦ rw goes_on (
      ap (λ t. x ∷ t)
        (line_part-first_line k xs (ground arith) (λ e. other (rw goes_on (ap suc e)))))
]
