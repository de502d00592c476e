-- ===== src/Str/Path.antt =====
-- n_basedirnam and n_basenam of nstr_basenam.c. A pointer into the block of the path is its index.
use trurlib.Prelude.{
  ℕ, suc, ◌+◌, ◌≡◌, ◌≢◌, refl, Option, none, some, List, [], ◌∷◌, ◌++◌, arith, length, ◌==◌,
  if◌then◌else◌,
}
use trurlib.Run.{Run, ok, fault, out_of_bounds, ◌>>=◌}
use trurlib.Memory.Block.{store}
use trurlib.Memory.Laws.{store-append}
use trurlib.Str.Copied.{IsText, more}

-- `strrchr(s, c)`: the last place of `c` before the 0 of the string
unfoldable pub strrchr : (block : List ℕ) (c : ℕ) → Run (Option ℕ)
strrchr [] c = fault out_of_bounds
strrchr (x ∷ xs) c =
    if x == 0
    then ok none
    else (strrchr xs c >>= λ later.
        ok (elim later [ some i ↦ some (suc i) | none ↦ if x == c then some 0 else none ]))

-- n_basedirnam: the place of the directory's name, `none` for NULL, that of the file's, and the
-- block, where a 0 ends the directory's name
unfoldable pub basedirnam : (path : List ℕ) → Run (Option ℕ × ℕ × List ℕ)
basedirnam path = strrchr path 47 >>= λ s. elim s [
  | none ↦ ok (none, 0, path)
  | some i ↦ store path i 0 >>= λ b. ok (some 0, i + 1, b)
]

-- n_basenam
unfoldable pub basenam : (path : List ℕ) → Run ℕ
basenam path = strrchr path 47 >>= λ s. ok (elim s [ none ↦ 0 | some i ↦ i + 1 ])

-- A string in which `c` does not occur
pub data Without (c : ℕ) : List ℕ → Type 0 where
  empty : Without c []
  longer : (x : ℕ) (xs : List ℕ) → x ≢ c → Without c xs → Without c (x ∷ xs)

strrchr-none :
    (c : ℕ) (xs rest : List ℕ) → IsText xs → Without c xs → strrchr (xs ++ (0 ∷ rest)) c ≡ ok none
unfolding strrchr
strrchr-none c [] rest is_text without = refl
strrchr-none c (x ∷ xs) rest (more _ _ some_char is_text) (longer _ _ other without) =
    rw (strrchr-none c xs rest is_text without) (ground (arith, some_char, other))

strrchr-last :
    (c : ℕ) (pre xs rest : List ℕ)
    → c ≢ 0
    → IsText pre
    → IsText xs
    → Without c xs
    → strrchr (pre ++ (c ∷ (xs ++ (0 ∷ rest)))) c ≡ ok (some (length pre))
unfolding strrchr
strrchr-last c [] xs rest some_c pre_text is_text without =
    rw (strrchr-none c xs rest is_text without) (ground (arith, some_c))
strrchr-last c (x ∷ pre) xs rest some_c (more _ _ some_char pre_text) is_text without =
    rw (strrchr-last c pre xs rest some_c pre_text is_text without) (ground (arith, some_char))

-- A path with a directory: n_basedirnam puts a 0 in the place of the last slash, so that the block
-- starts with the directory's name, and returns its start and the place of the file's name, which
-- n_basenam returns as well. A path without a slash is a file's name, and there is no directory.
pub basedirnam-parts :
    (dir base rest : List ℕ)
    → IsText dir
    → IsText base
    → Without 47 base
    → (basedirnam (dir ++ (47 ∷ (base ++ (0 ∷ rest))))
        ≡ ok (some 0, length dir + 1, dir ++ (0 ∷ (base ++ (0 ∷ rest)))))
      × (basenam (dir ++ (47 ∷ (base ++ (0 ∷ rest)))) ≡ ok (length dir + 1))
      × (basedirnam (base ++ (0 ∷ rest)) ≡ ok (none, 0, base ++ (0 ∷ rest)))
      × (basenam (base ++ (0 ∷ rest)) ≡ ok 0)
unfolding basedirnam basenam
basedirnam-parts dir base rest dir_text base_text without =
    let found = strrchr-last 47 dir base rest (omega arith) dir_text base_text without in
    let none_found = strrchr-none 47 base rest base_text without in
    (
      rw (found, store-append dir 47 0 (base ++ (0 ∷ rest)) (length dir) refl),
      rw found,
      rw none_found,
      rw none_found,
    )
