-- ===== src/Memory/Block.antt =====
-- A block of memory as the list of its cells, with the accesses that the C code makes. An access
-- outside the block is a fault.
use trurlib.Prelude.{
  ℕ, zero, suc, ◌+◌, List, [], ◌∷◌, ◌++◌, leb, if◌then◌else◌, length, take, drop, replicate, ◌&&◌,
}
use trurlib.Run.{Run, ok, fault, out_of_bounds, ◌>>=◌}

module _ {ℓ} {A : Type ℓ} where
  -- `data[i]`
  unfoldable pub load : List A → ℕ → Run A
  load [] i = fault out_of_bounds
  load (x ∷ xs) zero = ok x
  load (x ∷ xs) (suc i) = load xs i

  -- `data[i] = v`
  unfoldable pub store : List A → ℕ → A → Run (List A)
  store [] i v = fault out_of_bounds
  store (x ∷ xs) zero v = ok (v ∷ xs)
  store (x ∷ xs) (suc i) v = store xs i v >>= λ ys. ok (x ∷ ys)

  -- `memmove(&data[d], &data[s], n * sizeof(*data))`
  unfoldable pub move : List A → (d s n : ℕ) → Run (List A)
  move xs d s n =
      if leb (s + n) (length xs) && leb (d + n) (length xs)
      then ok (take d xs ++ (take n (drop s xs) ++ drop (d + n) xs))
      else fault out_of_bounds

  -- `memset` of `n` cells from `i` on: every cell becomes `v`
  unfoldable pub fill : List A → (i n : ℕ) → A → Run (List A)
  fill xs i n v =
      if leb (i + n) (length xs)
      then ok (take i xs ++ (replicate n v ++ drop (i + n) xs))
      else fault out_of_bounds
