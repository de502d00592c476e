-- ===== src/Hash/Murmur.antt =====
-- murmur3_hash of n_hash_new.c (noash.c has a copy). Words are numbers below 2 ^ 32; a group of four
-- bytes is read as on a little-endian machine.
use Prim.Native.Nat.{bit_xor, bit_or}
use trurlib.Prelude.{ℕ, ◌+◌, ◌*◌, ◌/◌, ◌%◌, ◌^◌, List, [], ◌∷◌, length}

abbrev pub word : ℕ
word = 2 ^ 32

unfoldable pub murmur_32_scramble : ℕ → ℕ
murmur_32_scramble k =
    let k = k * 0xcc9e2d51 % word in
    let k = bit_or (k * 2 ^ 15 % word) (k / 2 ^ 17) in k * 0x1b873593 % word

-- One round of the first loop
unfoldable pub mix : ℕ → ℕ → ℕ
unfolding murmur_32_scramble
mix h k =
    let h = bit_xor h (murmur_32_scramble k) in
    let h = bit_or (h * 2 ^ 13 % word) (h / 2 ^ 19) in (h * 5 + 0xe6546b64) % word

-- The number that at most four bytes stand for, the first byte the lowest
unfoldable pub little_endian : List ℕ → ℕ
little_endian [] = 0
little_endian (b ∷ bs) = bit_or (little_endian bs * 2 ^ 8 % word) b

-- The first loop and the tail: groups of four as long as there are four.
unfoldable pub groups : ℕ → List ℕ → ℕ
unfolding mix murmur_32_scramble little_endian
groups h (a ∷ b ∷ c ∷ d ∷ rest) = groups (mix h (little_endian (a ∷ b ∷ c ∷ d ∷ []))) rest
groups h rest = bit_xor h (murmur_32_scramble (little_endian rest))

unfoldable pub finalize : ℕ → ℕ → ℕ
finalize h len =
    let h = bit_xor h len in
    let h = bit_xor h (h / 2 ^ 16) in
    let h = h * 0x85ebca6b % word in
    let h = bit_xor h (h / 2 ^ 13) in let h = h * 0xc2b2ae35 % word in bit_xor h (h / 2 ^ 16)

unfoldable pub murmur3_hash : List ℕ → ℕ
unfolding groups finalize
murmur3_hash key = finalize (groups (bit_xor 5381 (length key)) key) (length key)
