-- ===== src/Buf/Host.antt =====
-- What the buffers take from the C library and from the machine: the bytes found in new memory,
-- how a uint16_t and a uint32_t lie in memory, and the byte order functions of include/trurl/n2h.h.
use trurlib.Prelude.{ℕ, ◌/◌, ◌%◌, ◌^◌, ◌<◌, ◌≡◌, List, [], ◌∷◌, ltb, if◌then◌else◌, length}
use trurlib.Run.{Run, ok, die, no_memory}

-- The bytes of a number in network order
abbrev pub net16 : ℕ → List ℕ
net16 v = (v / 256) ∷ (v % 256) ∷ []

abbrev pub net32 : ℕ → List ℕ
net32 v = (v / 2 ^ 24) ∷ (v / 2 ^ 16 % 256) ∷ (v / 256 % 256) ∷ (v % 256) ∷ []

-- `bytes16` and `word16` are the representation in memory and its inverse; with htons and ntohs,
-- they give and read network order.
pub record Host : Type 0 where
  pub fresh : ℕ → List ℕ
  pub hton16 : ℕ → ℕ
  pub ntoh16 : ℕ → ℕ
  pub bytes16 : ℕ → List ℕ
  pub word16 : List ℕ → ℕ
  pub hton32 : ℕ → ℕ
  pub ntoh32 : ℕ → ℕ
  pub bytes32 : ℕ → List ℕ
  pub word32 : List ℕ → ℕ
  pub length-fresh : (n : ℕ) → length (fresh n) ≡ n
  pub bytes16-hton16 : (v : ℕ) → v < 2 ^ 16 → bytes16 (hton16 v) ≡ net16 v
  pub ntoh16-word16 : (v : ℕ) → v < 2 ^ 16 → ntoh16 (word16 (net16 v)) ≡ v
  pub bytes32-hton32 : (v : ℕ) → v < 2 ^ 32 → bytes32 (hton32 v) ≡ net32 v
  pub ntoh32-word32 : (v : ℕ) → v < 2 ^ 32 → ntoh32 (word32 (net32 v)) ≡ v

-- n_malloc: a size above PTRDIFF_MAX is refused, and the process ends; every other is met.
unfoldable pub malloc : Host → ℕ → Run (List ℕ)
malloc host n = if ltb n (2 ^ 63) then ok (host.fresh n) else die no_memory
