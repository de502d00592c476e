-- ===== src/Hash/Lookup/View.antt =====
-- What a lookup returns on a well-formed table.
use Prim.Native.Nat.{min, bit_and, bit_and-bitwise, digits}
use trurlib.Prelude.{
  ℕ, zero, suc, ◌+◌, ◌-◌, ◌/◌, ◌%◌, ◌<◌, ◌≤◌, ◌≡◌, refl, ap, ◌↔◌, Bool, true, Option, none, some,
  List, [], ◌∷◌, arith, ltb, if◌then◌else◌, length, get_or, take, lt→ltb,
}
use trurlib.Run.{ok}
use trurlib.Memory.Laws.{load-get_or}
use trurlib.Hash.Murmur.{word, murmur3_hash}
use trurlib.Hash.Table.{Key, Bucket, Chain, Hash, compute_hash, index_hash, nextslotv, str_eq}
use trurlib.Hash.Lookup.{find, probe, get_bucket, get, exists, value_of, is_found}

and_digits-le : (n a b : ℕ) → digits (λ b. zero) min n a b ≤ b
and_digits-le zero a b = omega arith
and_digits-le (suc n) zero b = omega arith
and_digits-le (suc n) (suc a) b = omega (arith, and_digits-le n (suc a / 2) (b / 2))

bit_and-le : (a b : ℕ) → bit_and a b ≤ b
bit_and-le a b = omega (arith, bit_and-bitwise a b, and_digits-le a a b)

pub str_eq_iff : (a b : Key) → (str_eq a b ≡ true) ↔ (a ≡ b)
unfolding str_eq
str_eq_iff [] [] = (λ _. refl, λ _. refl)
str_eq_iff [] (y ∷ b) = (λ e. cc, λ e. cc)
str_eq_iff (x ∷ a) [] = (λ e. cc, λ e. cc)
str_eq_iff (x ∷ a) (y ∷ b) = ground (arith, str_eq_iff a b)

-- Every bucket knows the length of its key.
abbrev pub Tidy : Chain → Type 0
Tidy [] = Unit
Tidy (b ∷ c) = (b.klen ≡ length b.key) × Tidy c

abbrev pub chain_at : List Chain → ℕ → Chain
chain_at tbl i = get_or tbl i []

-- The table has as many slots as it says, and tidy chains.
pub record IsTable (ht : Hash) : Type 0 where
  pub slots : length ht.table ≡ ht.size
  pub pos : 0 < ht.size
  pub small : ht.size < word
  pub tidy : (i : ℕ) → Tidy (chain_at ht.table i)

pub index_hash-lt :
    (ht : Hash) (raw : ℕ) → 0 < ht.size → ht.size < word → index_hash ht raw < ht.size
unfolding index_hash
index_hash-lt ht raw pos small = omega (arith, bit_and-le raw ((ht.size + word - 1) % word))

-- The slot that a key's hash names, and the two beside it.
unfoldable pub home : Hash → Key → ℕ
home ht key = index_hash ht (murmur3_hash key)

abbrev pub above : Hash → Key → ℕ
above ht key = (home ht key + nextslotv key (length key)) % word

abbrev pub below : Hash → Key → ℕ
below ht key = home ht key - nextslotv key (length key)

abbrev pub has_above : Hash → Key → Bool
has_above ht key = ltb (above ht key) ht.size

abbrev pub has_below : Hash → Key → Bool
has_below ht key = ltb (nextslotv key (length key)) (home ht key)

-- What one slot holds for a key
unfoldable pub spot : List Chain → Key → ℕ → Option (ℕ × Bucket)
spot tbl key i = elim (find key (length key) (chain_at tbl i)) [
  | none ↦ none
  | some b ↦ some (i, b)
]

abbrev pub or_else : Option (ℕ × Bucket) → Option (ℕ × Bucket) → Option (ℕ × Bucket)
or_else none q = q
or_else (some p) q = some p

-- The bucket of a key, wherever the table holds it.
unfoldable pub seek : Hash → Key → Option (ℕ × Bucket)
seek ht key = or_else (spot ht.table key (home ht key)) (
    or_else (if has_above ht key then spot ht.table key (above ht key) else none)
      (if has_below ht key then spot ht.table key (below ht key) else none))

-- A C string that is no longer than the table takes.
pub record IsKey (key : Key) : Type 0 where
  pub some_bytes : 0 < length key
  pub short : length key < 65535

take-length : (key : Key) → take (length key) key ≡ key
take-length [] = refl
take-length (b ∷ key) = ap (λ t. b ∷ t) (take-length key)

module _ {ht : Hash} (v : IsTable ht) {key : Key} (k : IsKey key) where
  pub home-lt : home ht key < length ht.table
  unfolding home
  home-lt = rw v.slots (index_hash-lt ht (murmur3_hash key) v.pos v.small)

  pub compute_hash-home : compute_hash ht key (length key) ≡ ok (home ht key)
  unfolding compute_hash home
  compute_hash-home = rw (lt→ltb 0 (length key) k.some_bytes, take-length key)

  probe-spot :
      (i : ℕ) → i < length ht.table → probe ht.table key (length key) i ≡ ok (spot ht.table key i)
  unfolding probe spot
  probe-spot i h = rw (load-get_or ht.table i [] h)

  -- n_hash_get_bucket finds what the three slots hold.
  pub get_bucket-seek : get_bucket ht key (length key) (home ht key) ≡ ok (seek ht key)
  unfolding get_bucket seek
  get_bucket-seek = ground (
    arith,
    home-lt,
    v.slots,
    k.some_bytes,
    k.short,
    probe-spot (home ht key),
    probe-spot (above ht key),
    probe-spot (below ht key),
  )

  -- n_hash_exists and n_hash_get answer from the bucket that is found.
  pub exists-seek : exists ht key ≡ ok (is_found (seek ht key))
  unfolding exists
  exists-seek = rw (compute_hash-home, get_bucket-seek)

  pub get-seek : get ht key ≡ ok (value_of (seek ht key))
  unfolding get
  get-seek = rw (compute_hash-home, get_bucket-seek)

-- A bucket that is found lies in one of the three slots of the key.
pub found_some : (o : Option (ℕ × Bucket)) → is_found o ≡ true → (at : ℕ × Bucket) × (o ≡ some at)
found_some none e = cc
found_some (some at) e = (at, refl)

pub spot-index :
    (tbl : List Chain) (q : Key) (j : ℕ) (at : ℕ × Bucket) → spot tbl q j ≡ some at → j ≡ at.0
unfolding spot
spot-index tbl q j at e = ground arith

pub seek-lt :
    {ht : Hash} (v : IsTable ht) {key : Key} (k : IsKey key) (i : ℕ) (b : Bucket)
    → seek ht key ≡ some (i, b)
    → i < length ht.table
unfolding seek
seek-lt {ht} v {key} k i b e = ground (
  arith,
  v.slots,
  home-lt v k,
  spot-index ht.table key (home ht key) (i, b),
  spot-index ht.table key (above ht key) (i, b),
  spot-index ht.table key (below ht key) (i, b),
)
