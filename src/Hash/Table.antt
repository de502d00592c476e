-- ===== src/Hash/Table.antt =====
-- struct trurl_hash_table and struct hash_bucket of n_hash_int.h, with the calls that make a table and
-- place a key: n_hash_new.c and n_hash_ctl.c. A chain of buckets is a list, since only the table
-- points into it.
pub mod New
use Prim.Native.Nat.{bit_and}
use trurlib.Prelude.{
  ℕ, zero, suc, ◌+◌, ◌-◌, ◌*◌, ◌%◌, ◌^◌, ◌&&◌, ◌||◌, Bool, true, false, none, some, List, [], ◌∷◌,
  ltb, ◌==◌, if◌then◌else◌, take, replicate, get_elem?,
}
use trurlib.Run.{Run, ok, fault, endless, die_if, hash_not_empty, n_assert, ◌>>=◌, ◌>>◌}
use trurlib.Array.State.{Ptr, null}
use trurlib.Hash.Murmur.{murmur3_hash, word}

-- A key is the bytes of a C string, without the NUL.
abbrev pub Key : Type 0
Key = List ℕ

pub record Bucket : Type 0 where
  pub value : Ptr
  pub key : Key
  pub klen : ℕ

abbrev pub Chain : Type 0
Chain = List Bucket

-- `table` has `size` slots; `na` is the allocator of the buckets, NULL for malloc(). `freed` logs the arguments of the calls of `free_fn`.
pub record Hash : Type 0 where
  pub refcnt : ℕ
  pub nocpkey : Bool
  pub rehash : Bool
  pub noreplace : Bool
  pub size : ℕ
  pub table : List Chain
  pub items : ℕ
  pub free_fn : Ptr
  pub na : Ptr
  pub freed : List Ptr

-- do_n_hash_new_ex; `size` becomes a uint32_t, the slots are those asked for.
unfoldable pub new_sized : (na : Ptr) → ℕ → Ptr → Hash
new_sized na size freefn = record {
  refcnt = 0;
  nocpkey = false;
  rehash = false;
  noreplace = false;
  size = size % word;
  table = replicate size [];
  items = 0;
  free_fn = freefn;
  na = na;
  freed = [];
}

-- The loop of n_hash_new2: `rsize` doubles until it reaches `size`. At 2 ^ 63 it wraps to 0.
unfoldable pub round_up : (fuel size rsize : ℕ) → Run ℕ
round_up zero size rsize = fault endless
round_up (suc fuel) size rsize =
    let rest = round_up fuel size (rsize * 2 % 2 ^ 64) in if ltb rsize size then rest else ok rsize

unfoldable pub new_rounded : (na : Ptr) → ℕ → Ptr → Run Hash
new_rounded na size freefn = do rsize ← round_up 65 size 4; ok (new_sized na rsize freefn)

-- n_hash_new_ex: a size that comes with a hash function is taken as it is, and the function is not
-- used.
unfoldable pub new_ex : ℕ → Ptr → Ptr → Run Hash
new_ex size freefn hashfn =
    if hashfn == null then new_rounded null size freefn else ok (new_sized null size freefn)

-- n_hash_new_na; `made` is the allocator that n_alloc_new gives for NULL.
unfoldable pub new_na : (made na : Ptr) → ℕ → Ptr → Run Hash
new_na made na size freefn = new_rounded (if na == null then made else na) size freefn

-- n_hash_ctl, with the bits of `flags` that the table reads
unfoldable pub ctl : Hash → (nocpkey rehash noreplace : Bool) → Run Hash
ctl ht c r n = do
  die_if (ltb 0 ht.items) hash_not_empty
  ok (record ht {
    nocpkey = ht.nocpkey || c;
    rehash = ht.rehash || r;
    noreplace = ht.noreplace || n;
  })

-- n_hash_compute_index_hash
unfoldable pub index_hash : Hash → ℕ → ℕ
index_hash ht raw = bit_and raw ((ht.size + word - 1) % word)

-- n_hash_compute_hash
unfoldable pub compute_hash : Hash → Key → ℕ → Run ℕ
compute_hash ht key len = do n_assert (ltb 0 len); ok (index_hash ht (murmur3_hash (take len key)))

-- The macro n_hash_nextslotv: `klen + (int)key[klen - 1]`, with char signed, as a uint32_t
unfoldable pub nextslotv : Key → ℕ → ℕ
nextslotv key klen = elim (get_elem? key (klen - 1)) [
  | none ↦ klen % word
  | some c ↦ if ltb c 128 then (klen + c) % word else (klen + word + c - 256) % word
]

-- `strcmp(a, b) == 0`
unfoldable pub str_eq : Key → Key → Bool
str_eq [] [] = true
str_eq [] (b ∷ bs) = false
str_eq (a ∷ s) [] = false
str_eq (a ∷ s) (b ∷ bs) = (a == b) && str_eq s bs
