-- ===== src/Oash/Table.antt =====
-- struct tentry and struct trurl_oash_table of noash.c, struct dentry of noash_int.h, and the calls
-- that make a table and hash a key.
use Prim.Native.Nat.{bit_and}
use trurlib.Prelude.{
  ℕ, ◌+◌, ◌-◌, ◌%◌, ◌||◌, Bool, false, Option, none, some, List, [], ltb, leb, ◌==◌, if◌then◌else◌,
  length, take, replicate,
}
use trurlib.Run.{
  Run, ok, fault, null_pointer, out_of_bounds, die_if, hash_not_empty, n_assert, ◌>>=◌, ◌>>◌,
}
use trurlib.Memory.Block.{load}
use trurlib.Array.State.{Ptr, null}
use trurlib.Hash.Murmur.{word, murmur3_hash}
use trurlib.Hash.Table.{Key, round_up}

-- A slot of the table; one with hash 0 is empty.
pub record Entry : Type 0 where
  pub hash : ℕ
  pub psl : ℕ
  pub klen : ℕ
  pub data_index : ℕ

abbrev pub empty : Entry
empty = record { hash = 0; psl = 0; klen = 0; data_index = 0 }

pub record Dentry : Type 0 where
  pub value : Ptr
  pub key : Key

-- `table` has `cap` slots and `dentries` has the `dcap` pointers of `data`, `none` for NULL;
-- `freed` logs the arguments of the calls of `free_fn`.
pub record Oash : Type 0 where
  pub refcnt : ℕ
  pub nocpkey : Bool
  pub rehash : Bool
  pub noreplace : Bool
  pub cap : ℕ
  pub table : List Entry
  pub size : ℕ
  pub dcap : ℕ
  pub dentries : List (Option Dentry)
  pub dsize : ℕ
  pub free_fn : Ptr
  pub freed : List Ptr

-- ohash_new_ex
unfoldable pub new_sized : ℕ → Ptr → Run Oash
new_sized size freefn = do
  n_assert (ltb size (word - 1))
  ok (record {
    refcnt = 0;
    nocpkey = false;
    rehash = false;
    noreplace = false;
    cap = size;
    table = replicate size empty;
    size = 0;
    dcap = size;
    dentries = replicate size none;
    dsize = 0;
    free_fn = freefn;
    freed = [];
  })

-- ohash_new2
unfoldable pub new_rounded : ℕ → Ptr → Run Oash
new_rounded size freefn = do rsize ← round_up 65 size 4; new_sized rsize freefn

-- n_oash_new_ex: a size that comes with a hash function is taken as it is.
unfoldable pub new_ex : ℕ → Ptr → Ptr → Run Oash
new_ex size freefn hashfn =
    if hashfn == null then new_rounded size freefn else new_sized size freefn

-- n_oash_compute_hash: 0 marks an empty slot.
unfoldable pub compute_hash : Key → ℕ → Run ℕ
compute_hash key len = do
  n_assert (ltb 0 len)
  let v = murmur3_hash (take len key)
  ok (if v == 0 then 1 else v)

-- n_oash_ctl, with the bits of `flags` that the table reads
unfoldable pub ctl : Oash → (nocpkey rehash noreplace : Bool) → Run Oash
ctl ht c r n = do
  die_if (ltb 0 ht.size) hash_not_empty
  ok (record ht {
    nocpkey = ht.nocpkey || c;
    rehash = ht.rehash || r;
    noreplace = ht.noreplace || n;
  })

-- The macro tindex
unfoldable pub tindex : (cap hash : ℕ) → ℕ
tindex cap hash = bit_and hash ((cap + word - 1) % word)

-- get_dentry, with the entry that a NULL pointer lies at being a fault
unfoldable pub get_dentry : List (Option Dentry) → ℕ → Run Dentry
get_dentry dentries i = do
  d ← load dentries i
  elim d [ none ↦ fault null_pointer | some de ↦ ok de ]

-- new_dentry: `klen + 1` bytes of the key are copied, of which the first `klen` are ever compared. A
-- length above the key's reads behind it.
unfoldable pub new_dentry : Oash → Key → ℕ → Ptr → Run Dentry
new_dentry ht key klen p = do
  n_assert (ltb 0 klen)
  (if ht.nocpkey
      then ok (record { value = p; key = key })
      else if leb klen (length key)
      then ok (record { value = p; key = take klen key })
      else fault out_of_bounds)
