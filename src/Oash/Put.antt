-- ===== src/Oash/Put.antt =====
-- Insertion, replacement and growing: n_oash_put of noash.c and its callers.
pub mod Rehash
pub mod Grow
pub mod Grown
pub mod Seen
pub mod Data
pub mod Store
pub mod Label
pub mod Insert
use trurlib.Prelude.{
  ℕ, zero, suc, ◌+◌, ◌-◌, ◌*◌, ◌/◌, ◌%◌, ◌^◌, ◌&&◌, Bool, true, false, not, Option, none, some,
  List, [], ◌∷◌, ◌++◌, ltb, leb, ◌==◌, if◌then◌else◌, length, replicate,
}
use trurlib.Run.{
  Run, ok, fault, endless, null_pointer, out_of_bounds, die, die_if, key_exists, no_replace,
  table_full, n_assert, ◌>>=◌, ◌>>◌,
}
use trurlib.Memory.Block.{load, store}
use trurlib.Array.State.{Ptr, null, log_free}
use trurlib.Hash.Murmur.{word}
use trurlib.Hash.Table.{Key}
use trurlib.Oash.Table.{Entry, empty, Dentry, Oash, compute_hash, tindex, get_dentry, new_dentry}
use trurlib.Oash.Probe.{Placed, get_entry, put_entry}

-- OASH_PUT_REPLACE, OASH_PUT_KEEP and OASH_PUT_DIE
pub data Mode : Type 0 where
  replacing keeping dying : Mode

-- The loop of put_dentry
unfoldable pub find_null : (fuel : ℕ) → List (Option Dentry) → (dcap index : ℕ) → Run ℕ
find_null zero dentries dcap index = fault endless
find_null (suc fuel) dentries dcap index = do
  d ← load dentries index
  elim d [ none ↦ ok index | some de ↦ find_null fuel dentries dcap (tindex dcap (index + 1)) ]

unfoldable pub put_dentry : Oash → Dentry → Run (ℕ × Oash)
put_dentry ht de = do
  index ← find_null ht.dcap ht.dentries ht.dcap (tindex ht.dcap ht.dsize)
  dentries ← store ht.dentries index (some de)
  ok (index, record ht { dentries = dentries; dsize = ht.dsize + 1 })

-- The loop of ohash_rehash
unfoldable pub rehash_entries : List Entry → Oash → Run Oash
rehash_entries [] ht = ok ht
rehash_entries (e ∷ es) ht = elim (e.hash == 0) [
  | true ↦ rehash_entries es ht
  | false ↦ do
    r ← put_entry ht e none
    rehash_entries es (record ht { table = r.table; size = r.size })
]

-- ohash_rehash, with realloc_data
unfoldable pub rehash_all : Oash → Run Oash
rehash_all ht =
    let cap = ht.cap * 2 % word in
    let dcap = ht.dcap * 2 % word in
    if ltb dcap ht.dcap
    then fault out_of_bounds
    else rehash_entries ht.table (record ht {
      table = replicate cap empty;
      cap = cap;
      size = 0;
      dentries = ht.dentries ++ replicate (dcap - ht.dcap) none;
      dcap = dcap;
    })

-- `if (de->data && ht->free_fn) ht->free_fn(de->data); de->data = data;`
unfoldable pub assign_value : Oash → (index : ℕ) → Ptr → Run (Option ℕ × Oash)
assign_value ht index p = do
  de ← get_dentry ht.dentries index
  dentries ← store ht.dentries index (some (record de { value = p }))
  ok (some index, record ht { dentries = dentries; freed = log_free ht.free_fn de.value ht.freed })

-- `ht->cap - ht->size <= ht->cap / 3` under TN_HASH_REHASH, in uint32_t
abbrev pub crowded : Oash → Bool
crowded ht = ht.rehash && leb ((ht.cap + word - ht.size) % word) (ht.cap / 3)

-- The branch of n_oash_put for a new key, whose entry has been placed
unfoldable pub fill_slot : Oash → Key → (klen : ℕ) → Ptr → (slot : ℕ) → Run (Option ℕ × Oash)
fill_slot ht key klen p slot = do
  de ← new_dentry ht key klen p
  (index, ht) ← put_dentry ht de
  e ← load ht.table slot
  table ← store ht.table slot (record e { data_index = index })
  let ht = record ht { table = table }
  ht ← (if crowded ht then rehash_all ht else ok ht)
  ok (some index, ht)

abbrev pub is_some : Option Dentry → Bool
is_some none = false
is_some (some de) = true

-- The branch for a key that is there
unfoldable pub found_slot : Oash → Ptr → Mode → (slot : ℕ) → Run (Option ℕ × Oash)
found_slot ht p dying slot = die key_exists
found_slot ht p replacing slot = do e ← load ht.table slot; assign_value ht e.data_index p
found_slot ht p keeping slot = do
  e ← load ht.table slot
  d ← load ht.dentries e.data_index
  n_assert (is_some d)
  ok (some e.data_index, ht)

-- n_oash_put from `e.hash = khash` on
unfoldable pub place : Oash → Key → (klen khash : ℕ) → Ptr → Mode → Run (Option ℕ × Oash)
place ht key klen khash p mode = do
  r ← put_entry ht (record { hash = khash; psl = 0; klen = klen; data_index = 0 }) (some key)
  let ht = record ht { table = r.table; size = r.size }
  (if r.found then found_slot ht p mode r.slot else fill_slot ht key klen p r.slot)

-- What n_oash_put does on a full table, after it has looked for the key and found it in a slot or
-- grown the table
unfoldable pub on_full :
    Oash → Key → (klen khash : ℕ) → Ptr → Mode → Option ℕ → Run (Option ℕ × Oash)
on_full ht key klen khash p dying ee = place ht key klen khash p dying
on_full ht key klen khash p keeping none = fault null_pointer
on_full ht key klen khash p keeping (some i) = do e ← load ht.table i; ok (some e.data_index, ht)
on_full ht key klen khash p replacing none = fault null_pointer
on_full ht key klen khash p replacing (some i) = do
  e ← load ht.table i
  assign_value ht e.data_index p

abbrev pub is_dying : Mode → Bool
is_dying replacing = false
is_dying keeping = false
is_dying dying = true

-- n_oash_put: the index of the dentry that is returned, `none` for NULL, and the table
unfoldable pub put : Oash → Key → (klen khash : ℕ) → Ptr → Mode → Run (Option ℕ × Oash)
put ht key klen khash p mode = do
  n_assert (ltb 0 klen)
  n_assert (ltb klen 65535)
  khash ← (if khash == 0 then compute_hash key klen else ok khash)
  (if ht.cap == ht.size
      then (do
        ee ← get_entry ht key klen khash
        elim ee [
          | some i ↦ on_full ht key klen khash p mode (some i)
          | none ↦
              if ht.rehash
              then (rehash_all ht >>= λ ht. on_full ht key klen khash p mode none)
              else die_if (is_dying mode) table_full >> ok (none, ht)
        ])
      else place ht key klen khash p mode)

-- n_oash_insert; n_oash_hinsert and n_oash_insert_ex give the length and the hash.
unfoldable pub insert : Oash → Key → Ptr → Run (Option ℕ × Oash)
insert ht key p = put ht key (length key) 0 p dying

unfoldable pub hinsert : Oash → Key → (klen khash : ℕ) → Ptr → Run (Option ℕ × Oash)
hinsert ht key klen khash p = put ht key klen khash p dying

unfoldable pub hreplace : Oash → Key → (klen khash : ℕ) → Ptr → Run (Option ℕ × Oash)
hreplace ht key klen khash p = do die_if ht.noreplace no_replace; put ht key klen khash p replacing

unfoldable pub replace : Oash → Key → Ptr → Run (Option ℕ × Oash)
replace ht key p = hreplace ht key (length key) 0 p

-- n_oash__get_insert
unfoldable pub get_insert : Oash → Key → (len : ℕ) → Run (Option ℕ × Oash)
get_insert ht key len = put ht key len 0 null keeping
