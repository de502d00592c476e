-- ===== src/Oash/Probe.antt =====
-- The two probes of noash.c: ohash_get_entry looks for a key, n_oash_put_entry makes its place.
pub mod Ring
pub mod Robin
pub mod Used
pub mod Find
pub mod Place
pub mod Way
pub mod Settle
pub mod Added
use trurlib.Prelude.{
  ℕ, zero, suc, ◌+◌, ◌-◌, ◌%◌, ◌^◌, ◌&&◌, ◌||◌, Bool, true, false, not, Option, none, some, List,
  [], ◌∷◌, ltb, leb, ◌==◌, if◌then◌else◌,
}
use trurlib.Run.{Run, ok, fault, endless, n_assert, ◌>>=◌, ◌>>◌}
use trurlib.Memory.Block.{load, store}
use trurlib.Hash.Murmur.{word}
use trurlib.Hash.Table.{Key}
use trurlib.Oash.Table.{Entry, Dentry, Oash, tindex, get_dentry}

-- `strncmp(a, b, n) == 0`
unfoldable pub strncmp_eq : ℕ → Key → Key → Bool
strncmp_eq zero a b = true
strncmp_eq (suc n) [] [] = true
strncmp_eq (suc n) [] (y ∷ b) = false
strncmp_eq (suc n) (x ∷ a) [] = false
strncmp_eq (suc n) (x ∷ a) (y ∷ b) = (x == y) && strncmp_eq n a b

-- psldiff: how far the slot lies behind the one that the entry's hash names
unfoldable pub psldiff : (cap : ℕ) → Entry → ℕ → ℕ
psldiff cap e index =
    let index0 = tindex cap e.hash in
    if leb index0 index then index - index0 else index + (cap - index0)

-- What n_oash_put_entry changes, with the slot that it returns.
pub record Placed : Type 0 where
  pub table : List Entry
  pub size : ℕ
  pub slot : ℕ
  pub found : Bool

abbrev pub first_of : Option ℕ → ℕ → ℕ
first_of none i = i
first_of (some r) i = r

abbrev pub is_none : Option ℕ → Bool
is_none none = true
is_none (some r) = false

-- `key && tentry_eq(e, &entry) && (... strncmp(ekey, key, e->klen) == 0)`, for an entry with `hash`
-- and `klen`
unfoldable pub same_key : Option Key → (e : Entry) (hash klen : ℕ) → Dentry → Bool
same_key none e hash klen de = false
same_key (some key) e hash klen de =
    (e.hash == hash) && ((e.klen == klen) && strncmp_eq e.klen de.key key)

module _ (cap : ℕ) (dentries : List (Option Dentry)) where
  -- The loop of ohash_get_entry, `np` slots behind the first one, `index`
  unfoldable pub get_loop :
      (fuel : ℕ) → List Entry → Key → (klen khash index i np : ℕ) → Run (Option ℕ)
  get_loop zero table key klen khash index i np = fault endless
  get_loop (suc fuel) table key klen khash index i np = do
    e ← load table i
    elim ((e.hash == 0) || (ltb (psldiff cap e i) np || (not (i == index) && (e.psl == 0)))) [
      | true ↦ ok none
      | false ↦ do
        same ←
            (if (khash == e.hash) && (klen == e.klen)
              then (get_dentry dentries e.data_index >>= λ de. ok (strncmp_eq klen key de.key))
              else ok false)
        elim same [
          | true ↦ ok (some i)
          | false ↦ get_loop fuel table key klen khash index (tindex cap (i + 1)) (np + 1)
        ]
    ]

  -- The loop of n_oash_put_entry: `entry` looks for a slot from `index` on, `re` is the slot that is
  -- returned, if known.
  unfoldable pub put_loop :
      (fuel : ℕ)
      → Option Key
      → List Entry
      → (size : ℕ) (entry : Entry) (index : ℕ) → Option ℕ
      → Run Placed
  put_loop zero key table size entry index re = fault endless
  put_loop (suc fuel) key table size entry index re = do
    e ← load table index
    elim (e.hash == 0) [
      | true ↦ do
        table ← store table index entry
        ok (record { table = table; size = size + 1; slot = first_of re index; found = false })
      | false ↦ do
        de ← get_dentry dentries e.data_index
        elim (same_key key e entry.hash entry.klen de) [
          | true ↦ do
            n_assert (is_none re)
            ok (record { table = table; size = size; slot = index; found = true })
          | false ↦ elim (ltb e.psl entry.psl) [
            | true ↦ do
              table ← store table index entry
              put_loop fuel key table size (record e { psl = (e.psl + 1) % 2 ^ 16 })
                  (tindex cap (index + 1)) (some (first_of re index))
            | false ↦
                put_loop fuel key table size (record entry { psl = (entry.psl + 1) % 2 ^ 16 })
                  (tindex cap (index + 1)) re
          ]
        ]
    ]

-- ohash_get_entry. Behind as many slots as there are every distance is exceeded.
unfoldable pub get_entry : Oash → Key → (klen khash : ℕ) → Run (Option ℕ)
get_entry ht key klen khash =
    let index = tindex ht.cap khash in
    get_loop ht.cap ht.dentries (suc ht.cap) ht.table key klen khash index index 0

-- n_oash_put_entry. A free slot is met within one round, or never.
unfoldable pub put_entry : Oash → Entry → Option Key → Run Placed
put_entry ht entry key =
    put_loop ht.cap ht.dentries ht.cap key ht.table ht.size (record entry { psl = 0 })
      (tindex ht.cap entry.hash) none
