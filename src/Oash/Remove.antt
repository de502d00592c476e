-- ===== src/Oash/Remove.antt =====
-- n_oash_remove and n_oash_clean of noash.c, and the lookups.
pub mod Hole
pub mod Back
pub mod Taken
use trurlib.Prelude.{
  ℕ, zero, suc, ◌+◌, ◌-◌, ◌%◌, ◌&&◌, Bool, true, false, not, Option, none, some, List, ltb, ◌==◌,
  length,
}
use trurlib.Run.{Run, ok, fault, endless, n_assert, ◌>>=◌, ◌>>◌}
use trurlib.Memory.Block.{load, store}
use trurlib.Array.State.{Ptr, null, log_free}
use trurlib.Hash.Murmur.{word}
use trurlib.Hash.Table.{Key}
use trurlib.Oash.Table.{Entry, Oash, compute_hash, tindex, get_dentry}
use trurlib.Oash.Probe.{get_entry}

-- `e ? get_dentry(ht, e)->data : NULL`
unfoldable pub value_at : Oash → Option ℕ → Run Ptr
value_at ht none = ok null
value_at ht (some i) = do e ← load ht.table i; de ← get_dentry ht.dentries e.data_index; ok de.value

abbrev pub is_found : Option ℕ → Bool
is_found none = false
is_found (some i) = true

-- n_oash_hget and n_oash_hexists
unfoldable pub hget : Oash → Key → (klen khash : ℕ) → Run Ptr
hget ht key klen khash = get_entry ht key klen khash >>= value_at ht

unfoldable pub hexists : Oash → Key → (klen khash : ℕ) → Run Bool
hexists ht key klen khash = get_entry ht key klen khash >>= λ at. ok (is_found at)

-- n_oash_get and n_oash_get_ex
unfoldable pub get : Oash → Key → Run Ptr
get ht key = do khash ← compute_hash key (length key); hget ht key (length key) khash

-- n_oash_exists and n_oash_exists_ex
unfoldable pub exists : Oash → Key → Run Bool
exists ht key = do khash ← compute_hash key (length key); hexists ht key (length key) khash

-- The loop of n_oash_remove: the table with the entries moved back, and the slot that comes free.
-- In a table whose distances are right a slot that is empty or has distance 0 comes within one
-- round.
unfoldable pub shift_back : (fuel cap : ℕ) → List Entry → (iprev i : ℕ) → Run (List Entry × ℕ)
shift_back zero cap table iprev i = fault endless
shift_back (suc fuel) cap table iprev i = do
  e ← load table i
  elim (not (e.hash == 0) && ltb 0 e.psl) [
    | false ↦ ok (table, iprev)
    | true ↦ do
      let e = record e { psl = e.psl - 1 }
      table ← store table i e
      table ← store table iprev e
      shift_back fuel cap table i (tindex cap (i + 1))
  ]

unfoldable pub take_entry : Oash → (khash eindex : ℕ) → Run (Ptr × Oash)
take_entry ht khash eindex = do
  e ← load ht.table eindex
  n_assert (e.hash == khash)
  (table, last) ← shift_back ht.cap ht.cap ht.table eindex (tindex ht.cap (eindex + 1))
  l ← load table last
  table ← store table last (record l { hash = 0 })
  de ← get_dentry ht.dentries e.data_index
  dentries ← store ht.dentries e.data_index none
  ok (
    de.value,
    record ht {
      table = table;
      dentries = dentries;
      dsize = (ht.dsize + word - 1) % word;
      size = (ht.size + word - 1) % word;
    },
  )

-- n_oash_remove
unfoldable pub remove : Oash → Key → Run (Ptr × Oash)
remove ht key = do
  khash ← compute_hash key (length key)
  at ← get_entry ht key (length key) khash
  elim at [ none ↦ ok (null, ht) | some i ↦ take_entry ht khash i ]

-- The loop of n_oash_clean: `n` slots are left, from `i` on.
unfoldable pub clean_loop : (n i : ℕ) → Oash → Run Oash
clean_loop zero i ht = ok ht
clean_loop (suc n) i ht = do
  e ← load ht.table i
  elim (e.hash == 0) [
    | true ↦ clean_loop n (i + 1) ht
    | false ↦ do
      table ← store ht.table i (record e { hash = 0 })
      de ← get_dentry ht.dentries e.data_index
      dentries ← store ht.dentries e.data_index none
      clean_loop n (i + 1) (record ht {
        table = table;
        dentries = dentries;
        freed = log_free ht.free_fn de.value ht.freed;
      })
  ]

unfoldable pub clean : Oash → Run Oash
clean ht = do ht ← clean_loop ht.cap 0 ht; ok (record ht { dsize = 0; size = 0 })
