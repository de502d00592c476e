-- ===== src/Hash/Remove/Insert.antt =====
-- n_hash_remove undoes n_hash_insert.
use trurlib.Prelude.{
  ℕ, zero, suc, ◌+◌, ◌-◌, ◌%◌, ◌<◌, ◌≡◌, refl, ap, true, false, none, List, [], ◌∷◌, arith, length,
  get_or, set, get_or-set,
}
use trurlib.Run.{ok, ◌>>=◌}
use trurlib.Array.State.{Ptr, null}
use trurlib.Hash.Murmur.{word}
use trurlib.Hash.Table.{Key, Chain, Hash, str_eq}
use trurlib.Hash.Lookup.{exists}
use trurlib.Hash.Lookup.View.{str_eq_iff, chain_at, IsTable, IsKey, seek, exists-seek}
use trurlib.Hash.Put.{crowded, insert}
use trurlib.Hash.Put.Slots.{IsPlace-lt, seek-added_self, IsTable-added}
use trurlib.Hash.Put.Insert.{fresh, insert-added}
use trurlib.Hash.Remove.{remove}
use trurlib.Hash.Remove.Removed.{without, remove-seek}

set_back :
    (tbl : List Chain) (i : ℕ) (c : Chain)
    → i < length tbl
    → set (set tbl i c) i (get_or tbl i []) ≡ tbl
set_back [] i c h = elim h [ ]
set_back (x ∷ tbl) zero c h = refl
set_back (x ∷ tbl) (suc i) c h = ap (λ t. x ∷ t) (set_back tbl i c (omega arith))

-- Where a key of 1 to 65534 bytes is not there and the table is well-formed, has no allocator of its own and fewer than
-- 2 ^ 32 items, looks for duplicates and needs no growing, removing the key after its insertion returns its value and gives the very table from
-- before.
pub remove-insert :
    {ht : Hash} (v : IsTable ht) {key : Key} (k : IsKey key) (p : Ptr)
    → crowded ht ≡ false
    → ht.noreplace ≡ false
    → ht.na ≡ null
    → ht.items < word
    → exists ht key ≡ ok false
    → (insert ht key p >>= λ ht'. remove ht' key) ≡ ok (p, ht)
unfolding without
remove-insert {ht} v {key} k p roomy checked own small absent =
    let none_there : seek ht key ≡ none = ground (arith, exists-seek v k) in
    let (j, place, run) = insert-added v k p roomy checked none_there in
    let h = IsPlace-lt v k place in
    let b = fresh v k p in
    let same : str_eq key key ≡ true = (str_eq_iff key key).1 refl in
    let v' = IsTable-added v j b h refl in
    let self = seek-added_self v j b h key (ground (arith, same)) none_there place in
    let items : ((ht.items + 1) % word + word - 1) % word ≡ ht.items = omega arith in
    ground (
      arith,
      run,
      remove-seek v' k own,
      self,
      same,
      items,
      get_or-set ht.table j j (b ∷ chain_at ht.table j) [] h,
      set_back ht.table j (b ∷ chain_at ht.table j) h,
    )
