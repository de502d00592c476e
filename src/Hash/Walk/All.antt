-- ===== src/Hash/Walk/All.antt =====
-- What the calls that go through a whole table meet: every bucket once, slot by slot.
use trurlib.Prelude.{
  ℕ, zero, suc, ◌+◌, ◌-◌, ◌^◌, ◌<◌, ◌≡◌, refl, ap, sym, ◌∙◌, true, false, List, [], ◌∷◌, ◌++◌,
  arith, length, map, length-append, append_assoc, append-nil, ◌==◌, if◌then◌else◌, ltb, Bool-cases,
  inl, inr,
}
use trurlib.Prelude.Int.{to_int-small}
use trurlib.Run.{ok, Returns}
use trurlib.Memory.Laws.{load-append}
use trurlib.Array.State.{Array, Ptr, null, Code, new}
use trurlib.Array.State.New.{new-Models}
use trurlib.Array.View.{Models}
use trurlib.Array.Ends.Push.{push-room}
use trurlib.Array.Whole.Clean.{log_all}
use trurlib.Hash.Table.{Bucket, Chain, Hash}
use trurlib.Hash.Walk.{walk, map_calls, push_all, values, log_values, free}

-- The buckets of a table, slot by slot
unfoldable pub buckets : List Chain → List Bucket
buckets [] = []
buckets (c ∷ cs) = c ++ buckets cs

abbrev value_at : Bucket → Ptr
value_at b = b.value

-- The values of the buckets
unfoldable pub values_in : List Bucket → List Ptr
values_in [] = []
values_in (b ∷ bs) = b.value ∷ values_in bs

walk-buckets :
    (cs pre tbl : List Chain) (n i : ℕ)
    → tbl ≡ pre ++ cs
    → i ≡ length pre
    → n ≡ length cs
    → walk n i tbl ≡ ok (buckets cs)
unfolding walk buckets
walk-buckets [] pre tbl zero i e ei en = refl
walk-buckets [] pre tbl (suc n) i e ei en = absurd (omega arith)
walk-buckets (c ∷ cs) pre tbl zero i e ei en = absurd (omega arith)
walk-buckets (c ∷ cs) pre tbl (suc n) i e ei en = ground (
  arith,
  load-append pre c cs i ei,
  walk-buckets cs (pre ++ c ∷ []) tbl n (i + 1) (e ∙ sym (append_assoc pre (c ∷ []) cs))
      (omega (arith, length-append pre (c ∷ []))) (omega arith),
)

map-values_in : (bs : List Bucket) → map value_at bs ≡ values_in bs
unfolding values_in
map-values_in [] = refl
map-values_in (b ∷ bs) = ap (λ t. b.value ∷ t) (map-values_in bs)

length-values_in : (bs : List Bucket) → length (values_in bs) ≡ length bs
unfolding values_in
length-values_in [] = refl
length-values_in (b ∷ bs) = ap suc (length-values_in bs)

log_values-log_all :
    (fn : Ptr) (bs : List Bucket) (freed : List Ptr)
    → log_values fn bs freed ≡ log_all fn (values_in bs) freed
unfolding log_values log_all values_in
log_values-log_all fn [] freed = refl
log_values-log_all fn (b ∷ bs) freed = log_values-log_all fn bs _

push_all-appends :
    (ps ys : List Ptr) (free room : ℕ) {arr : Array}
    → free ≡ length ps + room
    → Models 0 ys free arr
    → arr.flags.frozen ≡ false
    → Returns (push_all ps arr) (Models 0 (ys ++ ps) room)
unfolding push_all
push_all-appends [] ys free room {arr} e m thawed =
    (arr, refl, rw (append-nil ys) (ground (arith, m)))
push_all-appends (p ∷ ps) ys zero room e m thawed = absurd (omega arith)
push_all-appends (p ∷ ps) ys (suc free) room {arr} e m thawed =
    let (a, run, (m', same)) = push-room 0 ys free p m thawed in
    let (a', rest, m'') =
      push_all-appends ps (ys ++ p ∷ []) free room (omega arith) m' (same.frozen ∙ thawed) in
    (a', ground (arith, run, rest), rw (← append_assoc ys (p ∷ []) ps) m'')

-- n_hash_values, on a table of fewer than 2 ^ 31 items that counts its slots and buckets right,
-- makes an array of the values of all buckets, slot by slot.
pub values-all :
    (code : Code) (ht : Hash)
    → length ht.table ≡ ht.size
    → ht.items ≡ length (buckets ht.table)
    → ht.items < 2 ^ 31
    → Returns
        (values code ht)
        (Models 0 (values_in (buckets ht.table)) (if ht.items == 0 then 2 else 0))
unfolding values
values-all code ht slots count small =
    let (a, made, (m, new)) = new-Models code ht.items null null in
    let bs = buckets ht.table in
    let room = if ht.items == 0 then 2 else 0 in
    let (a', run, m') =
      push_all-appends (values_in bs) [] (if ht.items == 0 then 2 else ht.items) room
        (ground (arith, count, length-values_in bs)) m (ap (λ f. f.frozen) new.flags) in
    let met = walk-buckets ht.table [] ht.table ht.size 0 refl refl (sym slots) in
    (a', ground (arith, to_int-small ht.items small, made, met, map-values_in bs, run), m')

-- On a table that counts its slots right, n_hash_map calls `map_fn` on the key and value of every
-- bucket, slot by slot, and returns their number.
pub map_calls-all :
    (ht : Hash)
    → length ht.table ≡ ht.size
    → map_calls ht
      ≡ ok (map (λ (b : Bucket). (b.key, b.value)) (buckets ht.table), length (buckets ht.table))
unfolding map_calls
map_calls-all ht slots =
    ground (arith, walk-buckets ht.table [] ht.table ht.size 0 refl refl (sym slots))

-- On a table that counts its slots right, n_hash_free counts down while there are other
-- references; at the last one every value of the table that is not NULL reaches `free_fn` once, if
-- that is set.
pub free-all :
    (ht : Hash)
    → length ht.table ≡ ht.size
    → Returns (free ht) (λ r.
      if ltb 0 ht.refcnt
      then (r.0 ≡ true) × (r.1 ≡ record ht { refcnt = ht.refcnt - 1 })
      else (r.0 ≡ false) × (r.1.freed ≡ log_all ht.free_fn (values_in (buckets ht.table)) ht.freed))
unfolding free
free-all ht slots = elim (Bool-cases (ltb 0 ht.refcnt)) [
  | inl shared ↦
      ((true, record ht { refcnt = ht.refcnt - 1 }), rw shared refl, rw shared (refl, refl))
  | inr last ↦
      let bs = buckets ht.table in
      let met = walk-buckets ht.table [] ht.table ht.size 0 refl refl (sym slots) in
      (
        (
          false,
          record ht { table = []; size = 0; items = 0; freed = log_values ht.free_fn bs ht.freed },
        ),
        ground (arith, last, met),
        rw last (refl, log_values-log_all ht.free_fn bs ht.freed),
      )
]
