-- ===== src/Tests/Tables.antt =====
-- Examples on a table of four slots, where the keys "a" and "b" share the last one.
use trurlib.Prelude.{ℕ, zero, suc, ◌≡◌, refl, [], ◌∷◌, arith, true, false, ◌≢◌, length, get_or, ap}
use trurlib.Run.{ok, Returns, ◌>>=◌}
use trurlib.Memory.Block.{load}
use trurlib.Hash.Murmur.{murmur3_hash}
use trurlib.Hash.Table.{Hash, Bucket, Key, index_hash, compute_hash, nextslotv, str_eq}
use trurlib.Hash.Lookup.{exists, get, get_bucket, probe, find}
use trurlib.Hash.Lookup.View.{IsTable, IsKey, Tidy, chain_at}
use trurlib.Hash.Remove.{remove}
use trurlib.Hash.Remove.Removed.{Removed, remove-Removed}
use trurlib.Hash.Remove.Insert.{remove-insert}
use trurlib.Hash.Walk.All.{buckets}
use trurlib.Hash.Put.{insert, replace}
use trurlib.Hash.Put.Insert.{Inserted, insert-Inserted}
use trurlib.Hash.Put.Replace.{Replaced, replace-Replaced}

abbrev letter_a : Key
letter_a = 97 ∷ []

abbrev letter_b : Key
letter_b = 98 ∷ []

abbrev bucket_a : Bucket
bucket_a = record { value = 7; key = letter_a; klen = 1 }

abbrev one_key : Hash
one_key = record {
  refcnt = 0;
  nocpkey = false;
  rehash = false;
  noreplace = false;
  size = 4;
  table = [] ∷ [] ∷ [] ∷ (bucket_a ∷ []) ∷ [];
  items = 1;
  free_fn = 5;
  na = 0;
  freed = [];
}

one_key-Tidy : (i : ℕ) → Tidy (chain_at one_key.table i)
one_key-Tidy zero = tt
one_key-Tidy (suc zero) = tt
one_key-Tidy (suc (suc zero)) = tt
one_key-Tidy (suc (suc (suc zero))) = (refl, tt)
one_key-Tidy (suc (suc (suc (suc i)))) = tt

one_key-IsTable : IsTable one_key
one_key-IsTable = record {
  slots = refl;
  pos = omega arith;
  small = omega arith;
  tidy = λ i. one_key-Tidy i;
}

letter_a-IsKey : IsKey letter_a
letter_a-IsKey = record { some_bytes = omega arith; short = omega arith }

letter_b-IsKey : IsKey letter_b
letter_b-IsKey = record { some_bytes = omega arith; short = omega arith }

a_there : exists one_key letter_a ≡ ok true
unfolding exists get_bucket probe find compute_hash index_hash murmur3_hash nextslotv str_eq load
a_there = refl

letters_differ : letter_b ≢ letter_a
letters_differ e =
    let first : Path ℕ 98 97 = ap (λ (k : Key). get_or k 0 0) e in absurd (omega (arith, first))

a_held : get one_key letter_a ≡ ok 7
unfolding get get_bucket probe find compute_hash index_hash murmur3_hash nextslotv str_eq load
a_held = refl

one_bucket : 1 ≡ length (buckets one_key.table)
unfolding buckets
one_bucket = refl

b_absent : exists one_key letter_b ≡ ok false
unfolding exists get_bucket probe find compute_hash index_hash murmur3_hash nextslotv str_eq load
b_absent = refl

insert-Inserted_example :
    Returns (insert one_key letter_b 8) (Inserted one_key-IsTable letter_b-IsKey 8 letter_a)
insert-Inserted_example =
    insert-Inserted one_key-IsTable letter_b-IsKey letter_a-IsKey 8 refl refl (omega arith) b_absent

replace-Replaced_example :
    Returns (replace one_key letter_a 8) (Replaced one_key-IsTable letter_a-IsKey 8 letter_b 7)
replace-Replaced_example =
    replace-Replaced one_key-IsTable letter_a-IsKey letter_b-IsKey 8 refl refl a_there a_held

remove-Removed_example :
    Returns (remove one_key letter_a) (λ r. (r.0 ≡ 7) × Removed one_key letter_b r.1)
remove-Removed_example =
    remove-Removed one_key-IsTable letter_a-IsKey letter_b-IsKey letters_differ refl (omega arith)
      (omega arith) a_there a_held

remove-insert_example : (insert one_key letter_b 8 >>= λ ht'. remove ht' letter_b) ≡ ok (8, one_key)
remove-insert_example =
    remove-insert one_key-IsTable letter_b-IsKey 8 refl refl refl (omega arith) b_absent
