-- ===== src/Tests/Oashes.antt =====
-- Examples on an open-addressing table of two slots that holds the key "b".
use trurlib.Prelude.{
  ℕ, zero, suc, ◌+◌, ◌<◌, ◌≤◌, ◌≡◌, ◌≢◌, refl, sym, true, false, none, some, [], ◌∷◌, arith,
}
use trurlib.Run.{ok, fault, out_of_bounds, Returns}
use trurlib.Memory.Block.{load}
use trurlib.Hash.Murmur.{murmur3_hash}
use trurlib.Hash.Table.{Key}
use trurlib.Oash.Table.{Entry, empty, Dentry, Oash, compute_hash, tindex, get_dentry}
use trurlib.Oash.Probe.{psldiff, same_key, strncmp_eq, get_entry, put_entry}
use trurlib.Oash.Probe.Robin.{slot, next, IsRobin}
use trurlib.Oash.Probe.Used.{used}
use trurlib.Oash.Probe.Find.{IsHeld, IsHit, get_entry-finds}
use trurlib.Oash.Probe.Added.{IsNew, IsAdded, put_entry-IsAdded}
use trurlib.Oash.Put.{replacing, put, insert, rehash_all}
use trurlib.Oash.Put.Data.{stored}
use trurlib.Oash.Put.Grow.{IsGrown, rehash_all-IsGrown}
use trurlib.Oash.Put.Store.{IsStore, IsInserted}
use trurlib.Oash.Put.Insert.{new_entry, put-IsInserted, insert-get}
use trurlib.Oash.Remove.Taken.{IsRemoved, remove-IsRemoved}
use trurlib.Oash.Remove.{remove, get, exists, hexists}
use trurlib.Oash.Walk.{it_get}
use trurlib.Oash.Walk.Iterator.{it_get-past}

abbrev letter_b : Key
letter_b = 98 ∷ []

abbrev letter_a : Key
letter_a = 97 ∷ []

abbrev entry_b : Entry
entry_b = record { hash = 2446037071; psl = 0; klen = 1; data_index = 0 }

abbrev one_entry : Oash
one_entry = record {
  refcnt = 0;
  nocpkey = false;
  rehash = true;
  noreplace = false;
  cap = 2;
  table = empty ∷ entry_b ∷ [];
  size = 1;
  dcap = 2;
  dentries = some (record { value = 7; key = letter_b }) ∷ none ∷ [];
  dsize = 1;
  free_fn = 0;
  freed = [];
}

data_there : get_dentry one_entry.dentries 0 ≡ ok (record { value = 7; key = letter_b })
unfolding get_dentry load
data_there = refl

one_entry-IsHeld : IsHeld 2 one_entry.table one_entry.dentries
one_entry-IsHeld = record {
  cap_ok = record { bits = 1; pow = refl; small = omega arith };
  slots = refl;
  held = held;
}
  where
    held :
        (i : ℕ)
        → i < 2
        → (slot one_entry.table i).hash ≢ 0
        → (de : Dentry) × (get_dentry one_entry.dentries (slot one_entry.table i).data_index
            ≡ ok de)
    held zero h there = absurd (there refl)
    held (suc zero) h there = (record { value = 7; key = letter_b }, data_there)
    held (suc (suc i)) h there = absurd (omega (arith, h))

home : psldiff 2 entry_b 1 ≡ 0
unfolding psldiff tindex
home = refl

one_entry-IsRobin : IsRobin 2 one_entry.table
one_entry-IsRobin = record { slots = refl; dist = dist; step = step }
  where
    dist :
        (i : ℕ)
        → i < 2
        → (slot one_entry.table i).hash ≢ 0
        → (slot one_entry.table i).psl ≡ psldiff 2 (slot one_entry.table i) i
    dist zero h there = absurd (there refl)
    dist (suc zero) h there = sym home
    dist (suc (suc i)) h there = absurd (omega (arith, h))

    step :
        (i : ℕ)
        → i < 2
        → (slot one_entry.table (next 2 i)).hash ≢ 0
        → 0 < (slot one_entry.table (next 2 i)).psl
        → ((slot one_entry.table i).hash ≢ 0)
          × ((slot one_entry.table (next 2 i)).psl ≤ (slot one_entry.table i).psl + 1)
    step zero h there away = absurd (omega (arith, away))
    step (suc zero) h there away = absurd (omega (arith, away))
    step (suc (suc i)) h there away = absurd (omega (arith, h))

one_entry-IsStore : IsStore one_entry
unfolding used stored
one_entry-IsStore = record {
  fits = record { whole = one_entry-IsHeld; robin = one_entry-IsRobin; counted = refl };
  dcap_same = refl;
  data_slots = refl;
  data_counted = refl;
}

letter_b-IsHit : IsHit one_entry.table one_entry.dentries letter_b 1 2446037071 1
unfolding strncmp_eq
letter_b-IsHit = record {
  hash = refl;
  len = refl;
  de = record { value = 7; key = letter_b };
  data_there = data_there;
  same = refl;
}

-- A key with another hash is new.
other-IsNew :
    (khash : ℕ)
    → khash < 2446037071
    → IsNew one_entry.table one_entry.dentries (some letter_a) (new_entry 1 khash)
unfolding same_key
other-IsNew khash h = record { safe = safe; apart = apart }
  where
    safe :
        (i : ℕ) (de : Dentry)
        → (slot one_entry.table i).hash ≢ 0
        → get_dentry one_entry.dentries (slot one_entry.table i).data_index ≡ ok de
        → same_key (some letter_a) (slot one_entry.table i) khash 1 de ≡ false
    safe zero de there e = absurd (there refl)
    safe (suc zero) de there e = ground (arith, h)
    safe (suc (suc i)) de there e = absurd (there refl)

    apart :
        (i j : ℕ) (de : Dentry)
        → i ≢ j
        → (slot one_entry.table i).hash ≢ 0
        → (slot one_entry.table j).hash ≢ 0
        → get_dentry one_entry.dentries (slot one_entry.table j).data_index ≡ ok de
        → same_key
            (some letter_a)
            (slot one_entry.table j)
            (slot one_entry.table i).hash
            (slot one_entry.table i).klen
            de
          ≡ false
    apart zero j de away there there2 e = absurd (there refl)
    apart (suc (suc i)) j de away there there2 e = absurd (there refl)
    apart (suc zero) zero de away there there2 e = absurd (there2 refl)
    apart (suc zero) (suc zero) de away there there2 e = absurd (away refl)
    apart (suc zero) (suc (suc j)) de away there there2 e = absurd (there2 refl)

hash_b : compute_hash letter_b 1 ≡ ok 2446037071
unfolding compute_hash murmur3_hash
hash_b = refl

hash_a : compute_hash letter_a 1 ≡ ok 2094251747
unfolding compute_hash murmur3_hash
hash_a = refl

get_entry-finds_example :
    (j : ℕ) × (get_entry one_entry letter_b 1 2446037071 ≡ ok (some j))
    × IsHit one_entry.table one_entry.dentries letter_b 1 2446037071 j
get_entry-finds_example =
    get_entry-finds one_entry one_entry-IsHeld one_entry-IsRobin letter_b 1 2446037071 1
      (omega arith) (λ e. cc) letter_b-IsHit

put_entry-IsAdded_example :
    Returns
      (put_entry one_entry (new_entry 1 3) (some letter_a))
      (IsAdded 2 one_entry.table 1 (new_entry 1 3))
put_entry-IsAdded_example =
    put_entry-IsAdded one_entry (new_entry 1 3) (some letter_a) one_entry-IsStore.fits (omega arith)
      (λ e. cc) (other-IsNew 3 (omega arith))

rehash_all-IsGrown_example : Returns (rehash_all one_entry) (IsGrown one_entry)
rehash_all-IsGrown_example =
    rehash_all-IsGrown one_entry one_entry-IsStore.fits (omega arith) (omega arith)

put-IsInserted_example :
    Returns (put one_entry letter_a 1 3 8 replacing) (IsInserted one_entry letter_a 1 3 8)
put-IsInserted_example =
    put-IsInserted one_entry one_entry-IsStore letter_a 1 3 8 replacing
      (other-IsNew 3 (omega arith)) (omega arith) (omega arith) (λ e. cc) (omega arith)
      (omega arith) (omega arith)

insert-get_example : Returns (insert one_entry letter_a 8) (λ out.
    (get (out.1) letter_a ≡ ok 8)
    × (exists (out.1) letter_a ≡ ok true)
    × ((key2 : Key) (klen2 khash2 : ℕ)
        → khash2 ≢ 0
        → hexists one_entry key2 klen2 khash2 ≡ ok true
        → hexists (out.1) key2 klen2 khash2 ≡ ok true))
insert-get_example =
    insert-get one_entry one_entry-IsStore letter_a 8 2094251747 hash_a (λ e. cc)
      (other-IsNew 2094251747 (omega arith)) (omega arith) (omega arith) (omega arith) (omega arith)

it_get-past_example : it_get one_entry 2 ≡ fault out_of_bounds
it_get-past_example =
    it_get-past one_entry 2 refl (omega arith) (λ j h hj. absurd (omega (arith, h, hj)))

remove-IsRemoved_example :
    (j : ℕ) × (hit : IsHit one_entry.table one_entry.dentries letter_b 1 2446037071 j) × Returns
      (remove one_entry letter_b)
      (IsRemoved one_entry (hit.de).value j)
remove-IsRemoved_example =
    remove-IsRemoved one_entry letter_b 2446037071 1 one_entry-IsStore.fits (omega arith) hash_b
      (λ e. cc) letter_b-IsHit
