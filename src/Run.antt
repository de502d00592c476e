-- ===== src/Run.antt =====
-- How a call of the library ends (ndie.c, nassert.c). trurl_die, n_die and n_assert_fail abort the
-- process when no hook is set, which is the case modelled here: the call ends with the message.
use trurlib.Prelude.{◌≡◌, refl, Bool, true, false}

pub data Message : Type 0 where
  frozen const_size : Message
  pop_empty shift_empty nth_oob set_oob remove_oob sort_no_cmp bsearch_no_cmp : Message
  tuple_oob : Message
  list_pop list_shift list_remove_empty list_remove_oob list_no_cmp : Message
  key_exists node_exists hash_not_empty no_replace table_full : Message
  no_memory buf_const_size seek_end seek_whence stream_type : Message

-- A step that C leaves undefined, or a loop that does not end. `bad_free` is a free() of memory that
-- malloc() did not give, `overflow` that of an int.
pub data Fault : Type 0 where
  out_of_bounds null_pointer dangling endless bad_free overflow : Fault

pub data Run {ℓ} (T : Type ℓ) : Type ℓ where
  assert_fail : Run T
  die : Message → Run T
  fault : Fault → Run T
  ok : T → Run T

infixl 5 ◌>>=◌ ◌>>◌
abbrev pub ◌>>=◌ {ℓ ℓ'} : {S : Type ℓ} {T : Type ℓ'} → (call : Run S) (rest : S → Run T) → Run T
assert_fail >>= rest = assert_fail
die why >>= rest = die why
fault what >>= rest = fault what
ok s >>= rest = rest s

abbrev pub ◌>>◌ {ℓ} : {T : Type ℓ} → Run (Unit {0}) → Run T → Run T
test >> rest = test >>= λ _. rest

-- `if (test) trurl_die(...)`
abbrev pub die_if : Bool → Message → Run (Unit {0})
die_if true m = die m
die_if false m = ok tt

-- `n_assert(test)`
abbrev pub n_assert : Bool → Run (Unit {0})
n_assert true = ok tt
n_assert false = assert_fail

-- The call returns, with a value of which `Good` holds.
abbrev pub Returns {ℓ ℓ'} : {T : Type ℓ} → (call : Run T) (Good : T → Type ℓ') → Type (ℓ ⊔ ℓ')
Returns {T} call Good = (t : T) × (call ≡ ok t) × Good t

-- Inversion: both parts of a bind that returns have returned.
pub >>=-eq-ok {ℓ ℓ'} :
    {S : Type ℓ} {T : Type ℓ'} (call : Run S) (rest : S → Run T) {t : T}
    → call >>= rest ≡ ok t
    → (s : S) × (call ≡ ok s) × (rest s ≡ ok t)
>>=-eq-ok assert_fail rest h = cc
>>=-eq-ok (die why) rest h = cc
>>=-eq-ok (fault what) rest h = cc
>>=-eq-ok (ok s) rest h = (s, refl, h)
