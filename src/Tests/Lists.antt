-- ===== src/Tests/Lists.antt =====
-- Examples on a list of two nodes.
use trurlib.Prelude.{◌≡◌, refl, false, some, [], ◌∷◌, arith}
use trurlib.Run.{ok, fault, null_pointer, ◌>>=◌}
use trurlib.Array.State.{null}
use trurlib.Lists.Nodes.{read}
use trurlib.Lists.State.{Linked}
use trurlib.Lists.Scan.{lookup_ex}
use trurlib.Lists.Scan.View.{Carries, first_equal, lookup_ex-first_equal}
use trurlib.Lists.Ends.{push, pop, unshift}
use trurlib.Lists.Ends.Unshift.{unshift-tail_lost}
use trurlib.Tests.Samples.{code}

abbrev empty_list : Linked
empty_list = record {
  nodes = [];
  refcnt = 0;
  uniq = false;
  items = 0;
  head = 0;
  tail = 0;
  free_fn = 5;
  cmp_fn = 6;
  freed = [];
}

abbrev two_nodes : Linked
two_nodes = record {
  nodes = some (record { data_ptr = 8; next = 0 }) ∷ some (record { data_ptr = 7; next = 1 }) ∷ [];
  refcnt = 0;
  uniq = false;
  items = 2;
  head = 2;
  tail = 1;
  free_fn = 5;
  cmp_fn = 6;
  freed = [];
}

two_nodes-Carries : Carries (7 ∷ 8 ∷ []) two_nodes
unfolding read
two_nodes-Carries = record {
  chain = (1, refl, (0, refl, refl));
  count = refl;
  bounded = omega arith;
}

lookup_ex-first_equal_example :
    lookup_ex code two_nodes 8 null ≡ ok (first_equal (code.cmp 6) 8 (7 ∷ 8 ∷ []))
lookup_ex-first_equal_example =
    lookup_ex-first_equal code (7 ∷ 8 ∷ []) 8 null two_nodes-Carries (λ e. cc)

unshift-tail_lost_example :
    ((unshift code empty_list 7 >>= λ r. push code r.1 8) ≡ fault null_pointer)
    × ((unshift code empty_list 7 >>= λ r. pop r.1) ≡ fault null_pointer)
unshift-tail_lost_example = unshift-tail_lost code empty_list 7 8 refl refl refl
