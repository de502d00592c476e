-- ===== src/Lists/Ends/Unshift.antt =====
-- n_list_unshift on the sequence that the list stands for.
use trurlib.Prelude.{
  ℕ, zero, suc, ◌≡◌, refl, true, false, Option, none, some, List, [], ◌∷◌, ◌++◌, arith, length,
  get_or, length-append,
}
use trurlib.Run.{ok, fault, null_pointer, Returns, ◌>>=◌}
use trurlib.Array.State.{Ptr, null, Code}
use trurlib.Lists.Nodes.{Node, Nodes, read, write_next, next_address, with_node}
use trurlib.Lists.State.{Linked}
use trurlib.Lists.Scan.View.{IsChain, Carries}
use trurlib.Lists.Ends.{is_double, append_node, push, prepend_node, unshift, before_tail, pop}

get_or-append :
    (nodes : Nodes) (o : Option Node) (a : ℕ) {n : Node}
    → get_or nodes a none ≡ some n
    → get_or (nodes ++ (o ∷ [])) a none ≡ some n
get_or-append [] o a e = cc
get_or-append (m ∷ nodes) o zero e = e
get_or-append (m ∷ nodes) o (suc a) e = get_or-append nodes o a e

get_or-append_new :
    (nodes : Nodes) (o : Option Node) → get_or (nodes ++ (o ∷ [])) (length nodes) none ≡ o
get_or-append_new [] o = refl
get_or-append_new (m ∷ nodes) o = get_or-append_new nodes o

read-with_node :
    (nodes : Nodes) (m : Node) (p : Ptr) {n : Node}
    → read nodes p ≡ ok n
    → read (with_node nodes m) p ≡ ok n
unfolding read
read-with_node nodes m zero e = cc
read-with_node nodes m (suc a) {n} e = ground (arith, get_or-append nodes (some m) a {n = n})

pub read-next_address :
    (nodes : Nodes) (m : Node) → read (with_node nodes m) (next_address nodes) ≡ ok m
unfolding read
read-next_address nodes m = ground (arith, get_or-append_new nodes (some m))

-- The chains that are there stay.
pub IsChain-with_node :
    (nodes : Nodes) (m : Node) (p : Ptr) (xs : List Ptr)
    → IsChain nodes p xs
    → IsChain (with_node nodes m) p xs
IsChain-with_node nodes m p [] c = c
IsChain-with_node nodes m p (x ∷ xs) (next, r, c) =
    (next, read-with_node nodes m p r, IsChain-with_node nodes m next xs c)

-- On a list that takes duplicates, n_list_unshift puts one element in front of the sequence and
-- counts it.
pub unshift-chain :
    (code : Code) (xs : List Ptr) {l : Linked} (p : Ptr)
    → Carries xs l
    → l.uniq ≡ false
    → Returns (unshift code l p) (λ r. (r.0 ≡ true) × Carries (p ∷ xs) r.1)
unfolding unshift is_double
unshift-chain code xs {l} p m plain =
    let node : Node = record { data_ptr = p; next = l.head } in
    (
      (true, prepend_node l p),
      ground (arith, plain),
      (
        refl,
        record {
          chain = (
            l.head,
            read-next_address l.nodes node,
            IsChain-with_node l.nodes node l.head xs m.chain,
          );
          count = omega (arith, m.count);
          bounded = omega (arith, m.bounded, length-append l.nodes (some node ∷ []));
        },
      ),
    )

-- On an empty list that takes duplicates, n_list_unshift leaves the tail NULL, and the next
-- n_list_push or n_list_pop follows that pointer.
pub unshift-tail_lost :
    (code : Code) (l : Linked) (p q : Ptr)
    → l.uniq ≡ false
    → l.head ≡ null
    → l.tail ≡ null
    → ((unshift code l p >>= λ r. push code r.1 q) ≡ fault null_pointer)
      × ((unshift code l p >>= λ r. pop r.1) ≡ fault null_pointer)
unfolding unshift is_double push append_node pop before_tail read write_next
unshift-tail_lost code l p q plain empty lost =
    let node : Node = record { data_ptr = p; next = l.head } in
    (
      ground (arith, plain, empty, lost),
      ground (arith, plain, empty, lost, get_or-append_new l.nodes (some node)),
    )
