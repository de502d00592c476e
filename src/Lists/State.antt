-- ===== src/Lists/State.antt =====
-- struct trurl_list of n_list_int.h with n_list_new.c, n_list_free.c and n_list_size.c.
use trurlib.Prelude.{
  ℕ, zero, suc, ◌-◌, Bool, true, false, List, [], length, ltb, ◌==◌, if◌then◌else◌,
}
use trurlib.Run.{Run, ok, fault, endless, ◌>>=◌}
use trurlib.Array.State.{Ptr, null, Code, log_free}
use trurlib.Lists.Nodes.{Nodes, read, release}

-- `nodes` are the nodes of the process; `freed` logs the arguments of the calls of `free_fn`; `uniq` is
-- the flag TN_LIST_UNIQ.
pub record Linked : Type 0 where
  pub nodes : Nodes
  pub refcnt : ℕ
  pub uniq : Bool
  pub items : ℕ
  pub head : Ptr
  pub tail : Ptr
  pub free_fn : Ptr
  pub cmp_fn : Ptr
  pub freed : List Ptr

unfoldable pub new : Code → Nodes → (uniq : Bool) (freef cmpf : Ptr) → Linked
new code nodes uniq freef cmpf = record {
  nodes = nodes;
  refcnt = 0;
  uniq = uniq;
  items = 0;
  head = null;
  tail = null;
  free_fn = freef;
  cmp_fn = if cmpf == null then code.default_cmp else cmpf;
  freed = [];
}

-- A walk meets every node once at most, or it does not end: more rounds than there are nodes and one
-- are a loop.
abbrev pub rounds : Linked → ℕ
rounds l = suc (length l.nodes)

unfoldable pub size : Linked → ℕ
size l = l.items

-- The loop of n_list_free
unfoldable pub free_loop : (fuel : ℕ) (free_fn p : Ptr) → Nodes → List Ptr → Run (Nodes × List Ptr)
free_loop zero fn p nodes freed = fault endless
free_loop (suc fuel) fn p nodes freed = elim (p == null) [
  | true ↦ ok (nodes, freed)
  | false ↦ do
    n ← read nodes p
    nodes ← release nodes p
    free_loop fuel fn n.next nodes (log_free fn n.data_ptr freed)
]

-- n_list_free: whether the list is still there, with its last state.
unfoldable pub free : Linked → Run (Bool × Linked)
free l = if ltb 0 l.refcnt then ok (true, record l { refcnt = l.refcnt - 1 }) else (do
  (nodes, freed) ← free_loop (rounds l) l.free_fn l.head l.nodes l.freed
  ok (false, record l { nodes = nodes; freed = freed }))
