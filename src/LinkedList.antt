-- ===== src/LinkedList.antt =====
-- common/list.h and common/list.c: a list of words in nodes of the caller.
--
-- A pointer to a node is its place in `nodes`, counted from 1, and 0 is the null pointer.
pub mod Front
mod Tests
use burrit_osprivate.Prelude.{
  ℕ, zero, suc, ◌+◌, ◌-◌, List, ◌==◌, if◌then◌else◌, get_or, set, length,
}
use burrit_osprivate.Prelude.Result.{Result, ok, err, generic}
use burrit_osprivate.Prelude.Outcome.{Outcome, done, halt, ◌>>=◌}

-- `word` is the field `data`.
pub record ListNode : Type 0 where
  pub word : ℕ
  pub next : ℕ

pub record ListU32 : Type 0 where
  pub nodes : List ListNode
  pub free_list : ℕ
  pub head : ℕ

abbrev pub unset_node : ListNode
unset_node = record { word = 0; next = 0 }

abbrev pub node_at : List ListNode → ℕ → ListNode
node_at nodes p = get_or nodes (p - 1) unset_node

abbrev pub put_node : List ListNode → ℕ → ListNode → List ListNode
put_node nodes p n = set nodes (p - 1) n

abbrev pub link_to : List ListNode → ℕ → ℕ → List ListNode
link_to nodes p q = put_node nodes p (record (node_at nodes p) { next = q })

-- The loop of `listU32Init`, with the rounds that are left.
unfoldable pub init_loop : ℕ → ℕ → List ListNode → List ListNode
init_loop zero i nodes = nodes
init_loop (suc n) i nodes = init_loop n (i + 1) (link_to nodes (i + 1) (i + 2))

-- `length` is at least 1; for 0 the source's bound wraps.
unfoldable pub init : List ListNode → ℕ → ListU32
init nodes length =
    let linked = init_loop (length - 1) 0 nodes in
    record { nodes = link_to linked length 0; free_list = 1; head = 0 }

unfoldable pub push_front : ListU32 → ℕ → Result ListU32
push_front l value =
    let node = l.free_list in
    if node == 0
    then err generic
    else ok (record {
      nodes = put_node l.nodes node (record { word = value; next = l.head });
      free_list = (node_at l.nodes node).next;
      head = node;
    })

-- The loop to the last node, with fuel.
unfoldable pub last : ℕ → List ListNode → ℕ → Outcome ℕ
last zero nodes tail = halt
last (suc n) nodes tail =
    let rest = last n nodes (node_at nodes tail).next in
    if (node_at nodes tail).next == 0 then done tail else rest

unfoldable pub push_back : ListU32 → ℕ → Outcome (Result ListU32)
push_back l value =
    let node = l.free_list in
    let rest = (node_at l.nodes node).next in
    let nodes' = put_node l.nodes node (record { word = value; next = 0 }) in
    if node == 0
    then done (err generic)
    else if l.head == 0
    then done (ok (record { nodes = nodes'; free_list = rest; head = node }))
    else (last (length l.nodes + 1) nodes' l.head >>= λ tail.
        done (ok (record l { nodes = link_to nodes' tail node; free_list = rest })))

unfoldable pub pop_front : ListU32 → Result (ℕ × ListU32)
pop_front l =
    let node = l.head in
    let n = node_at l.nodes node in
    let cleared = link_to l.nodes node 0 in
    if node == 0
    then err generic
    else if l.free_list == 0
    then ok (n.word, record { nodes = cleared; free_list = node; head = n.next })
    else ok (n.word, record l { nodes = link_to cleared l.free_list node; head = n.next })
