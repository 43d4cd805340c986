-- ===== src/Heap.antt =====
-- common/heap.c: a binary heap of numbers with costs in an array, whose free cells form a list.
--
-- A pointer to a cell is its index and one more, and the null pointer is 0. `none` stands for an
-- access outside the array, and for a loop that has used up the rounds that it is given here.
pub mod Order
pub mod Free
pub mod Rise
pub mod Sink
pub mod Serve
pub mod Init
mod Tests
use burrit_osprivate.Prelude.{
  ℕ, zero, suc, ◌+◌, ◌-◌, ◌*◌, ◌/◌, ◌%◌, Bool, true, false, ◌&&◌, Option, none, some, List, ◌==◌,
  ltb, leb, if◌then◌else◌, length, get_or, set,
}
use burrit_osprivate.Prelude.Word.{to_u16, sub32}
use burrit_osprivate.Prelude.Maybe.{◌>>=◌}
use burrit_osprivate.Prelude.Result.{Result, ok, err, generic}

-- HeapNodeU16.
pub record Node : Type 0 where
  pub value : ℕ
  pub cost : ℕ
  pub is_filled : Bool
  pub next : ℕ

-- HeapU16.
pub record Heap : Type 0 where
  pub size : ℕ
  pub nodes : List Node
  pub free_list : ℕ

abbrev pub blank : Node
blank = record { value = 0; cost = 0; is_filled = false; next = 0 }

abbrev pub load : List Node → ℕ → Option Node
load ns i = if ltb i (length ns) then some (get_or ns i blank) else none

abbrev pub store : List Node → ℕ → Node → Option (List Node)
store ns i n = if ltb i (length ns) then some (set ns i n) else none

-- HEAP_RIGHT_CHILD, HEAP_LEFT_CHILD, and HEAP_PARENT, which is not read at the root.
abbrev pub right_child : ℕ → ℕ
right_child i = (i + 1) * 2

abbrev pub left_child : ℕ → ℕ
left_child i = right_child i - 1

abbrev pub parent : ℕ → ℕ
parent i = (i + i % 2) / 2 - 1

-- The loop of `heapU16Init`, with the rounds left: each cell points to the one after it.
unfoldable pub chain : ℕ → ℕ → List Node → Option (List Node)
chain zero i ns = some ns
chain (suc k) i ns = do
  n ← load ns i
  ns' ← store ns i (record n { next = i + 2; is_filled = false })
  chain k (i + 1) ns'

-- `heapU16Init`.
unfoldable pub init : List Node → ℕ → Option Heap
init array count = do
  let last = sub32 count 1
  ns ← chain last 0 array
  n ← load ns last
  ns' ← store ns last (record n { next = 0; is_filled = false })
  some (record { size = count; nodes = ns'; free_list = 1 })

-- The loop of `heapU16Push` and the write after it: parents move down until the node is in order.
unfoldable pub rise : ℕ → List Node → ℕ → Node → Option (List Node)
rise zero ns i n = none
rise (suc f) ns i n =
    let up : Option (List Node) = do
      above ← load ns (parent i)
      let on = store ns i above >>= λ ns'. rise f ns' (parent i) n
      if leb n.cost above.cost then on else store ns i n
    in if i == 0 then store ns i n else up

-- `heapU16Push`.
unfoldable pub push : Heap → Node → Option (Result Heap)
push h node =
    let index = to_u16 (h.free_list - 1) in
    let insert : Option (Result Heap) = do
      current ← load h.nodes (h.free_list - 1)
      ns ← rise (index + 1) h.nodes index (record node { is_filled = true })
      some (ok (record h { nodes = ns; free_list = current.next }))
    in if h.free_list == 0 then some (err generic) else insert

-- The cell whose content moves up, or `none` where the loop is left.
abbrev pub chosen : Node → Node → ℕ → Option (ℕ × Node)
chosen left right i =
    let smaller =
      if leb right.cost left.cost then some (right_child i, right) else some (left_child i, left) in
    if left.is_filled && right.is_filled
    then smaller
    else if left.is_filled
    then some (left_child i, left)
    else if right.is_filled
    then some (right_child i, right)
    else none

-- The rest of a round, with the next round as an argument.
abbrev pub follow :
    (List Node → ℕ → Option (List Node × ℕ))
    → ℕ
    → List Node
    → ℕ
    → Option (ℕ × Node)
    → Option (List Node × ℕ)
follow next size ns i none = some (ns, i)
follow next size ns i (some (c, n)) =
    store ns i n >>= λ ns'. if ltb (left_child c) size then next ns' c else some (ns', c)

-- The loop of `heapU16Pop`: the smaller child moves up. It gives the cell that is left.
unfoldable pub sink : ℕ → ℕ → List Node → ℕ → Option (List Node × ℕ)
sink zero size ns i = none
sink (suc f) size ns i = do
  left ← load ns (left_child i)
  right ← load ns (right_child i)
  follow (sink f size) size ns i (chosen left right i)

-- `heapU16Pop`.
unfoldable pub pop : Heap → Option (Result (Node × Heap))
pop h = do
  root ← load h.nodes 0
  let remove : Option (Result (Node × Heap)) = do
    (ns, i) ← sink (h.size + 1) h.size h.nodes 0
    n ← load ns i
    ns' ← store ns i (record n { is_filled = false; next = h.free_list })
    some (ok (root, record h { nodes = ns'; free_list = i + 1 }))
  if root.is_filled then remove else some (err generic)
