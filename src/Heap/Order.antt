-- ===== src/Heap/Order.antt =====
-- The order of the cells of a heap, what they hold, and the list of the free ones.
use burrit_osprivate.Prelude.{
  ℕ, zero, suc, ◌+◌, ◌%◌, ◌≤◌, ◌<◌, ◌≡◌, ◌⊎◌, Bool, true, false, ◌&&◌, List, [], ◌∷◌, arith, ◌==◌,
  if◌then◌else◌, length, get_or, set,
}
use burrit_osprivate.Heap.{Node, Heap, blank, parent}

abbrev pub cell : List Node → ℕ → Node
cell ns i = get_or ns i blank

abbrev pub filled : List Node → ℕ → Bool
filled ns i = (cell ns i).is_filled

-- A filled cell below the root has a filled parent of no larger cost.
abbrev pub IsHeap : List Node → Type 0
IsHeap ns =
    (c : ℕ)
    → 0 < c
    → filled ns c ≡ true
    → (filled ns (parent c) ≡ true) × ((cell ns (parent c)).cost ≤ (cell ns c).cost)

-- Whether a filled cell has this value and this cost.
abbrev pub hit : ℕ → ℕ → Node → ℕ
hit v c n = if n.is_filled && n.value == v && n.cost == c then 1 else 0

-- How many filled cells have it.
abbrev pub held : ℕ → ℕ → List Node → ℕ
held v c [] = 0
held v c (n ∷ ns) = hit v c n + held v c ns

pub held-set :
    (v c : ℕ) (ns : List Node) (i : ℕ) (n : Node)
    → i < length ns
    → held v c (set ns i n) + hit v c (cell ns i) ≡ held v c ns + hit v c n
held-set v c [] i n lt = absurd (omega arith)
held-set v c (m ∷ ns) zero n lt = omega arith
held-set v c (m ∷ ns) (suc i) n lt = omega (arith, held-set v c ns i n (omega arith))

-- The free cells are the list from `p` on.
abbrev pub Chain : List Node → ℕ → List ℕ → Type 0
Chain ns p [] = p ≡ 0
Chain ns p (i ∷ l) = (p ≡ suc i) × (i < length ns) × Chain ns (cell ns i).next l

abbrev pub mark : (ℕ → Bool) → ℕ → ℕ → Bool
mark full i j = if i == j then true else full j

-- Where the cells of the list are filled in turn, each is free and has a filled parent by then,
-- and all cells are filled in the end.
abbrev pub Fillable : ℕ → (ℕ → Bool) → List ℕ → Type 0
Fillable size full [] = (j : ℕ) → j < size → full j ≡ true
Fillable size full (i ∷ l) =
    (full i ≡ false) × ((i ≡ 0) ⊎ (full (parent i) ≡ true)) × Fillable size (mark full i) l

pub record Valid (h : Heap) : Type 0 where
  pub length_is : length h.nodes ≡ h.size
  pub odd : h.size % 2 ≡ 1
  pub some_children : 1 < h.size
  pub fits : h.size ≤ 65536
  pub ordered : IsHeap h.nodes
  pub free : List ℕ
  pub chained : Chain h.nodes h.free_list free
  pub fillable : Fillable h.size (filled h.nodes) free
