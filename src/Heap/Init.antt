-- ===== src/Heap/Init.antt =====
-- `heapU16Init`.
use burrit_osprivate.Prelude.{
  ℕ, zero, suc, ◌+◌, ◌-◌, ◌%◌, ◌≤◌, ◌<◌, ◌≡◌, refl, subst, sym, ◌∙◌, Bool, true, false, some, List,
  [], ◌∷◌, arith, ltb, length, length-set, get_or-set, get_or-set_ne, get_or-set_self, set, inl,
  inr, Bool-cases, ℕ_discrete,
}
use burrit_osprivate.Prelude.Word.{sub32}
use burrit_osprivate.Heap.{Node, Heap, blank, parent, chain, init}
use burrit_osprivate.Heap.Order.{cell, filled, mark, Chain, Fillable, Valid}
use burrit_osprivate.Heap.Free.{occupied, occupied-none}
use burrit_osprivate.Heap.Sink.{filled-inside}

-- The numbers from `i` on, `k` of them.
abbrev pub range : ℕ → ℕ → List ℕ
range i zero = []
range i (suc k) = i ∷ range (i + 1) k

-- After the rounds from `i` on: the cells from there are free and linked, those before are as they were.
record Linked (k i : ℕ) (ns ns' : List Node) : Type 0 where
  size : length ns' ≡ length ns
  before : (j : ℕ) → j < i → cell ns' j ≡ cell ns j
  free : (j : ℕ) → i ≤ j → j < i + k → (filled ns' j ≡ false) × ((cell ns' j).next ≡ j + 2)

chain-Linked :
    (k i : ℕ) (ns : List Node)
    → i + k < length ns
    → (ns' : List Node) × (chain k i ns ≡ some ns') × Linked k i ns ns'
unfolding chain
chain-Linked zero i ns lt = (
  ns,
  refl,
  record { size = refl; before = λ j h. refl; free = λ j h g. absurd (omega (arith, h, g)) },
)
chain-Linked (suc k) i ns lt =
    let n : Node = record (cell ns i) { next = i + 2; is_filled = false } in
    let here : ltb i (length ns) ≡ true = ground (arith, lt) in
    let size = length-set ns i n in
    let (ns', e, r) = chain-Linked k (i + 1) (set ns i n) (omega (arith, lt, size)) in
    let own = r.before i (omega arith) ∙ get_or-set_self ns i n blank (omega (arith, lt)) in
    rw (here, e)
      (
        ns',
        refl,
        record {
          size = r.size ∙ size;
          before = λ j h.
              r.before j (omega (arith, h))
              ∙ get_or-set_ne ns i j n blank (λ q. absurd (omega (arith, q, h)));
          free = λ j h g. ground (arith, r.free j, own, h, g);
        },
      )

linked-Chain :
    (k i : ℕ) (ns : List Node)
    → i + suc k ≡ length ns
    → ((j : ℕ) → i ≤ j → j + 1 < length ns → (cell ns j).next ≡ j + 2)
    → ((j : ℕ) → j + 1 ≡ length ns → (cell ns j).next ≡ 0)
    → Chain ns (i + 1) (range i (suc k))
linked-Chain zero i ns e inner last = (omega arith, omega (arith, e), last i (omega (arith, e)))
linked-Chain (suc k) i ns e inner last =
    let at : (cell ns i).next ≡ i + 1 + 1 =
      omega (arith, inner i (omega arith) (omega (arith, e))) in
    let rest =
      linked-Chain k (i + 1) ns (omega (arith, e)) (λ j h g. inner j (omega (arith, h)) g) last in
    (omega arith, omega (arith, e), subst (λ p. Chain ns p (range (i + 1) (suc k))) (sym at) rest)

range-Fillable :
    (k i size : ℕ) (full : ℕ → Bool)
    → i + k ≡ size
    → ((j : ℕ) → full j ≡ ltb j i)
    → Fillable size full (range i k)
range-Fillable zero i size full e is = λ j lt. ground (arith, is j)
range-Fillable (suc k) i size full e is = (
  ground (arith, is i),
  elim (ℕ_discrete i 0) [ yes z ↦ inl z | no pos ↦ inr (ground (arith, is (parent i))) ],
  range-Fillable k (i + 1) size (mark full i) (omega (arith, e)) (λ j. ground (arith, is j)),
)

-- heapU16Init on an array of an odd number of cells, more than one, gives a valid heap with no
-- filled cell.
pub init-Valid :
    (array : List Node) (count : ℕ)
    → length array ≡ count
    → count % 2 ≡ 1
    → 1 < count
    → count ≤ 65536
    → (h : Heap) × (init array count ≡ some h) × Valid h × (h.size ≡ count) × (occupied h.nodes ≡ 0)
unfolding init
init-Valid array count size odd big fits =
    let k = count - 1 in
    let (ns, e, r) = chain-Linked k 0 array (omega (arith, size, big)) in
    let here : ltb k (length ns) ≡ true = ground (arith, r.size, size, big) in
    let n : Node = record (cell ns k) { next = 0; is_filled = false } in
    let ns' = set ns k n in
    let length' : length ns' ≡ count = length-set ns k n ∙ r.size ∙ size in
    let at = get_or-set ns k k n blank (omega (arith, r.size, size, big)) in
    let cells = λ (j : ℕ). get_or-set ns k j n blank (omega (arith, r.size, size, big)) in
    let free : (j : ℕ) → filled ns' j ≡ false = λ j. elim (Bool-cases (filled ns' j)) [
      | inl f ↦ ground (arith, cells j, r.free j, filled-inside ns' j f, length')
      | inr f ↦ f
    ] in
    let last : sub32 count 1 ≡ k = omega (arith, big, fits) in
    (
      record { size = count; nodes = ns'; free_list = 1 },
      rw (last, e, here) refl,
      record {
        length_is = length';
        odd = odd;
        some_children = big;
        fits = fits;
        ordered = λ c pos f. ground (arith, free c, f);
        free = range 0 (suc k);
        chained =
            linked-Chain k 0 ns' (omega (arith, length', big))
              (λ j h g. ground (arith, cells j, r.free j, length'))
              (λ j h. ground (arith, cells j, length', h));
        fillable =
            range-Fillable (suc k) 0 count (filled ns') (omega (arith, big))
              (λ j. ground (arith, free j));
      },
      refl,
      occupied-none ns' free,
    )
