-- ===== src/Heap/Serve.antt =====
-- `heapU16Push` and `heapU16Pop`.
use burrit_osprivate.Prelude.{
  ℕ, ◌+◌, ◌-◌, ◌%◌, ◌<◌, ◌≡◌, ◌⊎◌, refl, ap, subst, sym, ◌∙◌, true, false, some, List, [], ◌∷◌,
  arith, ◌==◌, ltb, if◌then◌else◌, length, length-set, get_or-set, get_or-set_ne, get_or-set_self,
  ℕ_discrete, set, inl, inr, Bool-cases, ==_iff,
}
use burrit_osprivate.Prelude.Word.{to_u16}
use burrit_osprivate.Prelude.Result.{ok, err, generic}
use burrit_osprivate.Heap.{Node, Heap, blank, parent, sink, push, pop}
use burrit_osprivate.Heap.Order.{
  cell, filled, IsHeap, hit, held, held-set, mark, Chain, Fillable, Valid,
}
use burrit_osprivate.Heap.Free.{
  Fillable-ext, Chain-kept, occupied, occupied-full, occupied-lt, occupied-none, occupied-some,
  lowest, lowest-root, root-least,
}
use burrit_osprivate.Heap.Rise.{Rising, rise-Risen}
use burrit_osprivate.Heap.Sink.{Sunk, sink-Sunk}

-- What is pushed.
abbrev pub filling : Node → Node
filling n = record n { is_filled = true }

-- A push into a heap with a free cell.
abbrev Pushed : Heap → Node → Type 0
Pushed h n =
    (h' : Heap) × (push h n ≡ some (ok h'))
    × Valid h'
    × (h'.size ≡ h.size)
    × ((v c : ℕ) → held v c h'.nodes ≡ held v c h.nodes + hit v c (filling n))

free_cell :
    (h : Heap) (n : Node) (v : Valid h) (i : ℕ) (l : List ℕ)
    → Chain h.nodes h.free_list (i ∷ l)
    → Fillable h.size (filled h.nodes) (i ∷ l)
    → Pushed h n
unfolding push
free_cell h n v i l (at, lt, ch) (free, ready, fl) =
    let ns = h.nodes in
    let rising : Rising ns i (filling n) = record {
      inside = lt;
      ordered = v.ordered;
      under = λ f. absurd (cc);
      above = λ pos. ground (arith, ready);
    } in
    let (ns', e, r) = rise-Risen (i + 1) ns i (filling n) (omega arith) rising refl in
    let some_free : (h.free_list == 0) ≡ false = ground (arith, at) in
    let index : to_u16 (h.free_list - 1) ≡ i = omega (arith, at, lt, v.length_is, v.fits) in
    let slot : h.free_list - 1 ≡ i = omega (arith, at) in
    let here : ltb i (length ns) ≡ true = ground (arith, lt) in
    (
      record h { nodes = ns'; free_list = (cell ns i).next },
      rw (some_free, index, slot, here, e) refl,
      record {
        length_is = r.size ∙ v.length_is;
        odd = v.odd;
        some_children = v.some_children;
        fits = v.fits;
        ordered = r.ordered;
        free = l;
        chained =
            Chain-kept ns ns' h.size (mark (filled ns) i) (cell ns i).next l r.size
              (λ j f. ground (arith, f, r.kept j)) fl ch;
        fillable =
            Fillable-ext h.size (mark (filled ns) i) (filled ns') l (λ j. sym (r.marked j)) fl;
      },
      refl,
      λ x c. ground (arith, r.counted x c, free),
    )

push-cases :
    (h : Heap) (n : Node) (v : Valid h) (l : List ℕ)
    → Chain h.nodes h.free_list l
    → Fillable h.size (filled h.nodes) l
    → ((occupied h.nodes ≡ h.size) × (push h n ≡ some (err generic)))
      ⊎ ((occupied h.nodes < h.size) × Pushed h n)
unfolding push
push-cases h n v [] ch fl = inl (
  occupied-full h.nodes (λ j lt. fl j (omega (arith, lt, v.length_is))) ∙ v.length_is,
  rw ((==_iff h.free_list 0).1 ch) refl,
)
push-cases h n v (i ∷ l) ch fl =
    inr (omega (arith, occupied-lt h.nodes i ch.1 fl.0, v.length_is), free_cell h n v i l ch fl)

-- heapU16Push on a valid heap fails exactly when every cell is filled, and else the heap is valid,
-- of the same size, and holds the number with its cost once more, and all others as often.
pub push-held :
    (h : Heap) (n : Node)
    → Valid h
    → ((occupied h.nodes ≡ h.size) × (push h n ≡ some (err generic)))
      ⊎ ((occupied h.nodes < h.size)
          × ((h' : Heap) × (push h n ≡ some (ok h'))
              × Valid h'
              × (h'.size ≡ h.size)
              × ((v c : ℕ) → held v c h'.nodes ≡ held v c h.nodes + hit v c (filling n))))
push-held h n v = push-cases h n v v.free v.chained v.fillable

-- The cell that is left over is freed.
module _ (h : Heap) (v : Valid h) (ns' : List Node) (e : ℕ) (k : Sunk h.nodes 0 ns' e) where
  abbrev freed : Node
  freed = record (cell ns' e) { is_filled = false; next = h.free_list }

  abbrev after : Heap
  after = record h { nodes = set ns' e freed; free_list = e + 1 }

  inside' : e < length ns'
  inside' = omega (arith, k.inside, k.size)

  after-filled : (j : ℕ) → filled after.nodes j ≡ (if e == j then false else filled h.nodes j)
  after-filled j = ground (arith, get_or-set ns' e j freed blank inside', k.same j)

  after-IsHeap : IsHeap after.nodes
  after-IsHeap c pos f = ground (
    arith,
    get_or-set ns' e c freed blank inside',
    get_or-set ns' e (parent c) freed blank inside',
    k.ordered c,
    k.leaf c,
  )

  after-Valid : Valid after
  after-Valid = record {
    length_is = length-set ns' e freed ∙ k.size ∙ v.length_is;
    odd = v.odd;
    some_children = v.some_children;
    fits = v.fits;
    ordered = after-IsHeap;
    free = e ∷ v.free;
    chained = (
      omega arith,
      omega (arith, inside', length-set ns' e freed),
      Chain-kept h.nodes after.nodes h.size (filled h.nodes) (cell after.nodes e).next v.free
          (length-set ns' e freed ∙ k.size)
          (λ j f.
            get_or-set_ne ns' e j freed blank (λ q. ground (arith, q, k.same j, k.left))
            ∙ k.kept j f)
          v.fillable
          (subst (λ p. Chain h.nodes p v.free)
            (sym (ap (λ (n : Node). n.next) (get_or-set_self ns' e freed blank inside')))
            v.chained),
    );
    fillable = (
      ground (arith, after-filled e),
      elim (ℕ_discrete e 0) [
        | yes z ↦ inl z
        | no pos ↦
            inr (ground (arith, after-filled (parent e), k.ordered e, k.left, k.same (parent e)))
      ],
      Fillable-ext h.size (filled h.nodes) (mark (filled after.nodes) e) v.free
          (λ j. ground (arith, after-filled j, k.same j, k.left)) v.fillable,
    );
  }

  after-held : (x c : ℕ) → held x c after.nodes + hit x c (cell h.nodes 0) ≡ held x c h.nodes
  after-held x c = omega (arith, held-set x c ns' e freed inside', k.counted x c)

-- A pop from a heap that is not empty.
abbrev Popped : Heap → Type 0
Popped h =
    (n : Node) × (h' : Heap) × (pop h ≡ some (ok (n, h')))
    × Valid h'
    × (h'.size ≡ h.size)
    × (lowest h.nodes ≡ some n.cost)
    × ((v c : ℕ) → held v c h'.nodes + hit v c n ≡ held v c h.nodes)

lowest-cell : (ns : List Node) → IsHeap ns → filled ns 0 ≡ true → lowest ns ≡ some (cell ns 0).cost
lowest-cell [] o f = cc
lowest-cell (n ∷ ns) o f = lowest-root n ns f (λ j g. (root-least (n ∷ ns) j o g).1)

root_filled : (h : Heap) → Valid h → filled h.nodes 0 ≡ true → Popped h
unfolding pop
root_filled h v f =
    let ns = h.nodes in
    let (ns', e, s, k) =
      sink-Sunk (length ns + 1) ns 0 (omega arith) (ap (λ (n : ℕ). n % 2) v.length_is ∙ v.odd)
        (omega (arith, v.length_is, v.odd, v.some_children)) v.ordered f in
    let s' : sink (h.size + 1) h.size ns 0 ≡ some (ns', e) =
      subst (λ (k : ℕ). sink (k + 1) k ns 0 ≡ some (ns', e)) v.length_is s in
    let top : ltb 0 (length ns) ≡ true = ground (arith, v.length_is, v.some_children) in
    let here : ltb e (length ns') ≡ true = ground (arith, k.size, k.inside) in
    (
      cell ns 0,
      after h v ns' e k,
      rw (top, f, s', here) refl,
      after-Valid h v ns' e k,
      refl,
      lowest-cell ns v.ordered f,
      after-held h v ns' e k,
    )

-- heapU16Pop on a valid heap fails exactly when no cell is filled, and else gives a number of the
-- lowest cost that the heap holds; the heap that is left is valid, of the same size, and holds all
-- but that number.
pub pop-lowest :
    (h : Heap)
    → Valid h
    → ((occupied h.nodes ≡ 0) × (pop h ≡ some (err generic)))
      ⊎ ((0 < occupied h.nodes)
          × ((n : Node) × (h' : Heap) × (pop h ≡ some (ok (n, h')))
              × Valid h'
              × (h'.size ≡ h.size)
              × (lowest h.nodes ≡ some n.cost)
              × ((v c : ℕ) → held v c h'.nodes + hit v c n ≡ held v c h.nodes)))
unfolding pop
pop-lowest h v = elim (Bool-cases (filled h.nodes 0)) [
  | inl f ↦ inr (occupied-some h.nodes 0 f, root_filled h v f)
  | inr f ↦
      let top : ltb 0 (length h.nodes) ≡ true = ground (arith, v.length_is, v.some_children) in
      let free : (j : ℕ) → filled h.nodes j ≡ false =
        λ j. ground (arith, f, root-least h.nodes j v.ordered) in
      inl (occupied-none h.nodes free, rw (top, f) refl)
]
