-- ===== src/Heap/Rise.antt =====
-- The loop of `heapU16Push`.
use burrit_osprivate.Prelude.{
  ℕ, zero, suc, ◌+◌, ◌≤◌, ◌<◌, ◌≡◌, ◌≢◌, refl, ap, true, false, some, inl, inr, List, arith, ◌==◌,
  ltb, leb, length, set, length-set, get_or-set, get_or-set_ne, Bool-cases,
}
use burrit_osprivate.Heap.{Node, blank, parent, rise}
use burrit_osprivate.Heap.Order.{cell, filled, IsHeap, hit, held, held-set, mark}

-- The cell `i` may take the node: nothing below it costs less.
pub record Rising (ns : List Node) (i : ℕ) (n : Node) : Type 0 where
  pub inside : i < length ns
  pub ordered : IsHeap ns
  pub under : filled ns i ≡ true → n.cost ≤ (cell ns i).cost
  pub above : 0 < i → filled ns (parent i) ≡ true

-- The node is in place of what the cell `i` had, and the cells that were free still are.
pub record Risen (ns : List Node) (i : ℕ) (n : Node) (ns' : List Node) : Type 0 where
  pub size : length ns' ≡ length ns
  pub ordered : IsHeap ns'
  pub marked : (j : ℕ) → filled ns' j ≡ mark (filled ns) i j
  pub kept : (j : ℕ) → filled ns j ≡ false → i ≢ j → cell ns' j ≡ cell ns j
  pub counted : (v c : ℕ) → held v c ns' + hit v c (cell ns i) ≡ held v c ns + hit v c n

module _ (ns : List Node) (i : ℕ) (n : Node) (r : Rising ns i n) (full : n.is_filled ≡ true) where
  put-Risen : ((0 < i) → (cell ns (parent i)).cost ≤ n.cost) → Risen ns i n (set ns i n)
  put-Risen low = record {
    size = length-set ns i n;
    ordered = λ c pos f.
        let at = get_or-set ns i c n blank r.inside in
        let over = get_or-set ns i (parent c) n blank r.inside in
        ground (arith, at, over, r.ordered c, r.under, r.above, low);
    marked = λ j. ground (arith, get_or-set ns i j n blank r.inside);
    kept = λ j f ne. ground (arith, get_or-set ns i j n blank r.inside);
    counted = λ v c. held-set v c ns i n r.inside;
  }

  up-Rising :
      0 < i
      → n.cost ≤ (cell ns (parent i)).cost
      → Rising (set ns i (cell ns (parent i))) (parent i) n
  up-Rising pos le = record {
    inside = omega (arith, length-set ns i (cell ns (parent i)), r.inside);
    ordered = λ c p f. ground (
      arith,
      get_or-set ns i c (cell ns (parent i)) blank r.inside,
      get_or-set ns i (parent c) (cell ns (parent i)) blank r.inside,
      r.ordered c,
      r.ordered i,
      r.above,
    );
    under = λ f. ground (arith, get_or-set ns i (parent i) (cell ns (parent i)) blank r.inside);
    above = λ p. ground (
      arith,
      get_or-set ns i (parent (parent i)) (cell ns (parent i)) blank r.inside,
      r.ordered (parent i),
      r.above,
    );
  }

  up-Risen :
      0 < i
      → (ns' : List Node) → Risen (set ns i (cell ns (parent i))) (parent i) n ns'
      → Risen ns i n ns'
  up-Risen pos ns' s = record {
    size = omega (arith, s.size, length-set ns i (cell ns (parent i)));
    ordered = s.ordered;
    marked = λ j.
        ground (arith, s.marked j, get_or-set ns i j (cell ns (parent i)) blank r.inside, r.above);
    kept = λ j f ne.
        ground (arith, s.kept j, get_or-set ns i j (cell ns (parent i)) blank r.inside, r.above);
    counted = λ v c. omega (
      arith,
      s.counted v c,
      held-set v c ns i (cell ns (parent i)) r.inside,
      ap (hit v c) (
          get_or-set_ne ns i (parent i) (cell ns (parent i)) blank
            (λ e. absurd (omega (arith, e)))),
    );
  }

-- The node comes to stand where it is in order, if there are rounds for its way to the root.
pub rise-Risen :
    (f : ℕ) (ns : List Node) (i : ℕ) (n : Node)
    → i < f
    → Rising ns i n
    → n.is_filled ≡ true
    → (ns' : List Node) × (rise f ns i n ≡ some ns') × Risen ns i n ns'
unfolding rise
rise-Risen zero ns i n lt r full = absurd (omega arith)
rise-Risen (suc f) ns i n lt r full =
    let here : ltb i (length ns) ≡ true = ground (arith, r.inside) in
    elim (Bool-cases (i == 0)) [
      | inl root ↦
          rw (root, here) (set ns i n, refl, put-Risen ns i n r full (λ pos. ground (arith, root)))
      | inr below ↦
          let pos : 0 < i = ground (arith, below) in
          let above : ltb (parent i) (length ns) ≡ true = ground (arith, r.inside) in
          elim (Bool-cases (leb n.cost (cell ns (parent i)).cost)) [
            | inl on ↦
                let le : n.cost ≤ (cell ns (parent i)).cost = ground (arith, on) in
                let next = set ns i (cell ns (parent i)) in
                let (ns', e, s) =
                  rise-Risen f next (parent i) n (omega (arith, pos))
                    (up-Rising ns i n r full pos le) full in
                rw (below, above, on, here, e) (ns', refl, up-Risen ns i n r full pos ns' s)
            | inr settled ↦
                rw (below, above, settled, here)
                  (set ns i n, refl, put-Risen ns i n r full (λ p. ground (arith, settled)))
          ]
    ]
