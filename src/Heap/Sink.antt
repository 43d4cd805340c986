-- ===== src/Heap/Sink.antt =====
-- The loop of `heapU16Pop`.
use burrit_osprivate.Prelude.{
  ℕ, zero, suc, ◌+◌, ◌%◌, ◌≤◌, ◌<◌, ◌≡◌, ◌≢◌, ◌⊎◌, refl, ap, true, false, none, some, inl, inr,
  List, [], ◌∷◌, arith, ltb, leb, length, set, length-set, get_or-set, get_or-set_ne, Bool-cases,
  ◌∙◌, ℕ_discrete,
}
use burrit_osprivate.Heap.{Node, blank, parent, left_child, right_child, chosen, sink}
use burrit_osprivate.Heap.Order.{cell, filled, IsHeap, hit, held, held-set}

-- A filled cell below no filled cell but its parent: the children of `i` are free.
abbrev pub IsLeaf : List Node → ℕ → Type 0
IsLeaf ns i = (c : ℕ) → 0 < c → filled ns c ≡ true → parent c ≢ i

-- What the cell `i` had is gone, and the cell `e` is left over: what it has stands elsewhere too.
pub record Sunk (ns : List Node) (i : ℕ) (ns' : List Node) (e : ℕ) : Type 0 where
  pub size : length ns' ≡ length ns
  pub inside : e < length ns
  pub ordered : IsHeap ns'
  pub leaf : IsLeaf ns' e
  pub same : (j : ℕ) → filled ns' j ≡ filled ns j
  pub left : filled ns' e ≡ true
  pub kept : (j : ℕ) → filled ns j ≡ false → cell ns' j ≡ cell ns j
  pub counted : (v c : ℕ) → held v c ns' + hit v c (cell ns i) ≡ held v c ns + hit v c (cell ns' e)

-- The smaller of the filled children.
record Smaller (ns : List Node) (i m : ℕ) : Type 0 where
  full : filled ns m ≡ true
  pos : 0 < m
  child : parent m ≡ i
  later : i < m
  least : (c : ℕ) → 0 < c → filled ns c ≡ true → parent c ≡ i → (cell ns m).cost ≤ (cell ns c).cost

children : (c i : ℕ) → 0 < c → parent c ≡ i → (c ≡ left_child i) ⊎ (c ≡ right_child i)
children c i pos e = elim (ℕ_discrete c (left_child i)) [ yes l ↦ inl l | no n ↦ inr (omega arith) ]

module _ (ns : List Node) (i : ℕ) where
  abbrev Pick : Type 0
  Pick =
      (m : ℕ) × (chosen (cell ns (left_child i)) (cell ns (right_child i)) i ≡ some (m, cell ns m))
      × Smaller ns i m

  pick_left :
      filled ns (left_child i) ≡ true
      → (filled ns (right_child i) ≡ true
          → (cell ns (left_child i)).cost ≤ (cell ns (right_child i)).cost)
      → Smaller ns i (left_child i)
  pick_left l le = record {
    full = l;
    pos = omega arith;
    child = omega arith;
    later = omega arith;
    least = λ c pos f e. ground (arith, children c i, le);
  }

  pick_right :
      filled ns (right_child i) ≡ true
      → (filled ns (left_child i) ≡ true
          → (cell ns (right_child i)).cost ≤ (cell ns (left_child i)).cost)
      → Smaller ns i (right_child i)
  pick_right r le = record {
    full = r;
    pos = omega arith;
    child = omega arith;
    later = omega arith;
    least = λ c pos f e. ground (arith, children c i, le);
  }

  chosen-cases :
      ((chosen (cell ns (left_child i)) (cell ns (right_child i)) i ≡ none) × IsLeaf ns i) ⊎ Pick
  chosen-cases = elim (Bool-cases (filled ns (left_child i))) [
    | inl l ↦ elim (Bool-cases (filled ns (right_child i))) [
      | inl r ↦
          elim (Bool-cases (leb (cell ns (right_child i)).cost (cell ns (left_child i)).cost)) [
            | inl le ↦
                inr (right_child i, rw (l, r, le) refl, pick_right r (λ h. ground (arith, le)))
            | inr gt ↦ inr (left_child i, rw (l, r, gt) refl, pick_left l (λ h. ground (arith, gt)))
          ]
      | inr r ↦ inr (left_child i, rw (l, r) refl, pick_left l (λ h. cc))
    ]
    | inr l ↦ elim (Bool-cases (filled ns (right_child i))) [
      | inl r ↦ inr (right_child i, rw (l, r) refl, pick_right r (λ h. cc))
      | inr r ↦ inl (rw (l, r) refl, λ c pos f e. ground (arith, children c i))
    ]
  ]

  module _ (m : ℕ) (s : Smaller ns i m) (inside : m < length ns) (ordered : IsHeap ns) where
    move-filled : (j : ℕ) → filled (set ns i (cell ns m)) j ≡ filled ns j
    move-filled j = ground (
      arith,
      get_or-set ns i j (cell ns m) blank (omega (arith, s.later)),
      s.full,
      ordered m,
      s.child,
      s.pos,
    )

    move-IsHeap : IsHeap (set ns i (cell ns m))
    move-IsHeap c pos f =
        let low : i < length ns = omega (arith, s.later) in
        ground (
          arith,
          get_or-set ns i c (cell ns m) blank low,
          get_or-set ns i (parent c) (cell ns m) blank low,
          ordered c,
          ordered m,
          s.full,
          s.pos,
          s.child,
          s.least c,
        )

    move-kept : (j : ℕ) → filled ns j ≡ false → cell (set ns i (cell ns m)) j ≡ cell ns j
    move-kept j f =
        get_or-set_ne ns i j (cell ns m) blank
          (λ e. ground (arith, s.full, s.child, s.pos, ordered m))

    move-Sunk : (ns' : List Node) (e : ℕ) → Sunk (set ns i (cell ns m)) m ns' e → Sunk ns i ns' e
    move-Sunk ns' e k = record {
      size = omega (arith, k.size, length-set ns i (cell ns m));
      inside = omega (arith, k.inside, length-set ns i (cell ns m));
      ordered = k.ordered;
      leaf = k.leaf;
      same = λ j. k.same j ∙ move-filled j;
      left = k.left;
      kept = λ j f. k.kept j (move-filled j ∙ f) ∙ move-kept j f;
      counted = λ v c. omega (
        arith,
        k.counted v c,
        held-set v c ns i (cell ns m) (omega (arith, s.later)),
        ap (hit v c)
            (get_or-set_ne ns i m (cell ns m) blank (λ e. absurd (omega (arith, e, s.later)))),
      );
    }

-- Outside the array there is no filled cell.
pub filled-inside : (ns : List Node) (c : ℕ) → filled ns c ≡ true → c < length ns
filled-inside [] c f = cc
filled-inside (n ∷ ns) zero f = omega arith
filled-inside (n ∷ ns) (suc c) f = omega (arith, filled-inside ns c f)

stay-Sunk :
    (ns : List Node) (i : ℕ)
    → i < length ns
    → IsHeap ns
    → filled ns i ≡ true
    → IsLeaf ns i
    → Sunk ns i ns i
stay-Sunk ns i lt o f leaf = record {
  size = refl;
  inside = lt;
  ordered = o;
  leaf = leaf;
  same = λ j. refl;
  left = f;
  kept = λ j h. refl;
  counted = λ v c. refl;
}

-- The loop ends within the array, at a leaf.
pub sink-Sunk :
    (f : ℕ) (ns : List Node) (i : ℕ)
    → length ns < f + i
    → length ns % 2 ≡ 1
    → left_child i < length ns
    → IsHeap ns
    → filled ns i ≡ true
    → (ns' : List Node) × (e : ℕ) × (sink f (length ns) ns i ≡ some (ns', e)) × Sunk ns i ns' e
unfolding sink
sink-Sunk zero ns i enough odd low o full = absurd (omega arith)
sink-Sunk (suc f) ns i enough odd low o full =
    let l : ltb (left_child i) (length ns) ≡ true = ground (arith, low) in
    let r : ltb (right_child i) (length ns) ≡ true = ground (arith, low, odd) in
    let here : ltb i (length ns) ≡ true = ground (arith, low) in
    elim (chosen-cases ns i) [
      | inl (none_left, leaf) ↦
          rw (l, r, none_left) (ns, i, refl, stay-Sunk ns i (omega (arith, low)) o full leaf)
      | inr (m, e, s) ↦
          let next = set ns i (cell ns m) in
          let inside = filled-inside ns m s.full in
          let size = length-set ns i (cell ns m) in
          let o' = move-IsHeap ns i m s inside o in
          let full' = move-filled ns i m s inside o m ∙ s.full in
          elim (Bool-cases (ltb (left_child m) (length ns))) [
            | inl on ↦
                let (ns', e', again, k) =
                  sink-Sunk f next m (omega (arith, s.later, size))
                    (ap (λ (n : ℕ). n % 2) size ∙ odd) (ground (arith, on, size)) o' full' in
                rw (l, r, e, here, on, ← size, again)
                  (ns', e', refl, move-Sunk ns i m s inside o ns' e' k)
            | inr end ↦
                let leaf : IsLeaf next m = λ c pos h k.
                  ground (arith, filled-inside next c h, size, end, children c m pos k) in
                rw (l, r, e, here, end)
                  (
                    next,
                    m,
                    refl,
                    move-Sunk ns i m s inside o next m
                        (stay-Sunk next m (omega (arith, size, inside)) o' full' leaf),
                  )
          ]
    ]
