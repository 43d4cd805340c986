-- ===== src/Heap/Tests.antt =====
-- A heap of three cells, two of them filled.
use burrit_osprivate.Prelude.{
  ℕ, zero, suc, ◌+◌, ◌<◌, ◌≡◌, ◌⊎◌, refl, inr, true, false, some, [], ◌∷◌, arith, replicate,
}
use burrit_osprivate.Prelude.Result.{ok, err, generic}
use burrit_osprivate.Heap.{Node, Heap, blank, init, push, pop, chain, rise, sink}
use burrit_osprivate.Heap.Order.{filled, IsHeap, hit, held, mark, Valid}
use burrit_osprivate.Heap.Free.{occupied, lowest}
use burrit_osprivate.Heap.Serve.{filling, push-held, pop-lowest}

abbrev node : ℕ → ℕ → Node
node v c = record { value = v; cost = c; is_filled = true; next = 0 }

abbrev two : Heap
two = record { size = 3; nodes = node 7 5 ∷ node 8 9 ∷ blank ∷ []; free_list = 3 }

two-IsHeap : IsHeap two.nodes
two-IsHeap zero pos f = absurd (omega (arith, pos))
two-IsHeap (suc zero) pos f = (refl, omega arith)
two-IsHeap (suc (suc zero)) pos f = cc
two-IsHeap (suc (suc (suc c))) pos f = cc

all_filled : (j : ℕ) → j < 3 → mark (filled two.nodes) 2 j ≡ true
all_filled zero lt = refl
all_filled (suc zero) lt = refl
all_filled (suc (suc zero)) lt = refl
all_filled (suc (suc (suc j))) lt = absurd (omega (arith, lt))

two-Valid : Valid two
two-Valid = record {
  length_is = refl;
  odd = refl;
  some_children = omega arith;
  fits = omega arith;
  ordered = two-IsHeap;
  free = 2 ∷ [];
  chained = (refl, omega arith, refl);
  fillable = (refl, inr refl, all_filled);
}

-- The initialisation, two pushes and a pop.
empty_heap :
    init (replicate 3 blank) 3
    ≡ some (record {
      size = 3;
      nodes = record blank { next = 2 } ∷ record blank { next = 3 } ∷ blank ∷ [];
      free_list = 1;
    })
unfolding init chain
empty_heap = refl

push_root :
    push two (node 4 5)
    ≡ some (ok (record two { nodes = node 4 5 ∷ node 8 9 ∷ node 7 5 ∷ []; free_list = 0 }))
unfolding push rise
push_root = refl

pop_root :
    pop two
    ≡ some (
        ok (
          node 7 5,
          record two {
            nodes = node 8 9 ∷ record (node 8 9) { is_filled = false; next = 3 } ∷ blank ∷ [];
            free_list = 2;
          },
        ))
unfolding pop sink
pop_root = refl

push-held_example :
    ((occupied two.nodes ≡ 3) × (push two (node 4 5) ≡ some (err generic)))
    ⊎ ((occupied two.nodes < 3)
        × ((h' : Heap) × (push two (node 4 5) ≡ some (ok h'))
            × Valid h'
            × (h'.size ≡ 3)
            × ((v c : ℕ) → held v c h'.nodes ≡ held v c two.nodes + hit v c (filling (node 4 5)))))
push-held_example = push-held two (node 4 5) two-Valid

pop-lowest_example :
    ((occupied two.nodes ≡ 0) × (pop two ≡ some (err generic)))
    ⊎ ((0 < occupied two.nodes)
        × ((n : Node) × (h' : Heap) × (pop two ≡ some (ok (n, h')))
            × Valid h'
            × (h'.size ≡ 3)
            × (lowest two.nodes ≡ some n.cost)
            × ((v c : ℕ) → held v c h'.nodes + hit v c n ≡ held v c two.nodes)))
pop-lowest_example = pop-lowest two two-Valid
