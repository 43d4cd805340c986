-- ===== src/LinkedList/Tests.antt =====
-- A list of four nodes.
use burrit_osprivate.Prelude.{ℕ, ◌≡◌, refl, arith, [], ◌∷◌}
use burrit_osprivate.Prelude.Result.{ok}
use burrit_osprivate.Prelude.Outcome.{done}
use burrit_osprivate.LinkedList.{
  ListNode, ListU32, node_at, init, init_loop, push_front, push_back, pop_front,
}
use burrit_osprivate.LinkedList.Front.{Linked, words, pop_front-push_front, pop_front-free}

abbrev node : ℕ → ℕ → ListNode
node word next = record { word = word; next = next }

-- One word in, three nodes free.
abbrev one_word : ListU32
one_word = record {
  nodes = node 7 0 ∷ node 0 3 ∷ node 0 4 ∷ node 0 0 ∷ [];
  free_list = 2;
  head = 1;
}

made : push_back (init (node 0 0 ∷ node 0 0 ∷ node 0 0 ∷ node 0 0 ∷ []) 4) 7 ≡ done (ok one_word)
unfolding push_back init init_loop
made = refl

pop_front-push_front_example :
    (l' : ListU32) × (push_front one_word 9 ≡ ok l')
    × Linked l'.nodes l'.head (2 ∷ 1 ∷ [])
    × (words l'.nodes (2 ∷ 1 ∷ []) ≡ 9 ∷ 7 ∷ [])
    × (l'' : ListU32) × (pop_front l' ≡ ok (9, l''))
    × (l''.head ≡ 1)
    × Linked l''.nodes l''.head (1 ∷ [])
    × (words l''.nodes (1 ∷ []) ≡ 7 ∷ [])
pop_front-push_front_example =
    pop_front-push_front one_word 9 (1 ∷ []) (omega arith) (omega arith) (refl, omega arith, refl)
      (omega arith, tt) (omega arith, tt)

pop_front-free_example :
    (l' : ListU32) × (pop_front one_word ≡ ok (7, l'))
    × (l'.free_list ≡ 2)
    × ((node_at l'.nodes 2).next ≡ 1)
    × ((node_at l'.nodes 1).next ≡ 0)
pop_front-free_example =
    pop_front-free one_word (omega arith) (omega arith) (omega arith) (omega arith) (omega arith)
