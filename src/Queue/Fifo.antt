-- ===== src/Queue/Fifo.antt =====
-- What a queue promises: a first-in, first-out list of at most `cap` elements, oldest first.
use burrit_osprivate.Prelude.{ℕ, List, [], ◌∷◌, ◌++◌, ◌==◌, if◌then◌else◌, length}
use burrit_osprivate.Prelude.Result.{Error, Result, ok, err, generic}

pub data Op : Type 0 where
  put : ℕ → Op
  get look : Op

pub data Reply : Type 0 where
  done : Reply
  value : ℕ → Reply
  failed : Error → Reply

unfoldable pub push : ℕ → List ℕ → ℕ → Result (List ℕ)
push cap q x = if length q == cap then err generic else ok (q ++ (x ∷ []))

unfoldable pub pop : List ℕ → Result (ℕ × List ℕ)
pop [] = err generic
pop (x ∷ q) = ok (x, q)

unfoldable pub peek : List ℕ → Result ℕ
peek [] = err generic
peek (x ∷ q) = ok x

unfoldable pub run : ℕ → List ℕ → List Op → List Reply
run cap q [] = []
run cap q (put x ∷ ops) = elim (push cap q x) [
  | ok q' ↦ Reply.done ∷ run cap q' ops
  | err e ↦ Reply.failed e ∷ run cap q ops
]
run cap q (get ∷ ops) = elim (pop q) [
  | ok (x, q') ↦ Reply.value x ∷ run cap q' ops
  | err e ↦ Reply.failed e ∷ run cap q ops
]
run cap q (look ∷ ops) = elim (peek q) [
  | ok x ↦ Reply.value x ∷ run cap q ops
  | err e ↦ Reply.failed e ∷ run cap q ops
]
