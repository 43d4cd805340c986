-- ===== src/PriorityQueue/Levels.antt =====
-- What a priority queue promises: a bounded first-in, first-out list for each priority, of which
-- the first that is not empty is served.
use burrit_osprivate.Prelude.{
  ℕ, zero, suc, ◌+◌, Option, none, some, List, [], ◌∷◌, ◌++◌, ◌==◌, ltb, leb, if◌then◌else◌, length,
}
use burrit_osprivate.Prelude.Result.{Error, Result, ok, err, full, empty, ◌>>=◌}

-- PRIORITY_COUNT and PRIORITY_LENGTH of kernel/config.h.
abbrev pub priority_count : ℕ
priority_count = 32

abbrev pub priority_length : ℕ
priority_length = 16

abbrev pub Levels : Type 0
Levels = ℕ → List ℕ

abbrev pub update : Levels → ℕ → List ℕ → Levels
update l p xs r = if p == r then xs else l r

pub data Op : Type 0 where
  add exchange : ℕ → ℕ → Op
  next : Op

pub data Reply : Type 0 where
  done keep : Reply
  value : ℕ → Reply
  failed : Error → Reply

-- The first priority from `p` on, of `n`, that has an element, else the end of the range.
unfoldable pub first : ℕ → ℕ → Levels → ℕ
first zero p l = p
first (suc n) p l = let rest = first n (p + 1) l in elim (l p) [ [] ↦ rest | x ∷ xs ↦ p ]

unfoldable pub push : Levels → ℕ → ℕ → Result Levels
push l p x =
    if leb priority_count p
    then err full
    else if length (l p) == priority_length
    then err full
    else ok (update l p (l p ++ (x ∷ [])))

-- The oldest element of priority `p`.
unfoldable pub take_at : Levels → ℕ → Result (ℕ × Levels)
take_at l p = elim (l p) [ [] ↦ err empty | x ∷ xs ↦ ok (x, update l p xs) ]

unfoldable pub pop : Levels → Result (ℕ × Levels)
pop l = take_at l (first priority_count 0 l)

-- A value of a more urgent priority than all that wait is kept; any other waits its turn while
-- the next one is served.
unfoldable pub push_pop : Levels → ℕ → ℕ → Result (Option (ℕ × Levels))
push_pop l p x =
    if ltb p (first priority_count 0 l)
    then ok none
    else push l p x >>= λ l'. pop l' >>= λ r. ok (some r)

unfoldable pub run : Levels → List Op → List Reply
run l [] = []
run l (add p x ∷ ops) = elim (push l p x) [
  | ok l' ↦ Reply.done ∷ run l' ops
  | err e ↦ Reply.failed e ∷ run l ops
]
run l (next ∷ ops) = elim (pop l) [
  | ok (x, l') ↦ Reply.value x ∷ run l' ops
  | err e ↦ Reply.failed e ∷ run l ops
]
run l (exchange p x ∷ ops) = elim (push_pop l p x) [
  | ok none ↦ Reply.keep ∷ run l ops
  | ok (some (y, l')) ↦ Reply.value y ∷ run l' ops
  | err e ↦ Reply.failed e ∷ run l ops
]
