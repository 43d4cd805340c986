-- ===== src/PriorityQueue/Serve.antt =====
-- Which element the lists of the levels give, and what is left.
use burrit_osprivate.Prelude.{
  ℕ, none, some, ◌⊎◌, inl, inr, zero, suc, ◌+◌, ◌≤◌, ◌<◌, ◌≡◌, ◌≢◌, refl, sym, ap, ap₂, ◌∙◌, List,
  [], ◌∷◌, ◌++◌, ◌==◌, if◌then◌else◌, ◌&&◌, arith, dec_lt, ℕ_discrete,
}
use burrit_osprivate.Prelude.Count.{count, count-snoc}
use burrit_osprivate.Prelude.Result.{Result, Result-cases, ok}
use burrit_osprivate.PriorityQueue.Levels
use burrit_osprivate.PriorityQueue.Levels.{Levels, first, update}

-- No level before the first has an element.
pub first-below : (n p j : ℕ) (l : Levels) → p ≤ j → j < first n p l → l j ≡ []
unfolding first
first-below zero p j l h lt = absurd (omega arith)
first-below (suc n) p j l h lt = elim (ℕ_discrete p j) [
  | yes e ↦ ground (arith, ap l e)
  | no ne ↦ ground (arith, first-below n (p + 1) j l)
]

-- The element `x` at level `at` is taken from `l`, which leaves `rest`.
pub record Served (l rest : Levels) (x : ℕ) : Type 0 where
  pub at : ℕ
  pub head : l at ≡ x ∷ rest at
  pub others : (p : ℕ) → p ≢ at → rest p ≡ l p
  pub urgent : (p : ℕ) → p < at → l p ≡ []

nil_or_cons : (xs : List ℕ) → (xs ≡ []) ⊎ ((y : ℕ) × (ys : List ℕ) × (xs ≡ y ∷ ys))
nil_or_cons [] = inl refl
nil_or_cons (y ∷ ys) = inr (y, ys, refl)

pop-at :
    (l rest : Levels) (at x : ℕ)
    → Levels.take_at l at ≡ ok (x, rest)
    → (l at ≡ x ∷ rest at) × ((p : ℕ) → p ≢ at → rest p ≡ l p)
unfolding Levels.take_at
pop-at l rest at x same = elim (nil_or_cons (l at)) [
  | inl e ↦ absurd (ground (arith, same, e))
  | inr (y, ys, e) ↦
      let taken : ◌≡◌ {A = Result (ℕ × Levels)} (ok (y, update l at ys)) (ok (x, rest)) =
        ground (arith, same, e) in
      let left : update l at ys ≡ rest = cc in
      let first : y ≡ x = cc in
      let here : rest at ≡ ys = ap (λ (l : Levels). l at) (sym left) ∙ ground arith in
      (
        e ∙ ap₂ (λ h t. h ∷ t) first (sym here),
        λ p ne. ap (λ (l : Levels). l p) (sym left) ∙ ground (arith, ne),
      )
]

pub pop-Served : (l rest : Levels) {x : ℕ} → Levels.pop l ≡ ok (x, rest) → Served l rest x
unfolding Levels.pop
pop-Served l rest {x} e =
    let m = first 32 0 l in
    let (head, others) = pop-at l rest m x e in
    record {
      at = m;
      head = head;
      others = others;
      urgent = λ p h. first-below 32 0 p l (omega arith) h;
    }

module _ (l rest : Levels) {x : ℕ} (s : Served l rest x) where
  pub count-Served :
      (p t : ℕ) → count t (l p) ≡ count t (rest p) + (if p == s.at && x == t then 1 else 0)
  count-Served p t = elim (ℕ_discrete p s.at) [
    | yes e ↦ rw e (ap (count t) s.head ∙ ground (arith))
    | no ne ↦ ap (count t) (sym (s.others p ne)) ∙ ground (arith, ne)
  ]

-- An element joins a level.
pub count-update :
    (l : Levels) (at x p t : ℕ)
    → count t (update l at (l at ++ (x ∷ [])) p)
      ≡ count t (l p) + (if at == p && x == t then 1 else 0)
count-update l at x p t = elim (ℕ_discrete at p) [
  | yes e ↦ ground (arith, e, count-snoc t x (l at), ap (λ k. count t (l k)) e)
  | no ne ↦ ground (arith, ne)
]

-- A push and pop that serves another value.
pub push_pop-Served :
    (l rest : Levels) (p x : ℕ) {y : ℕ}
    → Levels.push_pop l p x ≡ ok (some (y, rest))
    → Served (update l p (l p ++ (x ∷ []))) rest y
unfolding Levels.push_pop Levels.push
push_pop-Served l rest p x {y} e =
    pop-Served (update l p (l p ++ (x ∷ []))) rest
      (elim (Result-cases (Levels.pop (update l p (l p ++ (x ∷ []))))) [
        | inl (r, popped) ↦
            let same : r ≡ (y, rest) = ground (arith, e, popped) in popped ∙ ap ok same
        | inr (r, failed) ↦ absurd (ground (arith, e, failed))
      ])

-- A push and pop that keeps the value.
pub push_pop-kept :
    (l : Levels) (p x : ℕ) → Levels.push_pop l p x ≡ ok none → (r : ℕ) → r ≤ p → l r ≡ []
unfolding Levels.push_pop Levels.push
push_pop-kept l p x e r h = elim (dec_lt p (first 32 0 l)) [
  | yes early ↦ first-below 32 0 r l (omega arith) (omega arith)
  | no late ↦ elim (Result-cases (Levels.pop (update l p (l p ++ (x ∷ []))))) [
    | inl (r, popped) ↦ absurd (ground (arith, e, popped))
    | inr (r, failed) ↦ absurd (ground (arith, e, failed))
  ]
]
