-- ===== src/Queue/Refine.antt =====
-- A valid queue behaves as the list of the elements that it holds.
use burrit_osprivate.Prelude.{
  ℕ, ◌+◌, ◌≤◌, ◌<◌, ◌^◌, ◌≡◌, refl, sym, ap, ap₂, ◌∙◌, ◌%◌, ◌≢◌, List, [], ◌∷◌, ◌++◌, arith, length,
  get_or, set, inl, inr,
}
use burrit_osprivate.Prelude.Word.{add32, sub32}
use burrit_osprivate.Prelude.Result.{Result-cases, ok, map_ok}
use burrit_osprivate.Prelude.Window.{window, length-window, window-cons, window-push}
use burrit_osprivate.Queue.{Queue, after, init, push, pop, peek, run}
use burrit_osprivate.Queue.Fifo
use burrit_osprivate.Queue.Fifo.{Op, put, get, look, Reply}
use burrit_osprivate.Queue.Inv.{
  IsValid, length_word, after-eq, init-IsValid, push-IsValid, pop-IsValid,
}

abbrev pub contents : Queue → List ℕ
contents q = window 0 q.length q.buf q.head q.count

pub length-contents : (q : Queue) → length (contents q) ≡ q.count
length-contents q = length-window 0 q.length q.buf q.head q.count

module _ (q : Queue) (v : IsValid q) where
  open v use {storage, head_in, count_in, tail_at}

  grown :
      (x : ℕ)
      → q.count ≢ q.length
      → window 0 q.length (set q.buf q.tail x) q.head (add32 q.count 1) ≡ contents q ++ (x ∷ [])
  grown x ne =
      ap₂ (λ i n. window 0 q.length (set q.buf i x) q.head n) (omega (arith, tail_at))
        (omega (arith, length_word v))
      ∙ window-push 0 q.length q.buf x q.head q.count (omega arith) head_in (omega arith)

  shrunk :
      q.count ≢ 0
      → contents q
        ≡ get_or q.buf q.head 0 ∷ window 0 q.length q.buf (after q q.head) (sub32 q.count 1)
  shrunk ne =
      window-cons 0 q.length q.buf q.head q.count ne
      ∙ ap₂ (λ i n. get_or q.buf i 0 ∷ window 0 q.length q.buf ((q.head + 1) % q.length) n)
          (omega arith) (omega (arith, length_word v))
      ∙ ap (λ h. get_or q.buf q.head 0 ∷ window 0 q.length q.buf h (sub32 q.count 1))
          (sym (after-eq v q.head head_in))

  pub none_held : q.count ≡ 0 → contents q ≡ []
  none_held e = ap (window 0 q.length q.buf q.head) e

  -- `queueU16Push` does to the contents what a bounded list does: it appends the element, or
  -- fails when the list is full.
  pub push_refines_fifo : (x : ℕ) → map_ok contents (push q x) ≡ Fifo.push q.length (contents q) x
  unfolding push Fifo.push
  push_refines_fifo x = ground (arith, length-contents q, grown x)

  -- `queueU16Pop` returns the oldest element and leaves the others, or fails on an empty queue.
  pub pop_refines_fifo : map_ok (λ (x, q'). (x, contents q')) (pop q) ≡ Fifo.pop (contents q)
  unfolding pop Fifo.pop
  pop_refines_fifo = ground (arith, none_held, shrunk)

  -- `queueU16Peek` returns the oldest element.
  pub peek_refines : peek q ≡ Fifo.peek (contents q)
  unfolding peek Fifo.peek
  peek_refines = ground (arith, none_held, shrunk)

pop-eq_ok : (l : List ℕ) {x : ℕ} {r : List ℕ} → Fifo.pop l ≡ ok (x, r) → l ≡ x ∷ r
unfolding Fifo.pop
pop-eq_ok [] e = cc
pop-eq_ok (y ∷ l) e = cc

-- A pop that succeeds takes the head of the contents.
pub pop-contents :
    (q : Queue)
    → IsValid q
    → {x : ℕ} {q' : Queue} → pop q ≡ ok (x, q')
    → contents q ≡ x ∷ contents q'
pop-contents q v e =
    pop-eq_ok (contents q)
      (sym (pop_refines_fifo q v) ∙ ap (map_ok (λ (x, q'). (x, contents q'))) e)

-- A push that succeeds adds the element at the end.
pub push-contents :
    (q : Queue)
    → IsValid q
    → (x : ℕ) {q' : Queue} → push q x ≡ ok q'
    → contents q' ≡ contents q ++ (x ∷ [])
unfolding Fifo.push
push-contents q v x e =
    let same = sym (ap (map_ok contents) e) ∙ push_refines_fifo q v x in ground (arith, same)

pub length-push : (q : Queue) (x : ℕ) {q' : Queue} → push q x ≡ ok q' → q'.length ≡ q.length
unfolding push
length-push q x e = ground arith

pub length-pop : (q : Queue) {x : ℕ} {q' : Queue} → pop q ≡ ok (x, q') → q'.length ≡ q.length
unfolding pop
length-pop q e = ground arith

pub length-init : (buf : List ℕ) (n : ℕ) {q : Queue} → init buf n ≡ ok q → q.length ≡ n
unfolding init
length-init buf n e = ground arith

-- No sequence of calls tells a valid queue from the bounded list of its contents.
pub run_refines :
    (ops : List Op) (q : Queue) → IsValid q → run q ops ≡ Fifo.run q.length (contents q) ops
unfolding run Fifo.run
run_refines [] q v = refl
run_refines (put x ∷ ops) q v = elim (Result-cases (push q x)) [
  | inl (q', e) ↦
      let same = sym (push_refines_fifo q v x) ∙ ap (map_ok contents) e in
      let rest = run_refines ops q' (push-IsValid q v x e) in
      ground (arith, e, same, rest, length-push q x e)
  | inr (r, e) ↦
      let same = sym (push_refines_fifo q v x) ∙ ap (map_ok contents) e in
      ground (arith, e, same, run_refines ops q v)
]
run_refines (get ∷ ops) q v = elim (Result-cases (pop q)) [
  | inl ((x, q'), e) ↦
      let same = sym (pop_refines_fifo q v) ∙ ap (map_ok (λ (x, q'). (x, contents q'))) e in
      let rest = run_refines ops q' (pop-IsValid q v e) in
      ground (arith, e, same, rest, length-pop q e)
  | inr (r, e) ↦
      let same = sym (pop_refines_fifo q v) ∙ ap (map_ok (λ (x, q'). (x, contents q'))) e in
      ground (arith, e, same, run_refines ops q v)
]
run_refines (look ∷ ops) q v = ground (arith, peek_refines q v, run_refines ops q v)

-- From an initialisation that succeeds, over storage of that length, every sequence of calls of
-- `queueU16Push`, `queueU16Pop` and `queueU16Peek` gets the replies of an empty first-in,
-- first-out list bounded by the length.
pub run-init_fifo :
    (buf : List ℕ) (n : ℕ) {q : Queue} (ops : List Op)
    → n < 2 ^ 32
    → n ≤ length buf
    → init buf n ≡ ok q
    → run q ops ≡ Fifo.run n [] ops
run-init_fifo buf n {q} ops h room e =
    let (v, empty) = init-IsValid buf n h room e in
    run_refines ops q v ∙ ap₂ (λ l c. Fifo.run l c ops) (length-init buf n e) (none_held q v empty)
