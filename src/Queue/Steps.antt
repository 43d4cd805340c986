-- ===== src/Queue/Steps.antt =====
-- The calls on a queue, from what it holds.
use burrit_osprivate.Prelude.{
  ℕ, ◌^◌, ◌≤◌, ◌<◌, ◌≡◌, ◌≢◌, refl, sym, ap, ◌∙◌, List, [], ◌∷◌, ◌++◌, arith, length, get_or, set,
  ==_iff, ==-eq_false,
}
use burrit_osprivate.Prelude.Word.{add32, sub32}
use burrit_osprivate.Prelude.Result.{ok, err, generic}
use burrit_osprivate.Queue.{Queue, after, init, push, pop}
use burrit_osprivate.Queue.Inv.{IsValid, init-IsValid, push-IsValid, pop-IsValid}
use burrit_osprivate.Queue.Refine.{
  contents, length-contents, none_held, pop-contents, push-contents, length-init,
}

-- A valid queue of a size, with what it holds.
pub record Holds (q : Queue) (size : ℕ) (l : List ℕ) : Type 0 where
  pub valid : IsValid q
  pub size_is : q.length ≡ size
  pub held : contents q ≡ l

head-injective : {x y : ℕ} {s t : List ℕ} → x ∷ s ≡ y ∷ t → (x ≡ y) × (s ≡ t)
head-injective e = (cc, cc)

module _ {q : Queue} {size : ℕ} {l : List ℕ} (h : Holds q size l) where
  count-is : q.count ≡ length l
  count-is = sym (length-contents q) ∙ ap (λ (l : List ℕ). length l) h.held

  pub pop-none : l ≡ [] → pop q ≡ err generic
  unfolding pop
  pop-none e =
      let zero_held : q.count ≡ 0 = count-is ∙ ap (λ (l : List ℕ). length l) e in
      rw ((==_iff q.count 0).1 zero_held) refl

  pub pop-some :
      (x : ℕ) (r : List ℕ) → l ≡ x ∷ r → (q' : Queue) × (pop q ≡ ok (x, q')) × Holds q' size r
  unfolding pop
  pop-some x r e =
      let some_held : q.count ≢ 0 = omega (arith, count-is, ap (λ (l : List ℕ). length l) e) in
      let q' : Queue = record q { count = sub32 q.count 1; head = after q q.head } in
      let popped : pop q ≡ ok (get_or q.buf q.head 0, q') =
        rw (==-eq_false q.count 0 some_held) refl in
      let (first, rest) = head-injective (sym (pop-contents q h.valid popped) ∙ h.held ∙ e) in
      (
        q',
        popped ∙ ap (λ v. ok (v, q')) first,
        record { valid = pop-IsValid q h.valid popped; size_is = h.size_is; held = rest },
      )

  pub push-full : (x : ℕ) → length l ≡ size → push q x ≡ err generic
  unfolding push
  push-full x e =
      let full : q.count ≡ q.length = count-is ∙ e ∙ sym h.size_is in
      rw ((==_iff q.count q.length).1 full) refl

  pub push-some :
      (x : ℕ) → length l ≢ size → (q' : Queue) × (push q x ≡ ok q') × Holds q' size (l ++ (x ∷ []))
  unfolding push
  push-some x ne =
      let room : q.count ≢ q.length = omega (arith, count-is, h.size_is, ne) in
      let q' : Queue = record q {
        buf = set q.buf q.tail x;
        tail = after q q.tail;
        count = add32 q.count 1;
      } in
      let pushed : push q x ≡ ok q' = rw (==-eq_false q.count q.length room) refl in
      (
        q',
        pushed,
        record {
          valid = push-IsValid q h.valid x pushed;
          size_is = h.size_is;
          held = push-contents q h.valid x pushed ∙ ap (λ (l : List ℕ). l ++ (x ∷ [])) h.held;
        },
      )

-- A queue over enough storage, after its initialisation.
pub init-Holds :
    (buf : List ℕ) (n : ℕ) {q : Queue}
    → n < 2 ^ 32
    → n ≤ length buf
    → init buf n ≡ ok q
    → Holds q n []
init-Holds buf n {q} lt room e =
    let (v, none) = init-IsValid buf n lt room e in
    record { valid = v; size_is = length-init buf n e; held = none_held q v none }
