-- ===== src/User/Clock/Init.antt =====
-- `delayQueueInit`, which makes one chain of the whole buffer.
use burrit_osprivate.Prelude.{
  ℕ, zero, suc, ◌+◌, ◌-◌, ◌≤◌, ◌<◌, ◌≡◌, ◌≢◌, refl, sym, ap, ◌∙◌, subst, List, [], ◌∷◌, ◌==◌, ◌&&◌,
  leb, ltb, if◌then◌else◌, arith, length, length-set, get_or, set, get_or-set,
}
use burrit_osprivate.Prelude.Count.{count}
use burrit_osprivate.User.Clock.{
  DelayedTask, Buffer, DelayQueue, node_at, set_next, init_loop, init, unset,
}
use burrit_osprivate.User.Clock.Chain.{Chain, next-set_next}
use burrit_osprivate.User.Clock.Valid.{Valid}

length-init_loop : (n i : ℕ) (b : Buffer) → length (init_loop n i b) ≡ length b
unfolding init_loop
length-init_loop zero i b = refl
length-init_loop (suc n) i b = length-init_loop n (i + 1) _ ∙ length-set b i _

-- The nodes from `i` on lead to the next one.
next-init_loop :
    (n i j : ℕ) (b : Buffer)
    → i + n < length b
    → (get_or (init_loop n i b) j unset).next
      ≡ (if leb i j && ltb j (i + n) then j + 2 else (get_or b j unset).next)
unfolding init_loop
next-init_loop zero i j b lt = ground arith
next-init_loop (suc n) i j b lt =
    let d : DelayedTask = record (get_or b i unset) { next = i + 2 } in
    let e = next-init_loop n (i + 1) j (set b i d) (omega (arith, length-set b i d, lt)) in
    ground
      (arith, e, ap (λ (d : DelayedTask). d.next) (get_or-set b i j d unset (omega (arith, lt))))

-- The pointers from `i` on.
pub places : ℕ → ℕ → List ℕ
places zero i = []
places (suc n) i = i ∷ places n (suc i)

length-places : (n i : ℕ) → length (places n i) ≡ n
unfolding places
length-places zero i = refl
length-places (suc n) i = ap suc (length-places n (suc i))

count-places : (n i j : ℕ) → count j (places n i) ≡ (if leb i j && ltb j (i + n) then 1 else 0)
unfolding places
count-places zero i j = ground arith
count-places (suc n) i j = ground (arith, count-places n (suc i) j)

places-Chain :
    (n i : ℕ) (b : Buffer)
    → i ≢ 0
    → ((j : ℕ) → i ≤ j → j < i + n → (node_at b j).next ≡ suc j)
    → (node_at b (i + n)).next ≡ 0
    → Chain b i (places (suc n) i)
unfolding places Chain
places-Chain zero i b ne nexts last =
    (refl, ne, ap (λ j. (node_at b j).next) {x = i} {y = i + 0} (omega arith) ∙ last)
places-Chain (suc n) i b ne nexts last = (
  refl,
  ne,
  subst (λ p. Chain b p (places (suc n) (suc i))) (sym (nexts i (omega arith) (omega arith)))
      (places-Chain n (suc i) b (ground arith)
        (λ j h h'. nexts j (omega (arith, h)) (omega (arith, h')))
        (ap (λ j. (node_at b j).next) {x = suc i + n} {y = i + suc n} (omega arith) ∙ last)),
)

-- Whatever the buffer holds, the queue is empty then and each node is free.
pub init-Valid : (dq : DelayQueue) → length dq.buffer ≡ 32 → Valid (init dq) [] (places 32 1)
unfolding init Chain
init-Valid dq size =
    let b = init_loop 31 0 dq.buffer in
    let size' = length-init_loop 31 0 dq.buffer ∙ size in
    let nexts : (i : ℕ)
        → i ≢ 0
        → (node_at (set_next b 32 0) i).next ≡ (if 32 == i then 0 else (node_at b i).next) =
      next-set_next b 32 size' (ground arith) (omega arith) 0 in
    record {
      size = length-set b 31 _ ∙ size';
      used = refl;
      free =
          places-Chain 31 1 _ (ground arith)
            (λ j h h'.
              ground (arith, nexts j, next-init_loop 31 0 (j - 1) dq.buffer (omega (arith, size))))
            (nexts 32 (ground arith));
      once = λ i. ground (arith, count-places 32 1 i);
      inside = λ i h. ground (arith, count-places 32 1 i);
      whole = omega (arith, length-places 32 1);
      small = λ i h. absurd (h refl);
    }
