-- ===== src/User/Clock/Push.antt =====
-- `delayQueuePush` on a whole queue.
use burrit_osprivate.Prelude.{
  ℕ, ◌+◌, ◌-◌, ◌^◌, ◌<◌, ◌≡◌, ◌≢◌, refl, sym, ap, ap₂, ◌∙◌, subst, true, List, [], ◌∷◌, ◌==◌, arith,
  length, length-set, if◌then◌else◌, ==-eq_false, ==_iff,
}
use burrit_osprivate.Prelude.Count.{count}
use burrit_osprivate.Prelude.Outcome.{done, halt}
use burrit_osprivate.User.Clock.{Buffer, DelayQueue, node_at, push, set_tid, set_next, set_delay}
use burrit_osprivate.User.Clock.Chain.{
  Chain, Chain-frame, Chain-real, sleepers, sleepers-frame, next-set_next, tid-set_next,
  delay-set_next, next-set_tid, tid-set_tid, delay-set_tid, next-set_delay, tid-set_delay,
  delay-set_delay,
}
use burrit_osprivate.User.Clock.Insert.{Apart, Inserted, last-Inserted}
use burrit_osprivate.User.Clock.Place.{HeadPlaced, place_head}
use burrit_osprivate.User.Clock.Valid.{Valid}
use burrit_osprivate.User.Clock.Sleepers.{Sleepers, put}

-- How a push ends.
unfoldable pub Pushed : DelayQueue → ℕ → ℕ → List ℕ → List ℕ → Type 0
Pushed dq id delay qs fs =
    (dq' : DelayQueue) × (push dq id delay ≡ done dq')
    × (qs' : List ℕ) × Valid dq' qs' fs
    × (sleepers dq'.buffer 0 qs' ≡ put id delay (sleepers dq.buffer 0 qs))

-- The node that is taken, made ready.
module _ (b : Buffer) (node id : ℕ) (size : length b ≡ 32) (ne : node ≢ 0) (lt : node < 33) where
  abbrev prepared : Buffer
  prepared = set_next (set_tid b node id) node 0

  size₁ : length (set_tid b node id) ≡ 32
  size₁ = length-set b (node - 1) _ ∙ size

  size-prepared : length prepared ≡ 32
  size-prepared = length-set (set_tid b node id) (node - 1) _ ∙ size₁

  next-prepared :
      (i : ℕ) → i ≢ 0 → (node_at prepared i).next ≡ (if node == i then 0 else (node_at b i).next)
  next-prepared i h = ground (
    arith,
    next-set_next (set_tid b node id) node size₁ ne lt 0 i h,
    next-set_tid b node size ne lt id i h,
  )

  tid-prepared :
      (i : ℕ) → i ≢ 0 → (node_at prepared i).tid ≡ (if node == i then id else (node_at b i).tid)
  tid-prepared i h = ground (
    arith,
    tid-set_next (set_tid b node id) node size₁ ne lt 0 i h,
    tid-set_tid b node size ne lt id i h,
  )

  delay-prepared : (i : ℕ) → i ≢ 0 → (node_at prepared i).delay ≡ (node_at b i).delay
  delay-prepared i h =
      delay-set_next (set_tid b node id) node size₁ ne lt 0 i h
      ∙ delay-set_tid b node size ne lt id i h

-- The node that is taken.
module _ {dq : DelayQueue} {qs fs : List ℕ} {node : ℕ} (v : Valid dq qs (node ∷ fs)) where
  ne : node ≢ 0
  unfolding Chain
  ne = v.free.1

  lt : node < 33
  lt = v.inside node (ground arith)

-- The queue with the node that is taken among its nodes.
module _ {dq : DelayQueue} {qs fs : List ℕ} {node : ℕ} (id delay : ℕ)
    (v : Valid dq qs (node ∷ fs)) where
  b : Buffer
  b = prepared dq.buffer node id v.size (ne v) (lt v)

  Inserted-Valid :
      (b' : Buffer) (first : ℕ) (qs' : List ℕ)
      → Inserted b b' node 0 first 0 (0 + delay) qs qs'
      → Valid
          (record { buffer = b'; free_list = (node_at dq.buffer node).next; queue = first })
          qs'
          fs
        × (sleepers b' 0 qs' ≡ put id delay (sleepers dq.buffer 0 qs))
  unfolding Chain b
  Inserted-Valid b' first qs' r =
      let real : (i : ℕ) → count i qs ≢ 0 → i ≢ 0 = Chain-real dq.buffer dq.queue qs v.used in
      let here : (node == node) ≡ true = ground arith in
      let old : sleepers b 0 qs ≡ sleepers dq.buffer 0 qs =
        sleepers-frame dq.buffer b 0 qs
          (λ i h.
            tid-prepared dq.buffer node id v.size (ne v) (lt v) i (real i h)
            ∙ ground (arith, v.once i))
          (λ i h. delay-prepared dq.buffer node id v.size (ne v) (lt v) i (real i h)) in
      (
        record {
          size = r.size;
          used = r.chain;
          free =
              Chain-frame dq.buffer b' _ fs
                (λ i h c.
                  r.next i h h (ground (arith, v.once i))
                  ∙ next-prepared dq.buffer node id v.size (ne v) (lt v) i h
                  ∙ ground (arith, v.once i))
                v.free.2;
          once = λ i. omega (arith, r.counts i, v.once i);
          inside = λ i h. v.inside i (omega (arith, h, r.counts i));
          whole = omega (arith, v.whole, r.one_more);
          small = r.small;
        },
        r.asleep
            ∙ ap₂ (λ t d. put t d (sleepers b 0 qs))
                (tid-prepared dq.buffer node id v.size (ne v) (lt v) node (ne v) ∙ rw here refl)
                (ground arith)
            ∙ ap (λ (s : Sleepers). put id delay s) old,
      )

  ended : (node_at b node).next ≡ 0
  unfolding b
  ended = ground (arith, next-prepared dq.buffer node id v.size (ne v) (lt v) node (ne v))

  kept : Chain b dq.queue qs
  unfolding b
  kept =
      Chain-frame dq.buffer b dq.queue qs
        (λ i h c.
          ground (arith, next-prepared dq.buffer node id v.size (ne v) (lt v) i h, v.once i))
        v.used

  -- An empty queue.
  first-Inserted :
      delay < 2 ^ 31 → Inserted b (set_delay b node delay) node 0 node 0 (0 + delay) [] (node ∷ [])
  unfolding b
  first-Inserted bound =
      let size' = size-prepared dq.buffer node id v.size (ne v) (lt v) in
      last-Inserted 0 (ne v) bound (record {
        size = length-set b (node - 1) _ ∙ size';
        next = λ i h.
            next-set_delay b node size' (ne v) (lt v) delay i h
            ∙ ground (arith, next-prepared dq.buffer node id v.size (ne v) (lt v) i h);
        tid = λ i h. tid-set_delay b node size' (ne v) (lt v) delay i h;
        delay = λ i h. ground (arith, delay-set_delay b node size' (ne v) (lt v) delay i h);
      })

  apart : Apart b node qs
  unfolding b
  apart = record {
    once = λ i. omega (arith, v.once i);
    inside = λ i h. v.inside i (omega (arith, h));
    small = λ i h. ground (
      arith,
      delay-prepared dq.buffer node id v.size (ne v) (lt v) i
          (Chain-real dq.buffer dq.queue qs v.used i h),
      v.small i,
    );
    absent = ground (arith, v.once node);
  }

module _ (dq : DelayQueue) (id delay : ℕ) (bound : delay < 2 ^ 31) where
  push_first :
      (fs : List ℕ) → dq.queue ≡ 0 → Valid dq [] (dq.free_list ∷ fs) → Pushed dq id delay [] fs
  unfolding Pushed push b
  push_first fs none v =
      let (w, e) = Inserted-Valid id delay v _ _ _ (first-Inserted id delay v bound) in
      rw (==-eq_false dq.free_list 0 (ne v), (==_iff dq.queue 0).1 none)
        (_, refl, dq.free_list ∷ [], w, e)

  push_next :
      (ps fs : List ℕ)
      → Valid dq (dq.queue ∷ ps) (dq.free_list ∷ fs)
      → Pushed dq id delay (dq.queue ∷ ps) fs
  unfolding Pushed push b Chain HeadPlaced
  push_next ps fs v =
      let node = dq.free_list in
      let size' = size-prepared dq.buffer node id v.size (ne v) (lt v) in
      let (p, c, l, found, ps', r) =
        place_head (b id delay v) node size' (ne v) (lt v) (ended id delay v) dq.queue delay ps
          (apart id delay v) bound v.used.1 (kept id delay v).2 (omega (arith, v.whole)) in
      let (w, e) = Inserted-Valid id delay v _ _ ps' r in
      rw (==-eq_false node 0 (ne v), ==-eq_false dq.queue 0 v.used.1, found) (_, refl, ps', w, e)

-- A push with a node to spare.
pub push-Pushed :
    (dq : DelayQueue) (id delay : ℕ) (qs : List ℕ) (f : ℕ) (fs : List ℕ)
    → delay < 2 ^ 31
    → Valid dq qs (f ∷ fs)
    → Pushed dq id delay qs fs
unfolding Chain
push-Pushed dq id delay [] f fs bound v =
    push_first dq id delay bound fs v.used (subst (λ g. Valid dq [] (g ∷ fs)) (sym v.free.0) v)
push-Pushed dq id delay (q ∷ ps) f fs bound v =
    let v' = subst (λ g. Valid dq (q ∷ ps) (g ∷ fs)) (sym v.free.0) v in
    subst (λ r. Pushed dq id delay (r ∷ ps) fs) v.used.0
      (push_next dq id delay bound ps fs
        (subst (λ r. Valid dq (r ∷ ps) (dq.free_list ∷ fs)) (sym v.used.0) v'))

-- A push with none.
pub push-full :
    (dq : DelayQueue) (id delay : ℕ) (qs : List ℕ) → Valid dq qs [] → push dq id delay ≡ halt
unfolding push Chain
push-full dq id delay qs v = rw ((==_iff dq.free_list 0).1 v.free) refl
