-- ===== src/User/Clock/Wake.antt =====
-- A tick of the server of user/servers/ClockServer.c.
use burrit_osprivate.Prelude.{
  ℕ, zero, suc, ◌+◌, ◌-◌, ◌≤◌, ◌<◌, ◌≡◌, ◌≢◌, refl, sym, ap, ap₂, ◌∙◌, subst, true, false, List, [],
  ◌∷◌, ◌==◌, if◌then◌else◌, arith, length, length-set, ==-eq_false, ==_iff, Bool-cases, inl, inr,
}
use burrit_osprivate.Prelude.Count.{count}
use burrit_osprivate.Prelude.Word.{sub32}
use burrit_osprivate.Prelude.Outcome.{Outcome, done}
use burrit_osprivate.User.Clock.{
  Buffer, DelayQueue, node_at, fuel, set_next, set_delay, wake_loop, tick, expired,
}
use burrit_osprivate.User.Clock.Chain.{
  Chain, Chain-frame, Chain-real, sleepers, sleepers-frame, next-set_next, tid-set_next,
  delay-set_next, next-set_delay, tid-set_delay, delay-set_delay,
}
use burrit_osprivate.User.Clock.Valid.{Valid}
use burrit_osprivate.User.Clock.Sleepers.{Sleepers, lapse, due, waiting, soonest}

-- Those that come after someone who still waits still wait.
later :
    (b : Buffer) (before : ℕ) (ps : List ℕ)
    → 1 ≤ before
    → (due (sleepers b before ps) ≡ []) × (waiting (sleepers b before ps) ≡ sleepers b before ps)
unfolding sleepers
later b before [] h = (refl, refl)
later b before (p ∷ ps) h =
    let (e, e') = later b (before + (node_at b p).delay) ps (omega (arith, h)) in
    let awake : (before + (node_at b p).delay == 0) ≡ false = ground arith in
    rw awake (e, ap (λ (s : Sleepers). ((node_at b p).tid, before + (node_at b p).delay) ∷ s) e')

lapse-sleepers :
    (b : Buffer) (before : ℕ) (ps : List ℕ)
    → lapse (sleepers b (suc before) ps) ≡ sleepers b before ps
unfolding sleepers
lapse-sleepers b before [] = refl
lapse-sleepers b before (p ∷ ps) =
    ap₂ (λ (x : ℕ × ℕ) (s : Sleepers). x ∷ s) (ap (λ n. ((node_at b p).tid, n)) (omega arith))
      (ap (λ n. lapse (sleepers b n ps)) (omega arith)
        ∙ lapse-sleepers b (before + (node_at b p).delay) ps)

-- The first of the queue becomes the first of those that are free.
abbrev after : DelayQueue → DelayQueue
after dq = record {
  buffer = set_next dq.buffer dq.queue dq.free_list;
  free_list = dq.queue;
  queue = (node_at dq.buffer dq.queue).next;
}

woken-Valid :
    (dq : DelayQueue) (ps fs : List ℕ)
    → Valid dq (dq.queue ∷ ps) fs
    → Valid (after dq) ps (dq.queue ∷ fs)
      × (sleepers (after dq).buffer 0 ps ≡ sleepers dq.buffer 0 ps)
unfolding Chain
woken-Valid dq ps fs v =
    let q = dq.queue in
    let qne : q ≢ 0 = v.used.1 in
    let lt : q < 33 = v.inside q (ground arith) in
    let b = set_next dq.buffer q dq.free_list in
    let next : (i : ℕ)
        → i ≢ 0
        → (node_at b i).next ≡ (if q == i then dq.free_list else (node_at dq.buffer i).next) =
      next-set_next dq.buffer q v.size qne lt dq.free_list in
    let real = Chain-real dq.buffer _ ps v.used.2 in
    let delays : (i : ℕ) → count i ps ≢ 0 → (node_at b i).delay ≡ (node_at dq.buffer i).delay =
      λ i h. delay-set_next dq.buffer q v.size qne lt dq.free_list i (real i h) in
    (
      record {
        size = length-set dq.buffer (q - 1) _ ∙ v.size;
        used = Chain-frame dq.buffer b _ ps (λ i h c. ground (arith, next i h, v.once i)) v.used.2;
        free = (
          refl,
          qne,
          subst (λ p. Chain b p fs) (sym (next q qne ∙ rw ((==_iff q q).1 refl) refl))
              (Chain-frame dq.buffer b _ fs (λ i h c. ground (arith, next i h, v.once i)) v.free),
        );
        once = λ i. omega (arith, v.once i);
        inside = λ i h. v.inside i (omega (arith, h));
        whole = omega (arith, v.whole);
        small = λ i h. ground (arith, delays i h, v.small i);
      },
      sleepers-frame dq.buffer b 0 ps
          (λ i h. tid-set_next dq.buffer q v.size qne lt dq.free_list i (real i h)) delays,
    )

-- How a tick, or the loop of one, ends: those of `s` that are due wake, and the others wait on.
unfoldable pub Woken : Sleepers → Outcome (List ℕ × DelayQueue) → Type 0
Woken s o =
    (dq' : DelayQueue) × (o ≡ done (due s, dq'))
    × (qs' : List ℕ) × (fs' : List ℕ) × Valid dq' qs' fs'
    × (sleepers dq'.buffer 0 qs' ≡ waiting s)

wake_step :
    (n : ℕ) (dq : DelayQueue) (ps fs : List ℕ)
    → Valid dq (dq.queue ∷ ps) fs
    → Woken (sleepers dq.buffer 0 ps) (wake_loop n (after dq))
    → Woken (sleepers dq.buffer 0 (dq.queue ∷ ps)) (wake_loop (suc n) dq)
unfolding wake_loop Woken Chain sleepers
wake_step n dq ps fs v (dq', e, qs', fs', v', left) =
    let d = (node_at dq.buffer dq.queue).delay in
    elim (Bool-cases (d == 0)) [
      | inl z ↦
          let zero_delay : 0 + d ≡ 0 = ground arith in
          let now : expired d ≡ true = ground arith in
          rw (==-eq_false dq.queue 0 v.used.1, now, e, zero_delay) (dq', refl, qs', fs', v', left)
      | inr z ↦
          let still : expired d ≡ false = ground (arith, v.small dq.queue) in
          let awake : (0 + d == 0) ≡ false = ground arith in
          let (e₁, e₂) = later dq.buffer (0 + d) ps (ground arith) in
          rw (==-eq_false dq.queue 0 v.used.1, still, awake, e₁, e₂)
            (dq, refl, dq.queue ∷ ps, fs, v, refl)
    ]

pub wake_loop-Woken :
    (n : ℕ) (dq : DelayQueue) (qs fs : List ℕ)
    → Valid dq qs fs
    → length qs < n
    → Woken (sleepers dq.buffer 0 qs) (wake_loop n dq)
unfolding wake_loop Woken Chain sleepers
wake_loop-Woken zero dq qs fs v few = absurd (omega arith)
wake_loop-Woken (suc n) dq [] fs v few =
    rw ((==_iff dq.queue 0).1 v.used) (dq, refl, [], fs, v, refl)
wake_loop-Woken (suc n) dq (q ∷ ps) fs v few =
    let v' = subst (λ r. Valid dq (r ∷ ps) fs) (sym v.used.0) v in
    let (w, same) = woken-Valid dq ps fs v' in
    subst (λ r. Woken (sleepers dq.buffer 0 (r ∷ ps)) (wake_loop (suc n) dq)) v.used.0
      (wake_step n dq ps fs v' (
        subst (λ s. Woken s (wake_loop n (after dq))) same
          (wake_loop-Woken n (after dq) ps (dq.queue ∷ fs) w (omega (arith, few)))))

-- The first of the queue waits a tick less.
abbrev ticked : DelayQueue → DelayQueue
ticked dq = record dq {
  buffer = set_delay dq.buffer dq.queue (sub32 (node_at dq.buffer dq.queue).delay 1);
}

ticked-Valid :
    (dq : DelayQueue) (ps fs : List ℕ)
    → Valid dq (dq.queue ∷ ps) fs
    → 1 ≤ (node_at dq.buffer dq.queue).delay
    → Valid (ticked dq) (dq.queue ∷ ps) fs
      × (sleepers (ticked dq).buffer 0 (dq.queue ∷ ps)
          ≡ lapse (sleepers dq.buffer 0 (dq.queue ∷ ps)))
unfolding Chain sleepers
ticked-Valid dq ps fs v some =
    let q = dq.queue in
    let d = (node_at dq.buffer q).delay in
    let qne : q ≢ 0 = v.used.1 in
    let lt : q < 33 = v.inside q (ground arith) in
    let b = set_delay dq.buffer q (sub32 d 1) in
    let nexts = next-set_delay dq.buffer q v.size qne lt (sub32 d 1) in
    let tids = tid-set_delay dq.buffer q v.size qne lt (sub32 d 1) in
    let delays : (i : ℕ)
        → i ≢ 0
        → (node_at b i).delay ≡ (if q == i then d - 1 else (node_at dq.buffer i).delay) =
      λ i h. ground (arith, delay-set_delay dq.buffer q v.size qne lt (sub32 d 1) i h, v.small q) in
    let at_q : (node_at b q).delay ≡ d - 1 = delays q qne ∙ rw ((==_iff q q).1 refl) refl in
    let real = Chain-real dq.buffer _ ps v.used.2 in
    let used = Chain-frame dq.buffer b q (q ∷ ps) (λ i h c. nexts i h) (refl, v.used.1, v.used.2) in
    (
      record {
        size = length-set dq.buffer (q - 1) _ ∙ v.size;
        used = used;
        free = Chain-frame dq.buffer b _ fs (λ i h c. nexts i h) v.free;
        once = v.once;
        inside = v.inside;
        whole = v.whole;
        small = λ i h. ground (arith, real i, delays i, v.small i);
      },
      ap₂ (λ (x : ℕ × ℕ) (s : Sleepers). x ∷ s)
          (ap₂ (λ (t n : ℕ). (t, n)) (tids q qne) (omega (arith, at_q)))
          (ap (λ n. sleepers b n ps) {x = 0 + (node_at b q).delay} {y = 0 + d - 1}
              (omega (arith, at_q))
            ∙ sleepers-frame dq.buffer b (0 + d - 1) ps (λ i h. tids i (real i h))
                (λ i h. ground (arith, delays i (real i h), v.once i))
            ∙ sym (lapse-sleepers dq.buffer (0 + d - 1) ps)
            ∙ ap (λ n. lapse (sleepers dq.buffer n ps)) {x = suc (0 + d - 1)} {y = 0 + d}
                (omega (arith, some))),
    )

-- A tick ends, and wakes those whose last tick it is.
pub tick-Woken :
    (dq : DelayQueue) (qs fs : List ℕ)
    → Valid dq qs fs
    → 1 ≤ soonest (sleepers dq.buffer 0 qs)
    → Woken (lapse (sleepers dq.buffer 0 qs)) (tick dq)
unfolding tick Woken Chain sleepers
tick-Woken dq [] fs v h = rw ((==_iff dq.queue 0).1 v.used) (dq, refl, [], fs, v, refl)
tick-Woken dq (q ∷ ps) fs v h =
    let v' = subst (λ r. Valid dq (r ∷ ps) fs) (sym v.used.0) v in
    let some : 1 ≤ (node_at dq.buffer dq.queue).delay =
      subst (λ r. 1 ≤ (node_at dq.buffer r).delay) (sym v.used.0) (omega (arith, h)) in
    let (w, same) = ticked-Valid dq ps fs v' some in
    subst (λ r. Woken (lapse (sleepers dq.buffer 0 (r ∷ ps))) (tick dq)) v.used.0
      (subst (λ s. Woken s (tick dq)) same
        (rw (==-eq_false dq.queue 0 v'.used.1)
          (wake_loop-Woken fuel (ticked dq) (dq.queue ∷ ps) fs w (omega (arith, v.whole)))))
