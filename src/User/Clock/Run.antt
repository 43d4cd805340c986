-- ===== src/User/Clock/Run.antt =====
-- The server of user/servers/ClockServer.c over any sequence of requests keeps its promises.
use burrit_osprivate.Prelude.{
  ℕ, ◌^◌, ◌≤◌, ◌<◌, ◌≡◌, refl, sym, ap, ◌∙◌, true, false, List, [], ◌∷◌, ◌==◌, leb, arith, length,
  Bool-cases, inl, inr, ◌⊎◌,
}
use burrit_osprivate.Prelude.Word.{add32}
use burrit_osprivate.Prelude.Outcome.{Outcome, done, halt, ◌>>=◌}
use burrit_osprivate.User.Messages.{envelope, Reply, reply, Request}
use burrit_osprivate.User.Clock.{DelayQueue, Server, push, tick, init, serve}
use burrit_osprivate.User.Clock.Chain.{sleepers, length-sleepers}
use burrit_osprivate.User.Clock.Valid.{Valid}
use burrit_osprivate.User.Clock.Init.{init-Valid}
use burrit_osprivate.User.Clock.Push.{Pushed, push-Pushed, push-full}
use burrit_osprivate.User.Clock.Wake.{Woken, tick-Woken}
use burrit_osprivate.User.Clock.Sleepers.{
  Sleepers, put, lapse, due, waiting, soonest, soonest-put, soonest-waiting,
}
use burrit_osprivate.User.Clock.Service.{Service, sleep, promise, promises}

-- The loop of `ClockServer`, on the messages that it receives.
unfoldable pub run : Server → List Request → Outcome (List (List Reply))
run s [] = done []
run s (r ∷ rs) = serve s r >>= λ (out, s'). run s' rs >>= λ outs. done (out ∷ outs)

-- A queue holds these sleepers.
unfoldable pub Holds : DelayQueue → Sleepers → Type 0
Holds dq s =
    (qs : List ℕ) × (fs : List ℕ) × Valid dq qs fs × (sleepers dq.buffer 0 qs ≡ s) × (1 ≤ soonest s)

init-Holds : (dq : DelayQueue) → length dq.buffer ≡ 32 → Holds (init dq) []
unfolding Holds sleepers
init-Holds dq size = ([], _, init-Valid dq size, refl, omega arith)

push-Holds :
    (dq : DelayQueue) (s : Sleepers) (id t : ℕ)
    → 1 ≤ t
    → t < 2 ^ 31
    → Holds dq s
    → ((sleep id t s ≡ halt) × (push dq id t ≡ halt))
      ⊎ ((dq' : DelayQueue) × (sleep id t s ≡ done (put id t s))
          × (push dq id t ≡ done dq')
          × Holds dq' (put id t s))
unfolding Holds Pushed
push-Holds dq s id t some bound (qs, [], v, e, h) =
    let full : leb 32 (length s) ≡ true =
      ground (arith, v.whole, length-sleepers dq.buffer 0 qs, ap (λ (s : Sleepers). length s) e) in
    inl (rw full refl, push-full dq id t qs v)
push-Holds dq s id t some bound (qs, f ∷ fs, v, e, h) =
    let room : leb 32 (length s) ≡ false =
      ground (arith, v.whole, length-sleepers dq.buffer 0 qs, ap (λ (s : Sleepers). length s) e) in
    let (dq', e', qs', v', e'') = push-Pushed dq id t qs f fs bound v in
    inr (dq', rw room refl, e', (qs', fs, v', e'' ∙ ap (put id t) e, soonest-put id t s some h))

tick-Holds :
    (dq : DelayQueue) (s : Sleepers)
    → Holds dq s
    → (dq' : DelayQueue) × (tick dq ≡ done (due (lapse s), dq')) × Holds dq' (waiting (lapse s))
unfolding Holds Woken
tick-Holds dq s (qs, fs, v, e, h) =
    let (dq', e', qs', fs', v', e'') = tick-Woken dq qs fs v (rw e h) in
    (
      dq',
      e' ∙ ap (λ (s : Sleepers). done (due (lapse s), dq')) e,
      (qs', fs', v', e'' ∙ ap (λ (s : Sleepers). waiting (lapse s)) e, soonest-waiting (lapse s)),
    )

-- The server keeps what is promised.
pub record Keeps (s : Server) (a : Service) : Type 0 where
  pub time : s.absolute_time ≡ a.time
  pub short : Holds s.dqueue a.short
  pub long : Holds s.dqueue_lo_res a.long

-- A request to sleep is for at least a tick, and not for a negative number of them.
abbrev pub Proper : Request → Type 0
Proper r =
    (r.message.type ≡ 7) ⊎ (r.message.type ≡ 26) → (1 ≤ r.message.body) × (r.message.body < 2 ^ 31)

abbrev pub AllProper : List Request → Type 0
AllProper [] = Unit
AllProper (r ∷ rs) = Proper r × AllProper rs

-- How the server and the promise end.
Agree : ℕ → Outcome (List Reply × Server) → Outcome (List Reply × Service) → Type 0
Agree body o p =
    ((o ≡ halt) × (p ≡ halt))
    ⊎ ((out : List Reply) × (s : Server) × (a : Service) × (o ≡ done (out, s))
        × (p ≡ done (out, a))
        × Keeps s a
        × (s.response_body ≡ body))

-- One request.
serve-Agree :
    (s : Server) (a : Service) (r : Request)
    → Keeps s a
    → Proper r
    → Agree s.response_body (serve s r) (promise s.response_body a r)
unfolding Agree serve promise
serve-Agree s a r k ok =
    let t = r.message.type in
    elim (Bool-cases (t == 7)) [
      | inl e ↦
          let (some, bound) = ok (ground (arith, e)) in
          elim (push-Holds s.dqueue a.short r.sender r.message.body some bound k.short) [
            | inl (h, h') ↦ rw (e, h, h') (inl (refl, refl))
            | inr (q, h, h', k') ↦
                rw (e, h, h')
                  (inr (
                    [],
                    record s { dqueue = q },
                    _,
                    refl,
                    refl,
                    record { time = k.time; short = k'; long = k.long },
                    refl,
                  ))
          ]
      | inr n₁ ↦ elim (Bool-cases (t == 26)) [
        | inl e ↦
            let (some, bound) = ok (ground (arith, e)) in
            elim (push-Holds s.dqueue_lo_res a.long r.sender r.message.body some bound k.long) [
              | inl (h, h') ↦ rw (n₁, e, h, h') (inl (refl, refl))
              | inr (q, h, h', k') ↦
                  rw (n₁, e, h, h')
                    (inr (
                      [],
                      record s { dqueue_lo_res = q },
                      _,
                      refl,
                      refl,
                      record { time = k.time; short = k.short; long = k' },
                      refl,
                    ))
            ]
        | inr n₂ ↦ elim (Bool-cases (t == 11)) [
          | inl e ↦
              rw (n₁, n₂, e)
                (inr (
                  _,
                  s,
                  a,
                  refl,
                  ap (λ n. done (reply r.sender (envelope 9 n) ∷ [], a)) (sym k.time),
                  k,
                  refl,
                ))
          | inr n₃ ↦ elim (Bool-cases (t == 8)) [
            | inl e ↦
                let (q, h, k') = tick-Holds s.dqueue a.short k.short in
                rw (n₁, n₂, n₃, e, h)
                  (inr (
                    _,
                    record s { absolute_time = add32 s.absolute_time 1; dqueue = q },
                    _,
                    refl,
                    refl,
                    record { time = ap (λ n. add32 n 1) k.time; short = k'; long = k.long },
                    refl,
                  ))
            | inr n₄ ↦ elim (Bool-cases (t == 25)) [
              | inl e ↦
                  let (q, h, k') = tick-Holds s.dqueue_lo_res a.long k.long in
                  rw (n₁, n₂, n₃, n₄, e, h)
                    (inr (
                      _,
                      record s { dqueue_lo_res = q },
                      _,
                      refl,
                      refl,
                      record { time = k.time; short = k.short; long = k' },
                      refl,
                    ))
              | inr n₅ ↦ rw (n₁, n₂, n₃, n₄, n₅) (inr (_, s, a, refl, refl, k, refl))
            ]
          ]
        ]
      ]
    ]

run-Keeps :
    (s : Server) (a : Service) (rs : List Request)
    → Keeps s a
    → AllProper rs
    → run s rs ≡ promises s.response_body a rs
unfolding run promises Agree
run-Keeps s a [] k ok = refl
run-Keeps s a (r ∷ rs) k (ok, oks) = elim (serve-Agree s a r k ok) [
  | inl (h, h') ↦ rw (h, h') refl
  | inr (out, s', a', h, h', k', same) ↦
      rw (h, h')
        (ap (λ (o : Outcome (List (List Reply))). o >>= λ outs. done (out ∷ outs))
          (run-Keeps s' a' rs k' oks ∙ ap (λ body. promises body a' rs) same))
]

-- A server as its loop finds it: the time is 0 and the queues are set up.
abbrev pub started : DelayQueue → DelayQueue → ℕ → Server
started dq lo body = record {
  absolute_time = 0;
  dqueue = init dq;
  dqueue_lo_res = init lo;
  response_body = body;
}

-- The clock server, whatever its queues hold when it starts, gives to any sequence of proper requests
-- the replies of the service that keeps two sorted lists of sleepers, wakes those whose ticks are
-- over in order, and stops only where a 33rd would sleep on one list.
pub run-promises :
    (dq lo : DelayQueue) (body : ℕ) (rs : List Request)
    → length dq.buffer ≡ 32
    → length lo.buffer ≡ 32
    → AllProper rs
    → run (started dq lo body) rs ≡ promises body (record { time = 0; short = []; long = [] }) rs
run-promises dq lo body rs size size' ok =
    run-Keeps (started dq lo body) (record { time = 0; short = []; long = [] }) rs
      (record { time = refl; short = init-Holds dq size; long = init-Holds lo size' }) ok
