-- ===== src/User/Clock/Wakes.antt =====
-- When the clock server of user/servers/ClockServer.c wakes a task that sleeps.
use burrit_osprivate.Prelude.{
  ℕ, suc, ◌+◌, ◌≡◌, refl, sym, ap, subst, ◌∙◌, false, ◌&&◌, ◌||◌, List, [], ◌∷◌, ◌==◌, leb,
  if◌then◌else◌, arith, length, Bool-cases, if-true, if-false, Bool, inl, inr, ◌⊎◌,
}
use burrit_osprivate.Prelude.Count.{count}
use burrit_osprivate.Prelude.Outcome.{done, halt, >>=-eq_done, done-injective}
use burrit_osprivate.User.Messages.{Reply, Request}
use burrit_osprivate.User.Clock.{DelayQueue, wake_ups}
use burrit_osprivate.User.Clock.Sleepers.{Sleepers, put, lapse, due, waiting}
use burrit_osprivate.User.Clock.Service.{Service, sleep, promise, promises}
use burrit_osprivate.User.Clock.Run.{run, started, AllProper, Proper, run-promises}

-- How many replies go to a task.
abbrev pub to_task : ℕ → List Reply → ℕ
to_task id [] = 0
to_task id (r ∷ rs) = (if r.to == id then 1 else 0) + to_task id rs

abbrev pub replies_to : ℕ → List (List Reply) → ℕ
replies_to id [] = 0
replies_to id (out ∷ outs) = to_task id out + replies_to id outs

-- How many messages of a type there are: ticks are of type 8, or 25 for the long delays.
abbrev pub of_type : ℕ → List Request → ℕ
of_type k [] = 0
of_type k (r ∷ rs) = (if r.message.type == k then 1 else 0) + of_type k rs

-- Whether a request is that of the task, of a type, for no more ticks than follow.
abbrev pub elapsed : ℕ → ℕ → ℕ → Request → List Request → Bool
elapsed id kind tick r rs =
    r.sender == id && r.message.type == kind && leb r.message.body (of_type tick rs)

-- How many of the requests of a task to sleep have their time over by the end.
abbrev pub owed : ℕ → List Request → ℕ
owed id [] = 0
owed id (r ∷ rs) = (if elapsed id 7 8 r rs || elapsed id 26 25 r rs then 1 else 0) + owed id rs

-- A task that asks the server for nothing but to sleep.
abbrev pub OnlySleeps : ℕ → List Request → Type 0
OnlySleeps id [] = Unit
OnlySleeps id (r ∷ rs) =
    (r.sender ≡ id → (r.message.type ≡ 7) ⊎ (r.message.type ≡ 26)) × OnlySleeps id rs

-- How many sleeps of a task end in a number of ticks.
abbrev within : ℕ → ℕ → Sleepers → ℕ
within id n [] = 0
within id n ((i, u) ∷ s) = (if i == id && leb u n then 1 else 0) + within id n s

within-put :
    (id n i t : ℕ) (s : Sleepers)
    → within id n (put i t s) ≡ (if i == id && leb t n then 1 else 0) + within id n s
within-put id n i t [] = refl
within-put id n i t ((j, u) ∷ s) = ground (arith, within-put id n i t s)

within-lapse :
    (id n : ℕ) (s : Sleepers)
    → within id (suc n) s ≡ count id (due (lapse s)) + within id n (waiting (lapse s))
within-lapse id n [] = omega arith
within-lapse id n ((j, u) ∷ s) = ground (arith, within-lapse id n s)

within-waiting : (id : ℕ) (s : Sleepers) → within id 0 (waiting s) ≡ 0
within-waiting id [] = refl
within-waiting id ((j, u) ∷ s) = ground (arith, within-waiting id s)

to_task-wake_ups : (id body : ℕ) (ids : List ℕ) → to_task id (wake_ups body ids) ≡ count id ids
to_task-wake_ups id body [] = refl
to_task-wake_ups id body (i ∷ ids) = omega (arith, to_task-wake_ups id body ids)

-- What is owed to a task that sleeps already.
abbrev pending : ℕ → Service → List Request → ℕ
pending id a rs = within id (of_type 8 rs) a.short + within id (of_type 25 rs) a.long

-- A service in which nobody's time is over.
record Waits (id : ℕ) (a : Service) : Type 0 where
  short : within id 0 a.short ≡ 0
  long : within id 0 a.long ≡ 0

halt_ne_done : {A : Type 0} {a : A} → halt ≡ done a → ⊥
halt_ne_done e = cc

sleep-within :
    (id i t : ℕ) (s : Sleepers) {s' : Sleepers}
    → sleep i t s ≡ done s'
    → (n : ℕ) → within id n s' ≡ (if i == id && leb t n then 1 else 0) + within id n s
sleep-within id i t s {s'} e n = elim (Bool-cases (leb 32 (length s))) [
  | inl full ↦ absurd (halt_ne_done (if-true (leb 32 (length s)) _ _ full e))
  | inr room ↦
      ap (within id n) (sym (done-injective (if-false (leb 32 (length s)) _ _ room e)))
      ∙ within-put id n i t s
]

-- What one request changes.
Step : ℕ → Service → Request → List Request → List Reply × Service → Type 0
Step id a r rs (out, a') =
    (pending id a (r ∷ rs) + (if elapsed id 7 8 r rs || elapsed id 26 25 r rs then 1 else 0)
      ≡ to_task id out + pending id a' rs)
    × Waits id a'

step :
    (id body : ℕ) (a : Service) (r : Request) (rs : List Request) {o : List Reply × Service}
    → Waits id a
    → Proper r
    → (r.sender ≡ id → (r.message.type ≡ 7) ⊎ (r.message.type ≡ 26))
    → promise body a r ≡ done o
    → Step id a r rs o
unfolding promise Step
step id body a r rs {o} w ok only e =
    let t = r.message.type in
    elim (Bool-cases (t == 7)) [
      | inl c ↦
          let (q, e₁, e₂) =
            >>=-eq_done (sleep r.sender r.message.body a.short) _ (if-true (t == 7) _ _ c e) in
          let all = sleep-within id r.sender r.message.body a.short e₁ in
          let (some, bound) = ok (ground (arith, c)) in
          subst (Step id a r rs) (done-injective e₂) (
            ground (arith, all (of_type 8 rs)),
            record { short = ground (arith, all 0, w.short); long = w.long },
          )
      | inr n₁ ↦
          let e = if-false (t == 7) _ _ n₁ e in
          elim (Bool-cases (t == 26)) [
            | inl c ↦
                let (q, e₁, e₂) =
                  >>=-eq_done (sleep r.sender r.message.body a.long) _
                    (if-true (t == 26) _ _ c e) in
                let all = sleep-within id r.sender r.message.body a.long e₁ in
                let (some, bound) = ok (ground (arith, c)) in
                subst (Step id a r rs) (done-injective e₂) (
                  ground (arith, all (of_type 25 rs)),
                  record { short = w.short; long = ground (arith, all 0, w.long) },
                )
            | inr n₂ ↦
                let e = if-false (t == 26) _ _ n₂ e in
                let other : (r.sender == id) ≡ false = ground (arith, only) in
                elim (Bool-cases (t == 11)) [
                  | inl c ↦
                      subst (Step id a r rs) (done-injective (if-true (t == 11) _ _ c e))
                        (ground arith, w)
                  | inr n₃ ↦
                      let e = if-false (t == 11) _ _ n₃ e in
                      elim (Bool-cases (t == 8)) [
                        | inl c ↦
                            subst (Step id a r rs) (done-injective (if-true (t == 8) _ _ c e)) (
                              ground (
                                arith,
                                within-lapse id (of_type 8 rs) a.short,
                                to_task-wake_ups id body (due (lapse a.short)),
                              ),
                              record { short = within-waiting id (lapse a.short); long = w.long },
                            )
                        | inr n₄ ↦
                            let e = if-false (t == 8) _ _ n₄ e in
                            elim (Bool-cases (t == 25)) [
                              | inl c ↦
                                  subst (Step id a r rs)
                                    (done-injective (if-true (t == 25) _ _ c e))
                                    (
                                      ground (
                                        arith,
                                        within-lapse id (of_type 25 rs) a.long,
                                        to_task-wake_ups id body (due (lapse a.long)),
                                      ),
                                      record {
                                        short = w.short;
                                        long = within-waiting id (lapse a.long);
                                      },
                                    )
                              | inr n₅ ↦
                                  subst (Step id a r rs)
                                    (done-injective (if-false (t == 25) _ _ n₅ e)) (ground arith, w)
                            ]
                      ]
                ]
          ]
    ]

promises-owed :
    (id body : ℕ) (a : Service) (rs : List Request) {outs : List (List Reply)}
    → Waits id a
    → AllProper rs
    → OnlySleeps id rs
    → promises body a rs ≡ done outs
    → replies_to id outs ≡ pending id a rs + owed id rs
unfolding promises Step
promises-owed id body a [] {outs} w ok only e =
    ap (replies_to id) (sym (done-injective e)) ∙ omega (arith, w.short, w.long)
promises-owed id body a (r ∷ rs) {outs} w (ok, oks) (only, onlys) e =
    let ((out, a'), e₁, e₂) = >>=-eq_done (promise body a r) _ e in
    let (rest, e₃, e₄) = >>=-eq_done (promises body a' rs) _ e₂ in
    let (now, w') = step id body a r rs w ok only e₁ in
    let later = promises-owed id body a' rs w' oks onlys e₃ in
    ap (replies_to id) (sym (done-injective e₄)) ∙ omega (arith, now, later)

-- A task that only asks to sleep gets as many replies from the clock server, after any sequence of
-- proper requests that the server gets through, as it made requests to sleep for no more ticks than
-- have come since. So each is answered once, at the last of its ticks, and not before.
pub run-owed :
    (dq lo : DelayQueue) (body id : ℕ) (rs : List Request) (outs : List (List Reply))
    → length dq.buffer ≡ 32
    → length lo.buffer ≡ 32
    → AllProper rs
    → OnlySleeps id rs
    → run (started dq lo body) rs ≡ done outs
    → replies_to id outs ≡ owed id rs
run-owed dq lo body id rs outs size size' ok only e =
    promises-owed id body (record { time = 0; short = []; long = [] }) rs
      (record { short = refl; long = refl }) ok only
      (sym (run-promises dq lo body rs size size' ok) ∙ e)
    ∙ omega arith
