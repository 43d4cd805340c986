-- ===== src/User/Clock/Room.antt =====
-- When the clock server of user/servers/ClockServer.c has a node for everyone who wants to sleep.
use burrit_osprivate.Prelude.{
  ℕ, ◌+◌, ◌≤◌, ◌≡◌, refl, ◌∙◌, false, List, [], ◌∷◌, ◌==◌, leb, arith, length, Bool-cases, inl, inr,
}
use burrit_osprivate.Prelude.Outcome.{done}
use burrit_osprivate.User.Messages.{Reply, Request}
use burrit_osprivate.User.Clock.{DelayQueue}
use burrit_osprivate.User.Clock.Sleepers.{Sleepers, lapse, waiting, length-put}
use burrit_osprivate.User.Clock.Service.{Service, promise, promises}
use burrit_osprivate.User.Clock.Run.{run, started, AllProper, run-promises}
use burrit_osprivate.User.Clock.Wakes.{of_type}

length-waiting : (s : Sleepers) → length (waiting (lapse s)) ≤ length s
length-waiting [] = omega arith
length-waiting ((i, u) ∷ s) = ground (arith, length-waiting s)

-- There are nodes for those that sleep and for those that ask to.
record Fits (a : Service) (rs : List Request) : Type 0 where
  short : length a.short + of_type 7 rs ≤ 32
  long : length a.long + of_type 26 rs ≤ 32

promise-Fits :
    (body : ℕ) (a : Service) (r : Request) (rs : List Request)
    → Fits a (r ∷ rs)
    → (out : List Reply) × (a' : Service) × (promise body a r ≡ done (out, a')) × Fits a' rs
unfolding promise
promise-Fits body a r rs f =
    let t = r.message.type in
    elim (Bool-cases (t == 7)) [
      | inl c ↦
          let room : leb 32 (length a.short) ≡ false = ground (arith, f.short) in
          rw (c, room)
            (
              _,
              _,
              refl,
              record {
                short = ground (arith, f.short, length-put r.sender r.message.body a.short);
                long = ground (arith, f.long);
              },
            )
      | inr n₁ ↦ elim (Bool-cases (t == 26)) [
        | inl c ↦
            let room : leb 32 (length a.long) ≡ false = ground (arith, f.long) in
            rw (n₁, c, room)
              (
                _,
                _,
                refl,
                record {
                  short = ground (arith, f.short);
                  long = ground (arith, f.long, length-put r.sender r.message.body a.long);
                },
              )
        | inr n₂ ↦
            let same : Fits a rs = record {
              short = ground (arith, f.short);
              long = ground (arith, f.long);
            } in
            elim (Bool-cases (t == 11)) [
              | inl c ↦ rw (n₁, n₂, c) (_, a, refl, same)
              | inr n₃ ↦ elim (Bool-cases (t == 8)) [
                | inl c ↦
                    rw (n₁, n₂, n₃, c)
                      (
                        _,
                        _,
                        refl,
                        record {
                          short = omega (arith, same.short, length-waiting a.short);
                          long = same.long;
                        },
                      )
                | inr n₄ ↦ elim (Bool-cases (t == 25)) [
                  | inl c ↦
                      rw (n₁, n₂, n₃, n₄, c)
                        (
                          _,
                          _,
                          refl,
                          record {
                            short = same.short;
                            long = omega (arith, same.long, length-waiting a.long);
                          },
                        )
                  | inr n₅ ↦ rw (n₁, n₂, n₃, n₄, n₅) (_, a, refl, same)
                ]
              ]
            ]
      ]
    ]

promises-Fits :
    (body : ℕ) (a : Service) (rs : List Request)
    → Fits a rs
    → (outs : List (List Reply)) × (promises body a rs ≡ done outs)
unfolding promises
promises-Fits body a [] f = ([], refl)
promises-Fits body a (r ∷ rs) f =
    let (out, a', e, f') = promise-Fits body a r rs f in
    let (outs, e') = promises-Fits body a' rs f' in rw (e, e') (out ∷ outs, refl)

-- The clock server gets through any sequence of proper requests with at most 32 to sleep of each
-- kind: its loops end, and its assertion holds.
pub run-done :
    (dq lo : DelayQueue) (body : ℕ) (rs : List Request)
    → length dq.buffer ≡ 32
    → length lo.buffer ≡ 32
    → AllProper rs
    → of_type 7 rs ≤ 32
    → of_type 26 rs ≤ 32
    → (outs : List (List Reply)) × (run (started dq lo body) rs ≡ done outs)
run-done dq lo body rs size size' ok some some' =
    let (outs, e) =
      promises-Fits body (record { time = 0; short = []; long = [] }) rs
        (record { short = omega (arith, some); long = omega (arith, some') }) in
    (outs, run-promises dq lo body rs size size' ok ∙ e)
