-- ===== src/User/Clock/Tests.antt =====
-- The clock server on a few requests: two tasks go to sleep, and the ticks wake them.
use burrit_osprivate.Prelude.{ℕ, ◌≡◌, inl, refl, List, [], ◌∷◌, arith, replicate}
use burrit_osprivate.Prelude.Outcome.{done}
use burrit_osprivate.User.Messages.{envelope, Reply, reply, Request}
use burrit_osprivate.User.Clock.{
  DelayQueue, unset, init, init_loop, find, link, push, wake_loop, tick, serve,
}
use burrit_osprivate.User.Clock.Service.{promises}
use burrit_osprivate.User.Clock.Run.{run, started, AllProper, run-promises}
use burrit_osprivate.User.Clock.Wakes.{replies_to, owed, OnlySleeps, run-owed}
use burrit_osprivate.User.Clock.Room.{run-done}

abbrev blank : DelayQueue
blank = record { buffer = replicate 32 unset; free_list = 0; queue = 0 }

abbrev from : ℕ → ℕ → ℕ → Request
from id type body = record { sender = id; message = envelope type body }

abbrev requests : List Request
requests = from 5 7 3 ∷ from 4 8 0 ∷ from 6 7 1 ∷ from 4 8 0 ∷ from 4 8 0 ∷ []

abbrev answers : List (List Reply)
answers =
    []
    ∷ (reply 4 (envelope 8 0) ∷ [])
    ∷ []
    ∷ (reply 4 (envelope 8 0) ∷ reply 6 (envelope 9 0) ∷ [])
    ∷ (reply 4 (envelope 8 0) ∷ reply 5 (envelope 9 0) ∷ [])
    ∷ []

requests_proper : AllProper requests
requests_proper = (
  λ h. ground arith,
  (λ h. ground arith, (λ h. ground arith, (λ h. ground arith, (λ h. ground arith, tt)))),
)

five_sleeps : OnlySleeps 5 requests
five_sleeps = (
  λ e. inl refl,
  (
    λ e. absurd (omega (arith, e)),
    (
      λ e. absurd (omega (arith, e)),
      (λ e. absurd (omega (arith, e)), (λ e. absurd (omega (arith, e)), tt)),
    ),
  ),
)

answered : run (started blank blank 0) requests ≡ done answers
unfolding run serve push find link tick wake_loop init init_loop
answered = refl

run-promises_example :
    run (started blank blank 0) requests
    ≡ promises 0 (record { time = 0; short = []; long = [] }) requests
run-promises_example = run-promises blank blank 0 requests refl refl requests_proper

run-owed_example : replies_to 5 answers ≡ owed 5 requests
run-owed_example =
    run-owed blank blank 0 5 requests answers refl refl requests_proper five_sleeps answered

run-done_example : (outs : List (List Reply)) × (run (started blank blank 0) requests ≡ done outs)
run-done_example =
    run-done blank blank 0 requests refl refl requests_proper (omega arith) (omega arith)
