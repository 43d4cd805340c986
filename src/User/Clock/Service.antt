-- ===== src/User/Clock/Service.antt =====
-- What the clock server promises: two lists of those who sleep, and the time.
use burrit_osprivate.Prelude.{ℕ, List, [], ◌∷◌, ◌==◌, leb, if◌then◌else◌, length}
use burrit_osprivate.Prelude.Word.{add32}
use burrit_osprivate.Prelude.Outcome.{Outcome, done, halt, ◌>>=◌}
use burrit_osprivate.User.Messages.{envelope, Reply, reply, Request}
use burrit_osprivate.User.Clock.{wake_ups}
use burrit_osprivate.User.Clock.Sleepers.{Sleepers, put, lapse, due, waiting}

pub record Service : Type 0 where
  pub time : ℕ
  pub short : Sleepers
  pub long : Sleepers

-- One more sleeps, unless 32 do.
abbrev pub sleep : ℕ → ℕ → Sleepers → Outcome Sleepers
sleep id ticks s = if leb 32 (length s) then halt else done (put id ticks s)

unfoldable pub promise : ℕ → Service → Request → Outcome (List Reply × Service)
promise body s r =
    let m = r.message in
    let short = lapse s.short in
    let long = lapse s.long in
    if m.type == 7
    then (sleep r.sender m.body s.short >>= λ q. done ([], record s { short = q }))
    else if m.type == 26
    then (sleep r.sender m.body s.long >>= λ q. done ([], record s { long = q }))
    else if m.type == 11
    then done (reply r.sender (envelope 9 s.time) ∷ [], s)
    else if m.type == 8
    then done (
      reply r.sender m ∷ wake_ups body (due short),
      record s { time = add32 s.time 1; short = waiting short },
    )
    else if m.type == 25
    then done (reply r.sender m ∷ wake_ups body (due long), record s { long = waiting long })
    else done ([], s)

-- The replies to each of a sequence of requests.
unfoldable pub promises : ℕ → Service → List Request → Outcome (List (List Reply))
promises body s [] = done []
promises body s (r ∷ rs) =
    promise body s r >>= λ (out, s'). promises body s' rs >>= λ outs. done (out ∷ outs)
