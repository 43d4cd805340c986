-- ===== src/User/Switches/Tests.antt =====
-- The server of the switches with two commands.
use burrit_osprivate.Prelude.{ℕ, ◌<◌, ◌≢◌, ◌≡◌, refl, List, [], ◌∷◌, ◌++◌, arith, replicate}
use burrit_osprivate.Prelude.Result.{ok}
use burrit_osprivate.Prelude.Outcome.{done}
use burrit_osprivate.Queue
use burrit_osprivate.Queue.{Queue, is_pow_2}
use burrit_osprivate.Queue.Steps.{init-Holds}
use burrit_osprivate.User.Messages.{envelope, Reply, Request}
use burrit_osprivate.User.Switches.{Server, run}
use burrit_osprivate.User.Switches.Order.{carried_all, given_all, Valid, Proper}
use burrit_osprivate.User.Switches.Serve.{run-carries}

abbrev commands : Queue
commands = record { buf = replicate 64 0; head = 0; tail = 0; count = 0; length = 64 }

init_ok : Queue.init (replicate 64 0) 64 ≡ ok commands
unfolding Queue.init is_pow_2
init_ok = refl

abbrev server : Server
server = record { courier = 3; messages = commands; courier_waiting = 0; turning_off = 0 }

server-Valid : Valid server []
server-Valid = record {
  holds = init-Holds (replicate 64 0) 64 (omega arith) (omega arith) init_ok;
  words = tt;
  idle = λ h. refl;
}

abbrev ask : Request
ask = record { sender = 3; message = envelope 17 0 }

abbrev turn : ℕ → ℕ → Request
turn type switch = record { sender = 9; message = envelope type switch }

-- The courier is told to turn off, then waits; the first command goes to it at once.
abbrev messages : List Request
messages = ask ∷ ask ∷ turn 33 5 ∷ turn 34 6 ∷ ask ∷ []

ask-Proper : Proper 3 ask
ask-Proper = record { byte = omega arith; asks = λ h. refl; courier = λ h. refl }

turn-Proper : (type switch : ℕ) → type < 256 → type ≢ 17 → Proper 3 (turn type switch)
turn-Proper type switch lt ne = record {
  byte = lt;
  asks = λ h. absurd (omega (arith, h));
  courier = λ h. absurd (ne h);
}

run-carries_example :
    (outs : List (List Reply)) × (s' : Server) × (l' : List ℕ) × (run server messages
      ≡ done (outs, s'))
    × Valid s' l'
    × (carried_all 3 outs ++ l' ≡ [] ++ given_all messages)
run-carries_example =
    run-carries server [] messages server-Valid
      (
        ask-Proper,
        (
          ask-Proper,
          (
            turn-Proper 33 5 (omega arith) (omega arith),
            (turn-Proper 34 6 (omega arith) (omega arith), (ask-Proper, tt)),
          ),
        ),
      )
      (omega arith)
