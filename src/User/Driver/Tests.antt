-- ===== src/User/Driver/Tests.antt =====
-- The driver with two commands.
use burrit_osprivate.Prelude.{
  ℕ, false, ◌≡◌, ◌⊎◌, refl, true, List, [], ◌∷◌, ◌++◌, ◌==◌, ◌||◌, ◌+◌, ◌*◌, arith, replicate,
}
use burrit_osprivate.Prelude.Result.{ok}
use burrit_osprivate.Prelude.Outcome.{done, halt}
use burrit_osprivate.Queue
use burrit_osprivate.Queue.{Queue, is_pow_2}
use burrit_osprivate.Queue.Steps.{init-Holds}
use burrit_osprivate.User.Messages.{envelope, Reply, Request}
use burrit_osprivate.User.Driver.{
  Driver, driver_type, is_command, prime, full_command, run, written,
}
use burrit_osprivate.User.Driver.Jobs.{
  Job, words, callers, sent_all, answered_all, given_all, any_sensors, Valid, Proper,
}
use burrit_osprivate.User.Driver.Order.{run-orderly}

abbrev empty : Queue
empty = record { buf = replicate 16 0; head = 0; tail = 0; count = 0; length = 16 }

init_ok : Queue.init (replicate 16 0) 16 ≡ ok empty
unfolding Queue.init is_pow_2
init_ok = refl

abbrev driver : Driver
driver = record {
  output = 4;
  commands = empty;
  tasks = empty;
  types = empty;
  waiting = 0;
  command = envelope 0 0;
  sensor_request = 0;
  sensors = replicate 5 0;
  sensors_at = 1000;
  received = 0;
}

driver-Valid : Valid driver []
driver-Valid = record {
  holds_words = init-Holds (replicate 16 0) 16 (omega arith) (omega arith) init_ok;
  holds_tasks = init-Holds (replicate 16 0) 16 (omega arith) (omega arith) init_ok;
  holds_types = init-Holds (replicate 16 0) 16 (omega arith) (omega arith) init_ok;
  sendable = tt;
  idle = λ h. refl;
  apart = λ h. absurd (h refl);
}

abbrev from : ℕ → ℕ → ℕ → Request
from sender type body = record { sender = sender; message = envelope type body }

-- Switch 5 is curved by task 9, then train 58 is given speed 10 by task 7.
abbrev messages : List Request
messages = from 9 34 5 ∷ from 7 22 (58 * 256 + 10) ∷ from 4 20 0 ∷ from 4 21 0 ∷ from 6 19 3 ∷ []

ask-Proper : (type : ℕ) → (type == 20 || type == 21) ≡ true → Proper 4 (from 4 type 0)
unfolding is_command
ask-Proper type h = record {
  asks = λ e. h;
  notifier = λ e. refl;
  known = ground (arith, h);
  sends = let no : is_command type ≡ false = ground (arith, h) in rw no tt;
}

curve-Proper : Proper 4 (from 9 34 5)
unfolding is_command prime full_command driver_type
curve-Proper = record {
  asks = λ e. absurd (omega (arith, e));
  notifier = λ e. cc;
  known = refl;
  sends = (
    record {
      kind = 21;
      known = refl;
      word_fits = omega arith;
      task_fits = omega arith;
      type_fits = omega arith;
      not_data = omega arith;
      other = omega arith;
    },
    tt,
  );
}

speed-Proper : Proper 4 (from 7 22 (58 * 256 + 10))
unfolding is_command prime full_command driver_type
speed-Proper = record {
  asks = λ e. absurd (omega (arith, e));
  notifier = λ e. cc;
  known = refl;
  sends = (
    record {
      kind = 21;
      known = refl;
      word_fits = omega arith;
      task_fits = omega arith;
      type_fits = omega arith;
      not_data = omega arith;
      other = omega arith;
    },
    tt,
  );
}

sensor-Proper : Proper 4 (from 6 19 3)
unfolding is_command
sensor-Proper = record {
  asks = λ e. absurd (omega (arith, e));
  notifier = λ e. cc;
  known = refl;
  sends = tt;
}

first-written : written (envelope 21 (5 * 256 + 34)) ≡ 34 ∷ 5 ∷ []
unfolding written
first-written = refl

run-orderly_example :
    ((run driver messages ≡ halt) × (any_sensors ([] ++ given_all messages) ≡ true))
    ⊎ ((outs : List (List Reply)) × (d' : Driver) × (l' : List Job) × (run driver messages
          ≡ done (outs, d'))
        × Valid d' l'
        × (sent_all 4 outs ++ words l' ≡ [] ++ words (given_all messages))
        × (answered_all 4 outs ++ callers l' ≡ [] ++ callers (given_all messages)))
unfolding is_command
run-orderly_example =
    run-orderly driver [] messages driver-Valid
      (
        curve-Proper,
        (speed-Proper, (ask-Proper 20 refl, (ask-Proper 21 refl, (sensor-Proper, tt)))),
      )
      (omega arith)
