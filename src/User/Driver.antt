-- ===== src/User/Driver.antt =====
-- user/servers/TrainDriver.c: the commands for the trains wait in a queue for the output notifier,
-- beside a queue of the tasks that gave them and one of the types of their messages.
--
-- A command is a word of two bytes, `body << 8 | type`, where the shifted byte and the type have no
-- bit in common: it is their sum.
pub mod Jobs
pub mod Serve
pub mod Take
pub mod Order
mod Tests
use burrit_osprivate.Prelude.{
  ℕ, ◌+◌, ◌*◌, ◌/◌, ◌%◌, Bool, not, ◌||◌, List, [], ◌∷◌, ◌==◌, leb, if◌then◌else◌, set,
}
use burrit_osprivate.Prelude.Word.{to_u8, to_u16}
use burrit_osprivate.Prelude.Result.{Result, ok, err}
use burrit_osprivate.Prelude.Outcome.{Outcome, done, halt, ◌>>=◌, ◌>>◌, assert, assert_ok}
use burrit_osprivate.Kernel.Data.{MessageEnvelope}
use burrit_osprivate.Queue
use burrit_osprivate.Queue.{Queue}
use burrit_osprivate.User.Messages.{
  envelope, body_u8, body_u16, set_u8, set_u16, Reply, reply, Request,
}

-- The variables of `TrainDriver`, with the address of the array `sensorBuffer`. `command` is
-- `commandMsg`.
pub record Driver : Type 0 where
  pub output : ℕ
  pub commands : Queue
  pub tasks : Queue
  pub types : Queue
  pub waiting : ℕ
  pub command : MessageEnvelope
  pub sensor_request : ℕ
  pub sensors : List ℕ
  pub sensors_at : ℕ
  pub received : ℕ

-- `getTrainDriverMessageType`: DRIVER_MESSAGE_TX_TRAIN_MULTI_BYTE (21) or DRIVER_MESSAGE_TX_TRAIN
-- (20), by the low byte.
unfoldable pub driver_type : ℕ → Outcome ℕ
driver_type word =
    let low = word % 256 in
    if leb low 15
    then done 21
    else if low == 33 || low == 34 || low == 22 || low == 23
    then done 21
    else if low == 133 || low == 128 || low == 192 || low == 96 || low == 97 || low == 32
    then done 20
    else halt

-- The types of the messages that are commands.
unfoldable pub is_command : ℕ → Bool
is_command t =
    t == 128
    || t == 192
    || t == 133
    || t == 23
    || t == 22
    || t == 33
    || t == 34
    || t == 96
    || t == 97
    || t == 32

-- MESSAGE_TRAIN_SET_SPEED (22) and MESSAGE_TRAIN_REVERSE (23) hold the two bytes of the command.
unfoldable pub prime : MessageEnvelope → MessageEnvelope
prime m =
    if m.type == 22 || m.type == 23
    then record (set_u8 m (body_u16 m / 256)) { type = body_u16 m % 256 }
    else m

-- The command of a message.
unfoldable pub full_command : MessageEnvelope → ℕ
full_command m = body_u8 m * 256 + m.type

-- A request for the sensors, MESSAGE_TRAIN_GET_SENSOR_ABCDE (133).
unfoldable pub begin_sensors : Driver → ℕ → ℕ → Outcome Driver
begin_sensors d from type =
    if type == 133
    then (assert (d.sensor_request == 0) >> done (record d { sensor_request = from; received = 0 }))
    else done d

-- A message for the output notifier with a command.
abbrev pub with_command : MessageEnvelope → ℕ → ℕ → MessageEnvelope
with_command m word type = record (set_u16 m word) { type = type }

-- The output notifier waits for a command, and this is one.
unfoldable pub send_now : Driver → ℕ → ℕ → MessageEnvelope → ℕ → Outcome (List Reply × Driver)
send_now d from type m word = do
  kind ← driver_type word
  let c = with_command d.command word kind
  let own = if type == 133 then [] else reply from m ∷ []
  done (reply d.output c ∷ own, record d { command = c; waiting = 0 })

-- It does not, and the command is stored.
unfoldable pub keep : Driver → ℕ → ℕ → ℕ → Outcome (List Reply × Driver)
keep d from type word = do
  c ← assert_ok (Queue.push_u16 d.commands word)
  t ← assert_ok (Queue.push_u16 d.tasks from)
  k ← assert_ok (Queue.push_u8 d.types type)
  done ([], record d { commands = c; tasks = t; types = k })

-- A command comes.
unfoldable pub take : Driver → ℕ → MessageEnvelope → Outcome (List Reply × Driver)
take d from m = do
  d' ← begin_sensors d from m.type
  let m' = prime m
  let word = full_command m'
  if d'.waiting == 0 then keep d' from m.type word else send_now d' from m.type m' word

-- The task whose command leaves is answered, but for a request of the sensors.
abbrev pub answer : Driver → ℕ → ℕ → Outcome (List Reply)
answer d id type =
    if type == 133
    then (assert (id == d.sensor_request) >> done [])
    else done (reply id (envelope type 0) ∷ [])

-- The output notifier asks, from what the pop of a command returned.
unfoldable pub dispatch : Driver → Result (ℕ × Queue) → Outcome (List Reply × Driver)
dispatch d (err e) = done ([], record d { waiting = 1 })
dispatch d (ok (word, q)) = do
  kind ← driver_type word
  let c = with_command d.command word kind
  (id, t) ← assert_ok (Queue.pop d.tasks)
  (type, k) ← assert_ok (Queue.pop_u8 d.types)
  own ← answer d id type
  done (reply d.output c ∷ own, record d { commands = q; tasks = t; types = k; command = c })

-- A word of the sensors comes, DRIVER_MESSAGE_RCV_SENSORS (19). Only the first five are read after a
-- request.
unfoldable pub sense : Driver → ℕ → MessageEnvelope → List Reply × Driver
sense d from m =
    let read = set d.sensors d.received (body_u16 m) in
    let count = to_u8 (d.received + 1) in
    let ready = reply d.sensor_request (record m { body = d.sensors_at }) in
    let all : List Reply × Driver = (
      reply from m ∷ ready ∷ [],
      record d { sensors = read; received = count; sensor_request = 0 },
    ) in
    let more : List Reply × Driver =
      (reply from m ∷ [], record d { sensors = read; received = count }) in
    if d.sensor_request == 0 then (reply from m ∷ [], d) else if count == 5 then all else more

-- One round of the server.
unfoldable pub serve : Driver → Request → Outcome (List Reply × Driver)
serve d r =
    let m = r.message in
    if is_command m.type
    then take d r.sender m
    else if m.type == 20 || m.type == 21
    then dispatch d (Queue.pop d.commands)
    else if m.type == 19
    then done (sense d r.sender m)
    else halt

-- The server on the messages that it receives.
unfoldable pub run : Driver → List Request → Outcome (List (List Reply) × Driver)
run d [] = done ([], d)
run d (r ∷ rs) = do (out, d') ← serve d r; (outs, d'') ← run d' rs; done (out ∷ outs, d'')

-- What `TrainOutputNotifier` writes to the trains for a reply.
unfoldable pub written : MessageEnvelope → List ℕ
written m =
    let low = body_u16 m % 256 in if m.type == 21 then low ∷ body_u16 m / 256 ∷ [] else low ∷ []

-- The word that `TrainInputNotifier` sends for two bytes that it read.
unfoldable pub sensor_word : ℕ → ℕ → ℕ
sensor_word first second = to_u16 (first * 256) + second
