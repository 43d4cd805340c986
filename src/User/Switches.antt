-- ===== src/User/Switches.antt =====
-- user/servers/TrainSwitchServer.c: the commands for switches wait in a queue for the courier, which
-- carries them to the train driver and, when none is left, an order to turn the solenoid off.
--
-- A command is a word: `type << 8 | body`, where the low byte of the first is 0, is their sum.
pub mod Order
pub mod Serve
mod Tests
use burrit_osprivate.Prelude.{ℕ, ◌+◌, ◌*◌, ◌/◌, ◌%◌, Bool, ◌||◌, List, [], ◌∷◌, ◌==◌, if◌then◌else◌}
use burrit_osprivate.Prelude.Word.{to_u8}
use burrit_osprivate.Prelude.Result.{Result, ok, err}
use burrit_osprivate.Prelude.Outcome.{Outcome, done, halt, ◌>>=◌, assert_ok}
use burrit_osprivate.Kernel.Data.{MessageEnvelope}
use burrit_osprivate.Queue
use burrit_osprivate.Queue.{Queue}
use burrit_osprivate.User.Messages.{body_u8, set_u8, Reply, reply, Request}

-- The variables of `TrainSwitchServer`.
pub record Server : Type 0 where
  pub courier : ℕ
  pub messages : Queue
  pub courier_waiting : ℕ
  pub turning_off : ℕ

-- What the courier is sent for a command.
abbrev pub ordered : MessageEnvelope → ℕ → MessageEnvelope
ordered m command = record (set_u8 m (command % 256)) { type = to_u8 (command / 256) }

-- The courier asks, from what the pop returned. The type of the order to turn off is
-- MESSAGE_TRAIN_SOLENOID_OFF (32).
abbrev pub dispatch : Server → ℕ → MessageEnvelope → Result (ℕ × Queue) → List Reply × Server
dispatch s from m (ok (command, q)) = (
  reply from (ordered m command) ∷ [],
  record s { messages = q; courier_waiting = 0; turning_off = 0 },
)
dispatch s from m (err e) =
    let waits = record s { courier_waiting = 1; turning_off = 0 } in
    let stops = record s { courier_waiting = 0; turning_off = 1 } in
    if s.turning_off == 0 then (reply from (record m { type = 32 }) ∷ [], stops) else ([], waits)

-- A command comes.
unfoldable pub command : Server → ℕ → MessageEnvelope → Outcome (List Reply × Server)
command s from m =
    let word = m.type * 256 + body_u8 m in
    if s.courier_waiting == 0
    then (assert_ok (Queue.push_u16 s.messages word) >>= λ q.
        done (reply from m ∷ [], record s { messages = q }))
    else done (reply s.courier m ∷ reply from m ∷ [], record s { courier_waiting = 0 })

-- One round. The types are MESSAGE_COURIER (17), MESSAGE_TRAIN_SWITCH_STRAIGHT (33) and
-- MESSAGE_TRAIN_SWITCH_CURVED (34).
unfoldable pub serve : Server → Request → Outcome (List Reply × Server)
serve s r =
    let m = r.message in
    if m.type == 17
    then done (dispatch s r.sender m (Queue.pop s.messages))
    else if m.type == 33 || m.type == 34
    then command s r.sender m
    else done ([], s)

-- The server on the messages that it receives.
unfoldable pub run : Server → List Request → Outcome (List (List Reply) × Server)
run s [] = done ([], s)
run s (r ∷ rs) = do (out, s') ← serve s r; (outs, s'') ← run s' rs; done (out ∷ outs, s'')
