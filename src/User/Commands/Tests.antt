-- ===== src/User/Commands/Tests.antt =====
-- Typed commands, and a speed for train 58.
use burrit_osprivate.Prelude.{◌≡◌, refl, none, some, [], ◌∷◌, arith, replicate}
use burrit_osprivate.Prelude.Outcome.{done}
use burrit_osprivate.Kernel.Data.{MessageEnvelope}
use burrit_osprivate.Queue.{Queue}
use burrit_osprivate.String.{stratoui, strskipws, strtolower}
use burrit_osprivate.User.Messages.{envelope, reply}
use burrit_osprivate.User.Commander.{begins}
use burrit_osprivate.User.Driver.{Driver, serve, written}
use burrit_osprivate.User.Commands.{
  turn, request, direction, switch_now, switch_later, dispatch_system_command, train_set_speed,
}
use burrit_osprivate.User.Commands.Speed.{set_speed-written}

-- "SW 5 c"
turned :
    dispatch_system_command 1000 (b'S' ∷ b'W' ∷ 32 ∷ b'5' ∷ 32 ∷ b'c' ∷ [])
    ≡ some (
        turn (record {
          start_time = 1010;
          end_time = 1310;
          ind_branch_node = 88;
          branch_id = 5;
          direction = 34;
        }))
unfolding dispatch_system_command switch_now request direction begins stratoui strskipws strtolower
turned = refl

-- "sd 5 s 2"
turned_later :
    dispatch_system_command 1000 (b's' ∷ b'd' ∷ 32 ∷ b'5' ∷ 32 ∷ b's' ∷ 32 ∷ b'2' ∷ [])
    ≡ some (
        turn (record {
          start_time = 1200;
          end_time = 1500;
          ind_branch_node = 88;
          branch_id = 5;
          direction = 33;
        }))
unfolding dispatch_system_command switch_later request direction begins stratoui strskipws
    strtolower
turned_later = refl

one_letter : dispatch_system_command 1000 (b's' ∷ []) ≡ none
unfolding dispatch_system_command strtolower
one_letter = refl

abbrev no_commands : Queue
no_commands = record { buf = replicate 16 0; head = 0; tail = 0; count = 0; length = 16 }

abbrev waits : Driver
waits = record {
  output = 4;
  commands = no_commands;
  tasks = no_commands;
  types = no_commands;
  waiting = 1;
  command = envelope 0 0;
  sensor_request = 0;
  sensors = replicate 5 0;
  sensors_at = 1000;
  received = 0;
}

set_speed-written_example :
    (m : MessageEnvelope) × (c : MessageEnvelope) × (answer : MessageEnvelope) × (train_set_speed 0
        58 10
      ≡ done m)
    × (serve waits (record { sender = 9; message = m })
        ≡ done (reply 4 c ∷ reply 9 answer ∷ [], record waits { command = c; waiting = 0 }))
    × (written c ≡ 10 ∷ 58 ∷ [])
set_speed-written_example =
    set_speed-written waits 9 0 58 10 (omega arith) (omega arith) (omega arith) (omega arith)
