-- ===== src/User/Commands.antt =====
-- user/services/trainCommand.c: the commands that a user types, and the messages by which tasks
-- give commands to the trains. A message is sent in an envelope that may hold any body before.
pub mod Speed
mod Tests
use burrit_osprivate.Prelude.{
  ℕ, ◌+◌, ◌-◌, ◌*◌, ◌/◌, ◌%◌, Bool, ◌&&◌, Option, none, some, List, [], ◌∷◌, ◌==◌, leb, ltb,
  if◌then◌else◌, get_or,
}
use burrit_osprivate.Prelude.Word.{to_u8, to_u16, add32, mul32, u16_mod, u32_mod}
use burrit_osprivate.Prelude.Outcome.{Outcome, done, halt, ◌>>◌, assert}
use burrit_osprivate.Kernel.Data.{MessageEnvelope}
use burrit_osprivate.String.{stratoui, strskipws, strtolower, strlen}
use burrit_osprivate.User.Messages.{envelope, set_u8, set_u16}
use burrit_osprivate.User.Commander.{begins, number, tail}

-- SwitchRequest of user/trainservers/trainservices.h.
pub record SwitchRequest : Type 0 where
  pub start_time : ℕ
  pub end_time : ℕ
  pub ind_branch_node : ℕ
  pub branch_id : ℕ
  pub direction : ℕ

-- What `dispatchSystemCommand` sends: a request to the office of the switches, or the text, in lower
-- case, to the commander of the trains.
pub data Order : Type 0 where
  turn : SwitchRequest → Order
  push : List ℕ → Order

-- The direction that the next letter stands for, eStraight (33) or eCurved (34).
unfoldable pub direction : ℕ → Option ℕ
direction letter = if letter == b'c' then some 34 else if letter == b's' then some 33 else none

-- A request for a branch from a time on.
unfoldable pub request : ℕ → ℕ → ℕ → SwitchRequest
request start branch way = record {
  start_time = start;
  end_time = add32 start 300;
  ind_branch_node = (79 + 2 * branch + u16_mod - 1) % u16_mod;
  branch_id = branch;
  direction = way;
}

abbrev pub ordered : ℕ → ℕ → Option ℕ → Option Order
ordered start branch none = none
ordered start branch (some way) = some (turn (request start branch way))

-- "sw", behind the two letters, at the time `now`.
unfoldable pub switch_now : ℕ → List ℕ → Option Order
switch_now now s =
    let (branch, r) = number s in
    ordered (add32 now 10) (to_u8 branch) (direction (get_or (strskipws r) 0 0))

-- "sd": the seconds stand behind the letter.
unfoldable pub switch_later : ℕ → List ℕ → Option Order
switch_later now s =
    let (branch, r) = number s in
    let letter = strskipws r in
    let seconds = (number (tail letter)).0 in
    ordered (add32 now (mul32 seconds 100)) (to_u8 branch) (direction (get_or letter 0 0))

-- `dispatchSystemCommand`, where the clock tells `now`: the order, or `none` where it returns -1.
unfoldable pub dispatch_system_command : ℕ → List ℕ → Option Order
dispatch_system_command now string =
    let s = strtolower string in
    let r = tail (tail s) in
    if leb (strlen string) 1
    then none
    else if begins b's' b'w' s
    then switch_now now r
    else if begins b's' b'd' s
    then switch_later now r
    else some (push s)

-- What it returns, an S32 as a word, where `pushed` is what `pushTrainCommand` returns.
abbrev pub returned : ℕ → Option Order → ℕ
returned pushed none = u32_mod - 1
returned pushed (some (turn r)) = 0
returned pushed (some (push s)) = if leb 2147483648 pushed then u32_mod - 1 else 0

-- The messages, in an envelope that holds `body`.
abbrev pub train_stop : ℕ → MessageEnvelope
train_stop body = envelope 97 body

abbrev pub train_go : ℕ → MessageEnvelope
train_go body = envelope 96 body

abbrev pub train_solenoid_off : ℕ → MessageEnvelope
train_solenoid_off body = envelope 32 body

-- Its second assertion always fails.
abbrev pub train_reverse_direction : ℕ → Outcome MessageEnvelope
train_reverse_direction train = assert (leb train 80 && leb 1 train) >> halt

-- A speed is a byte, so the two bytes of the body have no bit in common.
unfoldable pub train_set_speed : ℕ → ℕ → ℕ → Outcome MessageEnvelope
train_set_speed body train speed =
    assert (leb train 80 && leb 1 train) >> done (set_u16 (envelope 22 body) (train * 256 + speed))

abbrev pub train_wait_for_sensor : ℕ → ℕ → Outcome MessageEnvelope
train_wait_for_sensor body sensor =
    assert (ltb sensor 80) >> done (set_u8 (envelope 192 body) sensor)

-- The body is the address of the array.
abbrev pub train_read_all_sensors : ℕ → MessageEnvelope
train_read_all_sensors array = envelope 133 array

abbrev pub train_switch : ℕ → ℕ → ℕ → MessageEnvelope
train_switch body address way = set_u8 (envelope way body) address
