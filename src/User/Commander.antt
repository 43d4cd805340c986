-- ===== src/User/Commander.antt =====
-- user/trainservers/TrainCommander.c: commands as text, and the server that hands them to the trains
-- that poll for one.
--
-- The string of a command is an argument beside the message whose body points to it. Behind the end
-- of a string a character is read as 0, and a number as 0: where the source would go on behind the
-- end, after a missing letter of a sensor, its result is refused whatever it reads.
pub mod Parse
pub mod Serve
mod Tests
use burrit_osprivate.Prelude.{
  ℕ, ◌+◌, ◌-◌, ◌*◌, ◌/◌, ◌%◌, Bool, ◌&&◌, Option, none, some, List, [], ◌∷◌, ◌==◌, leb, ltb,
  if◌then◌else◌, length, get_or, set,
}
use burrit_osprivate.Prelude.Word.{to_u8, to_u16, u16_mod, u32_mod}
use burrit_osprivate.Kernel.Data.{MessageEnvelope}
use burrit_osprivate.String.{stratoui, strskipws}
use burrit_osprivate.User.Messages.{envelope, body_u8, Reply, reply}

abbrev pub tail : List ℕ → List ℕ
tail [] = []
tail (c ∷ s) = s

-- Whether the string starts with the two letters.
unfoldable pub begins : ℕ → ℕ → List ℕ → Bool
begins a b s = get_or s 0 0 == a && get_or s 1 0 == b

-- The number behind white space, with the rest of the string.
abbrev pub number : List ℕ → ℕ × List ℕ
number s = stratoui (strskipws s)

-- What `parseTrainCommand` returns and leaves in `type` and `info`.
pub record Parsed : Type 0 where
  pub train : ℕ
  pub type : ℕ
  pub info : ℕ

abbrev pub parsed : ℕ → ℕ → ℕ → Parsed
parsed train type info = record { train = train; type = type; info = info }

-- A train and a speed below 14.
unfoldable pub parse_speed : ℕ → List ℕ → Parsed
parse_speed type s =
    let (train, r) = number s in
    let speed = to_u8 (number r).0 in parsed (if leb 14 speed then 255 else to_u8 train) type speed

unfoldable pub parse_velocity : ℕ → List ℕ → Parsed
parse_velocity type s = let (train, r) = number s in parsed (to_u8 train) type (number r).0

-- A train alone.
unfoldable pub parse_train : ℕ → ℕ → List ℕ → Parsed
parse_train type info s = parsed (to_u8 (number s).0) type info

-- The number of a sensor from the character of its group and its number in it, as an S32 that is
-- written to a U32. 'a' is 97.
unfoldable pub sensor : ℕ → ℕ → ℕ
sensor letter id = ((letter + u16_mod - 97) % u16_mod * 16 + to_u16 id + u32_mod - 1) % u32_mod

-- A train and a sensor.
unfoldable pub parse_sensor : ℕ → List ℕ → Parsed
parse_sensor type s =
    let (train, r) = number s in
    let r' = strskipws r in
    let goal = sensor (get_or r' 0 0) (stratoui (tail r')).0 in
    parsed (if leb 80 goal then 255 else to_u8 train) type goal

-- `parseTrainCommand`, with the type and body that the message has before. The types are
-- MESSAGE_TRAIN_SET_SPEED (22), SET_VELOCITY (101), REVERSE (23), GOTO (98), STOP (97), DUMP_ACCEL
-- (99), DUMP_VEL (100) and MESSAGE_RPS (4).
unfoldable pub parse_train_command : List ℕ → ℕ → ℕ → Parsed
parse_train_command s type info =
    let r = tail (tail s) in
    if begins b't' b'r' s
    then parse_speed 22 r
    else if begins b't' b'v' s
    then parse_velocity 101 r
    else if begins b'r' b'v' s
    then parse_train 23 info r
    else if begins b'g' b't' s
    then parse_sensor 98 r
    else if begins b's' b'a' s
    then parse_sensor 97 r
    else if begins b'd' b'a' s
    then parse_speed 99 r
    else if begins b'd' b'v' s
    then parse_train 100 info r
    else if begins b'r' b'm' s
    then parse_train 4 info r
    else parsed 255 type info

-- The entry of a table of 80 trains that is free.
abbrev pub no_task : ℕ
no_task = 65535

-- A command for the train that is parsed: the type MESSAGE_FAILURE (30) says that none took it.
unfoldable pub hand_over : List ℕ → ℕ → Parsed → List Reply × List ℕ
hand_over waiting from p =
    let m = envelope p.type p.info in
    let refused = reply from (envelope 30 p.info) ∷ [] in
    let task = get_or waiting p.train no_task in
    let taken = reply task m ∷ reply from m ∷ [] in
    if ltb p.train 80
    then (if task == no_task then (refused, waiting) else (taken, set waiting p.train no_task))
    else (refused, waiting)

-- One round of `TrainCommanderServer`; `none` where it reads or writes outside its table. The types
-- are those that `pushTrainCommand`, `pollTrainCommand` and `isTrainAvailable` send.
unfoldable pub serve : List ℕ → ℕ → MessageEnvelope → List ℕ → Option (List Reply × List ℕ)
serve waiting from m string =
    let id = body_u8 m in
    let absent = record m { type = if get_or waiting id no_task == no_task then 30 else m.type } in
    if m.type == 0
    then some (hand_over waiting from (parse_train_command string m.type m.body))
    else if m.type == 2
    then (if ltb id (length waiting) then some (reply from absent ∷ [], waiting) else none)
    else if m.type == 1
    then (if ltb id (length waiting) then some ([], set waiting id from) else none)
    else some ([], waiting)

-- The messages of the clients, and what they make of the reply: an S32 as a word.
abbrev pub push_train_command : ℕ → MessageEnvelope
push_train_command string = envelope 0 string

abbrev pub poll_train_command : MessageEnvelope → ℕ → MessageEnvelope
poll_train_command m train = envelope 1 (m.body / 256 * 256 + train % 256)

abbrev pub is_train_available : ℕ → ℕ → MessageEnvelope
is_train_available body train = envelope 2 (body / 256 * 256 + train % 256)

abbrev pub failed : MessageEnvelope → ℕ
failed m = if m.type == 30 then u32_mod - 1 else 0
