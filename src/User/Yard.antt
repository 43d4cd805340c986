-- ===== src/User/Yard.antt =====
-- user/trainservers/TrainYard.c: the table of the tasks that drive the trains, and its clients.
pub mod Registered
mod Tests
use burrit_osprivate.Prelude.{
  ℕ, ◌+◌, ◌*◌, ◌/◌, ◌%◌, Bool, Option, none, some, List, [], ◌∷◌, ◌==◌, ltb, if◌then◌else◌, length,
  get_or, set, replicate,
}
use burrit_osprivate.Prelude.Maybe.{◌>>=◌}
use burrit_osprivate.Prelude.Result.{Result, ok, err, generic}
use burrit_osprivate.Kernel.Data.{MessageEnvelope}
use burrit_osprivate.User.Messages.{envelope, body_u8, body_u16, set_u16, Reply, reply, Request}

-- The tasks that the server creates.
pub data Crew : Type 0 where
  locomotive player_locomotive : Crew

-- What a round does besides its change of the table: replies, and the creation of a task, which is
-- sent the message.
pub data Effect : Type 0 where
  replied : Reply → Effect
  launched : Crew → MessageEnvelope → Effect

abbrev pub no_task : ℕ
no_task = 65535

-- The table at the start.
abbrev pub empty : List ℕ
empty = replicate 80 no_task

-- One round of `TrainYardServer`, or `none` where it reads or writes outside its table. `answer` is
-- what a created task replies. The types are MESSAGE_NAMESERVER_REGISTER (2),
-- MESSAGE_NAMESERVER_WHOIS (1), MESSAGE_TRAIN_GO (96) and MESSAGE_RPS (4).
unfoldable pub serve :
    (Crew → MessageEnvelope → MessageEnvelope) → List ℕ → Request → Option (List Effect × List ℕ)
serve answer table r =
    let m = r.message in
    let id = body_u8 m in
    let launch : Crew → List Effect =
      λ d. launched d m ∷ replied (reply r.sender (answer d m)) ∷ [] in
    let found = set_u16 m (get_or table id no_task) in
    if m.type == 2
    then (if ltb id (length table)
        then some (replied (reply r.sender m) ∷ [], set table id r.sender)
        else none)
    else if m.type == 1
    then (if ltb id (length table) then some (replied (reply r.sender found) ∷ [], table) else none)
    else if m.type == 96
    then some (launch locomotive, table)
    else if m.type == 4
    then some (launch player_locomotive, table)
    else some ([], table)

-- The server on the messages that it receives: the table that they leave.
unfoldable pub run :
    (Crew → MessageEnvelope → MessageEnvelope) → List ℕ → List Request → Option (List ℕ)
run answer table [] = some table
run answer table (r ∷ rs) = serve answer table r >>= λ (out, table'). run answer table' rs

-- The message of a client about a train, in an envelope with any body.
abbrev pub about : ℕ → ℕ → ℕ → MessageEnvelope
about type body train = envelope type (body / 256 * 256 + train % 256)

abbrev pub train_player_launch : ℕ → ℕ → MessageEnvelope
train_player_launch body train = about 4 body train

abbrev pub train_launch : ℕ → ℕ → MessageEnvelope
train_launch body train = about 96 body train

abbrev pub train_register : ℕ → ℕ → MessageEnvelope
train_register body train = about 2 body train

-- What `trainWhoIs` returns for the reply.
unfoldable pub who_is : MessageEnvelope → Result ℕ
who_is m = if body_u16 m == no_task then err generic else ok (body_u16 m)

-- `trainWhoIs` with the server's round, where that gives one reply.
abbrev pub first_reply : Option (List Effect × List ℕ) → Option MessageEnvelope
first_reply (some (replied r ∷ out, table)) = some r.message
first_reply _ = none

unfoldable pub train_who_is :
    (Crew → MessageEnvelope → MessageEnvelope) → List ℕ → ℕ → ℕ → ℕ → Option (Result ℕ)
train_who_is answer table from body train =
    first_reply (serve answer table (record { sender = from; message = about 1 body train }))
    >>= λ m. some (who_is m)
