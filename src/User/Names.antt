-- ===== src/User/Names.antt =====
-- user/servers/NameServer.c and user/services/nameService.c: which task has which name.
--
-- A name is below TaskNameCount (11), which the source does not check: it reads or writes past the
-- table, on the stack, where a name is not. What follows then is not modelled, and is `halt` here.
-- `sysReply` copies the envelope, which the server goes on to use.
pub mod Directory
pub mod Register
pub mod Told
pub mod Early
pub mod Answered
mod Tests
use burrit_osprivate.Prelude.{
  ℕ, zero, suc, ◌+◌, ◌-◌, ◌%◌, Bool, List, [], ◌∷◌, ◌==◌, ltb, length, if◌then◌else◌, get_or, set,
}
use burrit_osprivate.Prelude.Word.{to_u8, to_u16, sub32}
use burrit_osprivate.Prelude.Result.{Result, ok, err}
use burrit_osprivate.Prelude.Outcome.{Outcome, done, halt, ◌>>=◌}
use burrit_osprivate.Kernel.Data.{MessageEnvelope}
use burrit_osprivate.Queue
use burrit_osprivate.Queue.{Queue}
use burrit_osprivate.User.Messages.{body_u8, body_u16, set_u8, set_u16, Reply, reply, Request}

-- The server while names are missing, and after.
pub data Phase : Type 0 where
  registering : ℕ → Queue → Queue → Phase
  serving : Phase

pub record Server : Type 0 where
  pub name_table : List ℕ
  pub phase : Phase

-- The envelope of a reply: MESSAGE_NAMESERVER_RESPONSE (3) and a 16-bit body.
abbrev pub response : MessageEnvelope → ℕ → MessageEnvelope
response m v = record (set_u16 m v) { type = 3 }

-- A queue after a push whose result nothing reads.
abbrev pub pushed : Queue → Result Queue → Queue
pushed q (ok q') = q'
pushed q (err e) = q

-- A name that waits. Where there is none the source uses a variable that is not set, 0 here; each
-- client in the queue has its name in the other.
abbrev pub name_of : Queue → Result (ℕ × Queue) → ℕ × Queue
name_of q (ok (name, q')) = (name, q')
name_of q (err e) = (0, q)

-- Whether a name has a place in the table.
abbrev pub in_table : List ℕ → ℕ → Bool
in_table table name = ltb name (length table)

-- A round of the loop over those who asked too early, from what the pop of a client returned;
-- `go` is the rounds that follow.
abbrev pub drain_one :
    (MessageEnvelope → Queue → Queue → Outcome (List Reply))
    → List ℕ
    → MessageEnvelope
    → Queue
    → Result (ℕ × Queue)
    → Outcome (List Reply)
drain_one go table m names (err e) = done []
drain_one go table m names (ok (id, clients')) =
    let (name, names') = name_of names (Queue.pop_u8 names) in
    let m' = response m (get_or table name 0) in
    if in_table table name
    then (go m' clients' names' >>= λ rest. done (reply id m' ∷ rest))
    else halt

-- The loop, with fuel.
unfoldable pub drain : ℕ → List ℕ → MessageEnvelope → Queue → Queue → Outcome (List Reply)
drain zero table m clients names = halt
drain (suc n) table m clients names = drain_one (drain n table) table m names (Queue.pop clients)

-- A message while names are missing.
unfoldable pub early : List ℕ → ℕ → Queue → Queue → Request → Outcome (List Reply × Server)
early table registration_left clients names r =
    let m = r.message in
    let table' = set table (body_u8 m) r.sender in
    let m' = response m r.sender in
    let left = registration_left - 1 in
    if m.type == 2
    then (if in_table table (body_u8 m)
        then (if left == 0
            then (drain 33 table' m' clients names >>= λ rest.
                done (reply r.sender m' ∷ rest, record { name_table = table'; phase = serving }))
            else done (
              reply r.sender m' ∷ [],
              record { name_table = table'; phase = registering left clients names },
            ))
        else halt)
    else if m.type == 1
    then done (
      [],
      record {
        name_table = table;
        phase =
            registering registration_left (pushed clients (Queue.push_u16 clients r.sender))
              (pushed names (Queue.push_u8 names (body_u16 m)));
      },
    )
    else done
        ([], record { name_table = table; phase = registering registration_left clients names })

-- A message after.
unfoldable pub late : List ℕ → Request → Outcome (List Reply × Server)
late table r =
    let m = r.message in
    let table' = set table (body_u8 m) r.sender in
    let registered : List Reply × Server = (
      reply r.sender (response m r.sender) ∷ [],
      record { name_table = table'; phase = serving },
    ) in
    let answered : List Reply × Server = (
      reply r.sender (response m (get_or table (body_u8 m) 0)) ∷ [],
      record { name_table = table; phase = serving },
    ) in
    if m.type == 2
    then (if in_table table (body_u8 m) then done registered else halt)
    else if m.type == 1
    then (if in_table table (body_u8 m) then done answered else halt)
    else done ([], record { name_table = table; phase = serving })

unfoldable pub serve : List ℕ → Phase → Request → Outcome (List Reply × Server)
serve table (registering left clients names) r = early table left clients names r
serve table serving r = late table r

-- The server on the messages that it receives.
unfoldable pub run : Server → List Request → Outcome (List (List Reply))
run s [] = done []
run s (r ∷ rs) =
    serve s.name_table s.phase r >>= λ (out, s'). run s' rs >>= λ outs. done (out ∷ outs)

-- `nsRegister` and `nsWhoIs`: the message, and the id in the reply of the latter, which asserts
-- the reply's type. `m` is the envelope on the client's stack before.
abbrev pub ns_register : MessageEnvelope → ℕ → MessageEnvelope
ns_register m name = record (set_u8 m name) { type = 2 }

abbrev pub ns_who_is : MessageEnvelope → ℕ → MessageEnvelope
ns_who_is m name = record (set_u8 m name) { type = 1 }

unfoldable pub who_is_result : MessageEnvelope → Outcome ℕ
who_is_result m = if m.type == 3 then done (body_u16 m) else halt
