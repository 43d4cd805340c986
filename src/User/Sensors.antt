-- ===== src/User/Sensors.antt =====
-- user/servers/TrainSensorServer.c: the courier brings the words of the five groups of sensors, and
-- the server wakes the tasks that wait for a sensor that is triggered now, and those that wait for
-- any change.
--
-- A sensor is the place of its bit: the sensor `16 * i + c` is the bit `15 - c` of the word `i`.
-- `halt` stands for a failed assertion, and for a read of a variable that was never set.
pub mod Wakes
mod Tests
use burrit_osprivate.Prelude.{
  ℕ, zero, suc, ◌+◌, ◌-◌, ◌*◌, ◌^◌, Bool, not, ◌&&◌, ◌||◌, List, [], ◌∷◌, ◌++◌, ◌==◌, ltb,
  if◌then◌else◌, get_or, set,
}
use Prim.Native.Nat.{bit_and, bit_or, bit_xor}
use burrit_osprivate.Prelude.Word.{to_u8, to_u16, u32_mod}
use burrit_osprivate.Prelude.Result.{Result, ok, err, ok_or}
use burrit_osprivate.Prelude.Outcome.{Outcome, done, halt, ◌>>◌, ◌>>=◌, assert}
use burrit_osprivate.Kernel.Data.{MessageEnvelope}
use burrit_osprivate.Queue
use burrit_osprivate.Queue.{Queue}
use burrit_osprivate.User.Messages.{body_u8, Reply, reply}

-- The variables of `TrainSensorServer`.
pub record Sensors : Type 0 where
  pub buffer : List ℕ
  pub bodies : List ℕ
  pub body_free : Queue
  pub tasks : Queue
  pub body_index : Queue
  pub blocked : List ℕ
  pub startup : ℕ

-- What a round does: a reply, or a copy of bytes of the words to an address.
pub data Effect : Type 0 where
  replied : Reply → Effect
  copied : ℕ → List ℕ → ℕ → Effect

-- No task waits for the sensor.
abbrev pub no_task : ℕ
no_task = 65535

-- The bits that are set now and were not before, of which a U16 keeps the low ones.
unfoldable pub triggered : ℕ → ℕ → ℕ
triggered before now = to_u16 (bit_and (bit_xor before now) (u32_mod - 1 - before))

-- The variables of the loop over a group. `message` is `rcvEnv`, `out` what the loop has sent.
pub record Scan : Type 0 where
  pub group : ℕ
  pub message : MessageEnvelope
  pub blocked : List ℕ
  pub out : List Effect

-- The body of the loop. The reply has the type MESSAGE_TRAIN_GET_SENSOR (192).
unfoldable pub wake : ℕ → ℕ → Scan → Scan
wake i c s =
    let id = to_u8 (16 * i + c) in
    let task = get_or s.blocked id no_task in
    let m : MessageEnvelope = record s.message { type = 192 } in
    let woken : Scan = record {
      group = bit_xor s.group (2 ^ (15 - c));
      message = m;
      blocked = set s.blocked id no_task;
      out = s.out ++ (replied (reply task m) ∷ []);
    } in
    if not (task == no_task) && not (bit_and s.group (2 ^ (15 - c)) == 0) then woken else s

-- The loop over the sensors of a group from `c` on, with the rounds left.
unfoldable pub scan : ℕ → ℕ → ℕ → Scan → Scan
scan zero i c s = s
scan (suc k) i c s = scan k i (c + 1) (wake i c s)

-- The variables of the loop over the groups.
pub record Sweep : Type 0 where
  pub changed : ℕ
  pub buffer : List ℕ
  pub state : Scan

-- The loop over the groups from `i` on.
unfoldable pub sweep : ℕ → ℕ → List ℕ → Sweep → Sweep
sweep zero i words w = w
sweep (suc k) i words w =
    let now = get_or words i 0 in
    let s = scan 16 i 0 (record w.state { group = triggered (get_or w.buffer i 0) now }) in
    sweep k (i + 1) words
      (record { changed = bit_or w.changed s.group; buffer = set w.buffer i now; state = s })

-- One task that waits for any change is given a copy, and its place is free again.
abbrev pub give :
    Sensors → MessageEnvelope → ℕ → Queue → Result (ℕ × Queue) → Outcome (List Effect × Sensors)
give s m task q (err e) = halt
give s m task q (ok (index, k)) = done (
  copied (get_or s.bodies index 0) s.buffer 5 ∷ replied (reply task m) ∷ [],
  record s {
    tasks = q;
    body_index = k;
    body_free = ok_or (Queue.push_u16 s.body_free index) s.body_free;
  },
)

-- A round of the loop over those tasks, from what the pop returned, with the next as an argument.
abbrev pub give_one :
    (Sensors → Outcome (List Effect × Sensors))
    → Sensors
    → MessageEnvelope
    → Result (ℕ × Queue)
    → Outcome (List Effect × Sensors)
give_one next s m (err e) = done ([], s)
give_one next s m (ok (task, q)) = do
  (out, s') ← give s m task q (Queue.pop s.body_index)
  (rest, s'') ← next s'
  done (out ++ rest, s'')

-- The loop, with fuel.
unfoldable pub give_all : ℕ → MessageEnvelope → Sensors → Outcome (List Effect × Sensors)
give_all zero m s = halt
give_all (suc f) m s = give_one (give_all f m) s m (Queue.pop s.tasks)

-- The courier comes with five words.
unfoldable pub courier : Sensors → MessageEnvelope → List ℕ → Outcome (List Effect × Sensors)
courier s m words =
    let start : Scan = record { group = 0; message = m; blocked = s.blocked; out = [] } in
    let w = sweep 5 0 words (record { changed = 0; buffer = s.buffer; state = start }) in
    let s' : Sensors = record s { buffer = w.buffer; blocked = w.state.blocked } in
    let told = give_all 17 w.state.message s' >>= λ (out, s''). done (w.state.out ++ out, s'') in
    if w.changed == 0 then done (w.state.out, s') else told

-- A task waits for any change: its body is kept at a free place.
abbrev pub await :
    Sensors → ℕ → MessageEnvelope → Result (ℕ × Queue) → Outcome (List Effect × Sensors)
await s from m (err e) = halt
await s from m (ok (index, q)) = done (
  [],
  record s {
    tasks = ok_or (Queue.push_u16 s.tasks from) s.tasks;
    body_free = q;
    bodies = set s.bodies index m.body;
    body_index = ok_or (Queue.push_u16 s.body_index index) s.body_index;
  },
)

-- One round of the server, with the words that the body of the courier's message points to. The
-- types are MESSAGE_NOTIFY (24), MESSAGE_COURIER (17), MESSAGE_TRAIN_GET_SENSOR_ABCDE (133) and
-- MESSAGE_TRAIN_GET_SENSOR (192).
unfoldable pub serve : Sensors → ℕ → MessageEnvelope → List ℕ → Outcome (List Effect × Sensors)
serve s from m words =
    let thanks = replied (reply from m) in
    let brought = courier s m words >>= λ (out, s'). done (thanks ∷ out, s') in
    if m.type == 24
    then done (thanks ∷ [], record s { startup = 0 })
    else if m.type == 17
    then (if s.startup == 0 then brought else done (thanks ∷ [], s))
    else if m.type == 133
    then await s from m (Queue.pop s.body_free)
    else if m.type == 192
    then (assert (ltb (body_u8 m) 80)
        >> done ([], record s { blocked = set s.blocked (body_u8 m) from }))
    else done ([], s)
