-- ===== src/User/Terminal.antt =====
-- user/servers/TerminalDriver.c: the strings that tasks print leave byte by byte through a ring, and
-- the bytes that come in wait for the task that asks for one.
--
-- A string in a message is a pointer in the source; here it is the list of its characters.
pub mod Ring
pub mod Step
pub mod Output
pub mod Serve
pub mod Order
mod Tests
use Prim.Native.Nat.{bit_and}
use burrit_osprivate.Prelude.{
  ℕ, zero, suc, ◌+◌, ◌*◌, ◌/◌, ◌%◌, Bool, not, List, [], ◌∷◌, ◌==◌, ltb, if◌then◌else◌, get_or, set,
}
use burrit_osprivate.Prelude.Word.{to_u8, to_u16, add32, sub32}
use burrit_osprivate.Prelude.Result.{Result, ok, err}
use burrit_osprivate.Prelude.Outcome.{Outcome, done, halt, ◌>>=◌, ◌>>◌, assert}
use burrit_osprivate.String.{strlen}
use burrit_osprivate.Queue
use burrit_osprivate.Queue.{Queue}

-- An envelope: the word of its union, and the string that its pointer leads to.
pub record Mail : Type 0 where
  pub type : ℕ
  pub body : ℕ
  pub text : List ℕ

-- A write to the low byte of the union.
abbrev pub put_u8 : Mail → ℕ → Mail
put_u8 m v = record m { body = m.body / 256 * 256 + v % 256 }

pub record Received : Type 0 where
  pub sender : ℕ
  pub mail : Mail

-- A call of `sysReply`.
pub record Sent : Type 0 where
  pub to : ℕ
  pub mail : Mail

abbrev pub send : ℕ → Mail → Sent
send to mail = record { to = to; mail = mail }

-- The variables of `TerminalDriver`. `ready` is `isOutputNotifierReady`.
pub record Terminal : Type 0 where
  pub input_id : ℕ
  pub output_id : ℕ
  pub input : Queue
  pub output : List ℕ
  pub head : ℕ
  pub tail : ℕ
  pub count : ℕ
  pub getc_task : ℕ
  pub ready : ℕ

-- `outputBufferLength`.
abbrev pub ring_size : ℕ
ring_size = 4096

-- An index goes on, as `outputHead++` and `outputHead &= outputBufferLength - 1` do.
abbrev pub advance : ℕ → ℕ
advance i = bit_and (to_u16 (i + 1)) 4095

-- The loop that copies a string: the ring and its tail.
unfoldable pub copy : List ℕ → List ℕ → ℕ → List ℕ × ℕ
copy [] buf tail = (buf, tail)
copy (c ∷ s) buf tail = copy s (set buf tail (to_u8 c)) (advance tail)

-- A byte leaves the ring for a task.
abbrev pub dequeue : Terminal → Mail → Mail
dequeue t m = put_u8 m (get_or t.output t.head 0)

abbrev pub left : Terminal → Terminal
left t = record t { head = advance t.head; count = sub32 t.count 1 }

unfoldable pub putstr : Terminal → ℕ → Mail → Outcome (List Sent × Terminal)
putstr t from m =
    let (buf, tail') = copy m.text t.output t.tail in
    let t' : Terminal = record t {
      output = buf;
      tail = tail';
      count = add32 t.count (strlen m.text);
    } in
    assert (ltb (add32 t.count (strlen m.text)) ring_size)
    >> (if t.ready == 0
        then done (send from m ∷ [], t')
        else done
            (send from m ∷ send t.output_id (dequeue t' m) ∷ [], record (left t') { ready = 0 }))

unfoldable pub transmit : Terminal → ℕ → Mail → Outcome (List Sent × Terminal)
transmit t from m =
    if not (t.head == t.tail)
    then done (send from (dequeue t m) ∷ [], left t)
    else done ([], record t { ready = 1 })

-- The request for a byte, from what the pop returned.
abbrev pub got : Terminal → ℕ → Mail → Result (ℕ × Queue) → Outcome (List Sent × Terminal)
got t from m (err e) = assert (t.getc_task == 0) >> done ([], record t { getc_task = from })
got t from m (ok (value, q)) = done (send from (put_u8 m value) ∷ [], record t { input = q })

unfoldable pub getc : Terminal → ℕ → Mail → Outcome (List Sent × Terminal)
getc t from m = got t from m (Queue.pop_u8 t.input)

-- The queue after a push whose result nothing reads.
abbrev pub pushed : Queue → Result Queue → Queue
pushed q (ok q') = q'
pushed q (err e) = q

-- The answer to the input notifier, and the byte for the task that waits, or else for the queue,
-- which drops it when it is full.
unfoldable pub arrive : Terminal → ℕ → Mail → Outcome (List Sent × Terminal)
arrive t from m =
    let wake : Mail = record m { type = 12 } in
    let kept : Queue = pushed t.input (Queue.push_u8 t.input (m.body % 256)) in
    assert (t.input_id == from)
    >> (if ltb 0 t.getc_task
        then done (send t.input_id m ∷ send t.getc_task wake ∷ [], record t { getc_task = 0 })
        else done (send t.input_id m ∷ [], record t { input = kept }))

-- One round of the driver. The types are MESSAGE_IO_GETC (12), MESSAGE_IO_PUTSTR (18),
-- DRIVER_MESSAGE_TX_CHAR (15) and DRIVER_MESSAGE_RCV_CHAR (14).
unfoldable pub serve : Terminal → Received → Outcome (List Sent × Terminal)
serve t r =
    let m = r.mail in
    if m.type == 12
    then getc t r.sender m
    else if m.type == 18
    then putstr t r.sender m
    else if m.type == 15
    then transmit t r.sender m
    else if m.type == 14
    then arrive t r.sender m
    else done ([], t)

-- The driver on the messages that it receives: what it sends for each, and its state at the end.
unfoldable pub run : Terminal → List Received → Outcome (List (List Sent) × Terminal)
run t [] = done ([], t)
run t (r ∷ rs) = do (out, t') ← serve t r; (outs, t'') ← run t' rs; done (out ∷ outs, t'')
