-- ===== src/User/Clock.antt =====
-- user/servers/ClockServer.c: tasks that sleep, in a queue in which each node has the ticks that it
-- waits after the one before it.
--
-- A pointer to a node is its place in `buffer`, counted from 1, and 0 is the null pointer. A delay
-- is a word; the source compares it as S32 with 0, and as U32 with another. Each loop has fuel for
-- one round more than there are nodes; to run out of it is to loop for ever.
pub mod Chain
pub mod Sleepers
pub mod Link
pub mod Insert
pub mod Place
pub mod Valid
pub mod Push
pub mod Wake
pub mod Init
pub mod Service
pub mod Run
pub mod Wakes
pub mod Room
pub mod Client
mod Tests
use burrit_osprivate.Prelude.{
  ℕ, zero, suc, ◌+◌, ◌-◌, ◌^◌, Bool, not, ◌&&◌, ◌||◌, List, [], ◌∷◌, ◌==◌, ltb, leb, if◌then◌else◌,
  get_or, set,
}
use burrit_osprivate.Prelude.Word.{add32, sub32}
use burrit_osprivate.Prelude.Outcome.{Outcome, done, halt, ◌>>=◌, ◌>>◌, assert}
use burrit_osprivate.Kernel.Data.{MessageEnvelope}
use burrit_osprivate.User.Messages.{envelope, Reply, reply, Request}

pub record DelayedTask : Type 0 where
  pub next : ℕ
  pub tid : ℕ
  pub delay : ℕ

abbrev pub Buffer : Type 0
Buffer = List DelayedTask

pub record DelayQueue : Type 0 where
  pub buffer : Buffer
  pub free_list : ℕ
  pub queue : ℕ

abbrev pub unset : DelayedTask
unset = record { next = 0; tid = 0; delay = 0 }

-- The node behind a pointer, and a write to it.
abbrev pub node_at : Buffer → ℕ → DelayedTask
node_at b p = get_or b (p - 1) unset

abbrev pub put_node : Buffer → ℕ → DelayedTask → Buffer
put_node b p d = set b (p - 1) d

-- Writes to a field.
abbrev pub set_next : Buffer → ℕ → ℕ → Buffer
set_next b p v = put_node b p (record (node_at b p) { next = v })

abbrev pub set_tid : Buffer → ℕ → ℕ → Buffer
set_tid b p v = put_node b p (record (node_at b p) { tid = v })

abbrev pub set_delay : Buffer → ℕ → ℕ → Buffer
set_delay b p v = put_node b p (record (node_at b p) { delay = v })

-- The loop of `delayQueueInit`, with the rounds that are left.
unfoldable pub init_loop : ℕ → ℕ → Buffer → Buffer
init_loop zero i b = b
init_loop (suc n) i b = init_loop n (i + 1) (set b i (record (get_or b i unset) { next = i + 2 }))

unfoldable pub init : DelayQueue → DelayQueue
unfolding init_loop
init dq =
    let b = init_loop 31 0 dq.buffer in
    record { buffer = set_next b 32 0; queue = 0; free_list = 1 }

abbrev pub fuel : ℕ
fuel = 34

-- The loop of `delayQueuePush`: the nodes between which the new one goes, and its delay.
unfoldable pub find : ℕ → Buffer → ℕ → ℕ → ℕ → Outcome (ℕ × ℕ × ℕ)
find zero b previous current delay = halt
find (suc n) b previous current delay =
    let c = node_at b current in
    let rest = find n b current c.next (sub32 delay c.delay) in
    if not (current == 0) && ltb c.delay delay then rest else done (previous, current, delay)

-- What `delayQueuePush` does after the loop: the buffer and the head of the queue. Where `previous`
-- and `current` are both null the source writes through the null pointer; the loop starts at a node,
-- so they never are.
unfoldable pub link : Buffer → ℕ → ℕ → ℕ → ℕ → ℕ → Buffer × ℕ
link b queue node previous current delay =
    let b₁ = set_delay b node delay in
    let b₂ = set_next b₁ previous node in
    let b₃ = if previous == 0 then b₁ else b₂ in
    let queue' = if previous == 0 then node else queue in
    let b₄ = set_next b₃ node current in
    let b₅ = set_delay b₄ current (sub32 (node_at b₄ current).delay delay) in
    if current == 0 then (b₂, queue) else (b₅, queue')

unfoldable pub push : DelayQueue → ℕ → ℕ → Outcome DelayQueue
push dq id delay = do
  let node = dq.free_list
  assert (not (node == 0))
  let rest = (node_at dq.buffer node).next
  let b = set_next (set_tid dq.buffer node id) node 0
  if dq.queue == 0
      then done (record { buffer = set_delay b node delay; free_list = rest; queue = node })
      else (find fuel b 0 dq.queue delay >>= λ (previous, current, left).
          let (b', queue') = link b dq.queue node previous current left in
          done (record { buffer = b'; free_list = rest; queue = queue' }))

-- `delay <= 0` of an S32.
abbrev pub expired : ℕ → Bool
expired delay = delay == 0 || leb (2 ^ 31) delay

-- The loop that wakes the tasks at the head of the queue: their ids, in order, and the queue.
unfoldable pub wake_loop : ℕ → DelayQueue → Outcome (List ℕ × DelayQueue)
wake_loop zero dq = halt
wake_loop (suc n) dq =
    let woken = node_at dq.buffer dq.queue in
    let rest = wake_loop n (record {
      queue = woken.next;
      buffer = set_next dq.buffer dq.queue dq.free_list;
      free_list = dq.queue;
    }) in
    if not (dq.queue == 0) && expired woken.delay
    then (rest >>= λ (ids, dq'). done (woken.tid ∷ ids, dq'))
    else done ([], dq)

-- A tick, from the test of the queue on.
unfoldable pub tick : DelayQueue → Outcome (List ℕ × DelayQueue)
tick dq =
    let head = node_at dq.buffer dq.queue in
    if dq.queue == 0
    then done ([], dq)
    else wake_loop fuel (record dq { buffer = set_delay dq.buffer dq.queue (sub32 head.delay 1) })

-- The variables of `ClockServer`. `response_body` is the body of the envelope `response`, which
-- nothing sets.
pub record Server : Type 0 where
  pub absolute_time : ℕ
  pub dqueue : DelayQueue
  pub dqueue_lo_res : DelayQueue
  pub response_body : ℕ

-- The replies to those that wake.
abbrev pub wake_ups : ℕ → List ℕ → List Reply
wake_ups body [] = []
wake_ups body (id ∷ ids) = reply id (envelope 9 body) ∷ wake_ups body ids

-- One round of the server. The types are MESSAGE_CLOCKSERVER_DELAY_BY (7),
-- MESSAGE_CLOCKSERVER_LONG_DELAY_BY (26), MESSAGE_CLOCKSERVER_GET_TIME (11),
-- MESSAGE_CLOCKSERVER_NOTIFY_TICK (8), MESSAGE_CLOCKSERVER_NOTIFY_LORES (25) and, of a reply,
-- MESSAGE_CLOCKSERVER_WAKE (9).
unfoldable pub serve : Server → Request → Outcome (List Reply × Server)
serve s r =
    let m = r.message in
    if m.type == 7
    then (push s.dqueue r.sender m.body >>= λ q. done ([], record s { dqueue = q }))
    else if m.type == 26
    then (push s.dqueue_lo_res r.sender m.body >>= λ q. done ([], record s { dqueue_lo_res = q }))
    else if m.type == 11
    then done (reply r.sender (envelope 9 s.absolute_time) ∷ [], s)
    else if m.type == 8
    then (tick s.dqueue >>= λ (ids, q). done (
      reply r.sender m ∷ wake_ups s.response_body ids,
      record s { absolute_time = add32 s.absolute_time 1; dqueue = q },
    ))
    else if m.type == 25
    then (tick s.dqueue_lo_res >>= λ (ids, q).
        done (reply r.sender m ∷ wake_ups s.response_body ids, record s { dqueue_lo_res = q }))
    else done ([], s)
