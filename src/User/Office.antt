-- ===== src/User/Office.antt =====
-- user/trainservers/SwitchOffice.c: the server that keeps, for each of 22 branches, a calendar of the
-- requests to switch it, and a worker for each request.
--
-- A pointer to a request is the request itself, and a calendar the list of its nodes. The list of free
-- nodes is its length. `graph` is the table of the track, of which the type and the number of a node
-- are read. `halt` stands for a failed assertion, for a null pointer that is read, and for a
-- loop that has used up its rounds.
pub mod Nodes
pub mod Seek
mod Tests
use burrit_osprivate.Prelude.{
  ℕ, zero, suc, ◌+◌, ◌-◌, ◌*◌, ◌/◌, ◌%◌, Bool, true, false, ◌&&◌, ◌||◌, not, Option, none, some,
  List, [], ◌∷◌, ◌==◌, leb, if◌then◌else◌, get_or, set, replicate,
}
use burrit_osprivate.Prelude.Word.{to_u8, sub32, u32_mod}
use burrit_osprivate.Prelude.Outcome.{Outcome, done, halt, ◌>>◌, ◌>>=◌, assert}
use burrit_osprivate.Kernel.Data.{MessageEnvelope}
use burrit_osprivate.User.Messages.{envelope, Reply, reply}
use burrit_osprivate.User.Commands.{SwitchRequest}

-- A node of the track: its type and its number.
pub record TrackNode : Type 0 where
  pub type : ℕ
  pub num : ℕ

pub record Office : Type 0 where
  pub calendar : List (List SwitchRequest)
  pub free : ℕ
  pub switches : List ℕ

-- What a round does: a reply, or a worker that is sent a request.
pub data Effect : Type 0 where
  replied : Reply → Effect
  worker : SwitchRequest → Effect

-- The type of a branch, eNodeBranch.
abbrev pub node_branch : ℕ
node_branch = 2

-- `indexForBranch` from the node `i` on.
unfoldable pub index_from : ℕ → List TrackNode → ℕ → ℕ
index_from i [] branch = u32_mod - 1
index_from i (n ∷ graph) branch =
    let rest = index_from (i + 1) graph branch in
    if n.type == node_branch && n.num == branch then sub32 i 80 / 2 else rest

unfoldable pub index_for_branch : List TrackNode → ℕ → ℕ
index_for_branch graph branch = index_from 0 graph branch

-- The test of the loop for two requests.
unfoldable pub overlaps : SwitchRequest → SwitchRequest → Bool
overlaps c r =
    (leb c.start_time r.end_time && leb r.start_time c.end_time)
    || (leb c.end_time r.start_time && leb r.end_time c.start_time)

-- The loop is left where there is no next node, or that starts late enough.
abbrev pub fits_before : SwitchRequest → List SwitchRequest → Bool
fits_before r [] = true
fits_before r (n ∷ rest) = leb r.end_time n.start_time

-- The loop over a calendar: whether the switch is taken, or `none` where the rounds do not suffice.
-- It compares with the first node in every round, and never moves on from the second.
unfoldable pub seek : ℕ → SwitchRequest → SwitchRequest → List SwitchRequest → Option Bool
seek zero c r rest = none
seek (suc f) c r rest =
    let again = seek f c r rest in
    if fits_before r rest then some (overlaps c r) else if overlaps c r then some true else again

-- MESSAGE_WORKER: a worker has switched, and its request leaves the calendar.
abbrev pub finish :
    Office
    → ℕ
    → ℕ
    → MessageEnvelope
    → SwitchRequest
    → List SwitchRequest
    → Outcome (List Effect × Office)
finish o cid from m r [] = halt
finish o cid from m r (c ∷ rest) =
    assert (c.start_time == r.start_time)
    >> done (
      replied (reply from m) ∷ [],
      record o { calendar = set o.calendar cid rest; free = o.free + 1 },
    )

-- A new node, where one is free.
abbrev pub insert :
    Office → ℕ → List SwitchRequest → List ℕ → List Effect → Outcome (List Effect × Office)
insert o cid requests switches out =
    assert (not (o.free == 0))
    >> done (
      out,
      record { calendar = set o.calendar cid requests; free = o.free - 1; switches = switches },
    )

-- A second request for a branch, from what the loop finds. The reply to the worker's task is what
-- the worker replied, MESSAGE_WORKER (27) with the address of the new node.
abbrev pub place :
    Office
    → ℕ
    → ℕ
    → MessageEnvelope
    → ℕ
    → SwitchRequest
    → SwitchRequest
    → List SwitchRequest
    → Option Bool
    → Outcome (List Effect × Office)
place o cid from m address r c rest none = halt
place o cid from m address r c rest (some true) = done (replied (reply from m) ∷ [], o)
place o cid from m address r c rest (some false) =
    insert o cid (c ∷ r ∷ rest) o.switches
      (worker r ∷ replied (reply from (envelope 27 address)) ∷ [])

-- MESSAGE_SWITCH_ALLOCATE.
abbrev pub allocate :
    ℕ
    → Office
    → ℕ
    → ℕ
    → MessageEnvelope
    → ℕ
    → SwitchRequest
    → List SwitchRequest
    → Outcome (List Effect × Office)
allocate fuel o cid from m address r [] =
    insert o cid (r ∷ []) (set o.switches cid r.direction) (replied (reply from m) ∷ worker r ∷ [])
allocate fuel o cid from m address r (c ∷ rest) =
    place o cid from m address r c rest (seek fuel c r rest)

-- One round of `SwitchExecutive`, with the request that the message points to and the address of a
-- node that is free. The types are MESSAGE_WORKER (27), MESSAGE_SWITCH_READ (29) and
-- MESSAGE_SWITCH_ALLOCATE (28).
unfoldable pub serve :
    ℕ
    → List TrackNode
    → ℕ
    → Office
    → ℕ
    → MessageEnvelope
    → SwitchRequest
    → Outcome (List Effect × Office)
serve fuel graph address o from m r =
    let cid = index_for_branch graph r.branch_id in
    let requests = get_or o.calendar cid [] in
    let read = envelope 29 (get_or o.switches m.body 0) in
    if m.type == 27
    then (assert (leb cid 21) >> finish o cid from m r requests)
    else if m.type == 29
    then (assert (leb m.body 21) >> done (replied (reply from read) ∷ [], o))
    else if m.type == 28
    then (assert (leb cid 21) >> allocate fuel o cid from m address r requests)
    else done ([], o)

-- The switches at the start, eCurved (34) and eStraight (33).
abbrev pub start_switches : List ℕ
start_switches =
    34 ∷ 34 ∷ 34 ∷ 33 ∷ 34 ∷ 34 ∷ 33 ∷ 33 ∷ 33 ∷ 34 ∷ 33 ∷ 34 ∷ 34 ∷ 34 ∷ 34 ∷ 34 ∷ 34 ∷ 34 ∷ 34
    ∷ 33 ∷ 34 ∷ 33 ∷ []

-- The orders for the switches at the start: the number of a branch and its direction.
unfoldable pub start_orders : ℕ → ℕ → List TrackNode → List ℕ → List (ℕ × ℕ)
start_orders zero i graph switches = []
start_orders (suc k) i graph switches =
    ((get_or graph i (record { type = 0; num = 0 })).num % 256, get_or switches ((i - 80) / 2) 0)
    ∷ start_orders k (i + 2) graph switches

-- The other direction.
abbrev pub opposite : ℕ → ℕ
opposite way = if way == 34 then 33 else 34

-- The branch that `SwitchWorker` switches along with one, if any.
abbrev pub partner : ℕ → Option ℕ
partner branch = if branch == 156 then some 155 else if branch == 154 then some 153 else none

abbrev pub with_partner : List TrackNode → SwitchRequest → List ℕ → Option ℕ → List (ℕ × ℕ) × List ℕ
with_partner graph r switches none = ((to_u8 r.branch_id, r.direction) ∷ [], switches)
with_partner graph r switches (some b) = (
  (to_u8 r.branch_id, r.direction) ∷ (b, opposite r.direction) ∷ [],
  set switches (to_u8 (index_for_branch graph b)) (opposite r.direction),
)

-- `SwitchWorker`: the orders that it gives for its request, and the switches that it leaves. A write
-- outside the array changes nothing here.
unfoldable pub switch_worker : List TrackNode → SwitchRequest → List ℕ → List (ℕ × ℕ) × List ℕ
switch_worker graph r switches =
    let cid = to_u8 (index_for_branch graph r.branch_id) in
    with_partner graph r (set switches cid r.direction) (partner r.branch_id)

-- A round's message, with the request that it points to and the address of a free node.
pub record Round : Type 0 where
  pub sender : ℕ
  pub message : MessageEnvelope
  pub request : SwitchRequest
  pub address : ℕ

-- The server on the messages that it receives.
unfoldable pub run :
    ℕ → List TrackNode → Office → List Round → Outcome (List (List Effect) × Office)
run fuel graph o [] = done ([], o)
run fuel graph o (r ∷ rs) = do
  (out, o') ← serve fuel graph r.address o r.sender r.message r.request
  (outs, o'') ← run fuel graph o' rs
  done (out ∷ outs, o'')

-- The state at the start: 32 free nodes and 22 calendars with none.
abbrev pub start : Office
start = record { calendar = replicate 22 []; free = 32; switches = start_switches }
