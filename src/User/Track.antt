-- ===== src/User/Track.antt =====
-- user/trainservers/TrackManager.c: which train owns each piece of track.
--
-- A request for track carries a pointer to a node of a list in the client's memory. Here it is the
-- list of the `data` of the nodes from that one on: the high bytes of the first have the number of
-- the train, and the low byte of each an index into the table. A null pointer is the empty list,
-- and nothing reads through it. The table has 72 entries, and the source does not check an
-- index: out of the table it reads and writes the memory beside it. Here such a read gives 0 and such
-- a write changes nothing, so what the theorems state is about entries of the table.
pub mod Owners
pub mod Settle
pub mod Client
mod Tests
use burrit_osprivate.Prelude.{
  ℕ, zero, suc, ◌+◌, ◌*◌, ◌/◌, ◌%◌, Bool, not, ◌&&◌, List, [], ◌∷◌, ◌==◌, if◌then◌else◌, get_or,
  set, replicate,
}
use burrit_osprivate.Prelude.Word.{to_u8, neg32}
use burrit_osprivate.Prelude.Outcome.{Outcome, done, halt, ◌>>=◌}

-- `ownershipGraph`, of TRACK_MAX / 2 entries.
abbrev pub Graph : Type 0
Graph = List ℕ

abbrev pub entries : ℕ
entries = 72

-- The memset at the start.
abbrev pub fresh : Graph
fresh = replicate entries 0

abbrev pub owner : Graph → ℕ → ℕ
owner g i = get_or g i 0

-- `data & 0xFF`.
abbrev pub index : ℕ → ℕ
index word = word % 256

-- `trainId`.
abbrev pub train : ℕ → ℕ
train word = to_u8 (word / 256)

-- An envelope: `body` is its word, of which MessageU8 is the low byte, and `path` what
-- MessageArbitrary points to.
pub record Envelope : Type 0 where
  pub type : ℕ
  pub body : ℕ
  pub path : List ℕ

-- Pass 1: the node at which the loop ends, the null pointer where there is no conflict.
unfoldable pub conflict : Graph → ℕ → List ℕ → List ℕ
conflict g train [] = []
conflict g train (d ∷ ds) =
    let rest = conflict g train ds in
    if not (owner g (index d) == train) && not (owner g (index d) == 0) then d ∷ ds else rest

-- The loop that revokes.
unfoldable pub revoke : ℕ → Graph → Graph
revoke train [] = []
revoke train (x ∷ g) = (if x == train then 0 else x) ∷ revoke train g

-- Pass 2.
unfoldable pub allocate : Graph → ℕ → List ℕ → Graph
allocate g train [] = g
allocate g train (d ∷ ds) = allocate (set g (index d) train) train ds

-- What follows pass 1, from where it ended. The type of a conflict is MESSAGE_FAILURE (30).
unfoldable pub settle : Graph → Envelope → ℕ → List ℕ → List ℕ → Outcome (Envelope × Graph)
settle g env train path [] = done (env, allocate (revoke train g) train path)
settle g env train path (f ∷ fs) = done (record env { type = 30; path = f ∷ fs }, g)

-- The case of a request for track, from its list.
unfoldable pub request : Graph → Envelope → List ℕ → Outcome (Envelope × Graph)
request g env [] = halt
request g env (d ∷ ds) = settle g env (train d) (d ∷ ds) (conflict g (train d) (d ∷ ds))

-- One round of the server: the reply, which goes to the sender, and the table. In the case of
-- type 2 the reply has the address of the table, `address`.
unfoldable pub serve : ℕ → Graph → Envelope → Outcome (Envelope × Graph)
serve address g env =
    let asked = env.body % 256 / 2 in
    if env.type == 3
    then done (record env { body = env.body / 256 * 256 + to_u8 (owner g asked) }, g)
    else if env.type == 1
    then request g env env.path
    else if env.type == 2
    then done (record env { body = address }, g)
    else halt

-- `NodeAttributionServer`, whose replies do not depend on the type.
unfoldable pub attribute : Graph → Envelope → Envelope
attribute g env = record env { body = env.body / 256 * 256 + to_u8 (owner g (env.body % 256 / 2)) }

-- The server on the messages that it receives: the replies in their order, and the table at the end.
unfoldable pub run : ℕ → Graph → List Envelope → Outcome (List Envelope × Graph)
run address g [] = done ([], g)
run address g (env ∷ envs) = do
  (reply, g') ← serve address g env
  (replies, g'') ← run address g' envs
  done (reply ∷ replies, g'')
