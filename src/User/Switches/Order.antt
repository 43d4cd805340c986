-- ===== src/User/Switches/Order.antt =====
-- What the messages of user/servers/TrainSwitchServer.c are to mean for the courier.
use burrit_osprivate.Prelude.{
  ℕ, ◌+◌, ◌*◌, ◌/◌, ◌<◌, ◌≡◌, ◌≢◌, not, ◌&&◌, ◌||◌, List, [], ◌∷◌, ◌++◌, ◌==◌, if◌then◌else◌,
}
use burrit_osprivate.Queue.Steps.{Holds}
use burrit_osprivate.User.Messages.{body_u8, Reply, Request}
use burrit_osprivate.User.Switches.{Server}

-- The commands that the courier is sent: all but the order to turn off.
abbrev pub carried : ℕ → List Reply → List ℕ
carried id [] = []
carried id (r ∷ rs) =
    let rest = carried id rs in
    let word = r.message.type * 256 + body_u8 r.message in
    if r.to == id && not (r.message.type == 32) then word ∷ rest else rest

abbrev pub carried_all : ℕ → List (List Reply) → List ℕ
carried_all id [] = []
carried_all id (out ∷ outs) = carried id out ++ carried_all id outs

-- The commands that come.
abbrev pub given : Request → List ℕ
given r =
    if r.message.type == 33 || r.message.type == 34
    then (r.message.type * 256 + body_u8 r.message) ∷ []
    else []

abbrev pub given_all : List Request → List ℕ
given_all [] = []
given_all (r ∷ rs) = given r ++ given_all rs

-- Commands as the queue holds them.
abbrev pub Words : List ℕ → Type 0
Words [] = Unit
Words (x ∷ l) = ((x < 65536) × (x / 256 ≢ 32)) × Words l

-- A server that has the commands `l` yet to send. Where the courier waits, there is none.
pub record Valid (s : Server) (l : List ℕ) : Type 0 where
  pub holds : Holds s.messages 64 l
  pub words : Words l
  pub idle : s.courier_waiting ≢ 0 → l ≡ []

-- The courier, with the id `id`, asks, and sends nothing else. The type is a byte.
pub record Proper (id : ℕ) (r : Request) : Type 0 where
  pub byte : r.message.type < 256
  pub asks : r.sender ≡ id → r.message.type ≡ 17
  pub courier : r.message.type ≡ 17 → r.sender ≡ id

abbrev pub AllProper : ℕ → List Request → Type 0
AllProper id [] = Unit
AllProper id (r ∷ rs) = Proper id r × AllProper id rs
