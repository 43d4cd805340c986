-- ===== src/User/Driver/Jobs.antt =====
-- What the messages of user/servers/TrainDriver.c are to mean: the commands that the driver has yet
-- to send, and for each the task that waits for it.
use burrit_osprivate.Prelude.{
  ℕ, ◌<◌, ◌≡◌, ◌≢◌, Bool, true, false, ◌||◌, List, [], ◌∷◌, ◌++◌, ◌==◌, if◌then◌else◌,
}
use burrit_osprivate.Prelude.Outcome.{done}
use burrit_osprivate.Queue.Steps.{Holds}
use burrit_osprivate.User.Messages.{body_u16, Reply, Request}
use burrit_osprivate.User.Driver.{Driver, driver_type, is_command, prime, full_command}

pub record Job : Type 0 where
  pub word : ℕ
  pub task : ℕ
  pub type : ℕ

abbrev pub words : List Job → List ℕ
words [] = []
words (j ∷ l) = j.word ∷ words l

abbrev pub tasks : List Job → List ℕ
tasks [] = []
tasks (j ∷ l) = j.task ∷ tasks l

abbrev pub types : List Job → List ℕ
types [] = []
types (j ∷ l) = j.type ∷ types l

-- The tasks that are answered when their command leaves: all but those that want the sensors.
abbrev pub own : ℕ → ℕ → List ℕ
own task type = if type == 133 then [] else task ∷ []

abbrev pub callers : List Job → List ℕ
callers [] = []
callers (j ∷ l) = own j.task j.type ++ callers l

-- The commands that the output notifier, with the id `id`, is sent.
abbrev pub sent : ℕ → List Reply → List ℕ
sent id [] = []
sent id (r ∷ rs) = let rest = sent id rs in if r.to == id then body_u16 r.message ∷ rest else rest

abbrev pub sent_all : ℕ → List (List Reply) → List ℕ
sent_all id [] = []
sent_all id (out ∷ outs) = sent id out ++ sent_all id outs

-- The other tasks that get a reply, but for what is said of the sensors.
abbrev pub answered : ℕ → List Reply → List ℕ
answered id [] = []
answered id (r ∷ rs) =
    let rest = answered id rs in if r.to == id || r.message.type == 19 then rest else r.to ∷ rest

abbrev pub answered_all : ℕ → List (List Reply) → List ℕ
answered_all id [] = []
answered_all id (out ∷ outs) = answered id out ++ answered_all id outs

-- The job that a message gives.
abbrev pub given : Request → List Job
given r =
    if is_command r.message.type
    then (record { word = full_command (prime r.message); task = r.sender; type = r.message.type })
      ∷ []
    else []

abbrev pub given_all : List Request → List Job
given_all [] = []
given_all (r ∷ rs) = given r ++ given_all rs

-- Whether a job is a request for the sensors.
abbrev pub any_sensors : List Job → Bool
any_sensors [] = false
any_sensors (j ∷ l) = j.type == 133 || any_sensors l

-- A command that the driver knows, from a task other than the output notifier.
pub record Sendable (id : ℕ) (j : Job) : Type 0 where
  pub kind : ℕ
  pub known : driver_type j.word ≡ done kind
  pub word_fits : j.word < 65536
  pub task_fits : j.task < 65536
  pub type_fits : j.type < 256
  pub not_data : j.type ≢ 19
  pub other : j.task ≢ id

abbrev pub AllSendable : ℕ → List Job → Type 0
AllSendable id [] = Unit
AllSendable id (j ∷ l) = Sendable id j × AllSendable id l

-- A driver that has the commands of `l` yet to send. Where the notifier waits, there is none.
pub record Valid (d : Driver) (l : List Job) : Type 0 where
  pub holds_words : Holds d.commands 16 (words l)
  pub holds_tasks : Holds d.tasks 16 (tasks l)
  pub holds_types : Holds d.types 16 (types l)
  pub sendable : AllSendable d.output l
  pub idle : d.waiting ≢ 0 → l ≡ []
  pub apart : d.sensor_request ≢ 0 → d.sensor_request ≢ d.output

-- A message of a type that the server knows. The output notifier, with the id `id`, asks for
-- commands, and sends nothing else.
pub record Proper (id : ℕ) (r : Request) : Type 0 where
  pub asks : r.sender ≡ id → (r.message.type == 20 || r.message.type == 21) ≡ true
  pub notifier : (r.message.type == 20 || r.message.type == 21) ≡ true → r.sender ≡ id
  pub known :
      (is_command r.message.type
        || r.message.type == 20
        || r.message.type == 21
        || r.message.type == 19)
      ≡ true
  pub sends : AllSendable id (given r)

abbrev pub AllProper : ℕ → List Request → Type 0
AllProper id [] = Unit
AllProper id (r ∷ rs) = Proper id r × AllProper id rs
