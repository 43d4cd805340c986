-- ===== src/User/Terminal/Step.antt =====
-- What the messages of `TerminalDriver` are to mean for the bytes that leave.
use burrit_osprivate.Prelude.{
  ℕ, ◌+◌, ◌%◌, ◌^◌, ◌<◌, ◌≡◌, ◌≢◌, List, [], ◌∷◌, ◌++◌, ◌==◌, if◌then◌else◌, length,
}
use burrit_osprivate.User.Terminal.{Received, Sent, Terminal}
use burrit_osprivate.User.Terminal.Ring.{held, bytes}

-- The bytes that a task is sent, in order.
abbrev pub sent : ℕ → List Sent → List ℕ
sent id [] = []
sent id (s ∷ ss) = if s.to == id then s.mail.body % 256 ∷ sent id ss else sent id ss

abbrev pub sent_all : ℕ → List (List Sent) → List ℕ
sent_all id [] = []
sent_all id (out ∷ outs) = sent id out ++ sent_all id outs

-- The bytes that wait in the ring.
abbrev pub pending : Terminal → List ℕ
pending t = held t.output t.head t.count

-- What a message prints.
abbrev pub printed : Received → List ℕ
printed r = if r.mail.type == 18 then bytes r.mail.text else []

abbrev pub printed_all : List Received → List ℕ
printed_all [] = []
printed_all (r ∷ rs) = printed r ++ printed_all rs

-- A driver between two messages.
pub record Valid (t : Terminal) : Type 0 where
  pub size : length t.output ≡ 4096
  pub head_in : t.head < 4096
  pub tail_at : t.tail ≡ (t.head + t.count) % 4096
  pub room : t.count < 4096
  pub idle : t.ready ≢ 0 → t.count ≡ 0
  pub apart : t.getc_task ≢ t.output_id
  pub input_apart : t.input_id ≢ t.output_id
  pub known : t.output_id ≢ 0

-- A message as the tasks send them: no string is empty
-- or has 2 ^ 31 characters, and the output notifier, with the id
-- `id`, asks for the next byte and sends nothing else.
pub record Proper (id : ℕ) (r : Received) : Type 0 where
  pub text : r.mail.type ≡ 18 → r.mail.text ≢ []
  pub short : length r.mail.text < 2 ^ 31
  pub asks : r.sender ≡ id → r.mail.type ≡ 15
  pub notifier : r.mail.type ≡ 15 → r.sender ≡ id

abbrev pub AllProper : ℕ → List Received → Type 0
AllProper id [] = Unit
AllProper id (r ∷ rs) = Proper id r × AllProper id rs

-- What one message changes.
pub record Step (t : Terminal) (r : Received) (o : List Sent × Terminal) : Type 0 where
  pub valid : Valid o.1
  pub same : o.1.output_id ≡ t.output_id
  pub bytes_kept : sent t.output_id o.0 ++ bytes (pending o.1) ≡ bytes (pending t) ++ printed r
