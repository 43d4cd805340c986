-- ===== src/User/Clock/Valid.antt =====
-- What holds of a queue of sleepers between two operations.
use burrit_osprivate.Prelude.{ℕ, ◌+◌, ◌^◌, ◌≤◌, ◌<◌, ◌≡◌, ◌≢◌, List, length}
use burrit_osprivate.Prelude.Count.{count}
use burrit_osprivate.User.Clock.{DelayQueue, node_at}
use burrit_osprivate.User.Clock.Chain.{Chain}

-- The nodes of the queue and those that are free are the 32 of the buffer, each once.
pub record Valid (dq : DelayQueue) (qs fs : List ℕ) : Type 0 where
  pub size : length dq.buffer ≡ 32
  pub used : Chain dq.buffer dq.queue qs
  pub free : Chain dq.buffer dq.free_list fs
  pub once : (i : ℕ) → count i qs + count i fs ≤ 1
  pub inside : (i : ℕ) → count i qs + count i fs ≢ 0 → i < 33
  pub whole : length qs + length fs ≡ 32
  pub small : (i : ℕ) → count i qs ≢ 0 → (node_at dq.buffer i).delay < 2 ^ 31
