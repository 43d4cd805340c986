-- ===== src/Kernel/Invariant/Settled.antt =====
-- The accounts between the task that ran and the next one: no task is active.
use burrit_osprivate.Prelude.{
  ℕ, ◌%◌, ◌≤◌, ◌<◌, ◌≡◌, refl, sym, ap, ◌∙◌, true, false, List, ◌∷◌, arith, length, dec_le,
}
use burrit_osprivate.Prelude.Count.{count}
use burrit_osprivate.Queue.{Queue}
use burrit_osprivate.Queue.Inv as Ring
use burrit_osprivate.Queue.Refine.{contents}
use burrit_osprivate.PriorityQueue.{PriorityQueue}
use burrit_osprivate.PriorityQueue.Inv
use burrit_osprivate.PriorityQueue.Inv.{view}
use burrit_osprivate.PriorityQueue.Levels.{Levels}
use burrit_osprivate.PriorityQueue.Serve.{Served, count-Served}
use burrit_osprivate.Kernel.TaskTable.{TaskDescriptor, TaskState, is_state, value}
use burrit_osprivate.Kernel.Invariant.Messages.{is_state-excl}
use burrit_osprivate.Kernel.Invariant.{look, waits, due, idle, spare, Accounts}

-- Every ready task is in its level of `l`, and every descriptor of a task that has ended is free:
-- 64 is no index, so `due 64` and `spare 64` make no exception.
pub record Settled (l : Levels) (ds : List TaskDescriptor) (f : Queue) : Type 0 where
  pub free_ok : Ring.IsValid f
  pub free_length : f.length ≡ 64
  pub size : length ds ≡ 64
  pub ids : (i : ℕ) → i < 64 → (look ds i).tid.id ≡ i
  pub generations : (i : ℕ) → i < 64 → (look ds i).tid.generation < 256
  pub priorities :
      (i : ℕ)
      → i < 64
      → is_state (look ds i).state TaskState.zombie ≡ false
      → (look ds i).priority < 32
  pub ready_exact : (p t : ℕ) → count t (l p) ≡ due 64 ds p t
  pub free_exact : (i : ℕ) → count i (contents f) ≡ spare 64 ds i

-- A ready task waits at its priority.
pub ready-waits :
    {l : Levels} {ds : List TaskDescriptor} {f : Queue} (v : Settled l ds f) (i : ℕ)
    → i < 64
    → is_state (look ds i).state TaskState.ready ≡ true
    → count (value (look ds i).tid) (l (look ds i).priority) ≡ 1
unfolding due waits
ready-waits {l} {ds} v i h r =
    let index : value (look ds i).tid % 256 ≡ i = ground (arith, v.ids i h) in
    v.ready_exact (look ds i).priority (value (look ds i).tid)
    ∙ ground (arith, index, r, ap (look ds))

-- The next task is served: it becomes the active one.
module _ {l : Levels} {ds : List TaskDescriptor} {f : Queue} (v : Settled l ds f)
    (q : PriorityQueue) {x : ℕ} (s : Served l (view q) x) where
  -- The value that is served is the id of a ready task of that priority.
  pub served_task :
      (x % 256 < 64)
      × (is_state (look ds (x % 256)).state TaskState.ready ≡ true)
      × ((look ds (x % 256)).priority ≡ s.at)
      × (value (look ds (x % 256)).tid ≡ x)
  unfolding due waits
  served_task =
      let one : count x (x ∷ view q s.at) ≡ due 64 ds s.at x =
        ap (count x) (sym s.head) ∙ v.ready_exact s.at x in
      ground (arith, one)

  pub serve-Accounts : Inv.IsValid q → Accounts (x % 256) q ds f
  unfolding due waits spare idle is_state
  serve-Accounts qv =
      let (lt, ready, urgency, id) = served_task in
      let alive = is_state-excl _ TaskState.ready TaskState.zombie ready refl in
      record {
        queue_ok = qv;
        free_ok = v.free_ok;
        free_length = v.free_length;
        size = v.size;
        active_in = lt;
        ids = v.ids;
        generations = v.generations;
        priorities = v.priorities;
        ready_exact = λ p t h. ground (
          arith,
          count-Served l (view q) s p t,
          v.ready_exact p t,
          ready,
          urgency,
          id,
          ap (look ds),
        );
        free_exact = λ i. ground (arith, v.free_exact i, alive, ap (look ds));
      }

  -- No ready task has a more urgent priority.
  pub serve-first :
      (i : ℕ)
      → i < 64
      → is_state (look ds i).state TaskState.ready ≡ true
      → (look ds (x % 256)).priority ≤ (look ds i).priority
  unfolding due waits is_state
  serve-first i h r =
      let (_, _, urgency, _) = served_task in
      elim (dec_le (look ds (x % 256)).priority (look ds i).priority) [
        | yes le ↦ le
        | no more ↦ absurd (
            omega (
              arith,
              ready-waits v i h r,
              ap (count (value (look ds i).tid))
                  (s.urgent (look ds i).priority (omega (arith, urgency))),
            ))
      ]
