-- ===== src/Kernel/Invariant.antt =====
-- What holds of the kernel whenever a task has entered it: which tasks the ready queue and the
-- queue of free descriptors hold.
pub mod Update
pub mod Blocked
pub mod Messages
pub mod Create
pub mod Handler
pub mod Settled
pub mod Depart
pub mod Dispatch
pub mod Schedule
use burrit_osprivate.Prelude.{
  ℕ, ◌+◌, ◌%◌, ◌≤◌, ◌<◌, ◌≡◌, Bool, true, false, not, ◌&&◌, List, ◌==◌, ltb, if◌then◌else◌, length,
  get_or,
}
use burrit_osprivate.Prelude.Count.{count}
use burrit_osprivate.Queue
use burrit_osprivate.Queue.{Queue}
use burrit_osprivate.Queue.Inv
use burrit_osprivate.Queue.Refine.{contents}
use burrit_osprivate.PriorityQueue.{PriorityQueue}
use burrit_osprivate.PriorityQueue.Inv.{view}
use burrit_osprivate.PriorityQueue.Inv as Levels
use burrit_osprivate.Kernel.TaskTable.{TaskDescriptor, TaskState, is_state, value, blank, desc_at}
use burrit_osprivate.Kernel.Data.{Kernel}

abbrev pub look : List TaskDescriptor → ℕ → TaskDescriptor
look ds i = get_or ds i blank

-- 1 if the task of index `i`, with descriptor `d`, has to wait at priority `p` under the id `t`:
-- it is not the active task `a`, it is ready, and these are its priority and id. Else 0.
unfoldable pub waits : ℕ → ℕ → TaskDescriptor → ℕ → ℕ → ℕ
waits a i d p t =
    if not (i == a) && (is_state d.state TaskState.ready && (d.priority == p && value d.tid == t))
    then 1
    else 0

-- How often the id `t` has to stand in the ready queue at priority `p`.
unfoldable pub due : ℕ → List TaskDescriptor → ℕ → ℕ → ℕ
due a ds p t = if ltb (t % 256) 64 then waits a (t % 256) (look ds (t % 256)) p t else 0

-- 1 if the descriptor `d` of index `i` has to be free: its task has ended and is not active.
unfoldable pub idle : ℕ → ℕ → TaskDescriptor → ℕ
idle a i d = if not (i == a) && is_state d.state TaskState.zombie then 1 else 0

unfoldable pub spare : ℕ → List TaskDescriptor → ℕ → ℕ
spare a ds i = if ltb i 64 then idle a i (look ds i) else 0

-- `a` is the active task, `q` the ready queue, `ds` the descriptors and `f` the queue of the free
-- ones. Every task that is ready and not active waits exactly once, at its own priority, and
-- nothing else waits; every descriptor whose task has ended is free exactly once.
pub record Accounts (a : ℕ) (q : PriorityQueue) (ds : List TaskDescriptor) (f : Queue)
    : Type 0 where
  pub queue_ok : Levels.IsValid q
  pub free_ok : Inv.IsValid f
  pub free_length : f.length ≡ 64
  pub size : length ds ≡ 64
  pub active_in : a < 64
  pub ids : (i : ℕ) → i < 64 → (look ds i).tid.id ≡ i
  pub generations : (i : ℕ) → i < 64 → (look ds i).tid.generation < 256
  pub priorities :
      (i : ℕ)
      → i < 64
      → is_state (look ds i).state TaskState.zombie ≡ false
      → (look ds i).priority < 32
  pub ready_exact : (p t : ℕ) → p < 32 → count t (view q p) ≡ due a ds p t
  pub free_exact : (i : ℕ) → count i (contents f) ≡ spare a ds i

abbrev pub Sound : Kernel → Type 0
Sound k = Accounts k.active_task k.queue k.tasks.descriptors k.tasks.allocation_queue
