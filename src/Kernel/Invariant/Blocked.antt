-- ===== src/Kernel/Invariant/Blocked.antt =====
-- The changes of one descriptor that the system calls make.
use burrit_osprivate.Prelude.{
  ℕ, ◌<◌, ◌≡◌, ◌≢◌, refl, sym, ap, ap₂, ◌∙◌, subst, false, List, arith, set,
}
use burrit_osprivate.Prelude.Word.{to_u8}
use burrit_osprivate.Prelude.Outcome.{
  done, assert_ok, >>=-eq_done, assert_ok-eq_done, done-injective,
}
use burrit_osprivate.Prelude.Result.{ok}
use burrit_osprivate.Queue.{Queue}
use burrit_osprivate.PriorityQueue.{PriorityQueue, push}
use burrit_osprivate.Kernel.TaskTable.{TaskDescriptor, TaskState, is_state, value}
use burrit_osprivate.Kernel.Data.{Kernel, desc, set_state}
use burrit_osprivate.Kernel.SystemCall.{enqueue}
use burrit_osprivate.Kernel.Invariant.{look, waits, idle, Accounts, Sound}
use burrit_osprivate.Kernel.Invariant.Update.{look-set, quiet-Accounts, wake-Accounts}

module _ {a : ℕ} {q : PriorityQueue} {ds : List TaskDescriptor} {f : Queue} (v : Accounts a q ds f)
    (j : ℕ) (d : TaskDescriptor) (lt : j < 64) (same : d.tid ≡ (look ds j).tid) where
  -- What the accounts speak of stays.
  pub keep-Accounts :
      d.state ≡ (look ds j).state → d.priority ≡ (look ds j).priority → Accounts a q (set ds j d) f
  unfolding waits idle
  keep-Accounts s p =
      quiet-Accounts v j d lt same (λ z. ground (arith, v.priorities j lt, s, p))
        (λ p' t. ground (arith, s, p, same)) (ground (arith, s))

  -- The active task may change as it likes.
  pub active-Accounts : j ≡ a → d.priority < 32 → Accounts a q (set ds j d) f
  unfolding waits idle
  active-Accounts e small =
      quiet-Accounts v j d lt same (λ z. small) (λ p t. ground arith) (ground arith)

  -- A task that was blocked is blocked.
  pub blocked-Accounts :
      d.priority ≡ (look ds j).priority
      → is_state d.state TaskState.ready ≡ false
      → is_state d.state TaskState.zombie ≡ false
      → is_state (look ds j).state TaskState.ready ≡ false
      → is_state (look ds j).state TaskState.zombie ≡ false
      → Accounts a q (set ds j d) f
  unfolding waits idle
  blocked-Accounts p r z r' z' =
      quiet-Accounts v j d lt same (λ _. ground (arith, v.priorities j lt, p))
        (λ p' t. ground arith) (ground arith)

-- `enqueue` of a task that was blocked and is made ready.
pub enqueue-Sound :
    (k : Kernel) {k' : Kernel} (j : ℕ)
    → Sound k
    → j < 64
    → j ≢ k.active_task
    → is_state (desc k j).state TaskState.ready ≡ false
    → is_state (desc k j).state TaskState.zombie ≡ false
    → enqueue (set_state k j TaskState.ready) j ≡ done k'
    → Sound k' × (k'.active_task ≡ k.active_task)
unfolding enqueue is_state
enqueue-Sound k {k'} j v lt ne r z e =
    let d = record (desc k j) { state = TaskState.ready } in
    let ready = set_state k j TaskState.ready in
    let seen : desc ready j ≡ d = ground (arith, look-set k.tasks.descriptors j j d v.size lt) in
    let (q, e₁, e₂) =
      >>=-eq_done
        (assert_ok (push k.queue (to_u8 (desc ready j).priority) (value (desc ready j).tid))) _ e in
    let small : to_u8 (desc k j).priority ≡ (desc k j).priority =
      omega (arith, v.priorities j lt z) in
    let pushed : push k.queue d.priority (value d.tid) ≡ ok q =
      ap₂ (push k.queue) (sym small ∙ ap (λ (x : TaskDescriptor). to_u8 x.priority) (sym seen))
        (ap (λ (x : TaskDescriptor). value x.tid) (sym seen))
      ∙ assert_ok-eq_done _ e₁ in
    let woken = wake-Accounts v j d lt refl ne refl refl r z pushed in
    subst (λ k'. Sound k' × (k'.active_task ≡ k.active_task)) (done-injective e₂) (woken, refl)
