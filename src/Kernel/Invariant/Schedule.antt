-- ===== src/Kernel/Invariant/Schedule.antt =====
-- `scheduler` at a task that is blocked or has ended, and as a whole.
use burrit_osprivate.Prelude.{
  ℕ, ◌<◌, ◌≡◌, refl, sym, ap, ◌∙◌, subst, true, false, List, [], ◌==◌, if-true, if-false,
  Bool-cases, inl, inr, arith, set,
}
use burrit_osprivate.Prelude.Bits.{bit, zero-bit}
use burrit_osprivate.Prelude.Count.{count}
use burrit_osprivate.Prelude.Result.{ok_or, map_ok}
use burrit_osprivate.Prelude.Outcome.{
  done, assert_ok, >>=-eq_done, assert_ok-eq_done, assert->>, done-injective,
}
use burrit_osprivate.Queue.{Queue}
use burrit_osprivate.PriorityQueue
use burrit_osprivate.PriorityQueue.{PriorityQueue}
use burrit_osprivate.PriorityQueue.Inv
use burrit_osprivate.PriorityQueue.Inv.{view}
use burrit_osprivate.PriorityQueue.Levels.{Levels}
use burrit_osprivate.PriorityQueue.Serve.{pop-Served}
use burrit_osprivate.PriorityQueue.Run.{pop-IsValid}
use burrit_osprivate.PriorityQueue.Refine.{pop_refines_levels, view-empty}
use burrit_osprivate.Queue
use burrit_osprivate.Kernel.TaskTable.Free.{free-Freed}
use burrit_osprivate.Kernel.TaskTable.{
  TaskTable, TaskDescriptor, TaskState, is_state, value, val_to_id, get_descriptor,
}
use burrit_osprivate.Kernel.Data.{Kernel, desc, current, put_desc}
use burrit_osprivate.Kernel.Scheduler.{
  Next, reschedule, release, leave_or_switch, schedule_next, scheduler,
}
use burrit_osprivate.Kernel.Invariant.{look, Sound}
use burrit_osprivate.Kernel.Invariant.Update.{look-set}
use burrit_osprivate.Kernel.Invariant.Blocked.{keep-Accounts}
use burrit_osprivate.Kernel.TaskTable
use burrit_osprivate.Kernel.Invariant.Dispatch.{Scheduled, switch-Entered, reschedule-Entered}
use burrit_osprivate.Kernel.Invariant.Settled.{ready-waits, Settled}
use burrit_osprivate.Kernel.Invariant.Depart.{blocked-Settled, freed-Settled}

-- Where nothing waits, no task is ready.
nobody :
    {l : Levels} {ds : List TaskDescriptor} {f : Queue}
    → Settled l ds f
    → ((p : ℕ) → l p ≡ [])
    → (i : ℕ) → i < 64
    → is_state (look ds i).state TaskState.ready ≡ false
nobody {l} {ds} v bare i h = elim (Bool-cases (is_state (look ds i).state TaskState.ready)) [
  | inl r ↦ absurd (
      omega (
        arith,
        ready-waits v i h r,
        ap (count (value (look ds i).tid)) (bare (look ds i).priority),
      ))
  | inr r ↦ r
]

-- The task that ran is blocked or has ended.
leave_or_switch-Scheduled :
    (i : ℕ) (k : Kernel) (now : ℕ) {n : Next}
    → i < 64
    → Inv.IsValid k.queue
    → Settled (view k.queue) k.tasks.descriptors k.tasks.allocation_queue
    → leave_or_switch i k now ≡ done n
    → Scheduled n
unfolding leave_or_switch PriorityQueue.is_empty Scheduled
leave_or_switch-Scheduled i k now {n} lt qv v e =
    elim (Bool-cases (PriorityQueue.is_empty k.queue)) [
      | inl bare ↦
          let none_set : k.queue.priority_bits ≡ 0 = ground (arith, bare) in
          let (stopped, e') =
            assert->> (k.system_running == 0) _
              (if-true (PriorityQueue.is_empty k.queue) _ _ bare e) in
          subst Scheduled (done-injective e') (
            inr (
              ground arith,
              nobody v (λ p. view-empty k.queue p (ap (λ b. bit b p) none_set ∙ zero-bit p)),
            ))
      | inr held ↦
          let ((tid, q), e₁, e₂) =
            >>=-eq_done (assert_ok (PriorityQueue.pop k.queue)) _
              (if-false (PriorityQueue.is_empty k.queue) _ _ held e) in
          let popped = assert_ok-eq_done _ e₁ in
          let s =
            pop-Served (view k.queue) (view q) (
              sym (pop_refines_levels k.queue qv) ∙ ap (map_ok (λ (x, q'). (x, view q'))) popped) in
          switch-Entered _ i (record k { queue = q }) tid now lt v (pop-IsValid k.queue qv popped) s
            e₂
    ]

-- The task has ended: its descriptor and its stack go back.
release-Settled :
    (k : Kernel) {t : TaskTable}
    → Sound k
    → is_state (current k).state TaskState.ready ≡ false
    → release (is_state (current k).state TaskState.zombie) k.tasks k.words (current k).tid ≡ done t
    → Settled (view k.queue) t.descriptors t.allocation_queue
unfolding release is_state
release-Settled k {t} v r e = elim (Bool-cases (is_state (current k).state TaskState.zombie)) [
  | inl z ↦
      let a = k.active_task in
      let tid = (current k).tid in
      let ((x, t'), freed, e₂) =
        >>=-eq_done (TaskTable.free k.tasks k.words tid) _
          (if-true (is_state (current k).state TaskState.zombie) _ _ z e) in
      let id = v.ids a v.active_in in
      let there : desc k tid.id ≡ current k = ap (desc k) id in
      let f =
        free-Freed k.tasks k.words tid
          (ap (λ (d : TaskDescriptor). is_state d.state TaskState.zombie) there ∙ z) freed in
      let settled =
        freed-Settled v f.task z (ap (λ s. is_state s TaskState.zombie) f.ended)
          (f.same_id ∙ ap (λ (d : TaskDescriptor). d.tid.id) there ∙ id) f.generation
          (ap (λ i. ok_or (Queue.push_u8 k.tasks.allocation_queue i) k.tasks.allocation_queue)
              (sym id)
            ∙ f.free_left) in
      let table = sym (f.descriptors ∙ ap (λ i. set k.tasks.descriptors i f.task) id) in
      subst (λ (t : TaskTable). Settled (view k.queue) t.descriptors t.allocation_queue)
        (done-injective e₂)
        (subst (λ l. Settled (view k.queue) l t'.allocation_queue) table settled)
  | inr alive ↦
      let same : k.tasks ≡ t =
        done-injective (if-false (is_state (current k).state TaskState.zombie) _ _ alive e) in
      subst (λ (t : TaskTable). Settled (view k.queue) t.descriptors t.allocation_queue) same
        (blocked-Settled v r alive)
]

schedule_next-Scheduled :
    (k : Kernel) (now : ℕ) {n : Next}
    → Sound k
    → is_state (current k).state TaskState.ready ≡ false
    → schedule_next k.active_task k now ≡ done n
    → Scheduled n
unfolding schedule_next
schedule_next-Scheduled k now v r e =
    let (t, released, e') =
      >>=-eq_done
        (release (is_state (current k).state TaskState.zombie) k.tasks k.words (current k).tid) _
        e in
    leave_or_switch-Scheduled k.active_task (record k { tasks = t }) now v.active_in v.queue_ok
      (release-Settled k v r released) e'

-- If the accounts hold and the scheduler returns, then either it enters a task, and the accounts
-- hold again, that task is ready, its saved stack pointer is the result and no ready task has a
-- more urgent priority; or it leaves the kernel, which was killed, or which is shut down while no
-- task is ready.
pub scheduler-Scheduled :
    (k : Kernel) (sp now : ℕ) {n : Next} → Sound k → scheduler k sp now ≡ done n → Scheduled n
unfolding scheduler Scheduled
scheduler-Scheduled k sp now {n} v e = elim (Bool-cases (k.system_running == 2)) [
  | inl killed ↦
      subst Scheduled (done-injective (if-true (k.system_running == 2) _ _ killed e))
        (inl (ground arith))
  | inr runs ↦
      let d = record (current k) { stack = sp } in
      let k₁ = put_desc k k.active_task d in
      let v₁ : Sound k₁ = keep-Accounts v k.active_task d v.active_in refl refl refl in
      let seen : current k₁ ≡ d =
        ground
          (arith, look-set k.tasks.descriptors k.active_task k.active_task d v.size v.active_in) in
      let e₁ = if-false (k.system_running == 2) _ _ runs e in
      elim (Bool-cases (is_state (current k).state TaskState.ready)) [
        | inl r ↦
            let ready : is_state (current k₁).state TaskState.ready ≡ true =
              ap (λ (d : TaskDescriptor). is_state d.state TaskState.ready) seen ∙ r in
            let e₂ = if-true (is_state (current k).state TaskState.ready) _ _ r e₁ in
            reschedule-Entered k₁ now v₁ ready
              (ap (λ (d : TaskDescriptor). reschedule k.active_task k₁ d.stack now) seen ∙ e₂)
        | inr r ↦
            schedule_next-Scheduled k₁ now v₁
              (ap (λ (d : TaskDescriptor). is_state d.state TaskState.ready) seen ∙ r)
              (if-false (is_state (current k).state TaskState.ready) _ _ r e₁)
      ]
]
