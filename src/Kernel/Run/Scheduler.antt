-- ===== src/Kernel/Run/Scheduler.antt =====
-- What kernel/scheduler.c does to the tasks that wait for events.
use burrit_osprivate.Prelude.{
  ℕ, ◌%◌, ◌≡◌, refl, sym, ap, ◌∙◌, subst, true, ◌==◌, Bool-cases, Option-cases, inl, inr, if-true,
  if-false, arith, set, get_or,
}
use burrit_osprivate.Prelude.Word.{to_u8, add32}
use burrit_osprivate.Prelude.Outcome.{done, assert_ok, >>=-eq_done, assert->>, done-injective}
use burrit_osprivate.Hardware.Timer.{timer_4, sample}
use burrit_osprivate.PriorityQueue
use burrit_osprivate.Kernel.Memory.{ptr_add}
use burrit_osprivate.Kernel.TaskTable
use burrit_osprivate.Kernel.TaskTable.{TaskTable, TaskState, is_state, value, get_descriptor}
use burrit_osprivate.Kernel.TaskTable.Free.{free-Freed}
use burrit_osprivate.Kernel.Data.{Kernel, desc, current, put_desc}
use burrit_osprivate.Kernel.Scheduler.{
  Next, enter, leave, exit_scheduler, switch_to, reschedule, release, leave_or_switch,
  schedule_next, scheduler,
}
use burrit_osprivate.Kernel.Invariant.{Sound}
use burrit_osprivate.Kernel.Invariant.Blocked.{keep-Accounts}
use burrit_osprivate.Kernel.Invariant.Messages.{is_state-excl}
use burrit_osprivate.Kernel.Run.Waiters.{Keeps, Off-Keeps, same-Keeps, Kept, Kept-Kept}

-- The kernel that is entered keeps those that wait.
abbrev pub KeptIn : Kernel → Next → Type 0
KeptIn k (enter sp k') = Kept k k'
KeptIn k (leave k') = Unit

exit-KeptIn : (i : ℕ) (k : Kernel) (sp now : ℕ) → KeptIn k (exit_scheduler i k sp now)
unfolding exit_scheduler
exit-KeptIn i k sp now = (
  refl,
  same-Keeps k.tasks.descriptors i
      (record (desc k i) {
        performance =
            set (desc k i).performance 0
              (add32 (get_or (desc k i).performance 0 0) (sample timer_4 now k.perf_state).delta);
      })
      refl,
)

switch-KeptIn :
    (i : ℕ) (k : Kernel) (tid now : ℕ) {n : Next} → switch_to i k tid now ≡ done n → KeptIn k n
unfolding switch_to get_descriptor
switch-KeptIn i k tid now e =
    let j = tid % 256 in
    let (_, e') =
      assert->> ((desc k j).stack_block == k.words (ptr_add (desc k j).stack_base 1)) _ e in
    subst (KeptIn k) (done-injective e')
      (exit-KeptIn i (record k { active_task = j }) (desc k j).stack now)

reschedule-KeptIn :
    (i : ℕ) (k : Kernel) (sp now : ℕ) {n : Next} → reschedule i k sp now ≡ done n → KeptIn k n
unfolding reschedule
reschedule-KeptIn i k sp now {n} e =
    let (result, _, e₂) =
      >>=-eq_done
        (assert_ok
          (PriorityQueue.push_pop k.queue (to_u8 (desc k i).priority) (value (desc k i).tid)))
        _ e in
    elim (Option-cases result) [
      | inl kept ↦
          subst (KeptIn k) (done-injective (ground (arith, e₂, kept))) (exit-KeptIn i k sp now)
      | inr passed ↦
          switch-KeptIn i (record k { queue = passed.0.1 }) passed.0.0 now {n = n}
            (ground (arith, e₂, passed.1))
    ]

leave_or_switch-KeptIn :
    (i : ℕ) (k : Kernel) (now : ℕ) {n : Next} → leave_or_switch i k now ≡ done n → KeptIn k n
unfolding leave_or_switch
leave_or_switch-KeptIn i k now {n} e = elim (Bool-cases (PriorityQueue.is_empty k.queue)) [
  | inl bare ↦
      let (_, e') =
        assert->> (k.system_running == 0) _ (if-true (PriorityQueue.is_empty k.queue) _ _ bare e) in
      subst (KeptIn k) (done-injective e') tt
  | inr held ↦
      let ((tid, q), _, e₂) =
        >>=-eq_done (assert_ok (PriorityQueue.pop k.queue)) _
          (if-false (PriorityQueue.is_empty k.queue) _ _ held e) in
      switch-KeptIn i (record k { queue = q }) tid now {n = n} e₂
]

-- The descriptor that goes back is one of a task that has ended.
release-Keeps :
    (k : Kernel) {t : TaskTable}
    → Sound k
    → release (is_state (current k).state TaskState.zombie) k.tasks k.words (current k).tid ≡ done t
    → Keeps k.tasks.descriptors t.descriptors
unfolding release is_state
release-Keeps k {t} v e = elim (Bool-cases (is_state (current k).state TaskState.zombie)) [
  | inl z ↦
      let tid = (current k).tid in
      let ((x, t'), freed, e₂) =
        >>=-eq_done (TaskTable.free k.tasks k.words tid) _
          (if-true (is_state (current k).state TaskState.zombie) _ _ z e) in
      let ended : is_state (desc k tid.id).state TaskState.zombie ≡ true =
        ap (λ i. is_state (desc k i).state TaskState.zombie) (v.ids k.active_task v.active_in)
        ∙ z in
      let f = free-Freed k.tasks k.words tid ended freed in
      let off =
        is_state-excl (desc k tid.id).state TaskState.zombie TaskState.event_blocked ended refl in
      subst (λ (t : TaskTable). Keeps k.tasks.descriptors t.descriptors) (done-injective e₂)
        (subst (Keeps k.tasks.descriptors) (sym f.descriptors)
          (Off-Keeps k.tasks.descriptors tid.id f.task off))
  | inr alive ↦
      let same : k.tasks ≡ t =
        done-injective (if-false (is_state (current k).state TaskState.zombie) _ _ alive e) in
      subst (λ (t : TaskTable). Keeps k.tasks.descriptors t.descriptors) same (λ i b. b)
]

through : (k k₁ : Kernel) → Kept k k₁ → (n : Next) → KeptIn k₁ n → KeptIn k n
through k k₁ h (enter sp k') h' = Kept-Kept k k₁ k' h h'
through k k₁ h (leave k') h' = tt

schedule_next-KeptIn :
    (k : Kernel) (now : ℕ) {n : Next}
    → Sound k
    → schedule_next k.active_task k now ≡ done n
    → KeptIn k n
unfolding schedule_next
schedule_next-KeptIn k now {n} v e =
    let (t, released, e') =
      >>=-eq_done
        (release (is_state (current k).state TaskState.zombie) k.tasks k.words (current k).tid) _
        e in
    let k₁ = record k { tasks = t } in
    through k k₁ (refl, release-Keeps k v released) n
      (leave_or_switch-KeptIn k.active_task k₁ now {n = n} e')

-- A scheduler that enters a task keeps those that wait for events.
pub scheduler-KeptIn :
    (k : Kernel) (sp now : ℕ) {n : Next} → Sound k → scheduler k sp now ≡ done n → KeptIn k n
unfolding scheduler
scheduler-KeptIn k sp now {n} v e = elim (Bool-cases (k.system_running == 2)) [
  | inl killed ↦ subst (KeptIn k) (done-injective (if-true (k.system_running == 2) _ _ killed e)) tt
  | inr runs ↦
      let d = record (current k) { stack = sp } in
      let k₁ = put_desc k k.active_task d in
      let saved : Kept k k₁ = (refl, same-Keeps k.tasks.descriptors k.active_task d refl) in
      let v₁ : Sound k₁ = keep-Accounts v k.active_task d v.active_in refl refl refl in
      let e₁ = if-false (k.system_running == 2) _ _ runs e in
      through k k₁ saved n (elim (Bool-cases (is_state (current k).state TaskState.ready)) [
        | inl r ↦
            reschedule-KeptIn k.active_task k₁ sp now {n = n}
              (if-true (is_state (current k).state TaskState.ready) _ _ r e₁)
        | inr r ↦
            schedule_next-KeptIn k₁ now {n = n} v₁
              (if-false (is_state (current k).state TaskState.ready) _ _ r e₁)
      ])
]
