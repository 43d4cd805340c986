-- ===== src/Kernel/Invariant/Dispatch.antt =====
-- `scheduler` at the tasks that it enters.
use burrit_osprivate.Prelude.{
  ℕ, ◌%◌, ◌≤◌, ◌<◌, ◌≡◌, ◌≢◌, refl, sym, ap, ◌∙◌, subst, true, false, List, [], ◌==◌, Option-cases,
  none, some, inl, inr, arith, dec_le, ◌⊎◌, set, get_or,
}
use burrit_osprivate.Prelude.Count.{count}
use burrit_osprivate.Prelude.Word.{to_u8, add32}
use burrit_osprivate.Prelude.Result.{ok, map_ok}
use burrit_osprivate.Prelude.Outcome.{
  done, assert_ok, >>=-eq_done, assert_ok-eq_done, assert->>, done-injective,
}
use burrit_osprivate.Hardware.Timer.{timer_4, sample}
use burrit_osprivate.Queue.{Queue}
use burrit_osprivate.PriorityQueue
use burrit_osprivate.PriorityQueue.{PriorityQueue}
use burrit_osprivate.PriorityQueue.Inv
use burrit_osprivate.PriorityQueue.Inv.{view}
use burrit_osprivate.PriorityQueue.Levels.{Levels}
use burrit_osprivate.PriorityQueue.Serve.{Served, push_pop-Served, push_pop-kept}
use burrit_osprivate.PriorityQueue.Exchange.{push_pop_refines_levels}
use burrit_osprivate.PriorityQueue.Run.{push_pop-IsValid}
use mathlib.Core.Option
use burrit_osprivate.Kernel.Memory.{ptr_add}
use burrit_osprivate.Kernel.TaskTable.{TaskDescriptor, TaskState, is_state, value, get_descriptor}
use burrit_osprivate.Kernel.Data.{Kernel, desc, current}
use burrit_osprivate.Kernel.Scheduler.{Next, enter, leave, exit_scheduler, switch_to, reschedule}
use burrit_osprivate.Kernel.Invariant.{look, due, waits, Accounts, Sound}
use burrit_osprivate.Kernel.Invariant.Messages.{is_state-excl}
use burrit_osprivate.Kernel.Invariant.Update.{look-set}
use burrit_osprivate.Kernel.Invariant.Blocked.{keep-Accounts}
use burrit_osprivate.Kernel.Invariant.Settled.{Settled, served_task, serve-Accounts, serve-first}
use burrit_osprivate.Kernel.Invariant.Depart.{joined-Settled}

-- The kernel enters its active task at the stack pointer `sp`: the accounts hold, the task is
-- ready, `sp` is where its stack ends, and no ready task has a more urgent priority.
pub record Entered (sp : ℕ) (k : Kernel) : Type 0 where
  pub accounts : Sound k
  pub is_ready : is_state (current k).state TaskState.ready ≡ true
  pub saved : (current k).stack ≡ sp
  pub most_urgent :
      (i : ℕ)
      → i < 64
      → is_state (desc k i).state TaskState.ready ≡ true
      → (current k).priority ≤ (desc k i).priority

-- The kernel enters a task as above, or it stops: it was killed, or it was shut down and no task
-- is ready.
unfoldable pub Scheduled : Next → Type 0
Scheduled (enter sp k) = Entered sp k
Scheduled (leave k) =
    (k.system_running ≡ 2)
    ⊎ ((k.system_running ≡ 0)
        × ((i : ℕ) → i < 64 → is_state (desc k i).state TaskState.ready ≡ false))

-- The time that ExitScheduler notes changes none of this.
exit-Entered :
    (i : ℕ) (k : Kernel) (sp now : ℕ)
    → i < 64
    → Entered sp k
    → Scheduled (exit_scheduler i k sp now)
unfolding exit_scheduler Scheduled
exit-Entered i k sp now lt v =
    let d = record (desc k i) {
      performance =
          set (desc k i).performance 0
            (add32 (get_or (desc k i).performance 0 0) (sample timer_4 now k.perf_state).delta);
    } in
    let seen = λ (j : ℕ). look-set k.tasks.descriptors i j d v.accounts.size lt in
    record {
      accounts = keep-Accounts v.accounts i d lt refl refl refl;
      is_ready = ground (arith, seen k.active_task, v.is_ready);
      saved = ground (arith, seen k.active_task, v.saved);
      most_urgent = λ j h r. ground (arith, seen k.active_task, seen j, v.most_urgent j h, r);
    }

-- The task `tid` is served and entered.
pub switch-Entered :
    (l : Levels) (i : ℕ) (k : Kernel) (tid now : ℕ) {n : Next}
    → i < 64
    → Settled l k.tasks.descriptors k.tasks.allocation_queue
    → Inv.IsValid k.queue
    → Served l (view k.queue) tid
    → switch_to i k tid now ≡ done n
    → Scheduled n
unfolding switch_to get_descriptor
switch-Entered l i k tid now lt v qv s e =
    let j = tid % 256 in
    let (_, ready, _, _) = served_task v k.queue s in
    let (_, e') =
      assert->> ((desc k j).stack_block == k.words (ptr_add (desc k j).stack_base 1)) _ e in
    subst Scheduled (done-injective e') (
      exit-Entered i (record k { active_task = j }) (desc k j).stack now lt
        (record {
          accounts = serve-Accounts v k.queue s qv;
          is_ready = ready;
          saved = refl;
          most_urgent = serve-first v k.queue s;
        }))

-- Where nothing waits up to the priority of the active task, no ready task is more urgent.
behind :
    {a : ℕ} {q : PriorityQueue} {ds : List TaskDescriptor} {f : Queue} (v : Accounts a q ds f)
    → ((p : ℕ) → p ≤ (look ds a).priority → view q p ≡ [])
    → (i : ℕ) → i < 64
    → is_state (look ds i).state TaskState.ready ≡ true
    → (look ds a).priority ≤ (look ds i).priority
unfolding due waits is_state
behind {a} {q} {ds} v bare i h r = elim (dec_le (look ds a).priority (look ds i).priority) [
  | yes le ↦ le
  | no more ↦
      let t = value (look ds i).tid in
      let other : i ≢ a = λ e. omega (arith, more, ap (λ k. (look ds k).priority) e) in
      let small = v.priorities i h (is_state-excl _ TaskState.ready TaskState.zombie r refl) in
      let index : t % 256 ≡ i = ground (arith, v.ids i h) in
      let waiting : count t (view q (look ds i).priority) ≡ 1 =
        v.ready_exact (look ds i).priority t small
        ∙ ground (arith, index, r, other, ap (look ds)) in
      absurd (omega (arith, waiting, ap (count t) (bare (look ds i).priority (omega arith))))
]

-- The task that ran goes on being ready.
module _ (k : Kernel) (now : ℕ) (v : Sound k)
    (r : is_state (current k).state TaskState.ready ≡ true) where
  -- It is more urgent than those that wait, and goes on.
  kept-Entered :
      {n : Next}
      → PriorityQueue.push_pop k.queue (current k).priority (value (current k).tid) ≡ ok none
      → exit_scheduler k.active_task k (current k).stack now ≡ n
      → Scheduled n
  kept-Entered e same =
      let refined =
        push_pop_refines_levels k.queue (current k).priority (value (current k).tid) v.queue_ok in
      let bare =
        push_pop-kept (view k.queue) (current k).priority (value (current k).tid)
          (sym refined ∙ ap (map_ok (Option.map (λ (y, q'). (y, view q')))) e) in
      subst Scheduled same (
        exit-Entered k.active_task k (current k).stack now v.active_in
          (record { accounts = v; is_ready = r; saved = refl; most_urgent = behind v bare }))

  -- It waits, and another task is served.
  passed-Entered :
      {tid : ℕ} {q : PriorityQueue} {n : Next}
      → PriorityQueue.push_pop k.queue (current k).priority (value (current k).tid)
        ≡ ok (some (tid, q))
      → switch_to k.active_task (record k { queue = q }) tid now ≡ done n
      → Scheduled n
  passed-Entered {tid} {q} {n} e same =
      let refined =
        push_pop_refines_levels k.queue (current k).priority (value (current k).tid) v.queue_ok in
      let s =
        push_pop-Served (view k.queue) (view q) (current k).priority (value (current k).tid)
          (sym refined ∙ ap (map_ok (Option.map (λ (y, q'). (y, view q')))) e) in
      switch-Entered _ k.active_task (record k { queue = q }) tid now v.active_in
        (joined-Settled v r)
        (push_pop-IsValid k.queue v.queue_ok (current k).priority (value (current k).tid) e) s same

  pub reschedule-Entered :
      {n : Next} → reschedule k.active_task k (current k).stack now ≡ done n → Scheduled n
  unfolding reschedule is_state
  reschedule-Entered {n} e =
      let d = current k in
      let urgent =
        v.priorities k.active_task v.active_in
          (is_state-excl _ TaskState.ready TaskState.zombie r refl) in
      let small : to_u8 d.priority ≡ d.priority = omega (arith, urgent) in
      let (result, e₁, e₂) =
        >>=-eq_done (assert_ok (PriorityQueue.push_pop k.queue (to_u8 d.priority) (value d.tid))) _
          e in
      let offered : PriorityQueue.push_pop k.queue d.priority (value d.tid) ≡ ok result =
        ap (λ p. PriorityQueue.push_pop k.queue p (value d.tid)) (sym small)
        ∙ assert_ok-eq_done _ e₁ in
      elim (Option-cases result) [
        | inl kept ↦ kept-Entered (offered ∙ ap ok kept) (done-injective (ground (arith, e₂, kept)))
        | inr passed ↦
            passed-Entered {tid = passed.0.0} {q = passed.0.1} {n = n} (offered ∙ ap ok passed.1)
              (ground (arith, e₂, passed.1))
      ]
