-- ===== src/Kernel/Event/Wake.antt =====
-- `eventHandler` keeps the accounts, where the tasks that wait for events are blocked.
use burrit_osprivate.Prelude.{
  ℕ, ◌%◌, ◌<◌, ◌≡◌, ◌≢◌, refl, sym, ap, ◌∙◌, subst, true, ◌==◌, if-true, if-false, arith, length,
  get_or, set, get_or-set, length-set, ==_iff, ==-eq_false, ℕ_discrete,
}
use burrit_osprivate.Prelude.Word.{to_u8}
use burrit_osprivate.Prelude.Outcome.{done, assert_ok, >>=-eq_done, done-injective}
use burrit_osprivate.PriorityQueue
use burrit_osprivate.Kernel.Memory.{Words, store}
use burrit_osprivate.Kernel.TaskTable.{TaskState, is_state, value, get_descriptor}
use burrit_osprivate.Kernel.Data.{Kernel, desc, current, set_state, task_return}
use burrit_osprivate.Kernel.SystemCall.{enqueue}
use burrit_osprivate.Kernel.Event.{wake, tick, receive_byte}
use burrit_osprivate.Kernel.Invariant.{look, Sound}
use burrit_osprivate.Kernel.Invariant.Update.{look-set}
use burrit_osprivate.Kernel.Invariant.Blocked.{enqueue-Sound}
use burrit_osprivate.Kernel.Invariant.Messages.{is_state-excl, distinct}

abbrev pub waiter : Kernel → ℕ → ℕ
waiter k event = get_or k.event_table event 0

abbrev cleared : ℕ → Kernel → Kernel
cleared event k = record k { event_table = set k.event_table event 0 }

-- The accounts hold, the active task is ready, and the tasks in the table of events are different
-- tasks that are blocked.
pub record Standing (k : Kernel) : Type 0 where
  pub accounts : Sound k
  pub runs : is_state (current k).state TaskState.ready ≡ true
  pub events : length k.event_table ≡ 7
  pub waiting :
      (event : ℕ)
      → waiter k event ≢ 0
      → (waiter k event % 256 < 64)
        × (is_state (desc k (waiter k event % 256)).state TaskState.event_blocked ≡ true)
  pub apart :
      (event other : ℕ)
      → event ≢ other
      → waiter k event ≢ 0
      → waiter k other ≢ 0
      → waiter k event % 256 ≢ waiter k other % 256

-- Memory and device registers may change.
pub moved :
    {k : Kernel} {w : Words} {c u₁ u₂ : ℕ}
    → Standing k
    → Standing (record k { words = w; cts = c; uart_1_control = u₁; uart_2_control = u₂ })
moved v = record {
  accounts = v.accounts;
  runs = v.runs;
  events = v.events;
  waiting = v.waiting;
  apart = v.apart;
}

pub wake-Standing :
    (k : Kernel) (event : ℕ) {k' : Kernel}
    → Standing k
    → event < 7
    → waiter k event ≢ 0
    → wake k event (waiter k event % 256) ≡ done k'
    → Standing k'
unfolding wake enqueue is_state
wake-Standing k event {k'} v small held e =
    let i = waiter k event % 256 in
    let (lt, blocked) = v.waiting event held in
    let other = distinct k v.runs i TaskState.event_blocked blocked refl in
    let ready = set_state k i TaskState.ready in
    let (k₁, e₁, e₂) = >>=-eq_done (enqueue ready i) _ e in
    let (sound, _) =
      enqueue-Sound k i v.accounts lt other
        (is_state-excl _ TaskState.event_blocked TaskState.ready blocked refl)
        (is_state-excl _ TaskState.event_blocked TaskState.zombie blocked refl) e₁ in
    let (q, _, e₃) =
      >>=-eq_done
        (assert_ok (
          PriorityQueue.push ready.queue (to_u8 (desc ready i).priority)
            (value (desc ready i).tid)))
        _ e₁ in
    let joined = record ready { queue = q } in
    let same : joined ≡ k₁ = done-injective e₃ in
    let seen = λ (j : ℕ).
      look-set k.tasks.descriptors i j (record (desc k i) { state = TaskState.ready })
        v.accounts.size lt in
    let table = λ (o : ℕ). get_or-set k.event_table event o 0 0 (omega (arith, v.events)) in
    let made : Standing (record joined { event_table = set k.event_table event 0 }) = record {
      accounts = subst Sound (sym same) sound;
      runs = ground (arith, seen k.active_task, other, v.runs);
      events = rw length-set v.events;
      waiting = λ o h. elim (ℕ_discrete event o) [
        | yes is ↦ absurd (h (ground (arith, table o)))
        | no ne ↦
            let kept : get_or (set k.event_table event 0) o 0 ≡ waiter k o =
              ground (arith, table o, ne) in
            let held' : waiter k o ≢ 0 = λ z. h (kept ∙ z) in
            let (lt', blocked') = v.waiting o held' in
            subst
              (λ t.
                (t % 256 < 64)
                × (is_state
                      (look
                        (set k.tasks.descriptors i (record (desc k i) { state = TaskState.ready }))
                        (t % 256)).state
                      TaskState.event_blocked
                    ≡ true))
              (sym kept)
              (
                lt',
                ground (arith, seen (waiter k o % 256), v.apart event o ne held held', blocked'),
              )
      ];
      apart = λ o p ne h g. ground (arith, table o, table p, v.apart o p ne);
    } in
    subst Standing (ap (λ (k : Kernel). cleared event k) same ∙ done-injective e₂) made

pub tick-Standing :
    (k : Kernel) (event : ℕ) {k' : Kernel}
    → Standing k
    → event < 7
    → tick k event ≡ done k'
    → Standing k'
unfolding tick get_descriptor
tick-Standing k event {k'} v small e = elim (ℕ_discrete (waiter k event) 0) [
  | yes z ↦
      subst Standing (done-injective (if-true (waiter k event == 0) _ _ ((==_iff _ _).1 z) e)) v
  | no held ↦
      wake-Standing k event v small held
        (if-false (waiter k event == 0) _ _ (==-eq_false _ _ held) e)
]

pub receive_byte-Standing :
    (k : Kernel) (event byte : ℕ) {k' : Kernel}
    → Standing k
    → event < 7
    → receive_byte k event byte ≡ done k'
    → Standing k'
unfolding receive_byte get_descriptor
receive_byte-Standing k event byte {k'} v small e = elim (ℕ_discrete (waiter k event) 0) [
  | yes z ↦
      subst Standing (done-injective (if-true (waiter k event == 0) _ _ ((==_iff _ _).1 z) e)) v
  | no held ↦
      let told = record k {
        words = store k.words (task_return (desc k (waiter k event % 256))) byte;
      } in
      wake-Standing told event (moved v) small held
        (if-false (waiter k event == 0) _ _ (==-eq_false _ _ held) e)
]
