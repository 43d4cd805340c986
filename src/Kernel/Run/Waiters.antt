-- ===== src/Kernel/Run/Waiters.antt =====
-- The tasks that stand in the table of events, and what keeps them blocked.
use burrit_osprivate.Prelude.{
  ℕ, zero, suc, ◌%◌, ◌<◌, ◌≡◌, ◌≢◌, sym, ℕ_discrete, ap, ◌∙◌, subst, true, false, List, [], ◌∷◌,
  arith, length, get_or, set, get_or-set, length-set,
}
use burrit_osprivate.Kernel.TaskTable.{TaskDescriptor, TaskState, is_state, value}
use burrit_osprivate.Kernel.Data.{Kernel}
use burrit_osprivate.Kernel.Invariant.{look}
use burrit_osprivate.Kernel.Invariant.Update.{look-set}

-- The task of index `i` does not wait for an event.
abbrev pub Off : List TaskDescriptor → ℕ → Type 0
Off ds i = is_state (look ds i).state TaskState.event_blocked ≡ false

-- Every task that waits for an event goes on waiting.
abbrev pub Keeps : List TaskDescriptor → List TaskDescriptor → Type 0
Keeps ds ds' =
    (i : ℕ)
    → is_state (look ds i).state TaskState.event_blocked ≡ true
    → is_state (look ds' i).state TaskState.event_blocked ≡ true

-- One descriptor changes: the state of a task that does not wait, or what is not the state.
pub Off-Keeps :
    (ds : List TaskDescriptor) (j : ℕ) (d : TaskDescriptor) → Off ds j → Keeps ds (set ds j d)
Off-Keeps [] j d h i b = b
Off-Keeps (x ∷ ds) zero d h zero b = absurd (cc (h, b))
Off-Keeps (x ∷ ds) zero d h (suc i) b = b
Off-Keeps (x ∷ ds) (suc j) d h zero b = b
Off-Keeps (x ∷ ds) (suc j) d h (suc i) b = Off-Keeps ds j d h i b

pub same-Keeps :
    (ds : List TaskDescriptor) (j : ℕ) (d : TaskDescriptor)
    → d.state ≡ (look ds j).state
    → Keeps ds (set ds j d)
same-Keeps [] j d h i b = b
same-Keeps (x ∷ ds) zero d h zero b = ap (λ s. is_state s TaskState.event_blocked) h ∙ b
same-Keeps (x ∷ ds) zero d h (suc i) b = b
same-Keeps (x ∷ ds) (suc j) d h zero b = b
same-Keeps (x ∷ ds) (suc j) d h (suc i) b = same-Keeps ds j d h i b

pub set-Off :
    (ds : List TaskDescriptor) (j : ℕ) (d : TaskDescriptor) (i : ℕ)
    → is_state d.state TaskState.event_blocked ≡ false
    → Off ds i
    → Off (set ds j d) i
set-Off [] j d i h o = o
set-Off (x ∷ ds) zero d zero h o = h
set-Off (x ∷ ds) zero d (suc i) h o = o
set-Off (x ∷ ds) (suc j) d zero h o = o
set-Off (x ∷ ds) (suc j) d (suc i) h o = set-Off ds j d i h o

pub same-Off :
    (ds : List TaskDescriptor) (j : ℕ) (d : TaskDescriptor) (i : ℕ)
    → d.state ≡ (look ds j).state
    → Off ds i
    → Off (set ds j d) i
same-Off [] j d i h o = o
same-Off (x ∷ ds) zero d zero h o = ap (λ s. is_state s TaskState.event_blocked) h ∙ o
same-Off (x ∷ ds) zero d (suc i) h o = o
same-Off (x ∷ ds) (suc j) d zero h o = o
same-Off (x ∷ ds) (suc j) d (suc i) h o = same-Off ds j d i h o

-- The table of events stays, and those that wait go on waiting.
abbrev pub Kept : Kernel → Kernel → Type 0
Kept k k' = (k'.event_table ≡ k.event_table) × Keeps k.tasks.descriptors k'.tasks.descriptors

pub Kept-Kept : (k k' k'' : Kernel) → Kept k k' → Kept k' k'' → Kept k k''
Kept-Kept k k' k'' (t, d) (t', d') = (t' ∙ t, λ i b. d' i (d i b))

-- The tasks in the table of events are different tasks that wait for an event.
pub record Events (t : List ℕ) (ds : List TaskDescriptor) : Type 0 where
  pub events : length t ≡ 7
  pub waiting :
      (event : ℕ)
      → get_or t event 0 ≢ 0
      → (get_or t event 0 % 256 < 64)
        × (is_state (look ds (get_or t event 0 % 256)).state TaskState.event_blocked ≡ true)
  pub apart :
      (event other : ℕ)
      → event ≢ other
      → get_or t event 0 ≢ 0
      → get_or t other 0 ≢ 0
      → get_or t event 0 % 256 ≢ get_or t other 0 % 256

abbrev pub Watched : Kernel → Type 0
Watched k = Events k.event_table k.tasks.descriptors

pub Kept-Watched : (k k' : Kernel) → Watched k → Kept k k' → Watched k'
Kept-Watched k k' v (table, keeps) =
    subst (λ t. Events t k'.tasks.descriptors) (sym table)
      (record {
        events = v.events;
        waiting = λ e h. let (lt, b) = v.waiting e h in (lt, keeps _ b);
        apart = v.apart;
      })

blocked_self :
    (ds : List TaskDescriptor) (a : ℕ)
    → length ds ≡ 64
    → a < 64
    → is_state
        (look (set ds a (record (look ds a) { state = TaskState.event_blocked })) a).state
        TaskState.event_blocked
      ≡ true
unfolding is_state
blocked_self ds a size lt =
    ground (arith, look-set ds a a (record (look ds a) { state = TaskState.event_blocked }) size lt)

-- A task that did not wait takes a place in the table.
pub await-Events :
    (t : List ℕ) (ds : List TaskDescriptor) (a event : ℕ)
    → Events t ds
    → length ds ≡ 64
    → a < 64
    → (look ds a).tid.id ≡ a
    → Off ds a
    → event < length t
    → Events
        (set t event (value (look ds a).tid))
        (set ds a (record (look ds a) { state = TaskState.event_blocked }))
await-Events t ds a event v size lt id off small =
    let w = value (look ds a).tid in
    let ds' = set ds a (record (look ds a) { state = TaskState.event_blocked }) in
    let index : w % 256 ≡ a = omega (arith, id) in
    let table = λ (o : ℕ). get_or-set t event o w 0 small in
    let keeps = Off-Keeps ds a (record (look ds a) { state = TaskState.event_blocked }) off in
    let other : (o : ℕ) → get_or t o 0 ≢ 0 → get_or t o 0 % 256 ≢ a = λ o held e.
      let (_, waits) = v.waiting o held in
      let clash : is_state (look ds a).state TaskState.event_blocked ≡ true =
        subst (λ i. is_state (look ds i).state TaskState.event_blocked ≡ true) e waits in
      cc (clash, off) in
    record {
      events = rw length-set v.events;
      waiting = λ o h. elim (ℕ_discrete event o) [
        | yes is ↦
            let here : get_or (set t event w) o 0 % 256 ≡ a = ground (arith, table o, is, index) in
            subst (λ i. (i < 64) × (is_state (look ds' i).state TaskState.event_blocked ≡ true))
              (sym here) (lt, blocked_self ds a size lt)
        | no ne ↦
            let kept : get_or (set t event w) o 0 ≡ get_or t o 0 = ground (arith, table o, ne) in
            let (lt', waits) = v.waiting o (λ z. h (kept ∙ z)) in
            subst
              (λ i.
                (i % 256 < 64)
                × (is_state (look ds' (i % 256)).state TaskState.event_blocked ≡ true))
              (sym kept) (lt', keeps _ waits)
      ];
      apart =
          λ o p ne h g. ground (arith, table o, table p, v.apart o p ne, other o, other p, index);
    }
