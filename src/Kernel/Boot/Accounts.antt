-- ===== src/Kernel/Boot/Accounts.antt =====
-- The kernel that `bootstrap` sets up keeps the accounts.
use burrit_osprivate.Prelude.{
  ℕ, zero, suc, ◌+◌, ◌%◌, ◌≤◌, ◌<◌, ◌≡◌, ◌≢◌, refl, sym, ap, ap₂, ◌∙◌, subst, true, false, List, [],
  ◌∷◌, ltb, ◌==◌, if◌then◌else◌, arith, length, set, length-set,
}
use burrit_osprivate.Prelude.Word.{to_u8, to_u16}
use burrit_osprivate.Prelude.Count.{count, count-snoc}
use burrit_osprivate.Prelude.Result.{ok}
use burrit_osprivate.Prelude.Outcome.{
  done, assert_ok, >>=-eq_done, assert_ok-eq_done, done-injective,
}
use burrit_osprivate.Queue
use burrit_osprivate.Queue.{Queue}
use burrit_osprivate.Queue.Inv as Ring
use burrit_osprivate.Queue.Refine.{
  contents, push-contents, length-push, pop-contents, length-pop, length-init, none_held,
}
use burrit_osprivate.PriorityQueue.{PriorityQueue}
use burrit_osprivate.PriorityQueue.Inv.{view, IsValid}
use burrit_osprivate.PriorityQueue.Run.{HasSizes, init-IsValid}
use burrit_osprivate.Kernel.Memory
use burrit_osprivate.Kernel.TaskTable
use burrit_osprivate.Kernel.TaskTable.{
  TaskTable, TaskDescriptor, TaskState, is_state, value, desc_at, init_loop, unused_name,
}
use burrit_osprivate.Kernel.TaskTable.Alloc.{Spawned, alloc-Spawned}
use burrit_osprivate.Kernel.Data.{Kernel, Board, current}
use burrit_osprivate.Kernel.Boot.{bootstrap, kernel_data_init}
use burrit_osprivate.Kernel.Invariant.{look, waits, due, idle, spare, Accounts, Sound}
use burrit_osprivate.Kernel.Invariant.Update.{look-set}

-- The descriptors below `i` are set up and free.
record Fresh (i : ℕ) (ds : List TaskDescriptor) (f : Queue) : Type 0 where
  pub free_ok : Ring.IsValid f
  pub free_length : f.length ≡ 64
  pub size : length ds ≡ 64
  pub ids : (j : ℕ) → j < i → (look ds j).tid.id ≡ j
  pub generations : (j : ℕ) → j < i → (look ds j).tid.generation ≡ 0
  pub ended : (j : ℕ) → j < i → (look ds j).state ≡ TaskState.zombie
  pub free_exact : (j : ℕ) → count j (contents f) ≡ (if ltb j i then 1 else 0)

init_loop-Fresh :
    (n i : ℕ) (t : TaskTable) {t' : TaskTable}
    → i + n ≡ 64
    → Fresh i t.descriptors t.allocation_queue
    → init_loop n i t ≡ done t'
    → Fresh 64 t'.descriptors t'.allocation_queue
unfolding init_loop Queue.push_u8
init_loop-Fresh zero i t {t'} h v e =
    subst (λ (t : TaskTable). Fresh 64 t.descriptors t.allocation_queue) (done-injective e)
      (subst (λ i. Fresh i t.descriptors t.allocation_queue) (omega arith) v)
init_loop-Fresh (suc n) i t {t'} h v e =
    let (q, e₁, e₂) = >>=-eq_done (assert_ok (Queue.push t.allocation_queue (to_u8 i))) _ e in
    let pushed : Queue.push t.allocation_queue (to_u8 i) ≡ ok q = assert_ok-eq_done _ e₁ in
    let d = record (desc_at t i) {
      tid = record { id = i; generation = 0 };
      pid = 0;
      state = TaskState.zombie;
      name = unused_name;
    } in
    let lt : i < 64 = omega arith in
    let seen = λ (j : ℕ). look-set t.descriptors i j d v.size lt in
    init_loop-Fresh n (i + 1) _ (omega arith)
      (record {
        free_ok = Ring.push-IsValid t.allocation_queue v.free_ok (to_u8 i) pushed;
        free_length = length-push t.allocation_queue (to_u8 i) pushed ∙ v.free_length;
        size = rw length-set v.size;
        ids = λ j k. ground (arith, seen j, v.ids j);
        generations = λ j k. ground (arith, seen j, v.generations j);
        ended = λ j k. ground (arith, seen j, v.ended j);
        free_exact = λ j.
            ap (count j) (push-contents t.allocation_queue v.free_ok (to_u8 i) pushed)
            ∙ count-snoc j (to_u8 i) (contents t.allocation_queue)
            ∙ ground (arith, v.free_exact j);
      })
      e₂

-- After `taskTableInit` every descriptor is free.
table_init-Fresh :
    (t : TaskTable) (queue_data : List ℕ) {t' : TaskTable}
    → length t.descriptors ≡ 64
    → 64 ≤ length t.allocation_queue.buf
    → TaskTable.init t queue_data ≡ done t'
    → Fresh 64 t'.descriptors t'.allocation_queue
unfolding TaskTable.init Queue.init_u8
table_init-Fresh t queue_data size room e =
    let (q, e₁, e₂) = >>=-eq_done (assert_ok (Queue.init t.allocation_queue.buf 64)) _ e in
    let made = assert_ok-eq_done _ e₁ in
    let (v, none) = Ring.init-IsValid t.allocation_queue.buf 64 (omega arith) room made in
    let (t₁, looped, e₃) = >>=-eq_done (init_loop 64 0 (record t { allocation_queue = q })) _ e₂ in
    let (m, _, e₄) = >>=-eq_done (Memory.init queue_data 0x01000000) _ e₃ in
    let start : Fresh 0 t.descriptors q = record {
      free_ok = v;
      free_length = length-init t.allocation_queue.buf 64 made;
      size = size;
      ids = λ j h. absurd (omega arith);
      generations = λ j h. absurd (omega arith);
      ended = λ j h. absurd (omega arith);
      free_exact = λ j. ap (count j) (none_held q v none) ∙ ground arith;
    } in
    let fresh = init_loop-Fresh 64 0 (record t { allocation_queue = q }) refl start looped in
    subst (λ (t : TaskTable). Fresh 64 t.descriptors t.allocation_queue) (done-injective e₄) fresh

Fresh-count : {ds : List TaskDescriptor} {f : Queue} → Fresh 64 ds f → f.count ≢ 0
Fresh-count {ds} {f} v e =
    let held : 0 ≡ 1 = ap (count 0) (sym (none_held f v.free_ok e)) ∙ v.free_exact 0 in
    absurd (omega (arith, held))

-- The first task is made of a fresh table.
module _ {t t' : TaskTable} {r : ℕ} {q : PriorityQueue}
    (v : Fresh 64 t.descriptors t.allocation_queue) (qv : IsValid q)
    (bare : (p : ℕ) → view q p ≡ []) (s : Spawned t t' 31 r) where
  split : contents t.allocation_queue ≡ s.index ∷ contents s.rest
  split = pop-contents t.allocation_queue v.free_ok s.taken

  index_in : s.index < 64
  index_in =
      let held : count s.index (s.index ∷ contents s.rest) ≡ (if ltb s.index 64 then 1 else 0) =
        ap (count s.index) (sym split) ∙ v.free_exact s.index in
      ground (arith, held)

  first_index : to_u16 r % 256 ≡ s.index
  first_index =
      ground (
        arith,
        s.result,
        s.same_id,
        v.ids s.index index_in,
        v.generations s.index index_in,
        index_in,
      )

  seen :
      (j : ℕ)
      → look (set t.descriptors s.index s.task) j
        ≡ (if s.index == j then s.task else look t.descriptors j)
  seen j = look-set t.descriptors s.index j s.task v.size index_in

  ended_state : (j : ℕ) → j < 64 → is_state (look t.descriptors j).state TaskState.zombie ≡ true
  unfolding is_state
  ended_state j h = ap (λ z. is_state z TaskState.zombie) (v.ended j h)

  not_ready : (j : ℕ) → j < 64 → is_state (look t.descriptors j).state TaskState.ready ≡ false
  unfolding is_state
  not_ready j h = ap (λ z. is_state z TaskState.ready) (v.ended j h)

  started : is_state s.task.state TaskState.zombie ≡ false
  unfolding is_state
  started = ap (λ z. is_state z TaskState.zombie) s.is_ready

  first-Accounts : Accounts s.index q (set t.descriptors s.index s.task) s.rest
  unfolding waits due idle spare
  first-Accounts = record {
    queue_ok = qv;
    free_ok = Ring.pop-IsValid t.allocation_queue v.free_ok s.taken;
    free_length = length-pop t.allocation_queue s.taken ∙ v.free_length;
    size = rw length-set v.size;
    active_in = index_in;
    ids = λ j h. ground (arith, seen j, v.ids j h, s.same_id);
    generations = λ j h. ground (arith, seen j, v.generations j h, s.same_id);
    priorities = λ j h z. ground (arith, seen j, s.given_priority, z, ended_state j h);
    ready_exact =
        λ p u h. ap (count u) (bare p) ∙ ground (arith, seen (u % 256), not_ready (u % 256));
    free_exact = λ j.
        let each : count j (s.index ∷ contents s.rest) ≡ (if ltb j 64 then 1 else 0) =
          ap (count j) (sym split) ∙ v.free_exact j in
        ground (arith, each, seen j, ended_state j, started);
  }

  -- The same of the table that `taskTableAlloc` leaves.
  left-Accounts : Accounts (to_u16 r % 256) q t'.descriptors t'.allocation_queue
  left-Accounts =
      subst (λ a. Accounts a q t'.descriptors t'.allocation_queue) (sym first_index)
        (subst (λ f. Accounts s.index q t'.descriptors f) (sym s.free_left)
          (subst (λ ds. Accounts s.index q ds s.rest) (sym s.descriptors) first-Accounts))

  here : look (set t.descriptors s.index s.task) s.index ≡ s.task
  here = ground (arith, seen s.index)

  left-ready : is_state (look t'.descriptors (to_u16 r % 256)).state TaskState.ready ≡ true
  unfolding is_state
  left-ready =
      ap₂ (λ ds i. is_state (look ds i).state TaskState.ready) s.descriptors first_index
      ∙ ap (λ (d : TaskDescriptor). is_state d.state TaskState.ready) here
      ∙ ap (λ z. is_state z TaskState.ready) s.is_ready

-- A `bootstrap` that returns, over a table of 64 descriptors and arrays of the declared sizes,
-- leaves the accounts right and the idle task active and ready.
pub bootstrap-Sound :
    (b : Board) (k : Kernel) (queue_data : List ℕ) (cts idle_task name : ℕ) {sp : ℕ} {k' : Kernel}
    → length k.tasks.descriptors ≡ 64
    → 64 ≤ length k.tasks.allocation_queue.buf
    → HasSizes k.queue
    → bootstrap b k queue_data cts idle_task name ≡ done (sp, k')
    → Sound k' × (is_state (current k').state TaskState.ready ≡ true)
unfolding bootstrap kernel_data_init TaskTable.get_descriptor
bootstrap-Sound b k queue_data cts idle_task name size room sizes e =
    let (k₁, made, e₁) = >>=-eq_done (kernel_data_init k queue_data cts) _ e in
    let (tasks, table_made, e₂) = >>=-eq_done (TaskTable.init k.tasks queue_data) _ made in
    let ((r, t, w), allocated, e₃) =
      >>=-eq_done (TaskTable.alloc k₁.tasks k₁.words 31 idle_task b.task_exit 0 name) _ e₁ in
    let same₁ = done-injective e₂ in
    let fresh : Fresh 64 k₁.tasks.descriptors k₁.tasks.allocation_queue =
      subst (λ (k : Kernel). Fresh 64 k.tasks.descriptors k.tasks.allocation_queue) same₁
        (table_init-Fresh k.tasks queue_data size room table_made) in
    let (qv, bare) : IsValid k₁.queue × ((p : ℕ) → view k₁.queue p ≡ []) =
      subst (λ (k : Kernel). IsValid k.queue × ((p : ℕ) → view k.queue p ≡ [])) same₁
        (init-IsValid k.queue sizes) in
    let s =
      alloc-Spawned k₁.tasks k₁.words 31 idle_task b.task_exit 0 name (Fresh-count fresh)
        allocated in
    subst (λ (k : Kernel). Sound k × (is_state (current k).state TaskState.ready ≡ true))
      (ap (λ (x, k). k) (done-injective e₃))
      (left-Accounts fresh qv bare s, left-ready fresh qv bare s)
