-- ===== src/Kernel/Invariant/Update.antt =====
-- Changes of one descriptor that keep the accounts.
use burrit_osprivate.Prelude.{
  ℕ, ◌+◌, ◌%◌, ◌<◌, ◌≡◌, ◌≢◌, sym, ap, ◌∙◌, true, false, List, [], ◌∷◌, ◌++◌, ◌==◌, ◌&&◌,
  if◌then◌else◌, arith, length, set, length-set, get_or-set,
}
use burrit_osprivate.Prelude.Count.{count, count-snoc}
use burrit_osprivate.Prelude.Result.{ok, map_ok}
use burrit_osprivate.Queue.{Queue}
use burrit_osprivate.PriorityQueue.{PriorityQueue, push}
use burrit_osprivate.PriorityQueue.Inv.{view}
use burrit_osprivate.PriorityQueue.Inv as Levels'
use burrit_osprivate.Queue.Inv as Queue'
use burrit_osprivate.Queue.Refine.{contents}
use burrit_osprivate.PriorityQueue.Levels
use burrit_osprivate.PriorityQueue.Refine.{push_refines_levels}
use burrit_osprivate.PriorityQueue.Run.{push-IsValid}
use burrit_osprivate.Kernel.TaskTable.{TaskDescriptor, TaskState, is_state, value, blank}
use burrit_osprivate.Kernel.Invariant.{look, waits, due, idle, spare, Accounts}

pub look-set :
    (ds : List TaskDescriptor) (j i : ℕ) (d : TaskDescriptor)
    → length ds ≡ 64
    → j < 64
    → look (set ds j d) i ≡ (if j == i then d else look ds i)
look-set ds j i d size lt = get_or-set ds j i d blank (omega arith)

-- Descriptor `j` changes to `d`, which has the same id.
module _ {a : ℕ} {q : PriorityQueue} {ds : List TaskDescriptor} {f : Queue} (v : Accounts a q ds f)
    (j : ℕ) (d : TaskDescriptor) (lt : j < 64) (same : d.tid ≡ (look ds j).tid)
    (urgent : is_state d.state TaskState.zombie ≡ false → d.priority < 32) where
  open v use {
    queue_ok, free_ok, free_length, size, active_in, ids, generations, priorities, ready_exact,
    free_exact,
  }

  abbrev changed : List TaskDescriptor
  changed = set ds j d

  due-set :
      (p t : ℕ) → due a changed p t ≡ (if (t % 256) == j then waits a j d p t else due a ds p t)
  unfolding due
  due-set p t = ground (arith, look-set ds j (t % 256) d size lt)

  spare-set : (i : ℕ) → spare a changed i ≡ (if i == j then idle a j d else spare a ds i)
  unfolding spare
  spare-set i = ground (arith, look-set ds j i d size lt)

  -- The accounts hold again if the two queues follow the change.
  pub update-Accounts :
      {q' : PriorityQueue} {f' : Queue}
      → Levels'.IsValid q'
      → Queue'.IsValid f'
      → f'.length ≡ 64
      → ((p t : ℕ)
          → p < 32
          → count t (view q' p) ≡ (if (t % 256) == j then waits a j d p t else due a ds p t))
      → ((i : ℕ) → count i (contents f') ≡ (if i == j then idle a j d else spare a ds i))
      → Accounts a q' changed f'
  update-Accounts qv fv fl ready free = record {
    queue_ok = qv;
    free_ok = fv;
    free_length = fl;
    size = rw length-set size;
    active_in = active_in;
    ids = λ i h. ground (arith, look-set ds j i d size lt, ids i h, ids j lt, same);
    generations =
        λ i h. ground (arith, look-set ds j i d size lt, generations i h, generations j lt, same);
    priorities = λ i h. ground (arith, look-set ds j i d size lt, priorities i h, urgent);
    ready_exact = λ p t h. ready p t h ∙ sym (due-set p t);
    free_exact = λ i. free i ∙ sym (spare-set i);
  }

  -- A change that concerns neither queue.
  pub quiet-Accounts :
      ((p t : ℕ) → waits a j d p t ≡ waits a j (look ds j) p t)
      → idle a j d ≡ idle a j (look ds j)
      → Accounts a q changed f
  unfolding due spare
  quiet-Accounts w i =
      update-Accounts queue_ok free_ok free_length
        (λ p t h. ground (arith, ready_exact p t h, w p t, ap (look ds)))
        (λ k. ground (arith, free_exact k, i, ap (look ds)))

  pub value-index : value d.tid % 256 ≡ j
  value-index = ground (arith, same, ids j lt)

pub push-count :
    (q : PriorityQueue) {q' : PriorityQueue} (pr x : ℕ)
    → Levels'.IsValid q
    → push q pr x ≡ ok q'
    → (pr < 32)
      × ((p t : ℕ)
          → count t (view q' p) ≡ count t (view q p) + (if pr == p && x == t then 1 else 0))
unfolding Levels.push
push-count q {q'} pr x v e =
    let same : Levels.push (view q) pr x ≡ ok (view q') =
      sym (push_refines_levels q v pr x) ∙ ap (map_ok view) e in
    let room : pr < 32 = ground (arith, same) in
    let grown : view q' ≡ Levels.update (view q) pr (view q pr ++ (x ∷ [])) =
      ground (arith, same) in
    (
      room,
      λ p t.
          ap (λ l. count t (l p)) grown
          ∙ ground (arith, count-snoc t x (view q pr), ap (λ k. count t (view q k))),
    )

-- A task that is not active, blocked before, becomes ready and joins the ready queue.
pub wake-Accounts :
    {a : ℕ} {q q' : PriorityQueue} {ds : List TaskDescriptor} {f : Queue} (v : Accounts a q ds f)
    (j : ℕ) (d : TaskDescriptor)
    → j < 64
    → d.tid ≡ (look ds j).tid
    → j ≢ a
    → is_state d.state TaskState.ready ≡ true
    → is_state d.state TaskState.zombie ≡ false
    → is_state (look ds j).state TaskState.ready ≡ false
    → is_state (look ds j).state TaskState.zombie ≡ false
    → push q d.priority (value d.tid) ≡ ok q'
    → Accounts a q' (set ds j d) f
unfolding due spare waits idle
wake-Accounts {a} {q} {q'} {ds} v j d lt same ne r z old_r old_z e =
    let (urgent, counted) = push-count q d.priority (value d.tid) v.queue_ok e in
    let index = value-index v j d lt same (λ _. urgent) in
    update-Accounts v j d lt same (λ _. urgent)
      (push-IsValid q v.queue_ok d.priority (value d.tid) e) v.free_ok v.free_length
      (λ p t h.
        ground (arith, counted p t, v.ready_exact p t h, index, ap (look ds), ap (λ k. k % 256)))
      (λ k. ground (arith, v.free_exact k, ap (look ds)))
