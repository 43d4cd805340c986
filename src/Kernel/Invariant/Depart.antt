-- ===== src/Kernel/Invariant/Depart.antt =====
-- The task that ran is no longer the active one.
use burrit_osprivate.Prelude.{
  ℕ, inl, inr, ◌%◌, ◌≤◌, ◌<◌, ◌≡◌, refl, sym, ap, ◌∙◌, subst, true, false, List, [], ◌∷◌, ◌++◌,
  arith, length, set, length-set, dec_lt,
}
use burrit_osprivate.Prelude.Word.{to_u8}
use burrit_osprivate.Prelude.Count.{count, count-snoc, length-distinct}
use burrit_osprivate.Prelude.Result.{ok, map_ok, Result-cases, ok_or}
use burrit_osprivate.Queue
use burrit_osprivate.Queue.{Queue}
use burrit_osprivate.Queue.Fifo
use burrit_osprivate.Queue.Inv as Ring
use burrit_osprivate.Queue.Refine.{contents, length-contents, push_refines_fifo, length-push}
use burrit_osprivate.PriorityQueue.{PriorityQueue}
use burrit_osprivate.PriorityQueue.Inv.{view}
use burrit_osprivate.PriorityQueue.Levels.{update}
use burrit_osprivate.PriorityQueue.Refine.{view-high}
use burrit_osprivate.PriorityQueue.Serve.{count-update}
use burrit_osprivate.Kernel.TaskTable.{TaskDescriptor, TaskState, is_state, value}
use burrit_osprivate.Kernel.Invariant.{look, waits, due, idle, spare, Accounts}
use burrit_osprivate.Kernel.Invariant.Messages.{is_state-excl}
use burrit_osprivate.Kernel.Invariant.Update.{look-set}
use burrit_osprivate.Kernel.Invariant.Settled.{Settled}

module _ {a : ℕ} {q : PriorityQueue} {ds : List TaskDescriptor} {f : Queue}
    (v : Accounts a q ds f) where
  -- The levels from 32 on are empty, as they have to be.
  ready_all : (p t : ℕ) → count t (view q p) ≡ due a ds p t
  unfolding due waits is_state
  ready_all p t = elim (dec_lt p 32) [
    | yes lt ↦ v.ready_exact p t lt
    | no ge ↦
        ap (count t) (view-high q v.queue_ok p (omega arith))
        ∙ ground (arith, v.priorities (t % 256))
  ]

  -- The task is blocked.
  pub blocked-Settled :
      is_state (look ds a).state TaskState.ready ≡ false
      → is_state (look ds a).state TaskState.zombie ≡ false
      → Settled (view q) ds f
  unfolding due waits spare idle
  blocked-Settled r z = record {
    free_ok = v.free_ok;
    free_length = v.free_length;
    size = v.size;
    ids = v.ids;
    generations = v.generations;
    priorities = v.priorities;
    ready_exact = λ p t. ground (arith, ready_all p t, r, ap (look ds));
    free_exact = λ i. ground (arith, v.free_exact i, z, ap (look ds));
  }

  -- The task joins the ready queue.
  pub joined-Settled :
      is_state (look ds a).state TaskState.ready ≡ true
      → Settled
          (update
            (view q)
            (look ds a).priority
            (view q (look ds a).priority ++ (value (look ds a).tid ∷ [])))
          ds
          f
  unfolding due waits spare idle is_state
  joined-Settled r =
      let z = is_state-excl _ TaskState.ready TaskState.zombie r refl in
      let index : value (look ds a).tid % 256 ≡ a =
        ground (arith, v.ids a v.active_in, v.active_in) in
      record {
        free_ok = v.free_ok;
        free_length = v.free_length;
        size = v.size;
        ids = v.ids;
        generations = v.generations;
        priorities = v.priorities;
        ready_exact = λ p t.
            count-update (view q) (look ds a).priority (value (look ds a).tid) p t
            ∙ ground (arith, ready_all p t, index, r, ap (look ds));
        free_exact = λ i. ground (arith, v.free_exact i, z, ap (look ds));
      }

  -- A descriptor is missing among the free ones, so there is room.
  room : f.count < 64
  unfolding spare idle
  room =
      let one : length (a ∷ contents f) ≤ 64 =
        length-distinct 64 (a ∷ contents f) (λ i. ground (arith, v.free_exact i))
          (λ i h. ground (arith, v.free_exact i, v.active_in)) in
      omega (arith, one, length-contents f)

  returned :
      (f' : Queue) × (Queue.push_u8 f a ≡ ok f')
      × Ring.IsValid f'
      × (f'.length ≡ 64)
      × (contents f' ≡ contents f ++ (a ∷ []))
  unfolding Queue.push_u8 Fifo.push
  returned =
      let small : to_u8 a ≡ a = omega (arith, v.active_in) in
      let refined = push_refines_fifo f v.free_ok a in
      let open_room : Fifo.push f.length (contents f) a ≡ ok (contents f ++ (a ∷ [])) =
        ground (arith, room, length-contents f, v.free_length) in
      elim (Result-cases (Queue.push f a)) [
        | inl (f', e) ↦
            let held : ok (contents f') ≡ ok (contents f ++ (a ∷ [])) =
              sym (ap (map_ok contents) e) ∙ refined ∙ open_room in
            (
              f',
              ap (Queue.push f) small ∙ e,
              Ring.push-IsValid f v.free_ok a e,
              length-push f a e ∙ v.free_length,
              cc,
            )
        | inr (r, e) ↦ absurd (cc (sym (ap (map_ok contents) e) ∙ refined ∙ open_room))
      ]

  -- The task has ended: its descriptor `d` is free again.
  pub freed-Settled :
      (d : TaskDescriptor) {f' : Queue}
      → is_state (look ds a).state TaskState.zombie ≡ true
      → is_state d.state TaskState.zombie ≡ true
      → d.tid.id ≡ a
      → d.tid.generation < 256
      → ok_or (Queue.push_u8 f a) f ≡ f'
      → Settled (view q) (set ds a d) f'
  unfolding due waits spare idle is_state
  freed-Settled d z z' id small same =
      let (f', pushed, valid, size, held) = returned in
      let seen = λ (i : ℕ). look-set ds a i d v.size v.active_in in
      subst (Settled (view q) (set ds a d)) (sym (ap (λ r. ok_or r f) pushed) ∙ same) (record {
        free_ok = valid;
        free_length = size;
        size = rw length-set v.size;
        ids = λ i h. ground (arith, seen i, v.ids i h, id);
        generations = λ i h. ground (arith, seen i, v.generations i h, small);
        priorities = λ i h. ground (arith, seen i, v.priorities i h, z');
        ready_exact = λ p t. ground (
          arith,
          seen (t % 256),
          ready_all p t,
          is_state-excl _ TaskState.zombie TaskState.ready z' refl,
          is_state-excl _ TaskState.zombie TaskState.ready z refl,
          ap (look ds),
        );
        free_exact = λ i.
            ap (count i) held
            ∙ count-snoc i a (contents f)
            ∙ ground (arith, seen i, v.free_exact i, z', v.active_in);
      })
