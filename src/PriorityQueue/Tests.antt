-- ===== src/PriorityQueue/Tests.antt =====
-- Runs of common/priorityQueue.c, and instances of the theorems.
use burrit_osprivate.Prelude.{◌≡◌, refl, List, [], ◌∷◌, replicate}
use burrit_osprivate.Prelude.Result.{full, empty, map_ok}
use mathlib.Core.Option
use burrit_osprivate.PriorityQueue.{
  PriorityQueue, init, refuses, append, take_at, push, pop, push_pop, run,
}
use burrit_osprivate.Utils.{ctz}
use burrit_osprivate.PriorityQueue.Levels
use burrit_osprivate.PriorityQueue.Levels.{Op, Reply}
use burrit_osprivate.PriorityQueue.Inv.{IsValid, view}
use burrit_osprivate.PriorityQueue.Refine.{push_refines_levels, pop_refines_levels}
use burrit_osprivate.PriorityQueue.Exchange.{push_pop_refines_levels}
use burrit_osprivate.PriorityQueue.Run.{HasSizes, init-IsValid, run-init_levels}

-- The structure before its initialisation.
abbrev raw : PriorityQueue
raw = record {
  buf = replicate 512 7;
  head = replicate 32 3;
  tail = replicate 32 5;
  priority_bits = 9;
}

abbrev script : List Op
script =
    Op.next
    ∷ Op.add 5 11
    ∷ Op.add 2 12
    ∷ Op.add 5 13
    ∷ Op.exchange 1 14
    ∷ Op.exchange 2 15
    ∷ Op.next
    ∷ Op.next
    ∷ Op.add 32 16
    ∷ Op.exchange 5 17
    ∷ Op.next
    ∷ Op.next
    ∷ []

replies :
    run (init raw) script
    ≡ Reply.failed empty
      ∷ Reply.done
      ∷ Reply.done
      ∷ Reply.done
      ∷ Reply.keep
      ∷ Reply.value 12
      ∷ Reply.value 15
      ∷ Reply.value 11
      ∷ Reply.failed full
      ∷ Reply.value 13
      ∷ Reply.value 17
      ∷ Reply.failed empty
      ∷ []
unfolding run init push pop push_pop refuses append take_at ctz
replies = refl

raw-HasSizes : HasSizes raw
raw-HasSizes = record { buf_size = refl; head_size = refl; tail_size = refl }

ready : IsValid (init raw)
ready = (init-IsValid raw raw-HasSizes).0

push_refines_levels_example : map_ok view (push (init raw) 4 9) ≡ Levels.push (view (init raw)) 4 9
push_refines_levels_example = push_refines_levels (init raw) ready 4 9

pop_refines_levels_example :
    map_ok (λ (x, q'). (x, view q')) (pop (init raw)) ≡ Levels.pop (view (init raw))
pop_refines_levels_example = pop_refines_levels (init raw) ready

push_pop_refines_levels_example :
    map_ok (Option.map (λ (y, q'). (y, view q'))) (push_pop (init raw) 4 9)
    ≡ Levels.push_pop (view (init raw)) 4 9
push_pop_refines_levels_example = push_pop_refines_levels (init raw) 4 9 ready

run-init_levels_example : run (init raw) script ≡ Levels.run (λ p. []) script
run-init_levels_example = run-init_levels raw script raw-HasSizes
