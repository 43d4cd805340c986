-- ===== src/Queue/Tests.antt =====
-- Runs of common/queue.c, and instances of the theorems.
use burrit_osprivate.Prelude.{ℕ, ◌^◌, ◌≡◌, refl, ◌↔◌, List, [], ◌∷◌, arith, true}
use burrit_osprivate.Prelude.Result.{ok, err, generic, len, map_ok}
use burrit_osprivate.Queue.{Queue, is_pow_2, init, push, pop, peek, push_u8, push_u16, run}
use burrit_osprivate.Queue.Fifo
use burrit_osprivate.Queue.Fifo.{Op, put, get, look, Reply}
use burrit_osprivate.Queue.Inv.{IsValid, init_iff}
use burrit_osprivate.Queue.Mask.{is_pow_2_iff}
use burrit_osprivate.Queue.Refine.{contents, push_refines_fifo, pop_refines_fifo, run-init_fifo}

abbrev storage : List ℕ
storage = 90 ∷ 91 ∷ 92 ∷ 93 ∷ []

abbrev fresh : Queue
fresh = record { buf = storage; head = 0; tail = 0; count = 0; length = 4 }

-- 8, then 9, round the end of the storage
abbrev wrapped : Queue
wrapped = record { buf = 9 ∷ 7 ∷ 6 ∷ 8 ∷ []; head = 3; tail = 1; count = 2; length = 4 }

abbrev script : List Op
script = get ∷ put 1 ∷ put 2 ∷ look ∷ get ∷ put 3 ∷ put 4 ∷ put 5 ∷ put 6 ∷ get ∷ []

init_runs : (init storage 4 ≡ ok fresh) × (init storage 3 ≡ err len) × (init storage 0 ≡ err len)
unfolding init
init_runs = (refl, refl, refl)

widths : (push_u8 fresh 0x1ff ≡ push fresh 0xff) × (push_u16 fresh 0x1ffff ≡ push fresh 0xffff)
unfolding push_u8 push_u16 push
widths = (refl, refl)

replies :
    run fresh script
    ≡ Reply.failed generic
      ∷ Reply.done
      ∷ Reply.done
      ∷ Reply.value 1
      ∷ Reply.value 1
      ∷ Reply.done
      ∷ Reply.done
      ∷ Reply.done
      ∷ Reply.failed generic
      ∷ Reply.value 2
      ∷ []
unfolding run push pop peek
replies = refl

wrapped-IsValid : IsValid wrapped
wrapped-IsValid = record {
  bits = 2;
  narrow = omega arith;
  size = refl;
  storage = omega arith;
  head_in = omega arith;
  count_in = omega arith;
  tail_at = refl;
}

is_pow_2_iff_example : (is_pow_2 64 ≡ true) ↔ ((k : ℕ) × (64 ≡ 2 ^ k))
is_pow_2_iff_example = is_pow_2_iff 64 (omega arith)

init_iff_example :
    (((q : Queue) × (init storage 3 ≡ ok q)) ↔ ((k : ℕ) × (3 ≡ 2 ^ k)))
    × (¬ ((k : ℕ) × (3 ≡ 2 ^ k)) → init storage 3 ≡ err len)
init_iff_example = init_iff storage 3 (omega arith)

push_refines_fifo_example : map_ok contents (push wrapped 5) ≡ Fifo.push 4 (8 ∷ 9 ∷ []) 5
push_refines_fifo_example = push_refines_fifo wrapped wrapped-IsValid 5

pop_refines_fifo_example :
    map_ok (λ (x, q'). (x, contents q')) (pop wrapped) ≡ Fifo.pop (8 ∷ 9 ∷ [])
pop_refines_fifo_example = pop_refines_fifo wrapped wrapped-IsValid

run-init_fifo_example : run fresh script ≡ Fifo.run 4 [] script
unfolding init
run-init_fifo_example = run-init_fifo storage 4 script (omega arith) (omega arith) refl
