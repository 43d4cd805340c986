-- ===== src/User/Terminal/Tests.antt =====
-- The terminal driver with two strings and a notifier.
use burrit_osprivate.Prelude.{
  ℕ, ◌-◌, ◌^◌, ◌≡◌, ◌<◌, refl, List, [], ◌∷◌, ◌++◌, arith, replicate, length, length-replicate, inl,
  inr,
}
use burrit_osprivate.Prelude.Outcome.{done}
use burrit_osprivate.Queue.{Queue}
use burrit_osprivate.User.Terminal.{
  Mail, Received, Sent, send, Terminal, copy, putstr, transmit, serve, run,
}
use burrit_osprivate.User.Terminal.Ring.{bytes}
use burrit_osprivate.User.Terminal.Step.{sent_all, pending, printed_all, Valid, Proper, AllProper}
use burrit_osprivate.User.Terminal.Order.{run-order, run-done_output, putstr-empty}

abbrev input_queue : Queue
input_queue = record { buf = replicate 32 0; head = 0; tail = 0; count = 0; length = 32 }

abbrev driver : Terminal
driver = record {
  input_id = 3;
  output_id = 4;
  input = input_queue;
  output = replicate 4096 0;
  head = 0;
  tail = 0;
  count = 0;
  getc_task = 0;
  ready = 0;
}

abbrev put : List ℕ → Received
put s = record { sender = 9; mail = record { type = 18; body = 0; text = s } }

abbrev next : Received
next = record { sender = 4; mail = record { type = 15; body = 0; text = [] } }

abbrev messages : List Received
messages = next ∷ put (72 ∷ 105 ∷ []) ∷ next ∷ put (33 ∷ []) ∷ []

driver-Valid : Valid driver
driver-Valid = record {
  size = length-replicate {A = ℕ} 4096 0;
  head_in = omega arith;
  tail_at = refl;
  room = omega arith;
  idle = λ h. refl;
  apart = ground arith;
  input_apart = ground arith;
  known = ground arith;
}

put-Proper : (c : ℕ) (s : List ℕ) → length (c ∷ s) < 2 ^ 31 → Proper 4 (put (c ∷ s))
put-Proper c s short = record {
  text = λ h e. cc;
  short = short;
  asks = λ h. absurd (omega (arith, h));
  notifier = λ h. absurd (omega (arith, h));
}

next-Proper : Proper 4 next
next-Proper = record {
  text = λ h. absurd (omega (arith, h));
  short = omega arith;
  asks = λ h. refl;
  notifier = λ h. refl;
}

all_proper : AllProper 4 messages
all_proper = (
  next-Proper,
  (put-Proper 72 (105 ∷ []) (omega arith), (next-Proper, (put-Proper 33 [] (omega arith), tt))),
)

run-done_output_example :
    (outs : List (List Sent)) × (t' : Terminal) × (run driver messages ≡ done (outs, t'))
run-done_output_example =
    run-done_output driver messages driver-Valid all_proper
      (inr refl, (inl refl, (inr refl, (inl refl, tt)))) (omega arith)

-- The notifier waits, and then "Hi" comes.
abbrev hello : Mail
hello = record { type = 18; body = 0; text = 72 ∷ 105 ∷ [] }

abbrev printed_hello : List (List Sent)
printed_hello = [] ∷ (send 9 hello ∷ send 4 (record hello { body = 72 }) ∷ []) ∷ []

abbrev after_hello : Terminal
after_hello = record driver { output = 72 ∷ 105 ∷ replicate 4094 0; head = 1; tail = 2; count = 1 }

hello_done : run driver (next ∷ put (72 ∷ 105 ∷ []) ∷ []) ≡ done (printed_hello, after_hello)
unfolding run serve transmit putstr copy
hello_done = refl

run-order_example :
    sent_all 4 printed_hello ++ bytes (pending after_hello)
    ≡ bytes (pending driver) ++ printed_all (next ∷ put (72 ∷ 105 ∷ []) ∷ [])
run-order_example =
    run-order driver (next ∷ put (72 ∷ 105 ∷ []) ∷ []) driver-Valid
      (next-Proper, (put-Proper 72 (105 ∷ []) (omega arith), tt)) hello_done

putstr-empty_example :
    (t' : Terminal) × (putstr
        (record driver { ready = 1 })
        9
        (record { type = 18; body = 0; text = [] })
      ≡ done (
        send 9 (record { type = 18; body = 0; text = [] })
            ∷ send 4 (record { type = 18; body = 0; text = [] })
            ∷ [],
        t',
      ))
    × (t'.count ≡ 2 ^ 32 - 1)
putstr-empty_example = putstr-empty (record driver { ready = 1 }) 9 18 0 (ground arith) refl
