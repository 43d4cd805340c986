-- ===== src/User/Names/Tests.antt =====
-- The name server with one client that asks early.
use burrit_osprivate.Prelude.{ℕ, ◌+◌, ◌<◌, ◌≡◌, refl, true, List, [], ◌∷◌, arith, replicate}
use burrit_osprivate.Prelude.Result.{ok}
use burrit_osprivate.Prelude.Outcome.{done, halt}
use burrit_osprivate.Prelude.Bits.{check_below, check_below_sound}
use burrit_osprivate.Queue
use burrit_osprivate.Queue.{Queue, is_pow_2}
use burrit_osprivate.User.Messages.{envelope, Reply, Request}
use burrit_osprivate.User.Names.{run, serve, early}
use burrit_osprivate.User.Names.Directory.{gathering, AllNamed, registrations, lookups}
use burrit_osprivate.User.Names.Register.{started, run-gathering}
use burrit_osprivate.User.Names.Answered.{replied, all_named, run-answered}
use burrit_osprivate.User.Names.Told.{told_all, Follows, AllFollow, registers}

abbrev blank : List ℕ
blank = replicate 32 0

abbrev none_waits : Queue
none_waits = record { buf = blank; head = 0; tail = 0; count = 0; length = 32 }

abbrev register : ℕ → ℕ → Request
register id name = record { sender = id; message = envelope 2 name }

abbrev ask : ℕ → ℕ → Request
ask id name = record { sender = id; message = envelope 1 name }

-- Task 20 asks for name 3, which task 8 registers later.
abbrev messages : List Request
messages =
    register 5 0
    ∷ register 6 1
    ∷ ask 20 3
    ∷ register 7 2
    ∷ register 8 3
    ∷ register 9 4
    ∷ register 10 5
    ∷ register 11 6
    ∷ register 12 7
    ∷ register 13 8
    ∷ register 14 9
    ∷ register 15 10
    ∷ ask 21 0
    ∷ []

init_u16_ok : Queue.init blank 32 ≡ ok none_waits
unfolding Queue.init is_pow_2
init_u16_ok = refl

init_u8_ok : Queue.init_u8 blank 32 ≡ ok none_waits
unfolding Queue.init_u8 Queue.init is_pow_2
init_u8_ok = refl

-- Name `n` is that of task `n + 5`.
abbrev holder : ℕ → ℕ
holder n = n + 5

registers_ok : (n id : ℕ) → n < 11 → id ≡ holder n → id < 65536 → Follows holder (register id n)
registers_ok n id lt e small = record {
  small = small;
  named = λ k. omega (arith, lt);
  holder = λ k. omega (arith, lt, e);
}

asks_ok : (n id : ℕ) → n < 11 → id < 65536 → Follows holder (ask id n)
asks_ok n id lt small = record {
  small = small;
  named = λ k. omega (arith, lt);
  holder = λ k. absurd (omega (arith, k));
}

abbrev registered : (n : ℕ) → n < 11 → Follows holder (register (n + 5) n)
registered n lt = registers_ok n (n + 5) lt refl (omega (arith, lt))

follow : AllFollow holder messages
follow = (
  registered 0 (omega arith),
  (
    registered 1 (omega arith),
    (
      asks_ok 3 20 (omega arith) (omega arith),
      (
        registered 2 (omega arith),
        (
          registered 3 (omega arith),
          (
            registered 4 (omega arith),
            (
              registered 5 (omega arith),
              (
                registered 6 (omega arith),
                (
                  registered 7 (omega arith),
                  (
                    registered 8 (omega arith),
                    (
                      registered 9 (omega arith),
                      (registered 10 (omega arith), (asks_ok 0 21 (omega arith) (omega arith), tt)),
                    ),
                  ),
                ),
              ),
            ),
          ),
        ),
      ),
    ),
  ),
)

complete_table : check_below (λ n. registers n 11 messages) 11 ≡ true
unfolding check_below
complete_table = refl

complete : (n : ℕ) → n < 11 → registers n 11 messages ≡ true
complete n h = check_below_sound (λ n. registers n 11 messages) 11 n complete_table h

named : AllNamed messages
named = all_named holder messages follow

run-gathering_example :
    run (started (replicate 11 0) none_waits none_waits) messages
    ≡ done (gathering (replicate 11 0) 11 [] messages)
run-gathering_example =
    run-gathering (replicate 11 0) blank blank messages refl named (omega arith) (omega arith)
      init_u16_ok init_u8_ok

-- Task 20, which asked early for name 3, is told that it is that of task 8, once.
run-answered_example :
    (outs : List (List Reply)) × (run (started (replicate 11 0) none_waits none_waits) messages
      ≡ done outs)
    × (replied outs ≡ registrations messages + lookups messages)
    × (told_all 20 8 outs ≡ 1)
run-answered_example =
    run-answered (replicate 11 0) blank blank holder messages 20 8 refl (omega arith) (omega arith)
      init_u16_ok init_u8_ok follow complete (omega arith) (omega arith)

-- A name without a place in the table.
outside : run (started (replicate 11 0) none_waits none_waits) (register 5 11 ∷ []) ≡ halt
unfolding run serve early
outside = refl
