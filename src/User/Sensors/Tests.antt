-- ===== src/User/Sensors/Tests.antt =====
-- Two tasks that wait for sensors of the first group.
use burrit_osprivate.Prelude.{ℕ, ◌≡◌, refl, List, [], ◌∷◌, ◌++◌, arith, replicate, set}
use burrit_osprivate.Prelude.Outcome.{done}
use burrit_osprivate.Queue
use burrit_osprivate.Queue.{Queue}
use burrit_osprivate.User.Messages.{envelope, reply}
use burrit_osprivate.User.Sensors.{
  Sensors, replied, copied, no_task, triggered, Scan, wake, scan, sweep, give_all, courier,
}
use burrit_osprivate.User.Sensors.Wakes.{woken, Handled, scan-woken}

-- A1 and A3 have a task, and A2, A3 and A16 are triggered.
abbrev table : List ℕ
table = set (set (replicate 80 no_task) 0 20) 2 21

scan-woken_example :
    (s : Scan) × (scan 16 0 0
        (record { group = 0x6001; message = envelope 17 0; blocked = table; out = [] })
      ≡ s)
    × Handled 0x6001 table 0 16 s
    × (s.out ≡ [] ++ woken 16 (envelope 192 0) 0x6001 table 0 0)
scan-woken_example = scan-woken 0x6001 table 0 (envelope 17 0) [] (omega arith) refl

abbrev empty : Queue
empty = record { buf = replicate 16 0; head = 0; tail = 0; count = 0; length = 16 }

abbrev one : Queue
one = record { buf = set (replicate 16 0) 0 7; head = 0; tail = 1; count = 1; length = 16 }

abbrev sensors : Sensors
sensors = record {
  buffer = replicate 5 0;
  bodies = set (replicate 16 0) 7 3000;
  body_free = empty;
  tasks = record one { buf = set (replicate 16 0) 0 30 };
  body_index = one;
  blocked = table;
  startup = 0;
}

rising : triggered 0x2000 0x6001 ≡ 0x4001
unfolding triggered
rising = refl

-- The task of A3 is woken, and the other two bits are a change for the task 30.
brought :
    courier sensors (envelope 17 0) (0x6001 ∷ 0 ∷ 0 ∷ 0 ∷ 0 ∷ [])
    ≡ done (
      replied (reply 21 (envelope 192 0))
          ∷ copied 3000 (0x6001 ∷ 0 ∷ 0 ∷ 0 ∷ 0 ∷ []) 5
          ∷ replied (reply 30 (envelope 192 0))
          ∷ [],
      record sensors {
        buffer = 0x6001 ∷ 0 ∷ 0 ∷ 0 ∷ 0 ∷ [];
        tasks = record one { buf = set (replicate 16 0) 0 30; head = 1; count = 0 };
        body_index = record one { head = 1; count = 0 };
        body_free = one;
        blocked = set (replicate 80 no_task) 0 20;
      },
    )
unfolding courier sweep scan wake triggered give_all Queue.pop Queue.push_u16 Queue.push
brought = refl
