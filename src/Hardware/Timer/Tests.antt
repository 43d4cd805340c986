-- ===== src/Hardware/Timer/Tests.antt =====
-- Runs of hardware/ts7200/timer.c, and an instance of the theorem.
use burrit_osprivate.Prelude.{◌≡◌, refl}
use burrit_osprivate.Hardware.Timer.{TimerState, timer_1, timer_4, sample}

abbrev late : TimerState
late = record { start = 0; last = 0xfffffff0; delta = 5; total = 100 }

-- 32 ticks later
wraps : (sample timer_4 0x10 late).delta ≡ 31
unfolding sample
wraps = refl

counts_down : (sample timer_1 0x10 (record late { last = 0x50 })).delta ≡ 0x40
unfolding sample
counts_down = refl
