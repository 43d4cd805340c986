-- ===== src/Kernel/SystemCall.antt =====
-- kernel/systemCall.h and kernel/systemCall.c: what a task asks of the kernel.
mod Calls
mod Message
mod Query
unfoldable pub use Calls.*
unfoldable pub use Message.*
unfoldable pub use Query.*
use burrit_osprivate.Prelude.{ℕ, get_or, set}
use burrit_osprivate.Prelude.Word.{add32}
use burrit_osprivate.Hardware.Timer.{timer_4, sample}
use burrit_osprivate.Prelude.Outcome.{Outcome, done}
use burrit_osprivate.Kernel.Data.{Kernel, Board, current, put_desc}

-- The time since the last sample goes to the active task.
unfoldable pub charge : Kernel → ℕ → Kernel
charge k now =
    let s = sample timer_4 now k.perf_state in
    let d = current k in
    let p = set d.performance 1 (add32 (get_or d.performance 1 0) s.delta) in
    put_desc (record k { perf_state = s }) k.active_task (record d { performance = p })

-- The `switch` of `systemCallHandler`.
unfoldable pub serve : Board → Call → Kernel → ℕ → ℕ → ℕ → ℕ → Outcome (ℕ × Kernel)
serve b Call.exit k arg0 arg1 arg2 now = sys_exit k
serve b Call.shutdown k arg0 arg1 arg2 now = sys_shutdown k
serve b Call.kill k arg0 arg1 arg2 now = sys_kill k
serve b Call.create k arg0 arg1 arg2 now = sys_create b k arg0 arg1 arg2
serve b Call.send k arg0 arg1 arg2 now = sys_send k arg0 arg1
serve b Call.receive k arg0 arg1 arg2 now = sys_receive k arg0 arg1
serve b Call.reply k arg0 arg1 arg2 now = sys_reply k arg0 arg1
serve b Call.perf_reset k arg0 arg1 arg2 now = done (0, sys_perf_reset k now)
serve b Call.write k arg0 arg1 arg2 now = sys_write k arg0
serve b Call.await k arg0 arg1 arg2 now = sys_await k arg0
serve b Call.read k arg0 arg1 arg2 now = sys_await k arg0
serve b Call.alloc k arg0 arg1 arg2 now = sys_alloc k
serve b Call.free k arg0 arg1 arg2 now = sys_free k arg0
serve b c k arg0 arg1 arg2 now = done (query b c k arg0 arg1, k)

-- `now` is what the debug timer reads on entry, and `later` what a second reading gives.
unfoldable pub system_call_handler : Board → Kernel → ℕ → ℕ → ℕ → ℕ → ℕ → ℕ → Outcome (ℕ × Kernel)
system_call_handler b k id arg0 arg1 arg2 now later =
    serve b (decode id) (charge k now) arg0 arg1 arg2 later
