-- ===== src/Trains/Root.antt =====
-- `intSqrt` of trains/trainMath.h, Newton's method on words.
pub mod Step
pub mod Descend
mod Tests
use burrit_osprivate.Prelude.{ℕ, zero, suc, ◌/◌, ◌==◌, if◌then◌else◌}
use burrit_osprivate.Prelude.Word.{add32}
use burrit_osprivate.Prelude.Outcome.{Outcome, done, halt}

-- `(k + (i/k)) >> 1`
abbrev pub next : ℕ → ℕ → ℕ
next i k = add32 k (i / k) / 2

-- The loop, with fuel: to run out of it is to loop for ever, and a division by 0 has no value
-- here. `delta`, the difference as an S32, is between -1 and 1 where it is 0, so the loop ends where
-- `k` stays.
unfoldable pub loop : ℕ → ℕ → ℕ → Outcome ℕ
loop zero i k = halt
loop (suc n) i k =
    let rest = loop n i (next i k) in
    if k == 0 then halt else if next i k == k then done (next i k) else rest

unfoldable pub int_sqrt : ℕ → ℕ → Outcome ℕ
int_sqrt fuel i = loop fuel i i
