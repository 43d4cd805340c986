-- ===== src/User/Clock/Client.antt =====
-- user/services/clockService.c: what a task asks of the clock server. Where it asks nothing it calls
-- `sysPass`, which is `none` here.
use burrit_osprivate.Prelude.{
  ℕ, ◌≤◌, ◌<◌, ◌^◌, ◌≡◌, ◌⊎◌, refl, ap, ◌∙◌, false, Option, some, none, Bool-cases, if-false,
  if-true, inl, inr, if◌then◌else◌, arith,
}
use burrit_osprivate.Prelude.Word.{add32, sub32}
use burrit_osprivate.Kernel.Data.{MessageEnvelope}
use burrit_osprivate.User.Messages.{envelope}
use burrit_osprivate.User.Clock.{expired}
use burrit_osprivate.User.Clock.Run.{Proper}

unfoldable pub delay_by : ℕ → Option MessageEnvelope
delay_by ticks = if expired ticks then none else some (envelope 7 ticks)

unfoldable pub long_delay_by : ℕ → Option MessageEnvelope
long_delay_by mult_150_ms = if expired mult_150_ms then none else some (envelope 26 mult_150_ms)

-- With the time that the server answers.
unfoldable pub delay_until : ℕ → ℕ → Option MessageEnvelope
delay_until time v = delay_by (sub32 v time)

none_ne_some : {A : Type 0} {m : MessageEnvelope} → none ≡ some m → A
none_ne_some e = cc

some-injective : {m n : MessageEnvelope} → some m ≡ some n → m ≡ n
some-injective e = cc

asked-Proper :
    (kind ticks : ℕ) {m : MessageEnvelope} (sender : ℕ)
    → (if expired ticks then none else some (envelope kind ticks)) ≡ some m
    → Proper (record { sender = sender; message = m })
asked-Proper kind ticks {m} sender e = elim (Bool-cases (expired ticks)) [
  | inl c ↦ none_ne_some (if-true (expired ticks) _ _ c e)
  | inr c ↦ λ h.
      let same =
        ap (λ (m : MessageEnvelope). m.body) (some-injective (if-false (expired ticks) _ _ c e)) in
      (ground (arith, c, same), ground (arith, c, same))
]

-- What `clockDelayBy` and `clockLongDelayBy` send, if they send anything, is a proper request to
-- sleep, for at least a tick and not for a negative number of them.
pub delay-Proper :
    (ticks sender : ℕ) {m : MessageEnvelope}
    → (delay_by ticks ≡ some m) ⊎ (long_delay_by ticks ≡ some m)
    → Proper (record { sender = sender; message = m })
unfolding delay_by long_delay_by
delay-Proper ticks sender (inl e) = asked-Proper 7 ticks sender e
delay-Proper ticks sender (inr e) = asked-Proper 26 ticks sender e

-- `clockDelayUntil` asks to sleep for the ticks from now to a time that is less than 2 ^ 31 of
-- them ahead, also where the clock wraps in between.
pub delay_until-ahead :
    (time ticks : ℕ)
    → time < 2 ^ 32
    → 1 ≤ ticks
    → ticks < 2 ^ 31
    → delay_until time (add32 time ticks) ≡ some (envelope 7 ticks)
unfolding delay_until delay_by
delay_until-ahead time ticks lt low high =
    let left : sub32 (add32 time ticks) time ≡ ticks = omega arith in
    let some_left : expired ticks ≡ false = ground arith in ap delay_by left ∙ rw some_left refl
