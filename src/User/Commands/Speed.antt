-- ===== src/User/Commands/Speed.antt =====
-- A speed for a train, from `trainSetSpeed` through the train driver to the bytes on the wire.
use burrit_osprivate.Prelude.{
  ℕ, ◌+◌, ◌*◌, ◌/◌, ◌%◌, ◌≤◌, ◌<◌, ◌≡◌, ◌≢◌, refl, true, false, [], ◌∷◌, arith, leb, ◌==◌, ◌&&◌,
  ==-eq_false,
}
use burrit_osprivate.Prelude.Outcome.{done}
use burrit_osprivate.Kernel.Data.{MessageEnvelope}
use burrit_osprivate.User.Messages.{envelope, body_u16, set_u16, reply}
use burrit_osprivate.User.Driver.{
  Driver, driver_type, is_command, prime, full_command, begin_sensors, with_command, send_now, take,
  serve, written,
}
use burrit_osprivate.User.Commands.{train_set_speed}

-- The message holds the command in its body, and is primed to hold it in its two fields.
speed-command :
    (body train speed : ℕ)
    → train < 256
    → speed < 256
    → full_command (prime (set_u16 (envelope 22 body) (train * 256 + speed))) ≡ train * 256 + speed
unfolding full_command prime
speed-command body train speed t s = omega arith

driver_type-speed : (train speed : ℕ) → speed < 16 → driver_type (train * 256 + speed) ≡ done 21
unfolding driver_type
driver_type-speed train speed s = ground arith

-- Where the output notifier waits, a message of trainSetSpeed with a train from 1 to 80 and a speed
-- below 16 makes the driver tell the notifier to write the two bytes of the speed and the train, in
-- this order, and answer the task that sent it.
pub set_speed-written :
    (d : Driver) (from body train speed : ℕ)
    → 1 ≤ train
    → train ≤ 80
    → speed < 16
    → d.waiting ≢ 0
    → (m : MessageEnvelope) × (c : MessageEnvelope) × (answer : MessageEnvelope) × (train_set_speed
          body train speed
        ≡ done m)
      × (serve d (record { sender = from; message = m })
          ≡ done (reply d.output c ∷ reply from answer ∷ [], record d { command = c; waiting = 0 }))
      × (written c ≡ speed ∷ train ∷ [])
unfolding train_set_speed serve take begin_sensors is_command send_now written
set_speed-written d from body train speed low high s waits =
    let m : MessageEnvelope = set_u16 (envelope 22 body) (train * 256 + speed) in
    let word = train * 256 + speed in
    let c : MessageEnvelope = with_command d.command word 21 in
    let inside : (leb train 80 && leb 1 train) ≡ true = ground (arith, low, high) in
    let free : (d.waiting == 0) ≡ false = ==-eq_false d.waiting 0 waits in
    let low_byte : body_u16 c % 256 ≡ speed = omega (arith, s, high) in
    let high_byte : body_u16 c / 256 ≡ train = omega (arith, s, high) in
    (
      m,
      c,
      prime m,
      rw inside refl,
      rw
          (
            free,
            speed-command body train speed (omega (arith, high)) (omega (arith, s)),
            driver_type-speed train speed s,
          )
          refl,
      rw (low_byte, high_byte) refl,
    )
