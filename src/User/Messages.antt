-- ===== src/User/Messages.antt =====
-- user/messageTypes.h and the envelopes of kernel/message.h as a server sees them: it receives a
-- message with the id of its sender, and it replies to tasks.
use burrit_osprivate.Prelude.{ℕ, ◌+◌, ◌*◌, ◌/◌, ◌%◌}
use burrit_osprivate.Kernel.Data.{MessageEnvelope}

abbrev pub envelope : ℕ → ℕ → MessageEnvelope
envelope type body = record { type = type; body = body }

-- MessageU8 and MessageU16 of an envelope, which are the low bytes of its body.
abbrev pub body_u8 : MessageEnvelope → ℕ
body_u8 m = m.body % 256

abbrev pub body_u16 : MessageEnvelope → ℕ
body_u16 m = m.body % 65536

abbrev pub set_u8 : MessageEnvelope → ℕ → MessageEnvelope
set_u8 m v = record m { body = m.body / 256 * 256 + v % 256 }

abbrev pub set_u16 : MessageEnvelope → ℕ → MessageEnvelope
set_u16 m v = record m { body = m.body / 65536 * 65536 + v % 65536 }

-- A call of `sysReply`.
pub record Reply : Type 0 where
  pub to : ℕ
  pub message : MessageEnvelope

abbrev pub reply : ℕ → MessageEnvelope → Reply
reply to message = record { to = to; message = message }

-- What `sysReceive` gives.
pub record Request : Type 0 where
  pub sender : ℕ
  pub message : MessageEnvelope
