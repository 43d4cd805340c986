-- ===== src/User/Yard/Tests.antt =====
-- Two registrations of one train.
use burrit_osprivate.Prelude.{ℕ, ◌≡◌, refl, some, List, [], ◌∷◌, arith}
use burrit_osprivate.Kernel.Data.{MessageEnvelope}
use burrit_osprivate.User.Messages.{envelope, reply, Request}
use burrit_osprivate.User.Yard.{
  Crew, locomotive, replied, launched, no_task, empty, serve, run, train_register, train_launch,
  train_who_is,
}
use burrit_osprivate.User.Yard.Registered.{last_registered, identified, train_who_is-registered}

abbrev same : Crew → MessageEnvelope → MessageEnvelope
same d m = m

abbrev from : ℕ → MessageEnvelope → Request
from sender m = record { sender = sender; message = m }

abbrev messages : List Request
messages =
    from 20 (train_register 0 58) ∷ from 9 (train_launch 0 62) ∷ from 21 (train_register 0 58) ∷ []

launches :
    serve same empty (from 9 (train_launch 0 62))
    ≡ some (launched locomotive (envelope 96 62) ∷ replied (reply 9 (envelope 96 62)) ∷ [], empty)
unfolding serve
launches = refl

last : last_registered 58 no_task messages ≡ 21
last = refl

train_who_is-registered_example :
    (table : List ℕ) × (run same empty messages ≡ some table)
    × (train_who_is same table 9 0 58 ≡ some (identified (last_registered 58 no_task messages)))
train_who_is-registered_example =
    train_who_is-registered same messages 9 0 58 (omega arith, (omega arith, (omega arith, tt)))
      (omega arith, (omega arith, (omega arith, tt))) (omega arith)
