-- ===== src/User/Commander/Tests.antt =====
-- Commands as text, and a train that waits for one.
use burrit_osprivate.Prelude.{
  ℕ, ◌+◌, ◌*◌, ◌≡◌, ◌⊎◌, refl, some, List, [], ◌∷◌, arith, set, replicate,
}
use burrit_osprivate.String.{stratoui, strskipws}
use burrit_osprivate.User.Messages.{envelope, Reply, reply}
use burrit_osprivate.User.Commander.{
  parsed, begins, parse_speed, parse_sensor, sensor, parse_train_command, no_task, hand_over, serve,
}
use burrit_osprivate.User.Commander.Parse.{numbers, goal, parse-written}
use burrit_osprivate.User.Commander.Serve.{Handed, serve-Handed}

-- "tr 58 10"
abbrev tr_58_10 : List ℕ
tr_58_10 = b't' ∷ b'r' ∷ 32 ∷ b'5' ∷ b'8' ∷ 32 ∷ b'1' ∷ b'0' ∷ []

parse_58 : parse_train_command tr_58_10 0 0 ≡ parsed 58 22 10
unfolding parse_train_command begins parse_speed stratoui strskipws
parse_58 = refl

-- "gt 58 c"
no_number :
    parse_train_command (b'g' ∷ b't' ∷ 32 ∷ b'5' ∷ b'8' ∷ 32 ∷ b'c' ∷ []) 0 0 ≡ parsed 58 98 31
unfolding parse_train_command begins parse_sensor sensor stratoui strskipws
no_number = refl

parse-written_example :
    (parse_train_command (numbers b't' b'r' 58 10) 0 0 ≡ parsed 58 22 10)
    × (parse_train_command (goal b'g' b't' 58 2 (4 + 1)) 0 0 ≡ parsed 58 98 (2 * 16 + 4))
parse-written_example =
    parse-written 58 10 2 4 (omega arith) (omega arith) (omega arith) (omega arith)

abbrev waiting : List ℕ
waiting = set (replicate 80 no_task) 58 12

told_58 :
    serve waiting 9 (envelope 0 1000) tr_58_10
    ≡ some (reply 12 (envelope 22 10) ∷ reply 9 (envelope 22 10) ∷ [], replicate 80 no_task)
unfolding serve hand_over parse_train_command begins parse_speed stratoui strskipws
told_58 = refl

serve-Handed_example :
    ((info : ℕ) × (serve waiting 9 (envelope 0 1000) tr_58_10
        ≡ some (reply 9 (envelope 30 info) ∷ [], waiting)))
    ⊎ ((out : List Reply) × (waiting' : List ℕ) × (serve waiting 9 (envelope 0 1000) tr_58_10
          ≡ some (out, waiting'))
        × Handed waiting 9 out waiting')
serve-Handed_example = serve-Handed waiting 9 (envelope 0 1000) tr_58_10 refl
