-- ===== src/Kernel/Print/Escape.antt =====
-- What printBlocking of kernel/print.c makes of a backslash.
use burrit_osprivate.Prelude.{ℕ, ◌≡◌, refl, List, [], ◌∷◌}
use burrit_osprivate.Prelude.Outcome.{done}
use burrit_osprivate.User.Format.{Arg}
use burrit_osprivate.Kernel.Print.{escape, plain, write_blocking}

write-escape :
    (fmt : List ℕ) (args : List Arg) → write_blocking fmt escape args ≡ done (fmt, escape)
unfolding write_blocking
write-escape [] args = refl
write-escape (c ∷ fmt) args = rw (write-escape fmt args) refl

-- All that follows a backslash is written as it is, and the loop ends in the state that makes
-- printBlocking return -1.
write-backslash :
    (fmt : List ℕ) (args : List Arg) → write_blocking (92 ∷ fmt) plain args ≡ done (fmt, escape)
unfolding write_blocking
write-backslash fmt args = write-escape fmt args
