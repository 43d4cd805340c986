-- ===== src/Trains/Root/Tests.antt =====
-- Square roots of small numbers.
use burrit_osprivate.Prelude.{◌≡◌, refl, arith}
use burrit_osprivate.Prelude.Outcome.{done, halt}
use burrit_osprivate.Trains.Root.{loop, int_sqrt}
use burrit_osprivate.Trains.Root.Descend.{int_sqrt-Root}

sqrt_1000 : int_sqrt 20 1000 ≡ done 31
unfolding int_sqrt loop
sqrt_1000 = refl

sqrt_0 : int_sqrt 20 0 ≡ halt
unfolding int_sqrt loop
sqrt_0 = refl

int_sqrt-Root_example : int_sqrt 1000 1000 ≡ done 31
int_sqrt-Root_example =
    int_sqrt-Root 31 1000 (omega arith) (omega arith)
      (record { below = omega arith; above = omega arith }) (omega arith)
