-- ===== src/Trains/Motion/Tests.antt =====
-- Numbers of S32.
use burrit_osprivate.Prelude.{◌≡◌, refl, replicate, set}
use burrit_osprivate.Prelude.Word.{neg32}
use burrit_osprivate.Prelude.Signed.{quotient}
use burrit_osprivate.Prelude.Outcome.{done, halt}
use burrit_osprivate.Trains.Physics.{TrainPhysics}
use burrit_osprivate.Trains.Motion.{swing, accelerate, move_on, step, get_time, stop_dist}

rounds_to_0 : quotient (neg32 7) 2 ≡ neg32 3
rounds_to_0 = refl

-- A train at the speed 10, of which it stops with the acceleration -100000.
abbrev rolling : TrainPhysics
rolling = record {
  speed_map = replicate 14 5000;
  calibration_count = replicate 14 10;
  accel_map = set (replicate 14 (replicate 14 0)) 10 (set (replicate 14 0) 0 (neg32 100000));
  velocity = 500000;
  initial_velocity = 0;
  initial_speed = 0;
  acceleration = 0;
  target_velocity = 500000;
  oscillate_velocity = 0;
  distance = 0;
  speed = 10;
  target_speed = 10;
  oscillate_low = 0;
  oscillate_high = 0;
  oscillate_tick = 0;
}

-- 5000 ^ 2 / 20000 + 275
stops_after : stop_dist rolling ≡ done 1525
unfolding stop_dist
stops_after = refl

moves : step rolling 10000 ≡ (0, record rolling { distance = 5 })
unfolding step swing accelerate move_on
moves = refl

takes : get_time 10 rolling 5 ≡ done 10000
unfolding get_time
takes = refl

stands : get_time 10 (record rolling { velocity = 0 }) 5 ≡ halt
unfolding get_time
stands = refl
