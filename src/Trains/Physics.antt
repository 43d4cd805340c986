-- ===== src/Trains/Physics.antt =====
-- trains/trainPhysics.c: the maps from the speeds of a train to its velocities and accelerations, and
-- what sets a speed or a velocity. The functions that compute distances and times are in Motion.
--
-- An S32 is a word. A speed is below 14; a read of a map out of it gives 0 here, and a write changes
-- nothing.
pub mod Velocity
mod Tests
use burrit_osprivate.Prelude.{
  ℕ, zero, suc, ◌+◌, ◌-◌, Bool, not, ◌&&◌, List, [], ◌∷◌, ◌==◌, leb, if◌then◌else◌, get_or, set,
  Option, some, none,
}

pub record TrainPhysics : Type 0 where
  pub speed_map : List ℕ
  pub calibration_count : List ℕ
  pub accel_map : List (List ℕ)
  pub velocity : ℕ
  pub initial_velocity : ℕ
  pub initial_speed : ℕ
  pub acceleration : ℕ
  pub target_velocity : ℕ
  pub oscillate_velocity : ℕ
  pub distance : ℕ
  pub speed : ℕ
  pub target_speed : ℕ
  pub oscillate_low : ℕ
  pub oscillate_high : ℕ
  pub oscillate_tick : ℕ

unfoldable pub set_speed_internal : TrainPhysics → ℕ → TrainPhysics
set_speed_internal p speed = record p {
  target_velocity = get_or p.speed_map speed 0;
  target_speed = speed;
  acceleration = get_or (get_or p.accel_map p.speed []) speed 0;
  initial_velocity = p.velocity;
  initial_speed = p.speed;
}

unfoldable pub init : TrainPhysics → TrainPhysics
init p = record p {
  velocity = 0;
  acceleration = 0;
  target_velocity = 0;
  speed = 0;
  oscillate_low = 0;
  oscillate_high = 0;
  oscillate_velocity = 0;
  target_speed = 0;
  distance = 0;
  initial_velocity = 0;
}

-- The loop of `trainPhysicsSpeedMap`, with the rounds that are left.
unfoldable pub count_loop : ℕ → ℕ → List ℕ → List ℕ
count_loop zero i counts = counts
count_loop (suc n) i counts = count_loop n (i + 1) (set counts i 10)

-- `vs` is the list of the nine velocities of the speeds 5 to 13.
unfoldable pub set_speed_map : TrainPhysics → List ℕ → TrainPhysics
set_speed_map p vs = record p {
  speed_map = 0 ∷ 0 ∷ 0 ∷ 0 ∷ 0 ∷ vs;
  calibration_count = count_loop 13 1 (set p.calibration_count 0 0);
}

-- `accels` is the list of the accelerations from a speed to the speeds 5 to 13, and `stop` that to 0.
unfoldable pub set_accel_map : TrainPhysics → ℕ → ℕ → List ℕ → TrainPhysics
set_accel_map p speed stop accels = record p {
  accel_map = set p.accel_map speed (stop ∷ 0 ∷ 0 ∷ 0 ∷ 0 ∷ accels);
}

unfoldable pub set_speed : TrainPhysics → ℕ → TrainPhysics
set_speed p speed =
    let set : TrainPhysics = record (set_speed_internal p speed) {
      oscillate_low = 0;
      oscillate_high = 0;
      oscillate_velocity = 0;
    } in
    if speed == p.speed then p else set

-- The loop of `trainPhysicsSetVelocity`: the speed at which it returns. `lowest` is `last`, which
-- the loop does not change.
unfoldable pub find_speed : ℕ → ℕ → List ℕ → ℕ → ℕ → Option ℕ
find_speed zero i map lowest velocity = none
find_speed (suc n) i map lowest velocity =
    let rest = find_speed n (i + 1) map lowest velocity in
    if leb lowest velocity && leb velocity (get_or map i 0) then some i else rest

-- What `trainPhysicsSetVelocity` returns and leaves, from where the loop returns.
abbrev pub oscillate : TrainPhysics → ℕ → Option ℕ → ℕ × TrainPhysics
oscillate p velocity none = (p.target_speed, p)
oscillate p velocity (some i) = (
  i - 1,
  set_speed_internal
      (record p {
        oscillate_low = i - 1;
        oscillate_high = i;
        oscillate_velocity = velocity;
        oscillate_tick = 10;
      })
      (i - 1),
)

unfoldable pub set_velocity : TrainPhysics → ℕ → ℕ × TrainPhysics
set_velocity p velocity =
    oscillate (record p { oscillate_low = 0; oscillate_high = 0 }) velocity
      (find_speed 13 1 p.speed_map (get_or p.speed_map 0 0) velocity)
