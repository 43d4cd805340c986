-- ===== src/Trains/Physics/Tests.antt =====
-- A train whose velocities are 10 times its speed.
use burrit_osprivate.Prelude.{ℕ, ◌-◌, ◌≤◌, ◌<◌, ◌≡◌, refl, arith, [], ◌∷◌, get_or}
use burrit_osprivate.Trains.Physics.{TrainPhysics, set_velocity}
use burrit_osprivate.Trains.Physics.Velocity.{set_velocity_bracket}

abbrev train : TrainPhysics
train = record {
  speed_map = 0 ∷ 0 ∷ 0 ∷ 0 ∷ 0 ∷ 50 ∷ 60 ∷ 70 ∷ 80 ∷ 90 ∷ 100 ∷ 110 ∷ 120 ∷ 130 ∷ [];
  calibration_count = [];
  accel_map = [];
  velocity = 0;
  initial_velocity = 0;
  initial_speed = 0;
  acceleration = 0;
  target_velocity = 0;
  oscillate_velocity = 0;
  distance = 0;
  speed = 0;
  target_speed = 0;
  oscillate_low = 0;
  oscillate_high = 0;
  oscillate_tick = 0;
}

set_velocity_bracket_example :
    (high : ℕ) × (p' : TrainPhysics) × (set_velocity train 75 ≡ (high - 1, p'))
    × (1 ≤ high)
    × (p'.oscillate_high ≡ high)
    × (p'.oscillate_low ≡ high - 1)
    × (p'.target_speed ≡ high - 1)
    × (75 ≤ get_or train.speed_map high 0)
    × ((k : ℕ) → 1 ≤ k → k < high → get_or train.speed_map k 0 < 75)
set_velocity_bracket_example =
    set_velocity_bracket train 75 13 refl (omega arith) (omega arith) (omega arith)
