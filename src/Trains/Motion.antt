-- ===== src/Trains/Motion.antt =====
-- trains/trainPhysics.c: what a train's state says of distances and times, and how it moves on.
--
-- `halt` stands for a division by 0, and for a loop of intSqrt that has used up its rounds.
mod Tests
use burrit_osprivate.Prelude.{
  ℕ, ◌+◌, ◌-◌, ◌*◌, ◌/◌, ◌%◌, Bool, true, false, not, ◌&&◌, ◌||◌, List, [], ◌∷◌, ◌==◌, ltb, leb,
  if◌then◌else◌, get_or, set,
}
use burrit_osprivate.Prelude.Word.{to_u8, add32, sub32, mul32, neg32}
use burrit_osprivate.Prelude.Signed.{less, quotient}
use burrit_osprivate.Prelude.Outcome.{Outcome, done, halt, ◌>>=◌}
use burrit_osprivate.Trains.Root.{int_sqrt}
use burrit_osprivate.Trains.Physics.{TrainPhysics, set_speed_internal}

-- A quotient whose divisor may be 0, of two S32, and of two U32.
abbrev pub over : ℕ → ℕ → Outcome ℕ
over a b = if b == 0 then halt else done (quotient a b)

abbrev pub over_u32 : ℕ → ℕ → Outcome ℕ
over_u32 a b = if b == 0 then halt else done (a / b)

-- Rounded thousandths of ticks.
abbrev pub kticks : ℕ → ℕ
kticks ticks = (ticks / 100 + 5) / 10

-- The speed changes between two to keep a velocity in between: the speed that is set, or 0.
unfoldable pub swing : TrainPhysics → ℕ × TrainPhysics
swing p =
    let tick = (p.oscillate_tick + 255) % 256 in
    let on : TrainPhysics = record p { oscillate_tick = 10 } in
    let low : ℕ × TrainPhysics = (p.oscillate_low, set_speed_internal on p.oscillate_low) in
    let high : ℕ × TrainPhysics = (p.oscillate_high, set_speed_internal on p.oscillate_high) in
    let swung = if less p.oscillate_velocity p.velocity then low else high in
    if p.oscillate_high == 0
    then (0, p)
    else if tick == 0
    then swung
    else (0, record p { oscillate_tick = tick })

-- The velocity changes by the acceleration, up to the target.
unfoldable pub accelerate : TrainPhysics → ℕ → TrainPhysics
accelerate p ktick =
    let a = quotient p.acceleration 100 in
    let far = mul32 (mul32 ktick ktick / 200) a in
    let velocity = add32 p.velocity (mul32 (quotient (add32 a 5) 10) ktick) in
    let moved = record p {
      distance = add32 p.distance (quotient far 1000000);
      velocity = velocity;
    } in
    let reached = record moved {
      acceleration = 0;
      velocity = p.target_velocity;
      speed = p.target_speed;
    } in
    let passed =
      less 0 a && not (less velocity p.target_velocity)
      || less a 0 && not (less p.target_velocity velocity) in
    if p.acceleration == 0 then p else if passed then reached else moved

-- The distance at the velocity that is reached.
unfoldable pub move_on : TrainPhysics → ℕ → TrainPhysics
move_on p ktick =
    let far = mul32 (quotient p.velocity 100) ktick in
    record p { distance = add32 p.distance (quotient (add32 (quotient far 1000) 5) 10) }

-- `trainPhysicsStep`: what it returns, and the new state.
unfoldable pub step : TrainPhysics → ℕ → ℕ × TrainPhysics
step p delta =
    let (speed, p') = swing p in (speed, move_on (accelerate p' (kticks delta)) (kticks delta))

-- `trainPhysicsReport` of a steady train, from the velocity that was measured.
abbrev pub calibrated : TrainPhysics → ℕ → ℕ × TrainPhysics
calibrated p velocity = (
  1,
  record p {
    velocity = velocity;
    calibration_count =
        set p.calibration_count p.speed (sub32 (get_or p.calibration_count p.speed 0) 1);
    speed_map = set p.speed_map p.speed velocity;
  },
)

-- Of one that changed its velocity, from the acceleration that was measured.
abbrev pub corrected : TrainPhysics → ℕ → ℕ × TrainPhysics
corrected p a =
    let row = get_or p.accel_map p.initial_speed [] in
    let old = quotient (mul32 (get_or row p.target_speed 0) 95) 100 in
    (
      a,
      record p {
        initial_velocity = 0;
        accel_map =
            set p.accel_map p.initial_speed (set row p.target_speed (add32 old (mul32 a 5)));
      },
    )

-- The velocity and the acceleration that a report measures. The divisions by the ticks are those
-- of U32.
abbrev pub measured_velocity : TrainPhysics → ℕ → ℕ → Outcome ℕ
measured_velocity p dist ktick = do
  share ← over_u32 (mul32 (mul32 dist 1000) 50) ktick
  done (add32 (quotient (mul32 p.velocity 95) 100) share)

abbrev pub measured_acceleration : TrainPhysics → ℕ → ℕ → Outcome ℕ
measured_acceleration p dist ktick =
    let change = quotient (sub32 p.target_velocity p.initial_velocity) 10 in
    let back = quotient (sub32 p.initial_velocity p.target_velocity) 20 in
    let x = sub32 (mul32 dist 1000) (mul32 p.target_velocity ktick / 1000) in
    over (mul32 change back) x

-- `trainPhysicsReport`.
unfoldable pub report : TrainPhysics → ℕ → ℕ → ℕ → Outcome (ℕ × TrainPhysics)
report p dist ticks error =
    let ktick = kticks ticks in
    let p' : TrainPhysics = record p { distance = 0 } in
    let steady : Outcome (ℕ × TrainPhysics) =
      measured_velocity p' dist ktick >>= λ v. done (calibrated p' v) in
    let changed : Outcome (ℕ × TrainPhysics) =
      measured_acceleration p' dist ktick >>= λ a. done (corrected p' a) in
    let close =
      less 0 (get_or p.calibration_count p.speed 0) && less error 200 && less (neg32 200) error in
    if p.acceleration == 0 && p.initial_velocity == 0
    then (if close then steady else done (0, p'))
    else changed

-- The ticks for a distance while the velocity changes, where it is not reached before: the smaller
-- root that is not negative.
abbrev pub root_ticks : ℕ → TrainPhysics → ℕ → Outcome ℕ
root_ticks fuel p dx = do
  let v = quotient p.velocity 100
  let square = quotient (mul32 v v) 100
  let ac = quotient (mul32 (mul32 2 p.acceleration) dx) 1000
  disc ← int_sqrt fuel (add32 square ac)
  first ← over (mul32 1000 (add32 (neg32 p.velocity) (mul32 disc 1000))) p.acceleration
  second ← over (mul32 1000 (sub32 (neg32 p.velocity) (mul32 disc 1000))) p.acceleration
  done (if (less 0 first && less first second) || less second 0 then first else second)

-- The ticks for a distance while the velocity changes.
abbrev pub changing_ticks : ℕ → TrainPhysics → ℕ → Outcome ℕ
changing_ticks fuel p dx = do
  part ← over (mul32 (sub32 p.target_velocity p.velocity) 100) p.acceleration
  let time = mul32 part 10
  let steady = quotient (mul32 p.velocity time) 1000000
  let gained = quotient (mul32 (quotient (mul32 time time) 2000) p.acceleration) 1000000
  let total = add32 gained steady
  let behind =
      over (mul32 (mul32 (sub32 dx total) 1000) 1000) p.target_velocity >>= λ t. done (add32 time t)
  if less dx total then root_ticks fuel p dx else behind

-- `trainPhysicsGetTime`.
unfoldable pub get_time : ℕ → TrainPhysics → ℕ → Outcome ℕ
get_time fuel p dx = do
  let constant = over (mul32 (mul32 dx 1000) 1000) p.velocity
  ticks ← if p.acceleration == 0 then constant else changing_ticks fuel p dx
  done (mul32 ticks 1000)

-- `trainPhysicsStopDist`.
unfoldable pub stop_dist : TrainPhysics → Outcome ℕ
stop_dist p = do
  let v = quotient p.velocity 100
  let a = quotient (get_or (get_or p.accel_map p.target_speed []) 0 0) (neg32 10)
  dist ← over (mul32 v v) (mul32 2 a)
  done (add32 dist (quotient (mul32 v 550) 10000))
