-- ===== src/Trains/Physics/Velocity.antt =====
-- Between which speeds `trainPhysicsSetVelocity` (trains/trainPhysics.c) lets a train go up and down.
use burrit_osprivate.Prelude.{
  ℕ, zero, suc, ◌+◌, ◌-◌, ◌≤◌, ◌<◌, ◌≡◌, refl, ap, ◌∙◌, ◌&&◌, List, leb, get_or, some, Bool-cases,
  inl, inr, arith, ℕ_discrete,
}
use burrit_osprivate.Trains.Physics.{
  TrainPhysics, set_speed_internal, find_speed, oscillate, set_velocity,
}

-- The speed that the loop finds is the first of its range that is fast enough.
Found : ℕ → ℕ → List ℕ → ℕ → Type 0
Found n i map velocity =
    (j : ℕ) × (find_speed n i map 0 velocity ≡ some j)
    × (i ≤ j)
    × (j < i + n)
    × (velocity ≤ get_or map j 0)
    × ((k : ℕ) → i ≤ k → k < j → get_or map k 0 < velocity)

find_speed-Found :
    (n i : ℕ) (map : List ℕ) (velocity top : ℕ)
    → i ≤ top
    → top < i + n
    → velocity ≤ get_or map top 0
    → Found n i map velocity
unfolding Found find_speed
find_speed-Found zero i map velocity top low high fast = absurd (omega arith)
find_speed-Found (suc n) i map velocity top low high fast =
    elim (Bool-cases (leb 0 velocity && leb velocity (get_or map i 0))) [
      | inl here ↦ rw here (
        i,
        refl,
        omega arith,
        omega arith,
        ground (arith, here),
        λ k h h'. absurd (omega (arith, h, h')),
      )
      | inr past ↦
          let slow : get_or map i 0 < velocity = ground (arith, past) in
          let not_top : (i ≡ top → ⊥) =
            λ e. absurd (omega (arith, slow, fast, ap (λ (k : ℕ). get_or map k 0) e)) in
          let (j, e, low', high', fast', below) =
            find_speed-Found n (i + 1) map velocity top (omega (arith, low, not_top))
              (omega (arith, high)) fast in
          rw past (
            j,
            e,
            omega arith,
            omega arith,
            fast',
            λ k h h'. elim (ℕ_discrete i k) [
              | yes same ↦ omega (arith, slow, ap (λ (k : ℕ). get_or map k 0) same)
              | no other ↦ below k (omega (arith, h, other)) h'
            ],
          )
    ]

-- If the velocity of speed 0 is 0 and that of a speed from 1 to 13 is at least the one that is asked for,
-- `trainPhysicsSetVelocity` takes such a speed as the high one, and the speed before it as the low
-- one and its result, at which the train aims; every speed from 1 below the high one has a lower
-- velocity.
pub set_velocity_bracket :
    (p : TrainPhysics) (velocity top : ℕ)
    → get_or p.speed_map 0 0 ≡ 0
    → 1 ≤ top
    → top < 14
    → velocity ≤ get_or p.speed_map top 0
    → (high : ℕ) × (p' : TrainPhysics) × (set_velocity p velocity ≡ (high - 1, p'))
      × (1 ≤ high)
      × (p'.oscillate_high ≡ high)
      × (p'.oscillate_low ≡ high - 1)
      × (p'.target_speed ≡ high - 1)
      × (velocity ≤ get_or p.speed_map high 0)
      × ((k : ℕ) → 1 ≤ k → k < high → get_or p.speed_map k 0 < velocity)
unfolding set_velocity Found set_speed_internal
set_velocity_bracket p velocity top rest low high fast =
    let (j, e, low', high', fast', below) =
      find_speed-Found 13 1 p.speed_map velocity top low (omega (arith, high)) fast in
    let found = ap (λ (v : ℕ). find_speed 13 1 p.speed_map v velocity) rest ∙ e in
    (
      j,
      _,
      ap (oscillate (record p { oscillate_low = 0; oscillate_high = 0 }) velocity) found,
      low',
      refl,
      refl,
      refl,
      fast',
      below,
    )
