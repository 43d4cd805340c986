-- ===== src/User/Clock/Sleepers.antt =====
-- What the queue of user/servers/ClockServer.c means: who sleeps, and for how many ticks yet.
use burrit_osprivate.Prelude.{
  ℕ, suc, ◌-◌, ◌≤◌, ◌≡◌, refl, List, [], ◌∷◌, ◌==◌, ltb, if◌then◌else◌, arith, length,
}

-- An id and the ticks that are left, in the order in which they wake.
abbrev pub Sleepers : Type 0
Sleepers = List (ℕ × ℕ)

-- One more, before the first that does not wake earlier.
abbrev pub put : ℕ → ℕ → Sleepers → Sleepers
put id t [] = (id, t) ∷ []
put id t ((i, u) ∷ s) = if ltb u t then (i, u) ∷ put id t s else (id, t) ∷ (i, u) ∷ s

-- A tick has passed.
abbrev pub lapse : Sleepers → Sleepers
lapse [] = []
lapse ((i, u) ∷ s) = (i, u - 1) ∷ lapse s

-- Those that have no tick left, and the others.
abbrev pub due : Sleepers → List ℕ
due [] = []
due ((i, u) ∷ s) = if u == 0 then i ∷ due s else due s

abbrev pub waiting : Sleepers → Sleepers
waiting [] = []
waiting ((i, u) ∷ s) = if u == 0 then waiting s else (i, u) ∷ waiting s

pub length-put : (id t : ℕ) (s : Sleepers) → length (put id t s) ≡ suc (length s)
length-put id t [] = refl
length-put id t ((i, u) ∷ s) = ground (arith, length-put id t s)

-- How soon the first one wakes; 1 where nobody sleeps.
abbrev pub soonest : Sleepers → ℕ
soonest [] = 1
soonest ((i, u) ∷ s) = u

pub soonest-put : (id t : ℕ) (s : Sleepers) → 1 ≤ t → 1 ≤ soonest s → 1 ≤ soonest (put id t s)
soonest-put id t [] h h' = h
soonest-put id t ((i, u) ∷ s) h h' = ground arith

pub soonest-waiting : (s : Sleepers) → 1 ≤ soonest (waiting s)
soonest-waiting [] = omega arith
soonest-waiting ((i, u) ∷ s) = ground (arith, soonest-waiting s)
