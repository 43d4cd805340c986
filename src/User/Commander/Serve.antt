-- ===== src/User/Commander/Serve.antt =====
-- What `TrainCommanderServer` hands to a train.
use burrit_osprivate.Prelude.{
  ℕ, ◌<◌, ◌≡◌, ◌≢◌, ◌⊎◌, refl, true, false, Bool, ◌||◌, some, List, [], ◌∷◌, arith, leb, ltb, ◌==◌,
  if◌then◌else◌, Bool-cases, inl, inr, get_or, set, ==_iff,
}
use burrit_osprivate.Prelude.Word.{to_u8}
use burrit_osprivate.Kernel.Data.{MessageEnvelope}
use burrit_osprivate.String.{stratoui, strskipws}
use burrit_osprivate.User.Messages.{envelope, Reply, reply}
use burrit_osprivate.User.Commander.{
  Parsed, begins, number, parse_speed, parse_velocity, parse_train, parse_sensor, sensor, tail,
  parse_train_command, no_task, hand_over, serve,
}

-- What a train makes sense of: a speed below 14 with the orders for a speed and for its
-- accelerations, a sensor below 80 with the orders to go and to stop, and four more orders.
abbrev pub fits : ℕ → ℕ → Bool
fits type info =
    if type == 22 || type == 99
    then ltb info 14
    else if type == 98 || type == 97
    then ltb info 80
    else type == 101 || type == 23 || type == 100 || type == 4

-- A result that the server refuses, or that a train makes sense of.
abbrev Sound : Parsed → Type 0
Sound p = (p.train ≡ 255) ⊎ (fits p.type p.info ≡ true)

speed-Sound :
    (type : ℕ) (s : List ℕ) → (type == 22 || type == 99) ≡ true → Sound (parse_speed type s)
unfolding parse_speed
speed-Sound type s h = elim (Bool-cases (leb 14 (to_u8 (number (number s).1).0))) [
  | inl fast ↦ inl (rw fast refl)
  | inr slow ↦ inr (rw h (ground (arith, slow)))
]

sensor-Sound :
    (type : ℕ) (s : List ℕ)
    → (type == 22 || type == 99) ≡ false
    → (type == 98 || type == 97) ≡ true
    → Sound (parse_sensor type s)
unfolding parse_sensor
sensor-Sound type s n h =
    let r = strskipws (number s).1 in
    let goal = sensor (get_or r 0 0) (stratoui (tail r)).0 in
    elim (Bool-cases (leb 80 goal)) [
      | inl far ↦ inl (rw far refl)
      | inr near ↦ inr (rw (n, h) (ground (arith, near)))
    ]

parse-Sound : (s : List ℕ) (type info : ℕ) → Sound (parse_train_command s type info)
unfolding parse_train_command parse_velocity parse_train
parse-Sound s type info =
    let r = tail (tail s) in
    elim (Bool-cases (begins b't' b'r' s)) [
      | inl a ↦ rw a (speed-Sound 22 r refl)
      | inr a ↦ elim (Bool-cases (begins b't' b'v' s)) [
        | inl b ↦ rw (a, b) (inr refl)
        | inr b ↦ elim (Bool-cases (begins b'r' b'v' s)) [
          | inl c ↦ rw (a, b, c) (inr refl)
          | inr c ↦ elim (Bool-cases (begins b'g' b't' s)) [
            | inl d ↦ rw (a, b, c, d) (sensor-Sound 98 r refl refl)
            | inr d ↦ elim (Bool-cases (begins b's' b'a' s)) [
              | inl e ↦ rw (a, b, c, d, e) (sensor-Sound 97 r refl refl)
              | inr e ↦ elim (Bool-cases (begins b'd' b'a' s)) [
                | inl f ↦ rw (a, b, c, d, e, f) (speed-Sound 99 r refl)
                | inr f ↦ elim (Bool-cases (begins b'd' b'v' s)) [
                  | inl g ↦ rw (a, b, c, d, e, f, g) (inr refl)
                  | inr g ↦ elim (Bool-cases (begins b'r' b'm' s)) [
                    | inl h ↦ rw (a, b, c, d, e, f, g, h) (inr refl)
                    | inr h ↦ rw (a, b, c, d, e, f, g, h) (inl refl)
                  ]
                ]
              ]
            ]
          ]
        ]
      ]
    ]

-- The command goes to a train that waits.
pub record Handed (waiting : List ℕ) (from : ℕ) (out : List Reply) (waiting' : List ℕ)
    : Type 0 where
  pub train : ℕ
  pub type : ℕ
  pub info : ℕ
  pub in_table : train < 80
  pub waits : get_or waiting train no_task ≢ no_task
  pub understood : fits type info ≡ true
  pub told :
      out
      ≡ reply (get_or waiting train no_task) (envelope type info)
        ∷ reply from (envelope type info)
        ∷ []
  pub freed : waiting' ≡ set waiting train no_task

-- A command for TrainCommanderServer is refused with MESSAGE_FAILURE, and no train is told, or one
-- train that waits is told and waits no more, and then what it is told has a type that the trains
-- know, with a speed below 14 or a sensor below 80 where the type wants one, whatever the text of
-- the command is.
pub serve-Handed :
    (waiting : List ℕ) (from : ℕ) (m : MessageEnvelope) (string : List ℕ)
    → m.type ≡ 0
    → ((info : ℕ) × (serve waiting from m string
          ≡ some (reply from (envelope 30 info) ∷ [], waiting)))
      ⊎ ((out : List Reply) × (waiting' : List ℕ) × (serve waiting from m string
            ≡ some (out, waiting'))
          × Handed waiting from out waiting')
unfolding serve hand_over
serve-Handed waiting from m string command =
    let p = parse_train_command string m.type m.body in
    let is : (m.type == 0) ≡ true = (==_iff m.type 0).1 command in
    elim (Bool-cases (ltb p.train 80)) [
      | inl low ↦ elim (Bool-cases (get_or waiting p.train no_task == no_task)) [
        | inl absent ↦ inl (p.info, rw (is, low, absent) refl)
        | inr there ↦ inr (
          reply (get_or waiting p.train no_task) (envelope p.type p.info)
              ∷ reply from (envelope p.type p.info)
              ∷ [],
          set waiting p.train no_task,
          rw (is, low, there) refl,
          record {
            train = p.train;
            type = p.type;
            info = p.info;
            in_table = ground (arith, low);
            waits = ground (arith, there);
            understood = ground (arith, low, parse-Sound string m.type m.body);
            told = refl;
            freed = refl;
          },
        )
      ]
      | inr high ↦ inl (p.info, rw (is, high) refl)
    ]
