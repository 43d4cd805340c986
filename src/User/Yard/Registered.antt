-- ===== src/User/Yard/Registered.antt =====
-- Who drives a train, from the registrations.
use burrit_osprivate.Prelude.{
  ℕ, ◌+◌, ◌*◌, ◌/◌, ◌%◌, ◌<◌, ◌≡◌, refl, ap, ◌∙◌, true, ◌&&◌, some, List, [], ◌∷◌, arith, ltb, ◌==◌,
  if◌then◌else◌, Bool-cases, inl, inr, get_or, get_or-set, set, length, length-set,
  length-replicate, get_or-replicate,
}
use burrit_osprivate.Prelude.Result.{Result, ok, err, generic}
use burrit_osprivate.Kernel.Data.{MessageEnvelope}
use burrit_osprivate.User.Messages.{body_u8, Request}
use burrit_osprivate.User.Yard.{Crew, Effect, no_task, empty, serve, run, who_is, train_who_is}

-- The task that the last registration of a train among the messages comes from, or else `task`.
abbrev pub last_registered : ℕ → ℕ → List Request → ℕ
last_registered train task [] = task
last_registered train task (r ∷ rs) =
    last_registered train
      (if r.message.type == 2 && body_u8 r.message == train then r.sender else task) rs

-- Messages about trains below 80, where they are about one.
abbrev pub InTable : List Request → Type 0
InTable [] = Unit
InTable (r ∷ rs) = (body_u8 r.message < 80) × InTable rs

abbrev pub Senders : List Request → Type 0
Senders [] = Unit
Senders (r ∷ rs) = (r.sender < 65536) × Senders rs

-- The answer of `trainWhoIs` for the task in the table, an id.
abbrev pub identified : ℕ → Result ℕ
identified task = if task == no_task then err generic else ok task

module _ (answer : Crew → MessageEnvelope → MessageEnvelope) where
  serve-entry :
      (table : List ℕ) (r : Request) (train : ℕ)
      → length table ≡ 80
      → body_u8 r.message < 80
      → (out : List Effect) × (table' : List ℕ) × (serve answer table r ≡ some (out, table'))
        × (length table' ≡ 80)
        × (get_or table' train no_task
            ≡ last_registered train (get_or table train no_task) (r ∷ []))
  unfolding serve
  serve-entry table r train size low =
      let m = r.message in
      let id = body_u8 m in
      let inside : ltb id (length table) ≡ true = ground (arith, size, low) in
      elim (Bool-cases (m.type == 2)) [
        | inl register ↦
            rw (register, inside)
              (
                _,
                set table id r.sender,
                refl,
                length-set table id r.sender ∙ size,
                get_or-set table id train r.sender no_task (omega (arith, size, low)),
              )
        | inr n ↦ elim (Bool-cases (m.type == 1)) [
          | inl ask ↦ rw (n, ask, inside) (_, table, refl, size, refl)
          | inr n' ↦ elim (Bool-cases (m.type == 96)) [
            | inl go ↦ rw (n, n', go) (_, table, refl, size, refl)
            | inr stay ↦ elim (Bool-cases (m.type == 4)) [
              | inl play ↦ rw (n, n', stay, play) (_, table, refl, size, refl)
              | inr other ↦ rw (n, n', stay, other) (_, table, refl, size, refl)
            ]
          ]
        ]
      ]

  run-entry :
      (table : List ℕ) (rs : List Request) (train : ℕ)
      → length table ≡ 80
      → InTable rs
      → (table' : List ℕ) × (run answer table rs ≡ some table')
        × (length table' ≡ 80)
        × (get_or table' train no_task ≡ last_registered train (get_or table train no_task) rs)
  unfolding run
  run-entry table [] train size low = (table, refl, size, refl)
  run-entry table (r ∷ rs) train size (l, low) =
      let (out, table₁, e, size₁, at) = serve-entry table r train size l in
      let (table₂, e', size₂, at') = run-entry table₁ rs train size₁ low in
      (table₂, rw (e, e') refl, size₂, at' ∙ ap (λ (t : ℕ). last_registered train t rs) at)

  -- What a client is told, from the entry of the train.
  ask-entry :
      (table : List ℕ) (from body train : ℕ)
      → length table ≡ 80
      → train < 80
      → get_or table train no_task < 65536
      → train_who_is answer table from body train ≡ some (identified (get_or table train no_task))
  unfolding train_who_is serve who_is
  ask-entry table from body train size low small =
      let id : (body / 256 * 256 + train % 256) % 256 ≡ train = omega (arith, low) in
      let inside : ltb train (length table) ≡ true = ground (arith, size, low) in
      let task = get_or table train no_task in
      let word : ((body / 256 * 256 + train % 256) / 65536 * 65536 + task % 65536) % 65536 ≡ task =
        omega (arith, small) in
      rw (id, inside, word) refl

registered-small :
    (train task : ℕ) (rs : List Request)
    → task < 65536
    → Senders rs
    → last_registered train task rs < 65536
registered-small train task [] lt ids = lt
registered-small train task (r ∷ rs) lt (id, ids) =
    registered-small train
      (if r.message.type == 2 && body_u8 r.message == train then r.sender else task) rs
      (ground (arith, lt, id)) ids

-- After any sequence of messages about trains below 80 from tasks with 16-bit ids, trainWhoIs of
-- such a train gives the task that the last registration of the train came from, and an error
-- where there was none or that task has the id 0xFFFF.
pub train_who_is-registered :
    (answer : Crew → MessageEnvelope → MessageEnvelope) (rs : List Request) (from body train : ℕ)
    → InTable rs
    → Senders rs
    → train < 80
    → (table : List ℕ) × (run answer empty rs ≡ some table)
      × (train_who_is answer table from body train
          ≡ some (identified (last_registered train no_task rs)))
train_who_is-registered answer rs from body train low ids lt =
    let (table, e, size, at) = run-entry answer empty rs train (length-replicate 80 no_task) low in
    let start : get_or empty train no_task ≡ no_task =
      get_or-replicate 80 train no_task no_task lt in
    let entry = at ∙ ap (λ (t : ℕ). last_registered train t rs) start in
    let small = registered-small train no_task rs (omega arith) ids in
    (
      table,
      e,
      ask-entry answer table from body train size lt (omega (arith, entry, small))
          ∙ ap (λ (t : ℕ). some (identified t)) entry,
    )
