-- ===== src/User/Names/Told.antt =====
-- Which task the name server of user/servers/NameServer.c answers, and with what.
use burrit_osprivate.Prelude.{
  ℕ, ◌+◌, ◌-◌, ◌<◌, ◌≡◌, refl, ap, ap₂, ◌∙◌, Bool, false, ◌&&◌, ◌||◌, List, [], ◌∷◌, ◌++◌, ◌==◌,
  ==_iff, if◌then◌else◌, get_or, set, get_or-set, length, length-set, arith, Bool-cases, inl, inr,
  ◌⊎◌, ℕ_discrete,
}
use burrit_osprivate.Kernel.Data.{MessageEnvelope}
use burrit_osprivate.User.Messages.{body_u8, body_u16, Reply, reply, Request}
use burrit_osprivate.User.Names.{response}
use burrit_osprivate.User.Names.Directory.{Waiting, answers, known, Named}
use burrit_osprivate.User.Names.Register.{Asked}

-- How many replies tell the task `id` the value `v`, in an envelope of type
-- MESSAGE_NAMESERVER_RESPONSE.
abbrev pub told : ℕ → ℕ → List Reply → ℕ
told id v [] = 0
told id v (r ∷ rs) =
    (if r.to == id && (r.message.type == 3 && body_u16 r.message == v) then 1 else 0) + told id v rs

abbrev pub told_all : ℕ → ℕ → List (List Reply) → ℕ
told_all id v [] = 0
told_all id v (out ∷ outs) = told id v out + told_all id v outs

-- How many messages of the task `id` are to be answered with `v`: one that registers a name with
-- the task's own id, and one that asks for a name with the id `dir` of the task that has it.
abbrev pub owed : ℕ → ℕ → (ℕ → ℕ) → List Request → ℕ
owed id v dir [] = 0
owed id v dir (r ∷ rs) =
    (if r.message.type == 2
      then (if r.sender == id && r.sender == v then 1 else 0)
      else if r.message.type == 1
      then (if r.sender == id && dir (body_u8 r.message) == v then 1 else 0)
      else 0)
    + owed id v dir rs

-- A message from a task with a 16-bit id, about a name below 11, and which registers a name only for
-- the task that `dir` says.
pub record Follows (dir : ℕ → ℕ) (r : Request) : Type 0 where
  pub small : r.sender < 65536
  pub named : Named r
  pub holder : r.message.type ≡ 2 → r.sender ≡ dir (body_u8 r.message)

abbrev pub AllFollow : (ℕ → ℕ) → List Request → Type 0
AllFollow dir [] = Unit
AllFollow dir (r ∷ rs) = Follows dir r × AllFollow dir rs

-- Whether one of the first `left` registrations is of the name `n`.
abbrev pub registers : ℕ → ℕ → List Request → Bool
registers n left [] = false
registers n left (r ∷ rs) =
    let next = registers n (left - 1) rs in
    let same = registers n left rs in
    if r.message.type == 2
    then (body_u8 r.message == n || (if left - 1 == 0 then false else next))
    else same

-- The table has the task of the name `n`.
abbrev pub Agrees : (ℕ → ℕ) → List ℕ → ℕ → Type 0
Agrees dir table n = (get_or table n 0 ≡ dir n) × (dir n < 65536)

-- Of those who wait.
abbrev pub owed_waiting : ℕ → ℕ → (ℕ → ℕ) → Waiting → ℕ
owed_waiting id v dir [] = 0
owed_waiting id v dir ((i, name) ∷ w) =
    (if i == id && dir name == v then 1 else 0) + owed_waiting id v dir w

-- After a registration, the table has its task.
pub agrees-set :
    (dir : ℕ → ℕ) (table : List ℕ) (r : Request) (n : ℕ)
    → length table ≡ 11
    → Follows dir r
    → r.message.type ≡ 2
    → (body_u8 r.message ≡ n) ⊎ Agrees dir table n
    → Agrees dir (set table (body_u8 r.message) r.sender) n
agrees-set dir table r n size f ty h =
    let lt = f.named (inl ty) in
    let at = get_or-set table (body_u8 r.message) n r.sender 0 (omega (arith, size, lt)) in
    let task = f.holder ty in
    elim (ℕ_discrete (body_u8 r.message) n) [
      | yes e ↦
          let same : dir (body_u8 r.message) ≡ dir n = ap dir e in
          (ground (arith, at, e, task, same), omega (arith, f.small, task, same))
      | no ne ↦ elim h [ inl e ↦ absurd (ne e) | inr old ↦ (ground (arith, at, ne, old.0), old.1) ]
    ]

module _ (id v : ℕ) where
  pub told-reply :
      (i : ℕ) (m : MessageEnvelope) (u : ℕ) (rs : List Reply)
      → u < 65536
      → told id v (reply i (response m u) ∷ rs)
        ≡ (if i == id && u == v then 1 else 0) + told id v rs
  told-reply i m u rs small =
      let body : body_u16 (response m u) ≡ u = omega (arith, small) in rw body refl

  module _ (dir : ℕ → ℕ) where
    pub told-answers :
        (table : List ℕ) (m : MessageEnvelope) (w : Waiting)
        → ((n : ℕ) → n < 11 → Agrees dir table n)
        → Asked w
        → told id v (answers table m w) ≡ owed_waiting id v dir w
    told-answers table m [] agrees a = refl
    told-answers table m ((i, name) ∷ w) agrees (a, more) =
        let (same, small) = agrees name a in
        let m' = response m (get_or table name 0) in
        told-reply i m (get_or table name 0) (answers table m' w) (omega (arith, same, small))
        ∙ ap₂ (λ (a b : ℕ). a + b) (ap (λ (u : ℕ). if i == id && u == v then 1 else 0) same)
            (told-answers table m' w agrees more)

    pub owed_waiting-append :
        (w : Waiting) (i name : ℕ)
        → owed_waiting id v dir (w ++ ((i, name) ∷ []))
          ≡ owed_waiting id v dir w + (if i == id && dir name == v then 1 else 0)
    owed_waiting-append [] i name = omega arith
    owed_waiting-append ((j, n) ∷ w) i name = omega (arith, owed_waiting-append w i name)

    pub told-known :
        (table : List ℕ) (rs : List Request)
        → length table ≡ 11
        → ((n : ℕ) → n < 11 → Agrees dir table n)
        → AllFollow dir rs
        → told_all id v (known table rs) ≡ owed id v dir rs
    told-known table [] size agrees fs = refl
    told-known table (r ∷ rs) size agrees (f, fs) =
        let m = r.message in
        elim (Bool-cases (m.type == 2)) [
          | inl e ↦
              let ty = (==_iff _ _).0 e in
              let rest =
                told-known (set table (body_u8 m) r.sender) rs (rw length-set size)
                  (λ n h. agrees-set dir table r n size f ty (inr (agrees n h))) fs in
              let here = told-reply r.sender m r.sender [] f.small in
              rw (e, rest) (omega (arith, here))
          | inr n ↦ elim (Bool-cases (m.type == 1)) [
            | inl e ↦
                let ty = (==_iff _ _).0 e in
                let (same, small) = agrees (body_u8 m) (f.named (inr ty)) in
                let rest = told-known table rs size agrees fs in
                let here =
                  told-reply r.sender m (get_or table (body_u8 m) 0) []
                    (omega (arith, same, small)) in
                let value =
                  ap {B = ℕ} (λ (u : ℕ). if r.sender == id && u == v then 1 else 0) same in
                rw (n, e) (omega (arith, here, rest, value))
            | inr n' ↦ rw (n, n') (omega (arith, told-known table rs size agrees fs))
          ]
        ]
