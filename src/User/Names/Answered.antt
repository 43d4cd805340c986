-- ===== src/User/Names/Answered.antt =====
-- Who gets an answer from the name server of user/servers/NameServer.c.
use burrit_osprivate.Prelude.{
  ℕ, suc, ◌+◌, ◌-◌, ◌≤◌, ◌<◌, true, ◌≡◌, refl, ap, ◌∙◌, List, [], ◌∷◌, ◌==◌, get_or, set, length,
  arith, Bool-cases, inl, inr,
}
use burrit_osprivate.Prelude.Word.{to_u8, to_u16}
use burrit_osprivate.Prelude.Result.{ok}
use burrit_osprivate.Prelude.Outcome.{done}
use burrit_osprivate.Kernel.Data.{MessageEnvelope}
use burrit_osprivate.Queue
use burrit_osprivate.Queue.{Queue}
use burrit_osprivate.User.Messages.{body_u8, body_u16, Reply, Request}
use burrit_osprivate.User.Names.{run, response}
use burrit_osprivate.User.Names.Directory.{
  Waiting, join, answers, known, gathering, AllNamed, registrations, lookups, early_lookups,
  length-join,
}
use burrit_osprivate.User.Names.Told.{told_all, owed, AllFollow, registers}
use burrit_osprivate.User.Names.Early.{told-gathering}
use burrit_osprivate.User.Names.Register.{started, run-gathering}

-- How many replies there are.
abbrev pub replied : List (List Reply) → ℕ
replied [] = 0
replied (out ∷ outs) = length out + replied outs

length-answers :
    (table : List ℕ) (m : MessageEnvelope) (w : Waiting) → length (answers table m w) ≡ length w
length-answers table m [] = refl
length-answers table m ((id, name) ∷ w) =
    ap suc (length-answers table (response m (get_or table name 0)) w)

replied-known :
    (table : List ℕ) (rs : List Request) → replied (known table rs) ≡ registrations rs + lookups rs
replied-known table [] = omega arith
replied-known table (r ∷ rs) =
    ground
      (arith, replied-known table rs, replied-known (set table (body_u8 r.message) r.sender) rs)

replied-gathering :
    (table : List ℕ) (left : ℕ) (w : Waiting) (rs : List Request)
    → 1 ≤ left
    → left ≤ registrations rs
    → length w + early_lookups left rs ≤ 32
    → replied (gathering table left w rs) ≡ length w + (registrations rs + lookups rs)
replied-gathering table left w [] some enough few = absurd (omega arith)
replied-gathering table left w (r ∷ rs) some enough few =
    let m = r.message in
    let table' = set table (body_u8 m) r.sender in
    elim (Bool-cases (m.type == 2)) [
      | inl e ↦ elim (Bool-cases (left - 1 == 0)) [
        | inl z ↦
            ground
              (arith, e, z, replied-known table' rs, length-answers table' (response m r.sender) w)
        | inr z ↦
            let rest =
              replied-gathering table' (left - 1) w rs (ground (arith, z))
                (ground (arith, e, enough)) (ground (arith, e, z, few)) in
            ground (arith, e, z, rest)
      ]
      | inr n ↦ elim (Bool-cases (m.type == 1)) [
        | inl e ↦
            let id = to_u16 r.sender in
            let name = to_u8 (body_u16 m) in
            let grown = length-join id name w (ground (arith, n, e, few)) in
            let rest =
              replied-gathering table left (join id name w) rs some (ground (arith, n, enough))
                (ground (arith, n, e, few, grown)) in
            rw (n, e) (omega (arith, rest, grown))
        | inr n' ↦
            let rest =
              replied-gathering table left w rs some (ground (arith, n, enough))
                (ground (arith, n, n', few)) in
            rw (n, n') (omega (arith, rest))
      ]
    ]

pub all_named : (dir : ℕ → ℕ) (rs : List Request) → AllFollow dir rs → AllNamed rs
all_named dir [] f = tt
all_named dir (r ∷ rs) (f, fs) = (f.named, all_named dir rs fs)

-- The table has 11 names, and each message comes from a task with a 16-bit id, is about a name below
-- 11, and registers it only for the task `dir` of that name. Where 11 messages register a name, those
-- 11 have each name among them, and at most 32 clients ask before the last of them, the name server
-- gets through all messages and gives as many replies as there are registrations and questions. A
-- task `id` is told a value `v` as often as it registered a name and has `v` as its id, or asked for
-- a name whose task is `v`.
pub run-answered :
    (table buf buf' : List ℕ) {clients asked : Queue} (dir : ℕ → ℕ) (rs : List Request) (id v : ℕ)
    → length table ≡ 11
    → 32 ≤ length buf
    → 32 ≤ length buf'
    → Queue.init buf 32 ≡ ok clients
    → Queue.init_u8 buf' 32 ≡ ok asked
    → AllFollow dir rs
    → ((n : ℕ) → n < 11 → registers n 11 rs ≡ true)
    → 11 ≤ registrations rs
    → early_lookups 11 rs ≤ 32
    → (outs : List (List Reply)) × (run (started table clients asked) rs ≡ done outs)
      × (replied outs ≡ registrations rs + lookups rs)
      × (told_all id v outs ≡ owed id v dir rs)
run-answered table buf buf' dir rs id v size room room' e e' follow complete enough few = (
  gathering table 11 [] rs,
  run-gathering table buf buf' rs size (all_named dir rs follow) room room' e e',
  replied-gathering table 11 [] rs (omega arith) enough (omega (arith, few)) ∙ omega arith,
  told-gathering dir id v table 11 [] rs (omega arith) enough (omega (arith, few)) size tt
        (λ n h. inr (complete n h)) follow
      ∙ omega arith,
)
