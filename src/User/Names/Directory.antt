-- ===== src/User/Names/Directory.antt =====
-- What the name server promises: a table, and, while names are missing, the clients that wait for
-- an answer, at most 32, in the order in which they asked.
use burrit_osprivate.Prelude.{
  ℕ, suc, ◌+◌, ◌-◌, ◌<◌, ◌≡◌, ◌≢◌, ◌∙◌, ◌⊎◌, ==-eq_false, length-append, arith, List, [], ◌∷◌, ◌++◌,
  ◌==◌, if◌then◌else◌, get_or, set, length,
}
use burrit_osprivate.Prelude.Word.{to_u8, to_u16}
use burrit_osprivate.Kernel.Data.{MessageEnvelope}
use burrit_osprivate.User.Messages.{body_u8, body_u16, Reply, reply, Request}
use burrit_osprivate.User.Names.{response}

-- The name that a message registers or asks for has a place in a table of 11 names.
abbrev pub Named : Request → Type 0
Named r = (r.message.type ≡ 2) ⊎ (r.message.type ≡ 1) → body_u8 r.message < 11

abbrev pub AllNamed : List Request → Type 0
AllNamed [] = Unit
AllNamed (r ∷ rs) = Named r × AllNamed rs

-- Who waits, and for which name.
abbrev pub Waiting : Type 0
Waiting = List (ℕ × ℕ)

abbrev pub join : ℕ → ℕ → Waiting → Waiting
join id name w = if length w == 32 then w else w ++ ((id, name) ∷ [])

abbrev pub answers : List ℕ → MessageEnvelope → Waiting → List Reply
answers table m [] = []
answers table m ((id, name) ∷ w) =
    let m' = response m (get_or table name 0) in reply id m' ∷ answers table m' w

-- With all names known.
abbrev pub known : List ℕ → List Request → List (List Reply)
known table [] = []
known table (r ∷ rs) =
    let m = r.message in
    let table' = set table (body_u8 m) r.sender in
    let registered = known table' rs in
    let rest = known table rs in
    if m.type == 2
    then (reply r.sender (response m r.sender) ∷ []) ∷ registered
    else if m.type == 1
    then (reply r.sender (response m (get_or table (body_u8 m) 0)) ∷ []) ∷ rest
    else [] ∷ rest

-- With `left` names to come.
abbrev pub gathering : List ℕ → ℕ → Waiting → List Request → List (List Reply)
gathering table left w [] = []
gathering table left w (r ∷ rs) =
    let m = r.message in
    let table' = set table (body_u8 m) r.sender in
    let m' = response m r.sender in
    let complete = known table' rs in
    let registered = gathering table' (left - 1) w rs in
    let asked = gathering table left (join (to_u16 r.sender) (to_u8 (body_u16 m)) w) rs in
    let other = gathering table left w rs in
    if m.type == 2
    then (if left - 1 == 0
        then (reply r.sender m' ∷ answers table' m' w) ∷ complete
        else (reply r.sender m' ∷ []) ∷ registered)
    else if m.type == 1
    then [] ∷ asked
    else [] ∷ other

-- How many messages register a name, or ask for one.
abbrev pub registrations : List Request → ℕ
registrations [] = 0
registrations (r ∷ rs) = (if r.message.type == 2 then 1 else 0) + registrations rs

abbrev pub lookups : List Request → ℕ
lookups [] = 0
lookups (r ∷ rs) = (if r.message.type == 1 then 1 else 0) + lookups rs

-- How many ask while names are missing, of which `left` are to come.
abbrev pub early_lookups : ℕ → List Request → ℕ
early_lookups left [] = 0
early_lookups left (r ∷ rs) =
    let next = early_lookups (left - 1) rs in
    let same = early_lookups left rs in
    if r.message.type == 2
    then (if left - 1 == 0 then 0 else next)
    else (if r.message.type == 1 then 1 else 0) + same

pub length-join :
    (id name : ℕ) (w : Waiting) → length w ≢ 32 → length (join id name w) ≡ suc (length w)
length-join id name w ne =
    rw (==-eq_false (length w) 32 ne) (length-append w ((id, name) ∷ []) ∙ omega arith)
