-- ===== src/User/Names/Register.antt =====
-- The name server of user/servers/NameServer.c keeps its promises.
use burrit_osprivate.Prelude.{
  ℕ, zero, suc, ◌-◌, ◌≤◌, ◌<◌, ◌≡◌, ◌≢◌, refl, sym, ap, subst, ◌∙◌, List, [], ◌∷◌, ◌++◌, ◌==◌,
  get_or, set, length, length-append, length-set, true, arith, Bool-cases, inl, inr, ==_iff,
}
use burrit_osprivate.Prelude.Word.{to_u8, to_u16}
use burrit_osprivate.Prelude.Result.{ok}
use burrit_osprivate.Prelude.Outcome.{done}
use burrit_osprivate.Kernel.Data.{MessageEnvelope}
use burrit_osprivate.Queue
use burrit_osprivate.Queue.{Queue}
use burrit_osprivate.Queue.Steps.{Holds, init-Holds, pop-none, pop-some, push-full, push-some}
use burrit_osprivate.User.Messages.{body_u8, body_u16, Request}
use burrit_osprivate.User.Names.{
  registering, serving, Server, response, in_table, pushed, name_of, drain, drain_one, early, late,
  serve, run,
}
use burrit_osprivate.User.Names.Directory.{Waiting, join, answers, known, gathering, AllNamed}

abbrev ids : Waiting → List ℕ
ids [] = []
ids ((id, name) ∷ w) = id ∷ ids w

abbrev names : Waiting → List ℕ
names [] = []
names ((id, name) ∷ w) = name ∷ names w

ids-append : (w : Waiting) (id name : ℕ) → ids (w ++ ((id, name) ∷ [])) ≡ ids w ++ (id ∷ [])
ids-append [] id name = refl
ids-append ((i, n) ∷ w) id name = ap (λ (l : List ℕ). i ∷ l) (ids-append w id name)

names-append : (w : Waiting) (id name : ℕ) → names (w ++ ((id, name) ∷ [])) ≡ names w ++ (name ∷ [])
names-append [] id name = refl
names-append ((i, n) ∷ w) id name = ap (λ (l : List ℕ). n ∷ l) (names-append w id name)

length-ids : (w : Waiting) → length (ids w) ≡ length w
length-ids [] = refl
length-ids ((i, n) ∷ w) = ap suc (length-ids w)

length-names : (w : Waiting) → length (names w) ≡ length w
length-names [] = refl
length-names ((i, n) ∷ w) = ap suc (length-names w)

-- Those who wait ask for names that have a place in the table.
abbrev pub Asked : Waiting → Type 0
Asked [] = Unit
Asked ((id, name) ∷ w) = (name < 11) × Asked w

pub Asked-append :
    (w : Waiting) (id name : ℕ) → Asked w → name < 11 → Asked (w ++ ((id, name) ∷ []))
Asked-append [] id name a lt = (lt, tt)
Asked-append ((i, n) ∷ w) id name (a, more) lt = (a, Asked-append w id name more lt)

-- The two queues hold those who wait.
record Hold (clients asked : Queue) (w : Waiting) : Type 0 where
  clients_held : Holds clients 32 (ids w)
  names_held : Holds asked 32 (names w)
  few : length w ≤ 32
  asked_ok : Asked w

in_table_lem :
    (table : List ℕ) (name : ℕ) → length table ≡ 11 → name < 11 → in_table table name ≡ true
in_table_lem table name size lt = ground arith

drain-answers :
    (n : ℕ) (table : List ℕ) (m : MessageEnvelope) {clients asked : Queue} (w : Waiting)
    → Holds clients 32 (ids w)
    → Holds asked 32 (names w)
    → length w < n
    → length table ≡ 11
    → Asked w
    → drain n table m clients asked ≡ done (answers table m w)
unfolding drain Queue.pop_u8
drain-answers zero table m w h h' few size a = absurd (omega arith)
drain-answers (suc n) table m {clients} {asked} [] h h' few size a =
    ap (drain_one (drain n table) table m asked) (pop-none h refl)
drain-answers (suc n) table m {clients} {asked} ((id, name) ∷ w) h h' few size (a, more) =
    let (q, e, hq) = pop-some h id (ids w) refl in
    let (q', e', hq') = pop-some h' name (names w) refl in
    let m' = response m (get_or table name 0) in
    let next : name_of asked (Queue.pop asked) ≡ (name, q') = ap (name_of asked) e' in
    ap (drain_one (drain n table) table m asked) e
    ∙ rw
        (
          next,
          in_table_lem table name size a,
          drain-answers n table m' w hq hq' (omega (arith, few)) size more,
        )
        refl

-- A client that asks joins those who wait, or is forgotten.
join-Hold :
    (clients asked : Queue) (w : Waiting) (id name : ℕ)
    → Hold clients asked w
    → to_u8 name < 11
    → Hold
        (pushed clients (Queue.push_u16 clients id))
        (pushed asked (Queue.push_u8 asked name))
        (join (to_u16 id) (to_u8 name) w)
unfolding Queue.push_u16 Queue.push_u8
join-Hold clients asked w id name h lt = elim (Bool-cases (length w == 32)) [
  | inl full ↦
      let size = (==_iff (length w) 32).0 full in
      let e = push-full h.clients_held (to_u16 id) (length-ids w ∙ size) in
      let e' = push-full h.names_held (to_u8 name) (length-names w ∙ size) in rw (full, e, e') h
  | inr room ↦
      let size : length w ≢ 32 = ground (arith, room) in
      let (q, e, hq) = push-some h.clients_held (to_u16 id) (λ z. size (sym (length-ids w) ∙ z)) in
      let (q', e', hq') =
        push-some h.names_held (to_u8 name) (λ z. size (sym (length-names w) ∙ z)) in
      rw (room, e, e')
        (record {
          clients_held = subst (Holds q 32) (sym (ids-append w (to_u16 id) (to_u8 name))) hq;
          names_held = subst (Holds q' 32) (sym (names-append w (to_u16 id) (to_u8 name))) hq';
          few = omega (arith, length-append w ((to_u16 id, to_u8 name) ∷ []), h.few, size);
          asked_ok = Asked-append w (to_u16 id) (to_u8 name) h.asked_ok lt;
        })
]

late-known :
    (table : List ℕ) (rs : List Request)
    → length table ≡ 11
    → AllNamed rs
    → run (record { name_table = table; phase = serving }) rs ≡ done (known table rs)
unfolding run serve late
late-known table [] size ps = refl
late-known table (r ∷ rs) size (p, ps) = elim (Bool-cases (r.message.type == 2)) [
  | inl e ↦
      let lt = in_table_lem table (body_u8 r.message) size (p (inl ((==_iff _ _).0 e))) in
      let rest = late-known (set table (body_u8 r.message) r.sender) rs (rw length-set size) ps in
      rw (e, lt, rest) refl
  | inr n ↦ elim (Bool-cases (r.message.type == 1)) [
    | inl e ↦
        let lt = in_table_lem table (body_u8 r.message) size (p (inr ((==_iff _ _).0 e))) in
        rw (n, e, lt, late-known table rs size ps) refl
    | inr n' ↦ rw (n, n', late-known table rs size ps) refl
  ]
]

early-gathering :
    (table : List ℕ) (left : ℕ) (clients asked : Queue) (w : Waiting) (rs : List Request)
    → length table ≡ 11
    → AllNamed rs
    → Hold clients asked w
    → run (record { name_table = table; phase = registering left clients asked }) rs
      ≡ done (gathering table left w rs)
unfolding run serve early
early-gathering table left clients asked w [] size ps h = refl
early-gathering table left clients asked w (r ∷ rs) size (p, ps) h =
    let table' = set table (body_u8 r.message) r.sender in
    let size' : length table' ≡ 11 = rw length-set size in
    elim (Bool-cases (r.message.type == 2)) [
      | inl e ↦
          let lt = in_table_lem table (body_u8 r.message) size (p (inl ((==_iff _ _).0 e))) in
          elim (Bool-cases (left - 1 == 0)) [
            | inl z ↦
                let answered =
                  drain-answers 33 table' (response r.message r.sender) w h.clients_held
                    h.names_held (omega (arith, h.few)) size' h.asked_ok in
                rw (e, lt, z, answered, late-known table' rs size' ps) refl
            | inr z ↦
                rw (e, lt, z, early-gathering table' (left - 1) clients asked w rs size' ps h) refl
          ]
      | inr n ↦ elim (Bool-cases (r.message.type == 1)) [
        | inl e ↦
            let lt = p (inr ((==_iff _ _).0 e)) in
            rw (n, e)
              (rw
                (early-gathering table left _ _
                  (join (to_u16 r.sender) (to_u8 (body_u16 r.message)) w) rs size ps
                  (join-Hold clients asked w r.sender (body_u16 r.message) h (omega (arith, lt))))
                refl)
        | inr n' ↦ rw (n, n', early-gathering table left clients asked w rs size ps h) refl
      ]
    ]

-- A server as the loop that registers finds it: 11 names to come, and two empty queues.
abbrev pub started : List ℕ → Queue → Queue → Server
started table clients asked = record { name_table = table; phase = registering 11 clients asked }

-- The name server, whatever its table of 11 names holds at first, gives the replies of the directory
-- to any sequence of messages in which every name is below 11; in particular its loops end.
pub run-gathering :
    (table buf buf' : List ℕ) {clients asked : Queue} (rs : List Request)
    → length table ≡ 11
    → AllNamed rs
    → 32 ≤ length buf
    → 32 ≤ length buf'
    → Queue.init buf 32 ≡ ok clients
    → Queue.init_u8 buf' 32 ≡ ok asked
    → run (started table clients asked) rs ≡ done (gathering table 11 [] rs)
unfolding Queue.init_u8
run-gathering table buf buf' {clients} {asked} rs size named room room' e e' =
    early-gathering table 11 clients asked [] rs size named (record {
      clients_held = init-Holds buf 32 (omega arith) room e;
      names_held = init-Holds buf' 32 (omega arith) room' e';
      few = omega arith;
      asked_ok = tt;
    })
