-- ===== src/User/Names/Early.antt =====
-- The answers of the name server of user/servers/NameServer.c to those who ask while names are missing.
use burrit_osprivate.Prelude.{
  ℕ, ◌+◌, ◌-◌, ◌≤◌, ◌<◌, ◌≡◌, ◌≢◌, ap₂, ◌∙◌, true, false, ◌&&◌, List, [], ◌∷◌, ◌==◌, ==_iff,
  ==-eq_false, if◌then◌else◌, set, length, length-set, arith, Bool-cases, inl, inr, ◌⊎◌, ℕ_discrete,
}
use burrit_osprivate.Prelude.Word.{to_u8, to_u16}
use burrit_osprivate.User.Messages.{body_u8, body_u16, Request}
use burrit_osprivate.User.Names.{response}
use burrit_osprivate.User.Names.Directory.{
  Waiting, join, answers, gathering, registrations, early_lookups, length-join,
}
use burrit_osprivate.User.Names.Register.{Asked, Asked-append}
use burrit_osprivate.User.Names.Told.{
  told_all, owed, Follows, AllFollow, registers, Agrees, owed_waiting, told-reply, told-answers,
  owed_waiting-append, agrees-set, told-known,
}

module _ (dir : ℕ → ℕ) where
  -- What a message leaves to be registered: the last registration, another, and no registration.
  last_registered :
      (n left : ℕ) (table : List ℕ) (r : Request) (rs : List Request)
      → (r.message.type == 2) ≡ true
      → (left - 1 == 0) ≡ true
      → Agrees dir table n ⊎ (registers n left (r ∷ rs) ≡ true)
      → (body_u8 r.message ≡ n) ⊎ Agrees dir table n
  last_registered n left table r rs e z (inl old) = inr old
  last_registered n left table r rs e z (inr h) = inl (ground (arith, e, z, h))

  next_registered :
      (n left : ℕ) (table : List ℕ) (r : Request) (rs : List Request)
      → length table ≡ 11
      → Follows dir r
      → r.message.type ≡ 2
      → (r.message.type == 2) ≡ true
      → (left - 1 == 0) ≡ false
      → Agrees dir table n ⊎ (registers n left (r ∷ rs) ≡ true)
      → Agrees dir (set table (body_u8 r.message) r.sender) n ⊎ (registers n (left - 1) rs ≡ true)
  next_registered n left table r rs size f ty e z (inl old) =
      inl (agrees-set dir table r n size f ty (inr old))
  next_registered n left table r rs size f ty e z (inr h) =
      elim (ℕ_discrete (body_u8 r.message) n) [
        | yes is ↦ inl (agrees-set dir table r n size f ty (inl is))
        | no ne ↦ inr (ground (arith, e, z, h, ne))
      ]

  later :
      (n left : ℕ) (table : List ℕ) (r : Request) (rs : List Request)
      → (r.message.type == 2) ≡ false
      → Agrees dir table n ⊎ (registers n left (r ∷ rs) ≡ true)
      → Agrees dir table n ⊎ (registers n left rs ≡ true)
  later n left table r rs e (inl old) = inl old
  later n left table r rs e (inr h) = inr (ground (arith, e, h))

  module _ (id v : ℕ) where
    pub told-gathering :
        (table : List ℕ) (left : ℕ) (w : Waiting) (rs : List Request)
        → 1 ≤ left
        → left ≤ registrations rs
        → length w + early_lookups left rs ≤ 32
        → length table ≡ 11
        → Asked w
        → ((n : ℕ) → n < 11 → Agrees dir table n ⊎ (registers n left rs ≡ true))
        → AllFollow dir rs
        → told_all id v (gathering table left w rs) ≡ owed_waiting id v dir w + owed id v dir rs
    told-gathering table left w [] some enough few size a inv fs = absurd (omega arith)
    told-gathering table left w (r ∷ rs) some enough few size a inv (f, fs) =
        let m = r.message in
        let table' = set table (body_u8 m) r.sender in
        let m' = response m r.sender in
        elim (Bool-cases (m.type == 2)) [
          | inl e ↦
              let ty = (==_iff _ _).0 e in
              let size' : length table' ≡ 11 = rw length-set size in
              elim (Bool-cases (left - 1 == 0)) [
                | inl z ↦
                    let agrees : (n : ℕ) → n < 11 → Agrees dir table' n = λ n h.
                      agrees-set dir table r n size f ty
                        (last_registered n left table r rs e z (inv n h)) in
                    let here = told-reply id v r.sender m r.sender (answers table' m' w) f.small in
                    rw (e, z)
                      (omega (
                        arith,
                        here,
                        told-answers id v dir table' m' w agrees a,
                        told-known id v dir table' rs size' agrees fs,
                      ))
                | inr z ↦
                    let rest =
                      told-gathering table' (left - 1) w rs (ground (arith, z))
                        (ground (arith, e, enough)) (ground (arith, e, z, few)) size' a
                        (λ n h. next_registered n left table r rs size f ty e z (inv n h)) fs in
                    let here = told-reply id v r.sender m r.sender [] f.small in
                    rw (e, z) (omega (arith, here, rest))
              ]
          | inr n ↦ elim (Bool-cases (m.type == 1)) [
            | inl e ↦
                let i = to_u16 r.sender in
                let name = to_u8 (body_u16 m) in
                let ty = (==_iff _ _).0 e in
                let lt = f.named (inr ty) in
                let grown = length-join i name w (ground (arith, n, e, few)) in
                let room : length w ≢ 32 = ground (arith, n, e, few) in
                let rest =
                  told-gathering table left (join i name w) rs some (ground (arith, n, enough))
                    (ground (arith, n, e, few, grown)) size
                    (rw (==-eq_false (length w) 32 room)
                      (Asked-append w i name a (omega (arith, lt))))
                    (λ k h. later k left table r rs n (inv k h)) fs in
                let whole : i ≡ r.sender = omega (arith, f.small) in
                let short : name ≡ body_u8 m = omega arith in
                let joined : owed_waiting id v dir (join i name w)
                    ≡ owed_waiting id v dir w
                      + (if r.sender == id && dir (body_u8 m) == v then 1 else 0) =
                  rw (==-eq_false (length w) 32 room) (
                    owed_waiting-append id v dir w i name
                    ∙ ap₂ {C = ℕ}
                        (λ (j k : ℕ).
                          owed_waiting id v dir w + (if j == id && dir k == v then 1 else 0))
                        whole short) in
                rw (n, e) (omega (arith, rest, joined))
            | inr n' ↦
                let rest =
                  told-gathering table left w rs some (ground (arith, n, enough))
                    (ground (arith, n, n', few)) size a (λ k h. later k left table r rs n (inv k h))
                    fs in
                rw (n, n') (omega (arith, rest))
          ]
        ]
