-- ===== src/User/Switches/Serve.antt =====
-- `TrainSwitchServer` sends the courier the commands in their order.
use burrit_osprivate.Prelude.{
  ℕ, ◌+◌, ◌*◌, ◌/◌, ◌≤◌, ◌<◌, ◌≡◌, ◌≢◌, refl, sym, ap, ap₂, subst, ◌∙◌, true, false, ◌||◌, List, [],
  ◌∷◌, ◌++◌, append-nil, append_assoc, ◌==◌, arith, length, length-append, Bool-cases, inl, inr,
  ==_iff, ==-eq_false,
}
use burrit_osprivate.Prelude.Word.{to_u8, to_u16}
use burrit_osprivate.Prelude.Outcome.{done}
use burrit_osprivate.Kernel.Data.{MessageEnvelope}
use burrit_osprivate.Queue
use burrit_osprivate.Queue.{Queue}
use burrit_osprivate.Queue.Steps.{Holds, pop-none, pop-some, push-some}
use burrit_osprivate.User.Messages.{body_u8, Reply, Request}
use burrit_osprivate.User.Switches.{Server, ordered, command, serve, run}
use burrit_osprivate.User.Switches.Order.{
  carried, carried_all, given, given_all, Words, Valid, Proper, AllProper,
}

Words-snoc : (l : List ℕ) (x : ℕ) → Words l → x < 65536 → x / 256 ≢ 32 → Words (l ++ (x ∷ []))
Words-snoc [] x w lt ne = ((lt, ne), tt)
Words-snoc (y ∷ l) x (h, w) lt ne = (h, Words-snoc l x w lt ne)

-- One message, where there is room for a command.
Served : Server → List ℕ → Request → Type 0
Served s l r =
    (out : List Reply) × (s' : Server) × (l' : List ℕ) × (serve s r ≡ done (out, s'))
    × Valid s' l'
    × (s'.courier ≡ s.courier)
    × (carried s.courier out ++ l' ≡ l ++ given r)

-- A command for the courier.
word-ordered :
    (m : MessageEnvelope) (x : ℕ) → x < 65536 → (ordered m x).type * 256 + body_u8 (ordered m x) ≡ x
word-ordered m x lt = omega arith

module _ (s : Server) (r : Request) (p : Proper s.courier r) where
  asks-Served : (l : List ℕ) → r.message.type ≡ 17 → Valid s l → Served s l r
  unfolding Served serve
  asks-Served [] ty v =
      let from : (r.sender == s.courier) ≡ true = (==_iff r.sender s.courier).1 (p.courier ty) in
      let e = pop-none v.holds refl in
      elim (Bool-cases (s.turning_off == 0)) [
        | inl z ↦
            rw (ty, e, z)
              (
                _,
                _,
                [],
                refl,
                record { holds = v.holds; words = tt; idle = λ h. refl },
                refl,
                rw from refl,
              )
        | inr z ↦
            rw (ty, e, z)
              (_, _, [], refl, record { holds = v.holds; words = tt; idle = λ h. refl }, refl, refl)
      ]
  asks-Served (x ∷ l) ty v =
      let (q, e, h) = pop-some v.holds x l refl in
      let ((lt, ne), ws) = v.words in
      let from : (r.sender == s.courier) ≡ true = (==_iff r.sender s.courier).1 (p.courier ty) in
      let kind : (to_u8 (x / 256) == 32) ≡ false = ground arith in
      rw (ty, e)
        (
          _,
          _,
          l,
          refl,
          record { holds = h; words = ws; idle = λ h. absurd (h refl) },
          refl,
          rw (from, kind)
              (ap₂ (λ (b : ℕ) (t : List ℕ). b ∷ t) (word-ordered r.message x lt)
                (sym (append-nil l))),
        )

  -- A command, where there is room for it.
  command-Served :
      (l : List ℕ)
      → (r.message.type == 33 || r.message.type == 34) ≡ true
      → length l < 64
      → Valid s l
      → Served s l r
  unfolding Served serve command Queue.push_u16
  command-Served l ty room v =
      let m = r.message in
      let from : r.sender ≢ s.courier = λ h. absurd (ground (arith, p.asks h)) in
      let other : (m.type == 17) ≡ false = ground (arith, ty) in
      let off : (m.type == 32) ≡ false = ground (arith, ty) in
      let word = m.type * 256 + body_u8 m in
      let fits : word < 65536 = ground (arith, p.byte) in
      let same : to_u16 word ≡ word = omega (arith, fits) in
      elim (Bool-cases (s.courier_waiting == 0)) [
        | inl z ↦
            let (q, e, h) = push-some v.holds (to_u16 word) (omega (arith, room)) in
            rw (other, ty, z, e)
              (
                _,
                _,
                l ++ (word ∷ []),
                refl,
                record {
                  holds = subst (λ w. Holds q 64 (l ++ (w ∷ []))) same h;
                  words = Words-snoc l word v.words fits (ground (arith, ty));
                  idle = λ h. absurd (h ((==_iff s.courier_waiting 0).0 z));
                },
                refl,
                rw (==-eq_false r.sender s.courier from) refl,
              )
        | inr z ↦
            let none = v.idle (ground (arith, z)) in
            rw (other, ty, z)
              (
                _,
                _,
                [],
                refl,
                record {
                  holds = subst (Holds s.messages 64) none v.holds;
                  words = tt;
                  idle = λ h. refl;
                },
                refl,
                rw ((==_iff s.courier s.courier).1 refl, off, ==-eq_false r.sender s.courier from)
                    (ap (λ (t : List ℕ). t ++ (word ∷ [])) (sym none)),
              )
      ]

  other-Served :
      (l : List ℕ)
      → (r.message.type == 17) ≡ false
      → (r.message.type == 33 || r.message.type == 34) ≡ false
      → Valid s l
      → Served s l r
  unfolding Served serve
  other-Served l n n' v = rw (n, n') ([], s, l, refl, v, refl, sym (append-nil l))

  serve-Served : (l : List ℕ) → length l + length (given r) ≤ 64 → Valid s l → Served s l r
  unfolding Served
  serve-Served l room v = elim (Bool-cases (r.message.type == 17)) [
    | inl a ↦ asks-Served l ((==_iff r.message.type 17).0 a) v
    | inr n ↦ elim (Bool-cases (r.message.type == 33 || r.message.type == 34)) [
      | inl c ↦ command-Served l c (ground (arith, c, room)) v
      | inr n' ↦ other-Served l n n' v
    ]
  ]

-- Over any sequence of messages with no more commands than the queue has room for, where only the
-- courier asks, the server of the switches gets through it, and the commands that it sends the
-- courier, with those that it has yet to send, are those that it had and then those that came, in
-- their order.
pub run-carries :
    (s : Server) (l : List ℕ) (rs : List Request)
    → Valid s l
    → AllProper s.courier rs
    → length l + length (given_all rs) ≤ 64
    → (outs : List (List Reply)) × (s' : Server) × (l' : List ℕ) × (run s rs ≡ done (outs, s'))
      × Valid s' l'
      × (carried_all s.courier outs ++ l' ≡ l ++ given_all rs)
unfolding run Served
run-carries s l [] v ps room = ([], s, l, refl, v, sym (append-nil l))
run-carries s l (r ∷ rs) v (p, ps) room =
    let split = length-append (given r) (given_all rs) in
    let (out, s₁, l₁, e, v₁, same, kept) = serve-Served s r p l (omega (arith, room, split)) v in
    let sizes =
      sym (length-append (carried s.courier out) l₁)
      ∙ ap (λ (t : List ℕ). length t) kept
      ∙ length-append l (given r) in
    let (outs, s₂, l₂, e', v₂, kept') =
      run-carries s₁ l₁ rs v₁ (subst (λ id. AllProper id rs) (sym same) ps)
        (omega (arith, room, split, sizes)) in
    let rest = subst (λ id. carried_all id outs ++ l₂ ≡ l₁ ++ given_all rs) same kept' in
    (
      out ∷ outs,
      s₂,
      l₂,
      rw (e, e') refl,
      v₂,
      append_assoc (carried s.courier out) (carried_all s.courier outs) l₂
          ∙ ap (λ (t : List ℕ). carried s.courier out ++ t) rest
          ∙ sym (append_assoc (carried s.courier out) l₁ (given_all rs))
          ∙ ap (λ (t : List ℕ). t ++ given_all rs) kept
          ∙ append_assoc l (given r) (given_all rs),
    )
