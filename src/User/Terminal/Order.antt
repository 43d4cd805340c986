-- ===== src/User/Terminal/Order.antt =====
-- The order in which `TerminalDriver` prints.
use burrit_osprivate.Prelude.{
  ℕ, suc, ◌+◌, ◌^◌, ◌<◌, ◌-◌, ◌≡◌, ◌≢◌, refl, sym, ap, subst, ◌∙◌, true, List, [], ◌∷◌, ◌++◌,
  append-nil, append_assoc, ◌==◌, ltb, arith, length, length-append, Bool-cases, inl, inr, ◌⊎◌,
  ==-eq_false,
}
use burrit_osprivate.Prelude.Word.{add32}
use burrit_osprivate.Prelude.Window.{length-window}
use burrit_osprivate.Prelude.Outcome.{done, >>=-eq_done, done-injective}
use burrit_osprivate.String.{strlen}
use burrit_osprivate.User.Terminal.{
  Mail, Received, Sent, send, Terminal, dequeue, copy, putstr, transmit, serve, run,
}
use burrit_osprivate.User.Terminal.Ring.{bytes}
use burrit_osprivate.User.Terminal.Step.{
  sent, sent_all, pending, printed, printed_all, Valid, AllProper,
}
use burrit_osprivate.User.Terminal.Serve.{serve-Step}

length-bytes : (s : List ℕ) → length (bytes s) ≡ length s
length-bytes [] = refl
length-bytes (c ∷ s) = ap suc (length-bytes s)

Ordered : Terminal → List Received → List (List Sent) × Terminal → Type 0
Ordered t rs (outs, t') =
    sent_all t.output_id outs ++ bytes (pending t') ≡ bytes (pending t) ++ printed_all rs

run-Ordered :
    (t : Terminal) (rs : List Received) {o : List (List Sent) × Terminal}
    → Valid t
    → AllProper t.output_id rs
    → run t rs ≡ done o
    → Ordered t rs o
unfolding run Ordered
run-Ordered t [] v ps e =
    subst (Ordered t []) (done-injective e) (sym (append-nil (bytes (pending t))))
run-Ordered t (r ∷ rs) v (p, ps) e =
    let ((out, t'), e₁, e₂) = >>=-eq_done (serve t r) _ e in
    let ((outs, t''), e₃, e₄) = >>=-eq_done (run t' rs) _ e₂ in
    let s = serve-Step t r v p e₁ in
    let rest : Ordered t' rs (outs, t'') =
      run-Ordered t' rs s.valid (subst (λ id. AllProper id rs) (sym s.same) ps) e₃ in
    let rest' =
      subst (λ id. sent_all id outs ++ bytes (pending t'') ≡ bytes (pending t') ++ printed_all rs)
        s.same rest in
    subst (Ordered t (r ∷ rs)) (done-injective e₄) (
      append_assoc (sent t.output_id out) (sent_all t.output_id outs) (bytes (pending t''))
      ∙ ap (λ (l : List ℕ). sent t.output_id out ++ l) rest'
      ∙ sym (append_assoc (sent t.output_id out) (bytes (pending t')) (printed_all rs))
      ∙ ap (λ (l : List ℕ). l ++ printed_all rs) s.bytes_kept
      ∙ append_assoc (bytes (pending t)) (printed r) (printed_all rs))

-- The driver is between two messages: its ring has 4096 cells, its tail is `count` cells after its
-- head, fewer than 4096 bytes wait, and none while the output notifier waits; this notifier is a task
-- of its own. No string is empty or has 2 ^ 31 characters, the notifier only asks for bytes, and no
-- other task asks for them. Where the driver gets through the messages, the bytes that it gives to
-- the notifier, with those that wait in its ring at the end, are those that waited at first and then
-- those of the strings, in the order of the messages: none is lost, repeated or out of order.
pub run-order :
    (t : Terminal) (rs : List Received) {outs : List (List Sent)} {t' : Terminal}
    → Valid t
    → AllProper t.output_id rs
    → run t rs ≡ done (outs, t')
    → sent_all t.output_id outs ++ bytes (pending t') ≡ bytes (pending t) ++ printed_all rs
unfolding Ordered
run-order t rs v ps e = run-Ordered t rs v ps e

-- Messages that have to do with the output alone.
abbrev pub AllOutput : List Received → Type 0
AllOutput [] = Unit
AllOutput (r ∷ rs) = ((r.mail.type ≡ 18) ⊎ (r.mail.type ≡ 15)) × AllOutput rs

length-pending : (t : Terminal) → length (bytes (pending t)) ≡ t.count
length-pending t = length-bytes (pending t) ∙ length-window 0 4096 t.output t.head t.count

fits :
    (t : Terminal) (r : Received)
    → Valid t
    → r.mail.type ≡ 18
    → t.count + length (printed r) < 4096
    → ltb (add32 t.count (length r.mail.text)) 4096 ≡ true
fits t r v ty room =
    let same : length (printed r) ≡ length r.mail.text = rw ty (length-bytes r.mail.text) in
    ground (arith, same)

serve-done :
    (t : Terminal) (r : Received)
    → Valid t
    → (r.mail.type ≡ 18) ⊎ (r.mail.type ≡ 15)
    → t.count + length (printed r) < 4096
    → (o : List Sent × Terminal) × (serve t r ≡ done o)
unfolding serve putstr transmit
serve-done t r v (inl ty) room = elim (Bool-cases (t.ready == 0)) [
  | inl z ↦ rw (ty, fits t r v ty room, z) (_, refl)
  | inr z ↦ rw (ty, fits t r v ty room, z) (_, refl)
]
serve-done t r v (inr ty) room = elim (Bool-cases (t.head == t.tail)) [
  | inl z ↦ rw (ty, z) (_, refl)
  | inr z ↦ rw (ty, z) (_, refl)
]

-- For a driver between two messages, and messages that print a string or ask for a byte, of which no
-- string is empty or has 2 ^ 31 characters, the output notifier only asks, and no other task does: if
-- the bytes that wait and those to print are fewer than 4096, the driver gets through all of them.
pub run-done_output :
    (t : Terminal) (rs : List Received)
    → Valid t
    → AllProper t.output_id rs
    → AllOutput rs
    → t.count + length (printed_all rs) < 4096
    → (outs : List (List Sent)) × (t' : Terminal) × (run t rs ≡ done (outs, t'))
unfolding run
run-done_output t [] v ps os room = ([], t, refl)
run-done_output t (r ∷ rs) v (p, ps) (o, os) room =
    let split = length-append (printed r) (printed_all rs) in
    let ((out, t'), e) = serve-done t r v o (omega (arith, room, split)) in
    let s = serve-Step t r v p e in
    let sizes =
      sym (length-append (sent t.output_id out) (bytes (pending t')))
      ∙ ap (λ (l : List ℕ). length l) s.bytes_kept
      ∙ length-append (bytes (pending t)) (printed r) in
    let (outs, t'', e') =
      run-done_output t' rs s.valid (subst (λ id. AllProper id rs) (sym s.same) ps) os
        (omega (arith, room, split, sizes, length-pending t, length-pending t')) in
    (out ∷ outs, t'', rw (e, e') refl)

-- A driver that waits for output, with an empty ring, gives the notifier a byte that nobody printed
-- when a string is empty, and counts 2 ^ 32 - 1 bytes then.
pub putstr-empty :
    (t : Terminal) (from type body : ℕ)
    → t.ready ≢ 0
    → t.count ≡ 0
    → let m : Mail = record { type = type; body = body; text = [] } in
      (t' : Terminal) × (putstr t from m
        ≡ done (send from m ∷ send t.output_id (dequeue t m) ∷ [], t'))
      × (t'.count ≡ 2 ^ 32 - 1)
unfolding putstr copy
putstr-empty t from type body waits none =
    let fits : ltb (add32 t.count (strlen [])) 4096 ≡ true = ground (arith, none) in
    rw (fits, ==-eq_false t.ready 0 waits) (_, refl, omega (arith, none))
