-- ===== src/User/Terminal/Serve.antt =====
-- Each message of `TerminalDriver`.
use burrit_osprivate.Prelude.{
  ℕ, ◌≡◌, ◌≢◌, refl, sym, ap, subst, ◌∙◌, List, [], ◌++◌, append-nil, ◌==◌, ltb, arith, Bool-cases,
  if-true, if-false, inl, inr, ==_iff, ==-eq_false,
}
use burrit_osprivate.Prelude.Result.{Result, ok, err}
use burrit_osprivate.Prelude.Outcome.{done, assert->>, done-injective}
use burrit_osprivate.Queue
use burrit_osprivate.Queue.{Queue}
use burrit_osprivate.User.Terminal.{Received, Sent, got, Terminal, getc, arrive, serve}
use burrit_osprivate.User.Terminal.Ring.{bytes}
use burrit_osprivate.User.Terminal.Step.{sent, pending, Valid, Proper, Step}
use burrit_osprivate.User.Terminal.Output.{transmit-Step, putstr-Step}

-- The messages that leave the ring alone.
silent-Step :
    (t : Terminal) (r : Received) {ss : List Sent} {q : Queue} {task : ℕ}
    → Valid t
    → r.mail.type ≢ 18
    → task ≢ t.output_id
    → sent t.output_id ss ≡ []
    → Step t r (ss, record t { input = q; getc_task = task })
silent-Step t r {ss} v other apart quiet = record {
  valid = record {
    size = v.size;
    head_in = v.head_in;
    tail_at = v.tail_at;
    room = v.room;
    idle = v.idle;
    apart = apart;
    input_apart = v.input_apart;
    known = v.known;
  };
  same = refl;
  bytes_kept =
      ap (λ (l : List ℕ). l ++ bytes (pending t)) quiet
      ∙ sym (
          ap (λ (l : List ℕ). bytes (pending t) ++ l) (rw (==-eq_false r.mail.type 18 other) refl)
          ∙ append-nil (bytes (pending t)));
}

module _ (t : Terminal) (r : Received) (v : Valid t) (other : r.mail.type ≢ 18)
    (from : r.sender ≢ t.output_id) where
  got-Step :
      {o : List Sent × Terminal} (p : Result (ℕ × Queue))
      → got t r.sender r.mail p ≡ done o
      → Step t r o
  got-Step (err x) e =
      let (none, e') = assert->> (t.getc_task == 0) _ e in
      subst (Step t r) (done-injective e') (silent-Step t r {q = t.input} v other from refl)
  got-Step (ok (value, q)) e = subst (Step t r) (done-injective e) (
      silent-Step t r {q = q} {task = t.getc_task} v other v.apart
        (rw (==-eq_false r.sender t.output_id from) refl))

  arrive-Step : {o : List Sent × Terminal} → arrive t r.sender r.mail ≡ done o → Step t r o
  unfolding arrive
  arrive-Step e =
      let (known, e') = assert->> (t.input_id == r.sender) _ e in
      let quiet = ==-eq_false t.input_id t.output_id v.input_apart in
      elim (Bool-cases (ltb 0 t.getc_task)) [
        | inl z ↦ subst (Step t r) (done-injective (if-true (ltb 0 t.getc_task) _ _ z e')) (
            silent-Step t r {q = t.input} v other (λ h. v.known (sym h))
              (rw (quiet, ==-eq_false t.getc_task t.output_id v.apart) refl))
        | inr z ↦
            subst (Step t r) (done-injective (if-false (ltb 0 t.getc_task) _ _ z e'))
              (silent-Step t r {task = t.getc_task} v other v.apart (rw quiet refl))
      ]

pub serve-Step :
    (t : Terminal) (r : Received) {o : List Sent × Terminal}
    → Valid t
    → Proper t.output_id r
    → serve t r ≡ done o
    → Step t r o
unfolding serve getc
serve-Step t r v p e =
    let k = r.mail.type in
    elim (Bool-cases (k == 15)) [
      | inl ask ↦
          let ty = (==_iff k 15).0 ask in
          transmit-Step t r v ty (p.notifier ty) (
            if-true (k == 15) _ _ ask (
              if-false (k == 18) _ _ (ground (arith, ty))
                (if-false (k == 12) _ _ (ground (arith, ty)) e)))
      | inr quiet ↦
          let from : r.sender ≢ t.output_id = λ h. absurd (ground (arith, p.asks h, quiet)) in
          elim (Bool-cases (k == 12)) [
            | inl c ↦
                got-Step t r v (ground (arith, c)) from (Queue.pop_u8 t.input)
                  (if-true (k == 12) _ _ c e)
            | inr n₁ ↦ elim (Bool-cases (k == 18)) [
              | inl c ↦
                  let ty = (==_iff k 18).0 c in
                  putstr-Step t r v ty (p.text ty) p.short from
                    (if-true (k == 18) _ _ c (if-false (k == 12) _ _ n₁ e))
              | inr n₂ ↦
                  let e' =
                    if-false (k == 15) _ _ quiet
                      (if-false (k == 18) _ _ n₂ (if-false (k == 12) _ _ n₁ e)) in
                  elim (Bool-cases (k == 14)) [
                    | inl c ↦
                        arrive-Step t r v (ground (arith, c)) from (if-true (k == 14) _ _ c e')
                    | inr n₃ ↦ subst (Step t r) (done-injective (if-false (k == 14) _ _ n₃ e')) (
                        silent-Step t r {q = t.input} {task = t.getc_task} v (ground (arith, n₂))
                          v.apart refl)
                  ]
            ]
          ]
    ]
