-- ===== src/User/Terminal/Output.antt =====
-- The messages of `TerminalDriver` that fill the ring and empty it.
use burrit_osprivate.Prelude.{
  ℕ, ◌+◌, ◌-◌, ◌%◌, ◌^◌, ◌≤◌, ◌<◌, ◌≡◌, ◌≢◌, refl, sym, ap, ap₂, subst, ◌∙◌, true, not, List, [],
  ◌∷◌, ◌++◌, append-nil, ◌==◌, ltb, arith, length, get_or, Bool-cases, if-true, if-false, inl, inr,
  ==_iff, ==-eq_false,
}
use burrit_osprivate.Prelude.Word.{to_u8, add32, sub32}
use burrit_osprivate.Prelude.Window.{window-cons}
use burrit_osprivate.Prelude.Outcome.{done, assert->>, done-injective}
use burrit_osprivate.User.Terminal.{
  Mail, Received, Sent, Terminal, put_u8, copy, left, putstr, transmit,
}
use burrit_osprivate.User.Terminal.Ring.{
  held, bytes, bytes-append, bytes-bytes, advance-eq, Copied, copy-Copied,
}
use burrit_osprivate.User.Terminal.Step.{pending, printed, Valid, Step}

-- A byte that leaves.
left-pending :
    (t : Terminal) → Valid t → t.count ≢ 0 → pending t ≡ get_or t.output t.head 0 ∷ pending (left t)
left-pending t v ne =
    let fewer : t.count - 1 ≡ sub32 t.count 1 = omega (arith, v.room) in
    window-cons 0 4096 t.output t.head t.count ne
    ∙ ap₂ (λ h n. get_or t.output (0 + t.head) 0 ∷ held t.output h n)
        (sym (advance-eq t.head v.head_in)) fewer
    ∙ ap (λ i. get_or t.output i 0 ∷ pending (left t)) {x = 0 + t.head} {y = t.head} (omega arith)

left-Valid : (t : Terminal) → Valid t → t.count ≢ 0 → t.ready ≡ 0 → Valid (left t)
left-Valid t v ne busy =
    let e = advance-eq t.head v.head_in in
    record {
      size = v.size;
      head_in = omega (arith, e);
      tail_at = omega (arith, e, v.tail_at, v.head_in, v.room);
      room = omega (arith, v.room);
      idle = λ h. absurd (h busy);
      apart = v.apart;
      input_apart = v.input_apart;
      known = v.known;
    }

low : (m : Mail) (v : ℕ) → (put_u8 m v).body % 256 ≡ to_u8 v
low m v = omega arith

pub transmit-Step :
    (t : Terminal) (r : Received) {o : List Sent × Terminal}
    → Valid t
    → r.mail.type ≡ 15
    → r.sender ≡ t.output_id
    → transmit t r.sender r.mail ≡ done o
    → Step t r o
unfolding transmit
transmit-Step t r v ty from e =
    let silent : printed r ≡ [] = rw ty refl in
    elim (Bool-cases (t.head == t.tail)) [
      | inl none ↦
          let empty : t.count ≡ 0 = ground (arith, v.tail_at, v.head_in, v.room) in
          let o = done-injective (if-false (not (t.head == t.tail)) _ _ (ap not none) e) in
          subst (Step t r) o (record {
            valid = record {
              size = v.size;
              head_in = v.head_in;
              tail_at = v.tail_at;
              room = v.room;
              idle = λ h. empty;
              apart = v.apart;
              input_apart = v.input_apart;
              known = v.known;
            };
            same = refl;
            bytes_kept = sym (
                ap (λ (l : List ℕ). bytes (pending t) ++ l) silent
                ∙ append-nil (bytes (pending t)));
          })
      | inr some ↦
          let full : t.count ≢ 0 = ground (arith, v.tail_at, v.head_in, v.room) in
          let busy : t.ready ≡ 0 = ground (arith, v.idle) in
          let o = done-injective (if-true (not (t.head == t.tail)) _ _ (ap not some) e) in
          let byte = get_or t.output t.head 0 in
          subst (Step t r) o (record {
            valid = left-Valid t v full busy;
            same = refl;
            bytes_kept = rw ((==_iff r.sender t.output_id).1 from) (
                ap (λ (b : ℕ). b ∷ bytes (pending (left t))) (low r.mail byte)
                ∙ sym (ap bytes (left-pending t v full))
                ∙ sym (
                    ap (λ (l : List ℕ). bytes (pending t) ++ l) silent
                    ∙ append-nil (bytes (pending t))));
          })
    ]

-- The driver with a string in its ring, and a notifier that is busy.
abbrev written : Terminal → List ℕ → Terminal
written t text = record t {
  output = (copy text t.output t.tail).0;
  tail = (copy text t.output t.tail).1;
  count = add32 t.count (length text);
  ready = 0;
}

module _ (t : Terminal) (text : List ℕ) (v : Valid t) (short : length text < 2 ^ 31)
    (fits : ltb (add32 t.count (length text)) 4096 ≡ true) where
  sum : add32 t.count (length text) ≡ t.count + length text
  sum = omega (arith, v.room, short)

  copied : Copied text t.output t.head t.tail t.count (copy text t.output t.tail)
  copied =
      copy-Copied text t.output t.head t.tail t.count v.size v.head_in (ground (arith, sum, fits))
        v.tail_at

  written-Valid : Valid (written t text)
  written-Valid = record {
    size = copied.size;
    head_in = v.head_in;
    tail_at = copied.tail_at ∙ ap (λ n. (t.head + n) % 4096) (sym sum);
    room = ground (arith, fits);
    idle = λ h. absurd (h refl);
    apart = v.apart;
    input_apart = v.input_apart;
    known = v.known;
  }

  written-pending : pending (written t text) ≡ pending t ++ bytes text
  written-pending = ap (held (copy text t.output t.tail).0 t.head) sum ∙ copied.held_now

  written-bytes : bytes (pending (written t text)) ≡ bytes (pending t) ++ bytes text
  written-bytes =
      ap bytes written-pending
      ∙ bytes-append (pending t) (bytes text)
      ∙ ap (λ (l : List ℕ). bytes (pending t) ++ l) (bytes-bytes text)

length-pos : (s : List ℕ) → s ≢ [] → 1 ≤ length s
length-pos [] h = absurd (h refl)
length-pos (c ∷ s) h = omega arith

pub putstr-Step :
    (t : Terminal) (r : Received) {o : List Sent × Terminal}
    → Valid t
    → r.mail.type ≡ 18
    → r.mail.text ≢ []
    → length r.mail.text < 2 ^ 31
    → r.sender ≢ t.output_id
    → putstr t r.sender r.mail ≡ done o
    → Step t r o
unfolding putstr
putstr-Step t r v ty some short from e =
    let text = r.mail.text in
    let (fits, e') = assert->> (ltb (add32 t.count (length text)) 4096) _ e in
    let w = written-Valid t text v short fits in
    let grown : bytes (pending (written t text)) ≡ bytes (pending t) ++ printed r =
      written-bytes t text v short fits
      ∙ ap (λ (l : List ℕ). bytes (pending t) ++ l) (rw ty refl) in
    elim (Bool-cases (t.ready == 0)) [
      | inl z ↦
          let o = done-injective (if-true (t.ready == 0) _ _ z e') in
          subst (Step t r) o (record {
            valid = record {
              size = w.size;
              head_in = v.head_in;
              tail_at = w.tail_at;
              room = w.room;
              idle = λ h. absurd (h ((==_iff t.ready 0).0 z));
              apart = v.apart;
              input_apart = v.input_apart;
              known = v.known;
            };
            same = refl;
            bytes_kept = rw (==-eq_false r.sender t.output_id from) grown;
          })
      | inr z ↦
          let o = done-injective (if-false (t.ready == 0) _ _ z e') in
          let full : (written t text).count ≢ 0 =
            ground (arith, length-pos text some, sum t text v short fits) in
          subst (Step t r) o (record {
            valid = left-Valid (written t text) w full refl;
            same = refl;
            bytes_kept =
                rw (==-eq_false r.sender t.output_id from, (==_iff t.output_id t.output_id).1 refl)
                  (ap (λ (b : ℕ). b ∷ bytes (pending (left (written t text))))
                      (low r.mail (get_or (written t text).output t.head 0))
                    ∙ sym (ap bytes (left-pending (written t text) w full))
                    ∙ grown);
          })
    ]
