-- ===== src/User/Driver/Take.antt =====
-- A command for `TrainDriver`, and any one message.
use burrit_osprivate.Prelude.{
  ℕ, ◌+◌, ◌≤◌, ◌<◌, ◌≡◌, ◌≢◌, ◌⊎◌, inl, inr, refl, sym, ap, subst, true, false, ◌||◌, List, [], ◌∷◌,
  ◌++◌, append-nil, ◌==◌, arith, length, set, Bool-cases, ==_iff, ==-eq_false,
}
use burrit_osprivate.Prelude.Word.{to_u8, to_u16}
use burrit_osprivate.Prelude.Outcome.{done, halt}
use burrit_osprivate.Kernel.Data.{MessageEnvelope}
use burrit_osprivate.Queue
use burrit_osprivate.Queue.{Queue}
use burrit_osprivate.Queue.Steps.{Holds, push-some}
use burrit_osprivate.User.Messages.{body_u16, Reply, reply, Request}
use burrit_osprivate.User.Driver.{
  Driver, driver_type, is_command, prime, full_command, begin_sensors, with_command, send_now, keep,
  take, sense, serve,
}
use burrit_osprivate.User.Driver.Jobs.{
  Job, words, tasks, types, callers, sent, answered, given, any_sensors, Sendable, AllSendable,
  Valid, Proper,
}
use burrit_osprivate.User.Driver.Serve.{
  words-append, tasks-append, types-append, callers-append, any_sensors-append, AllSendable-snoc,
  length-words, length-tasks, length-types, Served, none_left, first_left,
}

-- A command that the driver knows is no word of the sensors.
driver_type-known :
    (m : MessageEnvelope) {k : ℕ}
    → m.type < 256
    → driver_type (full_command m) ≡ done k
    → m.type ≢ 19
unfolding driver_type full_command
driver_type-known m lt e z = ground arith

prime-byte : (m : MessageEnvelope) → m.type < 256 → (prime m).type < 256
unfolding prime
prime-byte m lt = ground arith

module _ (d : Driver) (l : List Job) (r : Request) (job : is_command r.message.type ≡ true) where
  abbrev new : Job
  new = record { word = full_command (prime r.message); task = r.sender; type = r.message.type }

  -- From the state `d'` that the start of a request for the sensors left.
  module _ (d' : Driver) (same : d'.output ≡ d.output)
      (began : begin_sensors d r.sender r.message.type ≡ done d') (v : Valid d' l)
      (s : Sendable d'.output new) where
    kept : length l < 16 → (d'.waiting == 0) ≡ true → Served d l r
    unfolding serve take keep Queue.push_u16 Queue.push_u8
    kept room busy =
        let word : to_u16 new.word ≡ new.word = omega (arith, s.word_fits) in
        let task : to_u16 new.task ≡ new.task = omega (arith, s.task_fits) in
        let type : to_u8 new.type ≡ new.type = omega (arith, s.type_fits) in
        let (q, e, h) = push-some v.holds_words new.word (omega (arith, length-words l, room)) in
        let (t, e', h') = push-some v.holds_tasks new.task (omega (arith, length-tasks l, room)) in
        let (k, e'', h'') =
          push-some v.holds_types new.type (omega (arith, length-types l, room)) in
        record {
          out = [];
          next = record d' { commands = q; tasks = t; types = k };
          left = l ++ (new ∷ []);
          served = rw (job, began, busy, word, e, task, e', type, e'') refl;
          valid = record {
            holds_words = subst (λ x. Holds q 16 x) (sym (words-append l (new ∷ []))) h;
            holds_tasks = subst (λ x. Holds t 16 x) (sym (tasks-append l (new ∷ []))) h';
            holds_types = subst (λ x. Holds k 16 x) (sym (types-append l (new ∷ []))) h'';
            sendable = AllSendable-snoc d'.output l new v.sendable s;
            idle = λ n. absurd (n ((==_iff d'.waiting 0).0 busy));
            apart = v.apart;
          };
          same = same;
          commands_kept = rw job (words-append l (new ∷ []));
          callers_kept = rw job (callers-append l (new ∷ []));
          sensors_kept = λ x. rw job x;
        }

    sent_now : (d'.waiting == 0) ≡ false → Served d l r
    unfolding serve take send_now
    sent_now free =
        let none = v.idle (ground (arith, free)) in
        let c = with_command d'.command new.word s.kind in
        let word : body_u16 c ≡ new.word = omega (arith, s.word_fits) in
        let known =
          driver_type-known (prime r.message) (prime-byte r.message s.type_fits) s.known in
        let other = ==-eq_false r.sender d'.output s.other in
        let it = (==_iff d'.output d'.output).1 refl in
        let d'' : Driver = record d' { command = c; waiting = 0 } in
        let valid : Valid d'' [] = record {
          holds_words = subst (λ (l : List Job). Holds d'.commands 16 (words l)) none v.holds_words;
          holds_tasks = subst (λ (l : List Job). Holds d'.tasks 16 (tasks l)) none v.holds_tasks;
          holds_types = subst (λ (l : List Job). Holds d'.types 16 (types l)) none v.holds_types;
          sendable = tt;
          idle = λ h. refl;
          apart = v.apart;
        } in
        elim (Bool-cases (r.message.type == 133)) [
          | inl sensors ↦ record {
            out = reply d'.output c ∷ [];
            next = d'';
            left = [];
            served = rw (job, began, free, s.known, sensors) refl;
            valid = valid;
            same = same;
            commands_kept = rw (← same, it, word, none, job) refl;
            callers_kept = rw (← same, it, none, job, sensors) refl;
            sensors_kept = λ x. cc;
          }
          | inr plain ↦ record {
            out = reply d'.output c ∷ reply r.sender (prime r.message) ∷ [];
            next = d'';
            left = [];
            served = rw (job, began, free, s.known, plain) refl;
            valid = valid;
            same = same;
            commands_kept = rw (← same, it, other, word, none, job) refl;
            callers_kept =
                rw
                  (← same, it, other, none, job, plain, ==-eq_false (prime r.message).type 19 known)
                  refl;
            sensors_kept = λ x. cc;
          }
        ]

  took :
      (d' : Driver)
      → (d'.output ≡ d.output)
      → begin_sensors d r.sender r.message.type ≡ done d'
      → Valid d' l
      → Sendable d.output new
      → length l < 16
      → Served d l r
  took d' same began v s room =
      let s' = subst (λ id. Sendable id new) (sym same) s in
      elim (Bool-cases (d'.waiting == 0)) [
        | inl busy ↦ kept d' same began v s' room busy
        | inr free ↦ sent_now d' same began v s' free
      ]

  -- A second request for the sensors is where the assertion fails.
  take-Served :
      Valid d l
      → Sendable d.output new
      → length l < 16
      → Served d l r ⊎ ((serve d r ≡ halt) × (any_sensors (l ++ given r) ≡ true))
  unfolding serve take begin_sensors
  take-Served v s room = elim (Bool-cases (r.message.type == 133)) [
    | inl sensors ↦ elim (Bool-cases (d.sensor_request == 0)) [
      | inl first ↦
          let d' : Driver = record d { sensor_request = r.sender; received = 0 } in
          let valid : Valid d' l = record {
            holds_words = v.holds_words;
            holds_tasks = v.holds_tasks;
            holds_types = v.holds_types;
            sendable = v.sendable;
            idle = v.idle;
            apart = λ x. s.other;
          } in
          inl (took d' refl (rw (sensors, first) refl) valid s room)
      | inr second ↦ inr (
        rw (job, sensors, second) refl,
        rw (job, any_sensors-append l (new ∷ []), sensors) (ground (arith, any_sensors l)),
      )
    ]
    | inr plain ↦ inl (took d refl (rw plain refl) v s room)
  ]

asks-cases :
    (d : Driver) (r : Request) (l : List Job)
    → (r.message.type == 20 || r.message.type == 21) ≡ true
    → Valid d l
    → Served d l r ⊎ ((serve d r ≡ halt) × (any_sensors (l ++ given r) ≡ true))
asks-cases d r [] asks v = inl (none_left d r [] asks v refl)
asks-cases d r (j ∷ l) asks v = first_left d r j l asks v

module _ (d : Driver) (r : Request) (l : List Job) (p : Proper d.output r) where
  -- Nothing is said to do with commands.
  aside :
      is_command r.message.type ≡ false
      → (out : List Reply) (d' : Driver) → serve d r ≡ done (out, d')
      → (sent d.output out ≡ []) × (answered d.output out ≡ [])
      → Valid d' l
      → d'.output ≡ d.output
      → Served d l r
  aside n out d' s (none, silent) v same = record {
    out = out;
    next = d';
    left = l;
    served = s;
    valid = v;
    same = same;
    commands_kept = rw (none, n) (sym (append-nil (words l)));
    callers_kept = rw (silent, n) (sym (append-nil (callers l)));
    sensors_kept = λ x. rw (n, append-nil l) x;
  }

  -- A word of the sensors.
  sense-Served :
      is_command r.message.type ≡ false
      → (r.message.type == 20 || r.message.type == 21) ≡ false
      → Valid d l
      → Served d l r
  unfolding serve sense
  sense-Served n n' v =
      let word : (r.message.type == 19) ≡ true = ground (arith, p.known, n, n') in
      let other : (r.sender == d.output) ≡ false =
        ==-eq_false r.sender d.output (λ h. absurd (ground (arith, p.asks h, n'))) in
      elim (Bool-cases (d.sensor_request == 0)) [
        | inl quiet ↦
            aside n (reply r.sender r.message ∷ []) d (rw (n, n', word, quiet) refl)
              (rw other refl, rw (other, word) refl) v refl
        | inr asked ↦
            let apart = ==-eq_false d.sensor_request d.output (v.apart (ground (arith, asked))) in
            let read = set d.sensors d.received (body_u16 r.message) in
            let count = to_u8 (d.received + 1) in
            elim (Bool-cases (count == 5)) [
              | inl all ↦
                  let d' : Driver = record d {
                    sensors = read;
                    received = count;
                    sensor_request = 0;
                  } in
                  aside n
                    (reply r.sender r.message
                      ∷ reply d.sensor_request (record r.message { body = d.sensors_at })
                      ∷ [])
                    d' (rw (n, n', word, asked, all) refl)
                    (rw (other, apart) refl, rw (other, apart, word) refl)
                    (record {
                      holds_words = v.holds_words;
                      holds_tasks = v.holds_tasks;
                      holds_types = v.holds_types;
                      sendable = v.sendable;
                      idle = v.idle;
                      apart = λ x. absurd (x refl);
                    })
                    refl
              | inr more ↦
                  let d' : Driver = record d { sensors = read; received = count } in
                  aside n (reply r.sender r.message ∷ []) d' (rw (n, n', word, asked, more) refl)
                    (rw other refl, rw (other, word) refl)
                    (record {
                      holds_words = v.holds_words;
                      holds_tasks = v.holds_tasks;
                      holds_types = v.holds_types;
                      sendable = v.sendable;
                      idle = v.idle;
                      apart = v.apart;
                    })
                    refl
            ]
      ]

  pub serve-cases :
      length l + length (given r) ≤ 16
      → Valid d l
      → Served d l r ⊎ ((serve d r ≡ halt) × (any_sensors (l ++ given r) ≡ true))
  serve-cases room v = elim (Bool-cases (is_command r.message.type)) [
    | inl job ↦
        let is : given r ≡ new d l r job ∷ [] = rw job refl in
        take-Served d l r job v (subst (λ g. AllSendable d.output g) is p.sends).0
          (omega (arith, room, ap (λ (g : List Job). length g) is))
    | inr n ↦ elim (Bool-cases (r.message.type == 20 || r.message.type == 21)) [
      | inl asks ↦ asks-cases d r l asks v
      | inr n' ↦ inl (sense-Served n n' v)
    ]
  ]
