-- ===== src/User/Driver/Serve.antt =====
-- One message to `TrainDriver`: commands leave in their order, and so do the answers.
use burrit_osprivate.Prelude.{
  ℕ, suc, ◌≡◌, ◌⊎◌, inl, inr, refl, sym, ap, subst, ◌∙◌, true, false, ◌||◌, List, [], ◌∷◌, ◌++◌,
  append-nil, append_assoc, ◌==◌, arith, length, Bool-cases, ==_iff, ==-eq_false,
}
use burrit_osprivate.Prelude.Outcome.{done, halt}
use burrit_osprivate.Kernel.Data.{MessageEnvelope}
use burrit_osprivate.Queue
use burrit_osprivate.Queue.{Queue}
use burrit_osprivate.Queue.Steps.{Holds, pop-none, pop-some}
use burrit_osprivate.User.Messages.{envelope, body_u16, Reply, reply, Request}
use burrit_osprivate.User.Driver.{Driver, is_command, with_command, dispatch, serve}
use burrit_osprivate.User.Driver.Jobs.{
  Job, words, tasks, types, own, callers, sent, answered, given, any_sensors, Sendable, AllSendable,
  Valid,
}

pub words-append : (l m : List Job) → words (l ++ m) ≡ words l ++ words m
words-append [] m = refl
words-append (j ∷ l) m = ap (λ (t : List ℕ). j.word ∷ t) (words-append l m)

pub tasks-append : (l m : List Job) → tasks (l ++ m) ≡ tasks l ++ tasks m
tasks-append [] m = refl
tasks-append (j ∷ l) m = ap (λ (t : List ℕ). j.task ∷ t) (tasks-append l m)

pub types-append : (l m : List Job) → types (l ++ m) ≡ types l ++ types m
types-append [] m = refl
types-append (j ∷ l) m = ap (λ (t : List ℕ). j.type ∷ t) (types-append l m)

pub callers-append : (l m : List Job) → callers (l ++ m) ≡ callers l ++ callers m
callers-append [] m = refl
callers-append (j ∷ l) m =
    ap (λ (t : List ℕ). own j.task j.type ++ t) (callers-append l m)
    ∙ sym (append_assoc (own j.task j.type) (callers l) (callers m))

pub any_sensors-append : (l m : List Job) → any_sensors (l ++ m) ≡ (any_sensors l || any_sensors m)
any_sensors-append [] m = refl
any_sensors-append (j ∷ l) m = ground (arith, any_sensors-append l m)

pub AllSendable-snoc :
    (id : ℕ) (l : List Job) (j : Job)
    → AllSendable id l
    → Sendable id j
    → AllSendable id (l ++ (j ∷ []))
AllSendable-snoc id [] j a s = (s, tt)
AllSendable-snoc id (k ∷ l) j (h, a) s = (h, AllSendable-snoc id l j a s)

pub length-words : (l : List Job) → length (words l) ≡ length l
length-words [] = refl
length-words (j ∷ l) = ap suc (length-words l)

pub length-tasks : (l : List Job) → length (tasks l) ≡ length l
length-tasks [] = refl
length-tasks (j ∷ l) = ap suc (length-tasks l)

pub length-types : (l : List Job) → length (types l) ≡ length l
length-types [] = refl
length-types (j ∷ l) = ap suc (length-types l)

-- What one message does where the server gets through it.
pub record Served (d : Driver) (l : List Job) (r : Request) : Type 0 where
  pub out : List Reply
  pub next : Driver
  pub left : List Job
  pub served : serve d r ≡ done (out, next)
  pub valid : Valid next left
  pub same : next.output ≡ d.output
  pub commands_kept : sent d.output out ++ words left ≡ words l ++ words (given r)
  pub callers_kept : answered d.output out ++ callers left ≡ callers l ++ callers (given r)
  pub sensors_kept : any_sensors left ≡ true → any_sensors (l ++ given r) ≡ true

-- The output notifier asks.
module _ (d : Driver) (r : Request) (l : List Job)
    (asks : (r.message.type == 20 || r.message.type == 21) ≡ true) (v : Valid d l) where
  no_job : is_command r.message.type ≡ false
  unfolding is_command
  no_job = ground (arith, asks)

  pub none_left : l ≡ [] → Served d l r
  unfolding serve dispatch
  none_left z =
      let empty = pop-none v.holds_words (ap words z) in
      record {
        out = [];
        next = record d { waiting = 1 };
        left = [];
        served = rw (no_job, asks, empty) refl;
        valid = record {
          holds_words = subst (λ (l : List Job). Holds d.commands 16 (words l)) z v.holds_words;
          holds_tasks = subst (λ (l : List Job). Holds d.tasks 16 (tasks l)) z v.holds_tasks;
          holds_types = subst (λ (l : List Job). Holds d.types 16 (types l)) z v.holds_types;
          sendable = tt;
          idle = λ h. refl;
          apart = v.apart;
        };
        same = refl;
        commands_kept = rw (z, no_job) refl;
        callers_kept = rw (z, no_job) refl;
        sensors_kept = λ h. cc;
      }

module _ (d : Driver) (r : Request) (j : Job) (l : List Job)
    (asks : (r.message.type == 20 || r.message.type == 21) ≡ true) (v : Valid d (j ∷ l)) where
  -- The first command leaves, and `ans` is what its task gets.
  command_left :
      (d' : Driver) (ans : List Reply) (c : MessageEnvelope)
      → Holds d'.commands 16 (words l)
      → Holds d'.tasks 16 (tasks l)
      → Holds d'.types 16 (types l)
      → (d'.output ≡ d.output) × (d'.waiting ≡ d.waiting) × (d'.sensor_request ≡ d.sensor_request)
      → body_u16 c ≡ j.word
      → (sent d.output ans ≡ []) × (answered d.output ans ≡ own j.task j.type)
      → serve d r ≡ done (record { to = d.output; message = c } ∷ ans, d')
      → Served d (j ∷ l) r
  command_left d' ans c h h' h'' (e, e', e'') w (none, some_) s =
      let (k, ss) = v.sendable in
      let no_new = no_job d r (j ∷ l) asks v in
      record {
        out = record { to = d.output; message = c } ∷ ans;
        next = d';
        left = l;
        served = s;
        valid = record {
          holds_words = h;
          holds_tasks = h';
          holds_types = h'';
          sendable = subst (λ id. AllSendable id l) (sym e) ss;
          idle = λ x.
              absurd (omega (arith, ap (λ (l : List Job). length l) (v.idle (λ y. x (e' ∙ y)))));
          apart = λ x y. v.apart (λ z. x (e'' ∙ z)) (sym e'' ∙ y ∙ e);
        };
        same = e;
        commands_kept =
            rw ((==_iff d.output d.output).1 refl, none, w, no_new)
              (sym (append-nil (j.word ∷ words l)));
        callers_kept =
            rw ((==_iff d.output d.output).1 refl, some_, no_new)
              (sym (append-nil (own j.task j.type ++ callers l)));
        sensors_kept = λ x. rw (no_new, append-nil l) (ground (arith, x));
      }

  pub first_left :
      Served d (j ∷ l) r ⊎ ((serve d r ≡ halt) × (any_sensors ((j ∷ l) ++ given r) ≡ true))
  unfolding serve dispatch Queue.pop_u8
  first_left =
      let (q, e, h) = pop-some v.holds_words j.word (words l) refl in
      let (t, e', h') = pop-some v.holds_tasks j.task (tasks l) refl in
      let (k, e'', h'') = pop-some v.holds_types j.type (types l) refl in
      let (s, ss) = v.sendable in
      let none = no_job d r (j ∷ l) asks v in
      let c = with_command d.command j.word s.kind in
      let word : body_u16 c ≡ j.word = omega (arith, s.word_fits) in
      let d' : Driver = record d { commands = q; tasks = t; types = k; command = c } in
      let task : Reply = reply j.task (envelope j.type 0) in
      elim (Bool-cases (j.type == 133)) [
        | inl sensors ↦ elim (Bool-cases (j.task == d.sensor_request)) [
          | inl mine ↦ inl (
              command_left d' [] c h h' h'' (refl, refl, refl) word (refl, rw sensors refl)
                (rw (none, asks, e, s.known, e', e'', sensors, mine) refl))
          | inr other ↦
              inr (rw (none, asks, e, s.known, e', e'', sensors, other) refl, rw sensors refl)
        ]
        | inr plain ↦ inl (
            command_left d' (task ∷ []) c h h' h'' (refl, refl, refl) word
              (
                rw (==-eq_false j.task d.output s.other) refl,
                rw (==-eq_false j.task d.output s.other, ==-eq_false j.type 19 s.not_data, plain)
                    refl,
              )
              (rw (none, asks, e, s.known, e', e'', plain) refl))
      ]
