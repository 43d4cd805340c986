-- ===== src/User/Driver/Order.antt =====
-- `TrainDriver` over any sequence of messages.
use burrit_osprivate.Prelude.{
  ℕ, ◌+◌, ◌≤◌, ◌≡◌, ◌⊎◌, inl, inr, refl, sym, ap, subst, ◌∙◌, true, List, [], ◌∷◌, ◌++◌, append-nil,
  append_assoc, arith, length, length-append,
}
use burrit_osprivate.Prelude.Outcome.{done, halt}
use burrit_osprivate.User.Messages.{Reply, Request}
use burrit_osprivate.User.Driver.{Driver, run}
use burrit_osprivate.User.Driver.Jobs.{
  Job, words, callers, sent, sent_all, answered, answered_all, given, given_all, any_sensors, Valid,
  AllProper,
}
use burrit_osprivate.User.Driver.Serve.{
  words-append, callers-append, any_sensors-append, length-words, Served,
}
use burrit_osprivate.User.Driver.Take.{serve-cases}

-- What is kept by a first part and then by the rest is kept by both.
joined :
    (a b l₁ l l' g gs : List ℕ)
    → a ++ l₁ ≡ l ++ g
    → b ++ l' ≡ l₁ ++ gs
    → (a ++ b) ++ l' ≡ l ++ (g ++ gs)
joined a b l₁ l l' g gs first rest =
    append_assoc a b l'
    ∙ ap (λ (t : List ℕ). a ++ t) rest
    ∙ sym (append_assoc a l₁ gs)
    ∙ ap (λ (t : List ℕ). t ++ gs) first
    ∙ append_assoc l g gs

-- How a sequence of messages ends.
abbrev Halts : Driver → List Job → List Request → Type 0
Halts d l rs = (run d rs ≡ halt) × (any_sensors (l ++ given_all rs) ≡ true)

abbrev Orderly : Driver → List Job → List Request → Type 0
Orderly d l rs =
    (outs : List (List Reply)) × (d' : Driver) × (l' : List Job) × (run d rs ≡ done (outs, d'))
    × Valid d' l'
    × (sent_all d.output outs ++ words l' ≡ words l ++ words (given_all rs))
    × (answered_all d.output outs ++ callers l' ≡ callers l ++ callers (given_all rs))

any-left :
    (l g gs left : List Job)
    → (any_sensors left ≡ true → any_sensors (l ++ g) ≡ true)
    → any_sensors (left ++ gs) ≡ true
    → any_sensors (l ++ (g ++ gs)) ≡ true
any-left l g gs left kept h = ground (
  arith,
  any_sensors-append left gs,
  any_sensors-append l g,
  any_sensors-append (l ++ g) gs,
  ap any_sensors (append_assoc l g gs),
  kept,
  h,
)

any-first : (l g gs : List Job) → any_sensors (l ++ g) ≡ true → any_sensors (l ++ (g ++ gs)) ≡ true
any-first l g gs h =
    ground (arith, any_sensors-append (l ++ g) gs, ap any_sensors (append_assoc l g gs), h)

module _ (d : Driver) (l : List Job) (r : Request) (rs : List Request) (s : Served d l r) where
  then-Halts : Halts s.next s.left rs → Halts d l (r ∷ rs)
  unfolding run
  then-Halts (e, h) =
      (rw (s.served, e) refl, any-left l (given r) (given_all rs) s.left s.sensors_kept h)

  then-Orderly : Orderly s.next s.left rs → Orderly d l (r ∷ rs)
  unfolding run
  then-Orderly (outs, d', l', e, v, w, c) =
      let w' =
        subst (λ id. sent_all id outs ++ words l' ≡ words s.left ++ words (given_all rs)) s.same
          w in
      let c' =
        subst (λ id. answered_all id outs ++ callers l' ≡ callers s.left ++ callers (given_all rs))
          s.same c in
      (
        s.out ∷ outs,
        d',
        l',
        rw (s.served, e) refl,
        v,
        joined (sent d.output s.out) (sent_all d.output outs) (words s.left) (words l) (words l')
              (words (given r)) (words (given_all rs)) s.commands_kept w'
            ∙ ap (λ (t : List ℕ). words l ++ t) (sym (words-append (given r) (given_all rs))),
        joined (answered d.output s.out) (answered_all d.output outs) (callers s.left) (callers l)
              (callers l') (callers (given r)) (callers (given_all rs)) s.callers_kept c'
            ∙ ap (λ (t : List ℕ). callers l ++ t) (sym (callers-append (given r) (given_all rs))),
      )

  room-left :
      length l + length (given_all (r ∷ rs)) ≤ 16 → length s.left + length (given_all rs) ≤ 16
  room-left room = omega (
    arith,
    room,
    length-append (given r) (given_all rs),
    length-append (sent d.output s.out) (words s.left),
    length-append (words l) (words (given r)),
    ap (λ (t : List ℕ). length t) s.commands_kept,
    length-words s.left,
    length-words l,
    length-words (given r),
  )

-- Over any sequence of messages of the types that the driver knows, with commands that it knows, of
-- which there are no more than the queues have room for, and where only the output notifier asks
-- for commands: either an assertion fails, and then a request for the sensors is among the commands,
-- or the driver gets through it. Then the commands that the notifier is sent, with those that are
-- yet to be sent, are those that there were and then those that came, in their order; and so are
-- the tasks that get an answer for a command, with those that wait for one.
pub run-orderly :
    (d : Driver) (l : List Job) (rs : List Request)
    → Valid d l
    → AllProper d.output rs
    → length l + length (given_all rs) ≤ 16
    → ((run d rs ≡ halt) × (any_sensors (l ++ given_all rs) ≡ true))
      ⊎ ((outs : List (List Reply)) × (d' : Driver) × (l' : List Job) × (run d rs ≡ done (outs, d'))
          × Valid d' l'
          × (sent_all d.output outs ++ words l' ≡ words l ++ words (given_all rs))
          × (answered_all d.output outs ++ callers l' ≡ callers l ++ callers (given_all rs)))
unfolding run
run-orderly d l [] v ps room =
    inr ([], d, l, refl, v, sym (append-nil (words l)), sym (append-nil (callers l)))
run-orderly d l (r ∷ rs) v (p, ps) room =
    elim (serve-cases d r l p (omega (arith, room, length-append (given r) (given_all rs))) v) [
      | inl s ↦
          elim (run-orderly s.next s.left rs s.valid (subst (λ id. AllProper id rs) (sym s.same) ps)
            (room-left d l r rs s room)) [
              | inl h ↦ inl (then-Halts d l r rs s h)
              | inr o ↦ inr (then-Orderly d l r rs s o)
            ]
      | inr (e, h) ↦ inl (rw e refl, any-first l (given r) (given_all rs) h)
    ]
