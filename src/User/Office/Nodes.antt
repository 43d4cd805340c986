-- ===== src/User/Office/Nodes.antt =====
-- The nodes of the calendars and the free ones.
use burrit_osprivate.Prelude.{
  ℕ, zero, suc, ◌+◌, ◌-◌, ◌<◌, ◌≡◌, ◌⊎◌, inl, inr, refl, sym, ap, ◌∙◌, Bool, true, false, Option,
  none, some, List, [], ◌∷◌, arith, leb, ◌==◌, length, length-set, get_or, set, Bool-cases,
}
use burrit_osprivate.Prelude.Outcome.{Outcome, done, halt}
use burrit_osprivate.Kernel.Data.{MessageEnvelope}
use burrit_osprivate.User.Commands.{SwitchRequest}
use burrit_osprivate.User.Office.{
  TrackNode, Office, Effect, index_for_branch, seek, finish, insert, place, allocate, serve, Round,
  run,
}

abbrev pub planned : List (List SwitchRequest) → ℕ
planned [] = 0
planned (l ∷ ls) = length l + planned ls

-- All nodes.
abbrev pub nodes : Office → ℕ
nodes o = o.free + planned o.calendar

planned-set :
    (ls : List (List SwitchRequest)) (i : ℕ) (l : List SwitchRequest)
    → i < length ls
    → planned (set ls i l) + length (get_or ls i []) ≡ planned ls + length l
planned-set [] i l lt = absurd (omega arith)
planned-set (k ∷ ls) zero l lt = omega arith
planned-set (k ∷ ls) (suc i) l lt = omega (arith, planned-set ls i l (omega arith))

-- A round that fails an assertion, or loses no node.
pub Kept : Office → Outcome (List Effect × Office) → Type 0
Kept o r =
    (r ≡ halt)
    ⊎ ((out : List Effect) × (o' : Office) × (r ≡ done (out, o'))
        × (nodes o' ≡ nodes o)
        × (length o'.calendar ≡ length o.calendar))

module _ (o : Office) (cid : ℕ) (inside : cid < length o.calendar) where
  insert-Kept :
      (requests : List SwitchRequest) (switches : List ℕ) (out : List Effect)
      → length requests ≡ suc (length (get_or o.calendar cid []))
      → Kept o (insert o cid requests switches out)
  unfolding Kept
  insert-Kept requests switches out one = elim (Bool-cases (o.free == 0)) [
    | inl full ↦ rw full (inl refl)
    | inr some_free ↦ rw some_free (
        inr (
          out,
          record { calendar = set o.calendar cid requests; free = o.free - 1; switches = switches },
          refl,
          ground (arith, some_free, planned-set o.calendar cid requests inside, one),
          length-set o.calendar cid requests,
        ))
  ]

  finish-Kept :
      (from : ℕ) (m : MessageEnvelope) (r : SwitchRequest) (l : List SwitchRequest)
      → get_or o.calendar cid [] ≡ l
      → Kept o (finish o cid from m r l)
  unfolding Kept
  finish-Kept from m r [] e = inl refl
  finish-Kept from m r (c ∷ rest) e = elim (Bool-cases (c.start_time == r.start_time)) [
    | inl same ↦ rw same (
        inr (
          _,
          record o { calendar = set o.calendar cid rest; free = o.free + 1 },
          refl,
          omega (
            arith,
            planned-set o.calendar cid rest inside,
            ap (λ (l : List SwitchRequest). length l) e,
          ),
          length-set o.calendar cid rest,
        ))
    | inr other ↦ rw other (inl refl)
  ]

  place-Kept :
      (from : ℕ) (m : MessageEnvelope) (address : ℕ) (r c : SwitchRequest)
      (rest : List SwitchRequest) (found : Option Bool)
      → get_or o.calendar cid [] ≡ c ∷ rest
      → Kept o (place o cid from m address r c rest found)
  unfolding Kept
  place-Kept from m address r c rest none e = inl refl
  place-Kept from m address r c rest (some true) e = inr (_, o, refl, refl, refl)
  place-Kept from m address r c rest (some false) e =
      insert-Kept (c ∷ r ∷ rest) o.switches _
        (ap (λ (l : List SwitchRequest). suc (length l)) (sym e))

  allocate-Kept :
      (fuel from : ℕ) (m : MessageEnvelope) (address : ℕ) (r : SwitchRequest)
      (l : List SwitchRequest)
      → get_or o.calendar cid [] ≡ l
      → Kept o (allocate fuel o cid from m address r l)
  allocate-Kept fuel from m address r [] e =
      insert-Kept (r ∷ []) (set o.switches cid r.direction) _
        (ap (λ (l : List SwitchRequest). suc (length l)) (sym e))
  allocate-Kept fuel from m address r (c ∷ rest) e =
      place-Kept from m address r c rest (seek fuel c r rest) e

serve-Kept :
    (fuel : ℕ) (graph : List TrackNode) (address : ℕ) (o : Office) (from : ℕ) (m : MessageEnvelope)
    (r : SwitchRequest)
    → length o.calendar ≡ 22
    → Kept o (serve fuel graph address o from m r)
unfolding Kept serve
serve-Kept fuel graph address o from m r size =
    let cid = index_for_branch graph r.branch_id in
    elim (Bool-cases (m.type == 27)) [
      | inl switched ↦ elim (Bool-cases (leb cid 21)) [
        | inl low ↦
            rw (switched, low)
              (finish-Kept o cid (ground (arith, low, size)) from m r (get_or o.calendar cid [])
                refl)
        | inr high ↦ rw (switched, high) (inl refl)
      ]
      | inr n ↦ elim (Bool-cases (m.type == 29)) [
        | inl asked ↦ elim (Bool-cases (leb m.body 21)) [
          | inl low ↦ rw (n, asked, low) (inr (_, o, refl, refl, refl))
          | inr high ↦ rw (n, asked, high) (inl refl)
        ]
        | inr n' ↦ elim (Bool-cases (m.type == 28)) [
          | inl wanted ↦ elim (Bool-cases (leb cid 21)) [
            | inl low ↦
                rw (n, n', wanted, low)
                  (allocate-Kept o cid (ground (arith, low, size)) fuel from m address r
                    (get_or o.calendar cid []) refl)
            | inr high ↦ rw (n, n', wanted, high) (inl refl)
          ]
          | inr other ↦ rw (n, n', other) (inr (_, o, refl, refl, refl))
        ]
      ]
    ]

-- From 22 calendars on, over any sequence of messages, the office of the switches halts or ends with
-- 22 calendars, in which there are, with the free nodes, as many nodes as at the start.
pub run-nodes :
    (fuel : ℕ) (graph : List TrackNode) (o : Office) (rs : List Round)
    → length o.calendar ≡ 22
    → (run fuel graph o rs ≡ halt)
      ⊎ ((outs : List (List Effect)) × (o' : Office) × (run fuel graph o rs ≡ done (outs, o'))
          × (o'.free + planned o'.calendar ≡ o.free + planned o.calendar)
          × (length o'.calendar ≡ 22))
unfolding run Kept
run-nodes fuel graph o [] size = inr ([], o, refl, refl, size)
run-nodes fuel graph o (r ∷ rs) size =
    elim (serve-Kept fuel graph r.address o r.sender r.message r.request size) [
      | inl e ↦ inl (rw e refl)
      | inr (out, o₁, e, kept, size₁) ↦ elim (run-nodes fuel graph o₁ rs (size₁ ∙ size)) [
        | inl e' ↦ inl (rw (e, e') refl)
        | inr (outs, o₂, e', kept', size₂) ↦
            inr (out ∷ outs, o₂, rw (e, e') refl, kept' ∙ kept, size₂)
      ]
    ]
