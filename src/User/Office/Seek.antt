-- ===== src/User/Office/Seek.antt =====
-- The loop of `SwitchExecutive` over a calendar.
use burrit_osprivate.Prelude.{
  ℕ, zero, suc, ◌≤◌, ◌<◌, ◌≡◌, refl, true, false, none, List, [], ◌∷◌, arith, leb, ◌==◌, get_or,
  ==_iff,
}
use burrit_osprivate.Prelude.Outcome.{halt}
use burrit_osprivate.Kernel.Data.{MessageEnvelope}
use burrit_osprivate.User.Commands.{SwitchRequest}
use burrit_osprivate.User.Office.{
  TrackNode, Office, index_for_branch, overlaps, fits_before, seek, serve,
}

seek-never :
    (f : ℕ) (c r : SwitchRequest) (rest : List SwitchRequest)
    → fits_before r rest ≡ false
    → overlaps c r ≡ false
    → seek f c r rest ≡ none
unfolding seek
seek-never zero c r rest late free = refl
seek-never (suc f) c r rest late free = rw (late, free) (seek-never f c r rest late free)

-- A request for a branch whose first interval it does not overlap, and whose second interval starts
-- before it ends, is not answered: the loop does not end, however many rounds it is given, and the
-- round of the server with it.
pub serve-never :
    (fuel : ℕ) (graph : List TrackNode) (address : ℕ) (o : Office) (from : ℕ) (m : MessageEnvelope)
    (r c n : SwitchRequest) (rest : List SwitchRequest)
    → m.type ≡ 28
    → index_for_branch graph r.branch_id ≤ 21
    → get_or o.calendar (index_for_branch graph r.branch_id) [] ≡ c ∷ n ∷ rest
    → overlaps c r ≡ false
    → n.start_time < r.end_time
    → (seek fuel c r (n ∷ rest) ≡ none) × (serve fuel graph address o from m r ≡ halt)
unfolding serve
serve-never fuel graph address o from m r c n rest ty small at free before =
    let late : fits_before r (n ∷ rest) ≡ false = ground (arith, before) in
    let never = seek-never fuel c r (n ∷ rest) late free in
    let is : (m.type == 28) ≡ true = (==_iff m.type 28).1 ty in
    let other : (m.type == 27) ≡ false = ground (arith, ty) in
    let other' : (m.type == 29) ≡ false = ground (arith, ty) in
    let low : leb (index_for_branch graph r.branch_id) 21 ≡ true = ground (arith, small) in
    (never, rw (other, other', is, low, at, never) refl)
