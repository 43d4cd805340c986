-- ===== src/User/Track/Client.antt =====
-- The functions of user/trainservers/TrackManager.c through which a train asks for track.
use burrit_osprivate.Prelude.{
  ℕ, ◌+◌, ◌*◌, ◌/◌, ◌%◌, ◌≡◌, ◌≢◌, refl, ap, true, not, ◌&&◌, List, [], ◌∷◌, ◌==◌, if◌then◌else◌,
  arith, get_or, ◌⊎◌, inl, inr,
}
use burrit_osprivate.Prelude.Word.{neg32}
use burrit_osprivate.Prelude.Outcome.{Outcome, done, ◌>>=◌}
use burrit_osprivate.User.Track.{Graph, Envelope, owner, index, train, serve, conflict, settle}
use burrit_osprivate.User.Track.Owners.{uses}
use burrit_osprivate.User.Track.Settle.{Granted, serve-Settled, serve-request}

-- What `trainAllocateTrack` returns, an S32 as a word, from the reply.
unfoldable pub result : Envelope → ℕ
result reply = if reply.type == 30 then neg32 (index (get_or reply.path 0 0)) else 0

-- `trainAllocateTrack` with the server's round. `body` is what the envelope holds before.
unfoldable pub train_allocate_track : ℕ → Graph → ℕ → List ℕ → Outcome (ℕ × Graph)
train_allocate_track address g body entry_node = do
  (reply, g') ← serve address g (record { type = 1; body = body; path = entry_node })
  done (result reply, g')

-- `trainWhoOwnsTrack` with the server's round.
unfoldable pub train_who_owns_track : ℕ → Graph → ℕ → ℕ → Outcome (ℕ × Graph)
train_who_owns_track address g body node = do
  (reply, g') ←
      serve address g (record { type = 3; body = body / 256 * 256 + node % 256; path = [] })
  done (reply.body % 256, g')

-- `trainAllocateTrack` returns 0 and the train has its path, or the table stays and what it returns
-- is minus an entry of the table that another train owns.
pub train_allocate_track-Settled :
    (address : ℕ) (g : Graph) (body d : ℕ) (ds : List ℕ)
    → ((g' : Graph) × (train_allocate_track address g body (d ∷ ds) ≡ done (0, g'))
        × Granted g g' (train d) (d ∷ ds))
      ⊎ ((i : ℕ) × (train_allocate_track address g body (d ∷ ds) ≡ done (neg32 i, g))
          × (uses i (d ∷ ds) ≡ true)
          × (owner g i ≢ train d)
          × (owner g i ≢ 0))
unfolding train_allocate_track result
train_allocate_track-Settled address g body d ds =
    elim (serve-Settled address g (record { type = 1; body = body; path = d ∷ ds }) d ds refl
      refl) [
        | inl (g', e, r) ↦ inl (g', rw e refl, r)
        | inr (f, fs, e, u, o, o') ↦ inr (index f, rw e refl, u, o, o')
      ]

-- Where the first node of the path is entry 0 of the table and another train owns it,
-- `trainAllocateTrack` returns 0, as it does for success, and the table stays.
pub train_allocate_track-zero :
    (address : ℕ) (g : Graph) (body d : ℕ) (ds : List ℕ)
    → index d ≡ 0
    → owner g 0 ≢ train d
    → owner g 0 ≢ 0
    → train_allocate_track address g body (d ∷ ds) ≡ done (0, g)
unfolding train_allocate_track result conflict settle
train_allocate_track-zero address g body d ds here other taken =
    let env : Envelope = record { type = 1; body = body; path = d ∷ ds } in
    let at : owner g (index d) ≡ owner g 0 = ap (owner g) here in
    let blocked : (not (owner g (index d) == train d) && not (owner g (index d) == 0)) ≡ true =
      ground (arith, at) in
    rw (serve-request address g env d ds refl refl, blocked, here) refl
