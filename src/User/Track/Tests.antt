-- ===== src/User/Track/Tests.antt =====
-- Two trains on a small part of the track.
use burrit_osprivate.Prelude.{ℕ, ◌≡◌, ◌≢◌, true, refl, List, [], ◌∷◌, arith, set, ◌⊎◌, inl, inr}
use burrit_osprivate.Prelude.Word.{neg32}
use burrit_osprivate.Prelude.Outcome.{done}
use burrit_osprivate.User.Track.{Graph, Envelope, fresh, owner, index, serve, run}
use burrit_osprivate.User.Track.Owners.{uses}
use burrit_osprivate.User.Track.Settle.{Granted, serve-Settled, AllForeign, run-keeps}
use burrit_osprivate.User.Track.Client.{
  train_allocate_track, train_allocate_track-Settled, train_allocate_track-zero,
}

-- Train 7 has the entries 0 and 3.
abbrev held : Graph
held = set (set fresh 0 7) 3 7

-- Train 5 asks for the entries 2 and 3, then who owns node 6.
abbrev asked : Envelope
asked = record { type = 1; body = 0; path = 1282 ∷ 1283 ∷ [] }

abbrev who : Envelope
who = record { type = 3; body = 6; path = [] }

others : AllForeign 7 (asked ∷ who ∷ [])
others = (inl (1282, 1283 ∷ [], refl, refl, ground arith), (inr (inr refl), tt))

serve-Settled_example :
    ((g' : Graph) × (serve 0 held asked ≡ done (asked, g')) × Granted held g' 5 (1282 ∷ 1283 ∷ []))
    ⊎ ((f : ℕ) × (fs : List ℕ) × (serve 0 held asked
          ≡ done (record asked { type = 30; path = f ∷ fs }, held))
        × (uses (index f) (1282 ∷ 1283 ∷ []) ≡ true)
        × (owner held (index f) ≢ 5)
        × (owner held (index f) ≢ 0))
serve-Settled_example = serve-Settled 0 held asked 1282 (1283 ∷ []) refl refl

run-keeps_example :
    (replies : List Envelope) × (g' : Graph) × (run 0 held (asked ∷ who ∷ []) ≡ done (replies, g'))
    × (owner g' 3 ≡ 7)
run-keeps_example = run-keeps 0 held (asked ∷ who ∷ []) 7 3 (ground arith) (omega arith) refl others

train_allocate_track-Settled_example :
    ((g' : Graph) × (train_allocate_track 0 held 0 (1282 ∷ 1283 ∷ []) ≡ done (0, g'))
      × Granted held g' 5 (1282 ∷ 1283 ∷ []))
    ⊎ ((i : ℕ) × (train_allocate_track 0 held 0 (1282 ∷ 1283 ∷ []) ≡ done (neg32 i, held))
        × (uses i (1282 ∷ 1283 ∷ []) ≡ true)
        × (owner held i ≢ 5)
        × (owner held i ≢ 0))
train_allocate_track-Settled_example = train_allocate_track-Settled 0 held 0 1282 (1283 ∷ [])

train_allocate_track-zero_example : train_allocate_track 0 held 0 (1280 ∷ []) ≡ done (0, held)
train_allocate_track-zero_example =
    train_allocate_track-zero 0 held 0 1280 [] refl (ground arith) (ground arith)
