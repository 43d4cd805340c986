-- ===== src/User/Office/Tests.antt =====
-- Requests for one branch.
use burrit_osprivate.Prelude.{
  ℕ, ◌+◌, ◌≡◌, ◌⊎◌, refl, false, none, List, [], ◌∷◌, arith, length, set, replicate,
}
use burrit_osprivate.Prelude.Outcome.{done, halt}
use burrit_osprivate.User.Messages.{envelope, reply}
use burrit_osprivate.User.Commands.{SwitchRequest}
use burrit_osprivate.User.Office.{
  TrackNode, Office, Effect, replied, worker, index_from, index_for_branch, overlaps, seek, serve,
  Round, run, start, start_switches, switch_worker,
}
use burrit_osprivate.User.Office.Nodes.{planned, run-nodes}
use burrit_osprivate.User.Office.Seek.{serve-never}

abbrev none_node : TrackNode
none_node = record { type = 1; num = 0 }

-- The branch 5 stands at the place 82.
abbrev graph : List TrackNode
graph = set (replicate 84 none_node) 82 (record { type = 2; num = 5 })

abbrev curve : ℕ → ℕ → SwitchRequest
curve from to = record {
  start_time = from;
  end_time = to;
  ind_branch_node = 88;
  branch_id = 5;
  direction = 34;
}

fifth : index_for_branch graph 5 ≡ 1
unfolding index_for_branch index_from
fifth = refl

switches_at_start : length start_switches ≡ 22
switches_at_start = refl

abbrev first : Round
first = record { sender = 9; message = envelope 28 0; request = curve 100 400; address = 500 }

abbrev switched : Round
switched = record { sender = 30; message = envelope 27 500; request = curve 100 400; address = 500 }

one_round :
    run 4 graph start (first ∷ switched ∷ [])
    ≡ done (
      (replied (reply 9 (envelope 28 0)) ∷ worker (curve 100 400) ∷ [])
          ∷ (replied (reply 30 (envelope 27 500)) ∷ [])
          ∷ [],
      record start { switches = set start_switches 1 34 },
    )
unfolding run serve index_for_branch index_from
one_round = refl

run-nodes_example :
    (run 4 graph start (first ∷ switched ∷ []) ≡ halt)
    ⊎ ((outs : List (List Effect)) × (o' : Office) × (run 4 graph start (first ∷ switched ∷ [])
          ≡ done (outs, o'))
        × (o'.free + planned o'.calendar ≡ 32)
        × (length o'.calendar ≡ 22))
run-nodes_example = run-nodes 4 graph start (first ∷ switched ∷ []) refl

-- Two intervals are planned, and the request comes after both.
abbrev busy : Office
busy = record start {
  calendar = set (replicate 22 []) 1 (curve 100 400 ∷ curve 500 800 ∷ []);
  free = 30;
}

apart : overlaps (curve 100 400) (curve 900 1200) ≡ false
unfolding overlaps
apart = refl

serve-never_example :
    (seek 1000 (curve 100 400) (curve 900 1200) (curve 500 800 ∷ []) ≡ none)
    × (serve 1000 graph 0 busy 9 (envelope 28 0) (curve 900 1200) ≡ halt)
unfolding index_for_branch index_from
serve-never_example =
    serve-never 1000 graph 0 busy 9 (envelope 28 0) (curve 900 1200) (curve 100 400) (curve 500 800)
      [] refl (omega arith) refl apart (omega arith)

with_neighbour :
    switch_worker
      (record { type = 2; num = 156 } ∷ [])
      (record (curve 0 0) { branch_id = 156 })
      (34 ∷ [])
    ≡ ((156, 34) ∷ (155, 33) ∷ [], 34 ∷ [])
unfolding switch_worker index_for_branch index_from
with_neighbour = refl
