-- ===== src/Triggers/Tests.antt =====
-- Runs of the triggers of rustdv/rustdv-sim/src/triggers.rs.
use rustdv.Base.{◌≡◌, refl, true, false, List, [], ◌∷◌, ◌++◌, none, some, ready, pending}
use rustdv.Wake.{World}
use rustdv.SimDuration.{steps}
use rustdv.Triggers.{Trigger, rising, poll, timer_fires, poll_null, new_timer}
use rustdv.Triggers.Matches.{
  Event, polls, changes, run, first_match, one_or_none, is_ready, is_some, run_edge,
}

abbrev fresh : World Trigger
fresh = record { inner = none; woken = [] }

-- A change before the first poll is missed, a fall is no rise, and only the first rise wakes.
abbrev script : List Event
script =
    changes 1 (some 1)
    ∷ polls 4
    ∷ changes 1 (some 0)
    ∷ polls 5
    ∷ changes 1 (some 1)
    ∷ changes 1 (some 1)
    ∷ []

rises :
    ((run rising fresh script).woken ≡ 5 ∷ []) × ((poll (run rising fresh script) 5).1 ≡ ready tt)
unfolding run poll
rises = (refl, refl)

-- A vector has no edges, and a value that is no number is none.
no_edges : (run rising fresh (polls 4 ∷ changes 8 (some 1) ∷ changes 1 none ∷ [])).woken ≡ []
unfolding run
no_edges = refl

timer_done : (timer_fires (poll fresh 3).0).woken ≡ 3 ∷ []
unfolding timer_fires poll
timer_done = refl

timer_zero : new_timer (steps 0) ≡ none
unfolding new_timer steps
timer_zero = refl

null_yields :
    poll_null (record { inner = false; woken = [] }) 3
    ≡ (record { inner = true; woken = 3 ∷ [] }, pending)
unfolding poll_null
null_yields = refl

run_edge_example :
    ((run rising fresh script).woken ≡ [] ++ one_or_none (first_match rising none script))
    × (is_ready (poll (run rising fresh script) 6).1 ≡ is_some (first_match rising none script))
run_edge_example = run_edge rising [] script 6
