-- ===== src/Event/Tests.antt =====
-- Runs of the event, and its theorems at concrete inputs.
use rustdv.Base.{◌≡◌, refl, true, false, List, [], ◌∷◌, ready, pending}
use rustdv.Wake.{World, wake_all}
use rustdv.Event.{EventInner, Call, sets, clears, waits, call, run}

abbrev fresh : World EventInner
fresh = record { inner = record { is_set = true; waiters = [] }; woken = [] }

abbrev script : List Call
script = waits 1 ∷ clears ∷ waits 2 ∷ waits 3 ∷ waits 2 ∷ sets ∷ clears ∷ waits 4 ∷ []

script_runs : run fresh script ≡ (
  record { inner = record { is_set = false; waiters = 4 ∷ [] }; woken = 2 ∷ 3 ∷ 2 ∷ [] },
  ready tt ∷ ready tt ∷ pending ∷ pending ∷ pending ∷ ready tt ∷ ready tt ∷ pending ∷ [],
)
unfolding run call wake_all
script_runs = refl
