-- ===== src/Lock/Tests.antt =====
-- A history of a lock, and its theorems at it.
use rustdv.Base.{ℕ, ◌≡◌, refl, true, List, [], ◌∷◌, none, some, arith}
use rustdv.Lock.Clients.{holding, Event, starts, polls, leaves, step, at_rest}
use rustdv.Lock.Turns.{Turn}
use rustdv.Lock.Release.{Agrees}
use rustdv.Lock.Steps.{run, turns, run-Agrees, run_exclusive}

-- Client 1 takes the lock, 2 and 3 get in line, 2 gives up, 1 unlocks, 3 is served.
abbrev history : List Event
history =
    starts 1
    ∷ polls 1 11
    ∷ starts 2
    ∷ starts 3
    ∷ polls 2 12
    ∷ polls 3 13
    ∷ leaves 2
    ∷ leaves 1
    ∷ polls 3 13
    ∷ []

abbrev nobody : Turn
nobody = record { holder = none; line = [] }

rest-Agrees : Agrees at_rest nobody
unfolding at_rest
rest-Agrees = record {
  locked = refl;
  line = refl;
  free_line = λ e. refl;
  clients = λ c. (refl, refl);
  queue = λ a m. absurd (omega arith);
}

history_ends :
    (turns at_rest nobody history ≡ record { holder = some 3; line = [] })
    × ((run at_rest history).lock.woken ≡ 13 ∷ [])
unfolding turns run at_rest step
history_ends = (refl, refl)

run-Agrees_example : Agrees (run at_rest history) (turns at_rest nobody history)
run-Agrees_example = run-Agrees at_rest nobody history rest-Agrees

third_holds : (run at_rest history).client 3 ≡ holding
unfolding run at_rest step
third_holds = refl

run_exclusive_example : (◌≡◌ {A = ℕ} 3 3) × ((run at_rest history).lock.inner.locked ≡ true)
run_exclusive_example = run_exclusive at_rest nobody history 3 3 rest-Agrees third_holds third_holds
