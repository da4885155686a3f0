-- ===== src/Phase/Tests.antt =====
-- Runs of the phase hub of rustdv/rustdv-sim/src/phase.rs.
use rustdv.Base.{ℕ, ◌≡◌, refl, true, false, List, [], ◌∷◌, Option, none, some, ◌⊎◌}
use rustdv.Wake.{World}
use rustdv.Phase.{
  Hub, init_hub, normal, for_read_write, for_read_only, for_next_time, Call, schedules, begins,
  drops, enters, leaves, call, run,
}
use rustdv.Phase.Primed.{Awaited, is_held, run-Awaited}
use rustdv.Phase.Writes.{coalesce}

abbrev start : World (Hub ℕ)
start = record { woken = []; inner = init_hub }

-- Two tasks await the ReadWrite phase, one with a write before it; a third awaits the next time step.
abbrev script : List (Call ℕ)
script =
    schedules 4 10
    ∷ begins for_read_write 1
    ∷ begins for_next_time 3
    ∷ begins for_read_write 2
    ∷ drops 0
    ∷ enters for_read_write
    ∷ schedules 5 11
    ∷ begins for_read_write 1
    ∷ leaves for_read_write
    ∷ []

abbrev after : Option (World (Hub ℕ)) → World (Hub ℕ)
after none = start
after (some w) = w

abbrev stop : World (Hub ℕ)
stop = after (run start script)

script_woken : (stop.woken ≡ 2 ∷ []) × (stop.inner.applied ≡ (4, 10) ∷ (5, 11) ∷ [])
unfolding run call init_hub
script_woken = (refl, refl)

script_ran : run start script ≡ some stop
unfolding run call init_hub
script_ran = refl

-- A write in the ReadOnly phase is a panic.
script_panic :
    run start (begins for_read_only 1 ∷ enters for_read_only ∷ schedules 4 10 ∷ []) ≡ none
unfolding run call init_hub
script_panic = refl

trig_alive : (stop.inner.trigs 3).alive ≡ true
unfolding run call init_hub
trig_alive = refl

trig_waits : (stop.inner.trigs 3).fired ≡ false
unfolding run call init_hub
trig_waits = refl

run-Awaited_example :
    Awaited stop.inner 3
    × (is_held (stop.inner.trigs 3) ≡ true)
    × ((stop.inner.writes ≡ []) ⊎ (stop.inner.rw_registered ≡ true))
run-Awaited_example = run-Awaited [] script stop 3 script_ran trig_alive trig_waits

abbrev writes : List (ℕ × ℕ)
writes = (4, 10) ∷ (5, 11) ∷ (4, 12) ∷ []

writes_coalesced : coalesce writes ≡ (4, 12) ∷ (5, 11) ∷ []
writes_coalesced = refl

start_normal : start.inner.phase ≡ normal
unfolding init_hub
start_normal = refl

start_empty : start.inner.writes ≡ []
unfolding init_hub
start_empty = refl
