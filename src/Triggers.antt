-- ===== src/Triggers.antt =====
-- The timer and edge triggers of rustdv/rustdv-sim/src/triggers.rs. Registering a callback with the
-- simulator happens at the first poll, and makes the `shared` cell; after that the simulator calls the
-- callback when it will. What the callback reads of the signal is given to it: its size, and its value,
-- `none` for one that is no number. The run of the executor in the callback comes after it.
pub mod Matches
mod Tests
use rustdv.Base.{
  ℕ, Bool, true, false, List, [], ◌∷◌, ◌&&◌, ◌==◌, Option, none, some, if◌then◌else◌, Poll, ready,
  pending,
}
use rustdv.Wake.{TaskId, World, wake}
use rustdv.SimDuration.{SimDuration}

-- `TrigShared`
pub record TrigShared : Type 0 where
  pub fired : Bool
  pub waker : Option TaskId

-- The `shared` of a `Timer` or an `Edge`, `none` before its first poll
abbrev pub Trigger : Type 0
Trigger = Option TrigShared

pub data EdgeKind : Type 0 where
  rising falling any_change : EdgeKind

-- `Timer::new`: the steps to register; `none` is the failed assertion.
unfoldable pub new_timer : SimDuration → Option ℕ
new_timer d = if d.steps == 0 then none else some d.steps

-- `TrigShared::fire`
unfoldable pub fire : World TrigShared → World TrigShared
fire w = elim w.inner.waker [
  | none ↦ record w { inner = record w.inner { fired = true } }
  | some id ↦ record { inner = record { fired = true; waker = none }; woken = wake w.woken id }
]

-- The poll, which `Timer` and `Edge` have alike
unfoldable pub poll : World Trigger → TaskId → World Trigger × Poll (Unit {0})
poll w id = elim w.inner [
  | none ↦ (record w { inner = some (record { fired = false; waker = some id }) }, pending)
  | some sh ↦
      if sh.fired
      then (w, ready tt)
      else (record w { inner = some (record sh { waker = some id }) }, pending)
]

abbrev pub is_value : Option ℕ → ℕ → Bool
is_value none n = false
is_value (some m) n = m == n

-- Does the value that the signal has now match?
unfoldable pub is_hit : EdgeKind → ℕ → Option ℕ → Bool
is_hit any_change size value = true
is_hit rising size value = size == 1 && is_value value 1
is_hit falling size value = size == 1 && is_value value 0

-- `fire` of the cell, with the trigger around it
abbrev pub fire_shared : World Trigger → TrigShared → World Trigger
unfolding fire
fire_shared w sh =
    let w' = fire (record { inner = sh; woken = w.woken }) in
    record { inner = some w'.inner; woken = w'.woken }

-- The callback of a value change; before the first poll there is none.
unfoldable pub value_change : EdgeKind → World Trigger → ℕ → Option ℕ → World Trigger
unfolding fire is_hit
value_change kind w size value = elim w.inner [
  | none ↦ w
  | some sh ↦ if sh.fired then w else if is_hit kind size value then fire_shared w sh else w
]

-- The callback of a timer
unfoldable pub timer_fires : World Trigger → World Trigger
unfolding fire
timer_fires w = elim w.inner [ none ↦ w | some sh ↦ fire_shared w sh ]

-- A poll of a `NullTrigger`, by its `yielded`
unfoldable pub poll_null : World Bool → TaskId → World Bool × Poll (Unit {0})
poll_null w id =
    if w.inner then (w, ready tt) else (record { inner = true; woken = wake w.woken id }, pending)
