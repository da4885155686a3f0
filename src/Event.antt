-- ===== src/Event.antt =====
-- `Event` of rustdv/rustdv-sim/src/sync.rs: the manual-reset event. Clones share one `EventInner`.
pub mod Wakeups
mod Tests
use rustdv.Base.{
  ℕ, ◌+◌, Bool, true, false, List, [], ◌∷◌, ◌++◌, if◌then◌else◌, Poll, ready, pending,
}
use rustdv.Wake.{TaskId, World, wake_all}

pub record EventInner : Type 0 where
  pub is_set : Bool
  pub waiters : List TaskId

unfoldable pub new : EventInner
new = record { is_set = false; waiters = [] }

unfoldable pub set : World EventInner → World EventInner
set w = record {
  inner = record { is_set = true; waiters = [] };
  woken = wake_all w.woken w.inner.waiters;
}

unfoldable pub clear : World EventInner → World EventInner
clear w = record w { inner = record w.inner { is_set = false } }

-- `EventWait::poll`
unfoldable pub poll_wait : World EventInner → TaskId → World EventInner × Poll (Unit {0})
poll_wait w id =
    if w.inner.is_set
    then (w, ready tt)
    else (record w { inner = record w.inner { waiters = w.inner.waiters ++ id ∷ [] } }, pending)

-- A call on the event by some task, in the order in which the executor makes them.
pub data Call : Type 0 where
  sets clears : Call
  waits : TaskId → Call

-- The event after a call, and whether the call was a wait that has to go on.
unfoldable pub call : World EventInner → Call → World EventInner × Poll (Unit {0})
unfolding set clear poll_wait
call w sets = (set w, ready tt)
call w clears = (clear w, ready tt)
call w (waits id) = poll_wait w id

unfoldable pub run : World EventInner → List Call → World EventInner × List (Poll (Unit {0}))
run w [] = (w, [])
run w (c ∷ cs) = let (w', p) = call w c in let (w'', ps) = run w' cs in (w'', p ∷ ps)
