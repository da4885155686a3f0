-- ===== src/Event/Wakeups.antt =====
-- `Event` of rustdv/rustdv-sim/src/sync.rs: who waits, who is woken, and what a wait sees.
use rustdv.Base.{
  ℕ, ◌+◌, ◌≡◌, refl, ap, ◌∙◌, Bool, true, false, List, [], ◌∷◌, arith, count, count-append, ready,
  pending, Poll, if◌then◌else◌,
}
use rustdv.Wake.{TaskId, World, count-wake_all}
use rustdv.Event.{EventInner, set, poll_wait, Call, sets, clears, waits, call, run}

abbrev pub IsAwake : World EventInner → Type 0
IsAwake w = w.inner.is_set ≡ true → w.inner.waiters ≡ []

call-IsAwake : (w : World EventInner) (c : Call) → IsAwake w → IsAwake (call w c).0
unfolding call
call-IsAwake w sets h = ground arith
call-IsAwake w clears h = ground arith
call-IsAwake w (waits id) h = ground arith

-- What a wait sees after a history of calls: whether the last `set` or `clear` was a `set`.
abbrev pub level : Bool → List Call → Bool
level b [] = b
level b (sets ∷ cs) = level true cs
level b (clears ∷ cs) = level false cs
level b (waits id ∷ cs) = level b cs

is_set-wait :
    (w : World EventInner) (id : TaskId) → (poll_wait w id).0.inner.is_set ≡ w.inner.is_set
unfolding poll_wait
is_set-wait w id = ground arith

is_set-run :
    (w : World EventInner) (cs : List Call) → (run w cs).0.inner.is_set ≡ level w.inner.is_set cs
unfolding run call
is_set-run w [] = refl
is_set-run w (sets ∷ cs) = is_set-run (call w sets).0 cs
is_set-run w (clears ∷ cs) = is_set-run (call w clears).0 cs
is_set-run w (waits id ∷ cs) =
    is_set-run (call w (waits id)).0 cs ∙ ap (λ b. level b cs) (is_set-wait w id)

run-IsAwake : (w : World EventInner) (cs : List Call) → IsAwake w → IsAwake (run w cs).0
unfolding run
run-IsAwake w [] h = h
run-IsAwake w (c ∷ cs) h = run-IsAwake (call w c).0 cs (call-IsAwake w c h)

-- The event is level-triggered: after any history a wait completes exactly if the last `set` or
-- `clear` was a `set` (with none, if the event was set at first), and while the event is set no task
-- is left waiting, provided none was at first.
pub poll_wait-run :
    (w : World EventInner) (cs : List Call) (id : TaskId)
    → IsAwake w
    → ((poll_wait (run w cs).0 id).1 ≡ (if level w.inner.is_set cs then ready tt else pending))
      × IsAwake (run w cs).0
unfolding poll_wait
poll_wait-run w cs id h = (ground (arith, is_set-run w cs), run-IsAwake w cs h)

abbrev pub wakers : TaskId → World EventInner → ℕ
wakers id w = count id w.inner.waiters + count id w.woken

-- The waker that a call leaves, if it is a wait that has to go on.
abbrev pub left_by : TaskId → Call → Poll (Unit {0}) → ℕ
left_by id (waits t) pending = count id (t ∷ [])
left_by id _ _ = 0

abbrev pub all_left : TaskId → List Call → List (Poll (Unit {0})) → ℕ
all_left id [] ps = 0
all_left id (c ∷ cs) [] = 0
all_left id (c ∷ cs) (p ∷ ps) = left_by id c p + all_left id cs ps

call-wakers :
    (id : TaskId) (w : World EventInner) (c : Call)
    → let (w', p) = call w c in wakers id w' ≡ wakers id w + left_by id c p
unfolding call
call-wakers id w sets = ground (arith, count-wake_all id w.woken w.inner.waiters)
call-wakers id w clears = ground arith
call-wakers id w (waits t) = ground (arith, count-append id w.inner.waiters (t ∷ []))

run-wakers :
    (id : TaskId) (w : World EventInner) (cs : List Call)
    → let (w', ps) = run w cs in wakers id w' ≡ wakers id w + all_left id cs ps
unfolding run
run-wakers id w [] = omega arith
run-wakers id w (c ∷ cs) = omega (arith, call-wakers id w c, run-wakers id (call w c).0 cs)

-- Over any history that ends in a `set`, each waker that a waiting task left was pushed onto the
-- woken queue, exactly once, and the event holds none any more.
pub run-set-wakers :
    (id : TaskId) (w : World EventInner) (cs : List Call)
    → let (w', ps) = run w cs in
      (count id (set w').woken ≡ wakers id w + all_left id cs ps) × ((set w').inner.waiters ≡ [])
unfolding set
run-set-wakers id w cs = (
  omega
      (arith, run-wakers id w cs, count-wake_all id (run w cs).0.woken (run w cs).0.inner.waiters),
  refl,
)
