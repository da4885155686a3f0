-- ===== src/Queue/Wakeups.antt =====
-- rustdv/rustdv-sim/src/queue.rs: who waits, and where the wakers go.
use rustdv.Base.{ℕ, ◌+◌, ◌≡◌, ◌⊎◌, List, [], ◌∷◌, arith, length, false, count, count-append}
use rustdv.Wake.{World, TaskId, count-wake_all}
use rustdv.Queue.{
  QInner, Call, try_puts, try_gets, try_peeks, lens, puts, gets, peeks, spaces, call, run,
  below_cap, Reply, waits,
}

module _ {ℓ} {A : Type ℓ} where
  -- A task waits for an item only while there is none, and for room only while there is none.
  pub record IsAwake (w : World (QInner A)) : Type ℓ where
    pub getters : (w.inner.get_waiters ≡ []) ⊎ (w.inner.buf ≡ [])
    pub putters : (w.inner.put_waiters ≡ []) ⊎ (below_cap w.inner.cap (length w.inner.buf) ≡ false)

  call-IsAwake : (w : World (QInner A)) (c : Call A) → IsAwake w → IsAwake (call w c).0
  unfolding call
  call-IsAwake w (try_puts a) h = ground arith
  call-IsAwake w try_gets h = ground arith
  call-IsAwake w try_peeks h = h
  call-IsAwake w lens h = h
  call-IsAwake w (puts a id) h = ground arith
  call-IsAwake w (gets id) h = ground arith
  call-IsAwake w (peeks id) h = ground arith
  call-IsAwake w (spaces id) h = ground arith

  -- The wakers of a task that the queue holds or has woken.
  abbrev pub wakers : TaskId → World (QInner A) → ℕ
  wakers id w = count id w.inner.get_waiters + count id w.inner.put_waiters + count id w.woken

  -- The waker that a call leaves, if it has to wait.
  abbrev pub left_by : TaskId → Call A → Reply A → ℕ
  left_by id (puts a t) waits = count id (t ∷ [])
  left_by id (gets t) waits = count id (t ∷ [])
  left_by id (peeks t) waits = count id (t ∷ [])
  left_by id (spaces t) waits = count id (t ∷ [])
  left_by id _ _ = 0

  module _ (id : TaskId) where
    call-wakers :
        (w : World (QInner A)) (c : Call A)
        → let (w', r) = call w c in wakers id w' ≡ wakers id w + left_by id c r
    unfolding call
    call-wakers w (try_puts a) = ground (arith, count-wake_all id w.woken w.inner.get_waiters)
    call-wakers w try_gets = ground (arith, count-wake_all id w.woken w.inner.put_waiters)
    call-wakers w try_peeks = omega arith
    call-wakers w lens = omega arith
    call-wakers w (puts a t) = ground (
      arith,
      count-wake_all id w.woken w.inner.get_waiters,
      count-append id w.inner.put_waiters (t ∷ []),
    )
    call-wakers w (gets t) = ground (
      arith,
      count-wake_all id w.woken w.inner.put_waiters,
      count-append id w.inner.get_waiters (t ∷ []),
    )
    call-wakers w (peeks t) = ground (arith, count-append id w.inner.get_waiters (t ∷ []))
    call-wakers w (spaces t) = ground (arith, count-append id w.inner.put_waiters (t ∷ []))

    -- The wakers that a sequence of calls leaves.
    abbrev pub all_left : List (Call A) → List (Reply A) → ℕ
    all_left [] rs = 0
    all_left (c ∷ cs) [] = 0
    all_left (c ∷ cs) (r ∷ rs) = left_by id c r + all_left cs rs

    run-wakers :
        (w : World (QInner A)) (cs : List (Call A))
        → let (w', rs) = run w cs in wakers id w' ≡ wakers id w + all_left cs rs
    unfolding run
    run-wakers w [] = omega arith
    run-wakers w (c ∷ cs) = omega (arith, call-wakers w c, run-wakers (call w c).0 cs)

  stays-IsAwake : (w : World (QInner A)) (cs : List (Call A)) → IsAwake w → IsAwake (run w cs).0
  unfolding run
  stays-IsAwake w [] h = h
  stays-IsAwake w (c ∷ cs) h = stays-IsAwake (call w c).0 cs (call-IsAwake w c h)

  -- From a queue where this holds, after any sequence of calls a task waits for an item only if the
  -- queue is empty, and for room only if it is full. And each waker that a task leaves when it has to
  -- wait is still registered or was pushed onto the woken queue, exactly once: no waiter is taken off
  -- a list without being woken.
  pub run-IsAwake :
      (id : TaskId) (w : World (QInner A)) (cs : List (Call A))
      → IsAwake w
      → let (w', rs) = run w cs in IsAwake w' × (wakers id w' ≡ wakers id w + all_left id cs rs)
  run-IsAwake id w cs h = (stays-IsAwake w cs h, run-wakers id w cs)
