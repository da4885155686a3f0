-- ===== src/Channel/Wakeups.antt =====
-- rustdv/rustdv-methodology/src/channel.rs: who waits, and where the wakers go, a disconnection included.
use rustdv.Base.{
  ℕ, ◌+◌, ◌≡◌, ◌≢◌, ◌≤◌, refl, ◌⊎◌, inl, inr, List, [], ◌∷◌, some, arith, length, ==_of_ne, ok, err,
  ready, pending, count, count-append,
}
use native.Mathlib.Decide.{ℕ_discrete}
use rustdv.Wake.{World, TaskId, count-wake_all}
use rustdv.Channel.{
  ChanInner, Call, try_sends, sends, try_recvs, try_peeks, recvs, peeks, clones_sender,
  drops_sender, clones_receiver, drops_receiver, call, Reply, Ran, finish, after, poll_recv,
  disconnected, waits,
}

module _ {ℓ} {A : Type ℓ} where
  -- A task waits to receive only while there is no item but there is a sender, and to send only while
  -- the buffer is full and there is a receiver.
  pub record IsAwake (w : World (ChanInner A)) : Type 0 where
    pub receiving : (w.inner.recv_waiters ≡ []) ⊎ ((length w.inner.buf ≡ 0) × (w.inner.senders ≢ 0))
    pub sending :
        (w.inner.send_waiters ≡ []) ⊎ ((w.inner.cap ≤ length w.inner.buf) × (w.inner.receivers ≢ 0))

  call-IsAwake :
      (w : World (ChanInner A)) (c : Call A) {w' : World (ChanInner A)} {r : Reply A}
      → IsAwake w
      → call w c ≡ some (w', r)
      → IsAwake w'
  unfolding call
  call-IsAwake w (try_sends a) h e = ground arith
  call-IsAwake w (sends a id) h e = ground arith
  call-IsAwake w try_recvs h e = ground arith
  call-IsAwake w try_peeks h e = ground arith
  call-IsAwake w (recvs id) h e = ground arith
  call-IsAwake w (peeks id) h e = ground arith
  call-IsAwake w clones_sender h e = ground arith
  call-IsAwake w drops_sender h e = ground arith
  call-IsAwake w clones_receiver h e = ground arith
  call-IsAwake w drops_receiver h e = ground arith

  stays-IsAwake :
      {w w' : World (ChanInner A)} {cs : List (Call A)} {rs : List (Reply A)}
      → Ran w cs rs w'
      → IsAwake w
      → IsAwake w'
  stays-IsAwake finish h = h
  stays-IsAwake (after {w = w} {c = c} e rest) h = stays-IsAwake rest (call-IsAwake w c h e)

  -- The wakers of a task that the channel holds or has woken.
  abbrev pub wakers : TaskId → World (ChanInner A) → ℕ
  wakers id w = count id w.inner.recv_waiters + count id w.inner.send_waiters + count id w.woken

  -- The waker that a call leaves, if it has to wait.
  abbrev pub left_by : TaskId → Call A → Reply A → ℕ
  left_by id (sends a t) waits = count id (t ∷ [])
  left_by id (recvs t) waits = count id (t ∷ [])
  left_by id (peeks t) waits = count id (t ∷ [])
  left_by id _ _ = 0

  -- The wakers that a sequence of calls leaves.
  abbrev pub all_left : TaskId → List (Call A) → List (Reply A) → ℕ
  all_left id [] rs = 0
  all_left id (c ∷ cs) [] = 0
  all_left id (c ∷ cs) (r ∷ rs) = left_by id c r + all_left id cs rs

  module _ (id : TaskId) where
    call-wakers :
        (w : World (ChanInner A)) (c : Call A) {w' : World (ChanInner A)} {r : Reply A}
        → call w c ≡ some (w', r)
        → wakers id w' ≡ wakers id w + left_by id c r
    unfolding call
    call-wakers w (try_sends a) e = ground (arith, count-wake_all id w.woken w.inner.recv_waiters)
    call-wakers w (sends a t) e = ground (
      arith,
      count-wake_all id w.woken w.inner.recv_waiters,
      count-append id w.inner.send_waiters (t ∷ []),
    )
    call-wakers w try_recvs e = ground (arith, count-wake_all id w.woken w.inner.send_waiters)
    call-wakers w try_peeks e = ground arith
    call-wakers w (recvs t) e = ground (
      arith,
      count-wake_all id w.woken w.inner.send_waiters,
      count-append id w.inner.recv_waiters (t ∷ []),
    )
    call-wakers w (peeks t) e = ground (arith, count-append id w.inner.recv_waiters (t ∷ []))
    call-wakers w clones_sender e = ground arith
    call-wakers w drops_sender e = ground (arith, count-wake_all id w.woken w.inner.recv_waiters)
    call-wakers w clones_receiver e = ground arith
    call-wakers w drops_receiver e = ground (arith, count-wake_all id w.woken w.inner.send_waiters)

    ran-wakers :
        {w w' : World (ChanInner A)} {cs : List (Call A)} {rs : List (Reply A)}
        → Ran w cs rs w'
        → wakers id w' ≡ wakers id w + all_left id cs rs
    ran-wakers finish = omega arith
    ran-wakers (after {w = w} {c = c} e rest) =
        let now = call-wakers w c e in let later = ran-wakers rest in omega (arith, now, later)

  -- From a channel where this holds, after any history a task waits to receive only if the channel is
  -- empty and some sender is left, and to send only if it is full and some receiver is left. And each
  -- waker that a task leaves when it has to wait is still registered or was pushed onto the woken
  -- queue, exactly once: a disconnection takes no waiter off a list without waking it.
  pub Ran-IsAwake :
      (id : TaskId) {w w' : World (ChanInner A)} {cs : List (Call A)} {rs : List (Reply A)}
      → Ran w cs rs w'
      → IsAwake w
      → IsAwake w' × (wakers id w' ≡ wakers id w + all_left id cs rs)
  Ran-IsAwake id ran h = (stays-IsAwake ran h, ran-wakers id ran)

  abbrev RecvCases : (w : World (ChanInner A)) → TaskId → List A → Type ℓ
  RecvCases w id xs =
      let p = (poll_recv w id).1 in
      ((p ≡ ready (err disconnected)) × (xs ≡ []) × (w.inner.senders ≡ 0))
      ⊎ ((p ≡ pending) × (xs ≡ []) × (w.inner.senders ≢ 0))
      ⊎ ((a : A) × (p ≡ ready (ok a)) × (xs ≡ a ∷ (poll_recv w id).0.inner.buf))

  recv_cases :
      (w : World (ChanInner A)) (id : TaskId) (xs : List A) → w.inner.buf ≡ xs → RecvCases w id xs
  unfolding poll_recv
  recv_cases w id [] e = elim (ℕ_discrete w.inner.senders 0) [
    | yes gone ↦ inl (rw (e, poll_recv, gone), refl, gone)
    | no here ↦ inr (inl (rw (e, poll_recv, ==_of_ne _ _ here), refl, here))
  ]
  recv_cases w id (a ∷ rest) e = inr (inr (a, rw (e, poll_recv), rw (e, poll_recv)))

  -- `recv` hands out what was sent before it looks at the senders: it reports a disconnection exactly
  -- if the buffer is empty and no sender is left, waits exactly if the buffer is empty and some sender
  -- is left, and otherwise yields the front item and leaves the rest.
  pub poll_recv_cases :
      (w : World (ChanInner A)) (id : TaskId)
      → let p = (poll_recv w id).1 in
        ((p ≡ ready (err disconnected)) × (w.inner.buf ≡ []) × (w.inner.senders ≡ 0))
        ⊎ ((p ≡ pending) × (w.inner.buf ≡ []) × (w.inner.senders ≢ 0))
        ⊎ ((a : A) × (p ≡ ready (ok a)) × (w.inner.buf ≡ a ∷ (poll_recv w id).0.inner.buf))
  poll_recv_cases w id = recv_cases w id w.inner.buf refl
