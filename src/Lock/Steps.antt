-- ===== src/Lock/Steps.antt =====
-- `Lock` of rustdv/rustdv-sim/src/sync.rs takes its clients in turn, and excludes all but one.
use rustdv.Base.{
  ℕ, ◌≡◌, refl, true, false, List, [], ◌∷◌, ◌++◌, none, some, arith, count, ◌⊎◌, inl, inr,
  Bool-cases, Option-cases,
}
use rustdv.Wake.{TaskId}
use rustdv.Lock.{Acquire, release, poll_acquire, drop_acquire, retain_ne}
use rustdv.Lock.Clients.{
  Client, idle, trying, holding, Clients, Event, starts, leaves, polls, step, become, start_client,
  poll_client, drop_client,
}
use rustdv.Lock.Turns.{Turn, holds, is_free, pass_on, request, leave}
use rustdv.Lock.Release.{Agrees, release-Agrees}
use rustdv.Lock.Refine.{
  joined, rearmed, withdrawn, take-Agrees, join-Agrees, wait-Agrees, granted-Agrees,
  withdraw-Agrees, idle-Agrees, start-Agrees,
}

-- What an event does to the turns: only a client that is trying asks for the lock, and only one that
-- has a future or a guard leaves.
abbrev pub request_of : Turn → ℕ → Client → Turn
request_of t c idle = t
request_of t c (trying f) = request t c
request_of t c holding = t

abbrev pub leave_of : Turn → ℕ → Client → Turn
leave_of t c idle = t
leave_of t c (trying f) = leave t c
leave_of t c holding = leave t c

abbrev pub turn_step : Clients → Turn → Event → Turn
turn_step s t (starts c) = t
turn_step s t (polls c id) = request_of t c (s.client c)
turn_step s t (leaves c) = leave_of t c (s.client c)

module _ (s : Clients) (t : Turn) (c : ℕ) (h : Agrees s t) where
  start-step : (k : Client) → s.client c ≡ k → Agrees (start_client s c k) t
  start-step idle e = start-Agrees s t c h e
  start-step (trying f) e = h
  start-step holding e = h

  requests_free :
      is_free t.holder ≡ true → count c t.line ≡ 0 → request t c ≡ record t { holder = some c }
  requests_free p q = ground arith

  requests_line :
      holds t.holder c ≡ false
      → count c t.line ≡ 0
      → is_free t.holder ≡ false
      → request t c ≡ record t { line = t.line ++ c ∷ [] }
  requests_line p q r = ground arith

  requests_again : (holds t.holder c ≡ true) ⊎ (count c t.line ≡ 1) → request t c ≡ t
  requests_again (inl p) = ground arith
  requests_again (inr p) = ground arith

  module _ (f : Acquire) (id : TaskId) (e : s.client c ≡ trying f) where
    poll_free :
        f.waiter ≡ none
        → s.lock.inner.locked ≡ false
        → Agrees (poll_client s c id (trying f)) (request t c)
    unfolding poll_acquire drop_acquire
    poll_free w b =
        let u : request t c ≡ record t { holder = some c } =
          requests_free (ground (arith, h.locked)) (ground (arith, h.clients c)) in
        rw (u, w, b, poll_acquire) (take-Agrees s t c h f e w b)

    poll_held :
        f.waiter ≡ none
        → s.lock.inner.locked ≡ true
        → Agrees (poll_client s c id (trying f)) (request t c)
    unfolding poll_acquire
    poll_held w b =
        let u : request t c ≡ record t { line = t.line ++ c ∷ [] } =
          requests_line (ground (arith, h.clients c)) (ground (arith, h.clients c))
            (ground (arith, h.locked)) in
        let v : poll_client s c id (trying f)
            ≡ become s (joined s t c h id) c
                (trying (record f { waiter = some s.lock.inner.next })) =
          ground arith in
        rw (u, v) (join-Agrees s t c h f id e w b)

    poll_granted :
        (a : ℕ)
        → f.waiter ≡ some a
        → (s.lock.inner.cells a).granted ≡ true
        → Agrees (poll_client s c id (trying f)) (request t c)
    unfolding poll_acquire drop_acquire
    poll_granted a w g =
        let u : request t c ≡ t = requests_again (inl (ground (arith, h.clients c))) in
        rw (u, w, g, poll_acquire) (granted-Agrees s t c h f a e w g)

    poll_waits :
        (a : ℕ)
        → f.waiter ≡ some a
        → (s.lock.inner.cells a).granted ≡ false
        → Agrees (poll_client s c id (trying f)) (request t c)
    unfolding poll_acquire
    poll_waits a w g =
        let u : request t c ≡ t = requests_again (inr (ground (arith, h.clients c))) in
        let v : poll_client s c id (trying f) ≡ become s (rearmed s t c h a id) c (trying f) =
          ground arith in
        rw (u, v) (wait-Agrees s t c h f a id e w g)

    leaves_line : holds t.holder c ≡ false → leave t c ≡ record t { line = retain_ne c t.line }
    leaves_line p = ground arith

    leaves_lock : holds t.holder c ≡ true → leave t c ≡ pass_on t.line
    leaves_lock p = ground arith

    drop_fresh : f.waiter ≡ none → Agrees (drop_client s c (trying f)) (leave t c)
    unfolding drop_acquire
    drop_fresh w =
        let u : leave t c ≡ record t { line = retain_ne c t.line } =
          leaves_line (ground (arith, h.clients c)) in
        let v : drop_client s c (trying f) ≡ become s s.lock c idle = ground (arith, h.clients c) in
        rw (u, v) (idle-Agrees s t c h f e w)

    drop_granted :
        (a : ℕ)
        → f.waiter ≡ some a
        → (s.lock.inner.cells a).granted ≡ true
        → Agrees (drop_client s c (trying f)) (leave t c)
    unfolding drop_acquire
    drop_granted a w g =
        let mine : holds t.holder c ≡ true = ground (arith, h.clients c) in
        let u : leave t c ≡ pass_on t.line = leaves_lock mine in
        let v : drop_client s c (trying f) ≡ become s (release s.lock) c idle =
          ground (arith, h.clients c) in
        rw (u, v) (release-Agrees s t c h (trying f) e mine s.lock.inner.waiters refl)

    drop_waiting :
        (a : ℕ)
        → f.waiter ≡ some a
        → (s.lock.inner.cells a).granted ≡ false
        → Agrees (drop_client s c (trying f)) (leave t c)
    unfolding drop_acquire
    drop_waiting a w g =
        let u : leave t c ≡ record t { line = retain_ne c t.line } =
          leaves_line (ground (arith, h.clients c)) in
        let v : drop_client s c (trying f) ≡ become s (withdrawn s t c h a) c idle =
          ground (arith, h.clients c) in
        rw (u, v) (withdraw-Agrees s t c h f a e w g)

    poll_trying : Agrees (poll_client s c id (trying f)) (request t c)
    poll_trying = elim (Option-cases f.waiter) [
      | inl w ↦ elim (Bool-cases s.lock.inner.locked) [
        | inl b ↦ poll_held w b
        | inr b ↦ poll_free w b
      ]
      | inr (a, w) ↦ elim (Bool-cases (s.lock.inner.cells a).granted) [
        | inl g ↦ poll_granted a w g
        | inr g ↦ poll_waits a w g
      ]
    ]

    drop_trying : Agrees (drop_client s c (trying f)) (leave t c)
    drop_trying = elim (Option-cases f.waiter) [
      | inl w ↦ drop_fresh w
      | inr (a, w) ↦ elim (Bool-cases (s.lock.inner.cells a).granted) [
        | inl g ↦ drop_granted a w g
        | inr g ↦ drop_waiting a w g
      ]
    ]

  poll-step :
      (id : TaskId) (k : Client) → s.client c ≡ k → Agrees (poll_client s c id k) (request_of t c k)
  poll-step id idle e = h
  poll-step id (trying f) e = poll_trying f id e
  poll-step id holding e = h

  drop-step : (k : Client) → s.client c ≡ k → Agrees (drop_client s c k) (leave_of t c k)
  drop-step idle e = h
  drop-step (trying f) e = drop_trying f 0 e
  drop-step holding e =
      let mine : holds t.holder c ≡ true = ground (arith, h.clients c) in
      let u : leave t c ≡ pass_on t.line = ground arith in
      rw u (release-Agrees s t c h holding e mine s.lock.inner.waiters refl)

step-Agrees :
    (s : Clients) (t : Turn) (v : Event) → Agrees s t → Agrees (step s v) (turn_step s t v)
unfolding step
step-Agrees s t (starts c) h = start-step s t c h (s.client c) refl
step-Agrees s t (polls c id) h = poll-step s t c h id (s.client c) refl
step-Agrees s t (leaves c) h = drop-step s t c h (s.client c) refl

unfoldable pub run : Clients → List Event → Clients
run s [] = s
run s (v ∷ vs) = run (step s v) vs

unfoldable pub turns : Clients → Turn → List Event → Turn
turns s t [] = t
turns s t (v ∷ vs) = turns (step s v) (turn_step s t v) vs

-- The lock refines the turns: whatever its clients do, in any order, cancellations included, the lock
-- that the code keeps agrees with a holder and a line of clients in which each who asks takes the free
-- lock or joins at the end, the holder is followed by the first in line, and who gives up leaves.
pub run-Agrees :
    (s : Clients) (t : Turn) (vs : List Event) → Agrees s t → Agrees (run s vs) (turns s t vs)
unfolding run turns
run-Agrees s t [] h = h
run-Agrees s t (v ∷ vs) h = run-Agrees (step s v) (turn_step s t v) vs (step-Agrees s t v h)

-- After any history of clients that starts in agreement with some turns, two clients that have a guard
-- are one, and the lock is locked if any has.
pub run_exclusive :
    (s : Clients) (t : Turn) (vs : List Event) (c d : ℕ)
    → Agrees s t
    → (run s vs).client c ≡ holding
    → (run s vs).client d ≡ holding
    → (c ≡ d) × ((run s vs).lock.inner.locked ≡ true)
run_exclusive s t vs c d h p q =
    let v = run-Agrees s t vs h in ground (arith, v.clients c, v.clients d, v.locked)
