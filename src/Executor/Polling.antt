-- ===== src/Executor/Polling.antt =====
-- The executor's books while it polls: rustdv/rustdv-sim/src/executor.rs, `poll_task`.

use rustdv.Base.{
  ◌≡◌, ◌<◌, ◌≤◌, refl, true, false, List, [], ◌∷◌, Option, none, some, Option-cases, Bool-cases,
  ◌∙◌, ◌≢◌, inl, inr, arith,
}
use rustdv.Wake.{TaskId}
use rustdv.Executor.State.{TaskEntry, ExecInner, is_scheduled, result, poll_handle}
use rustdv.Executor.Poll.{
  Request, wakes, cancels, awaits, results, states, spawns, changes, Outcome, completes, suspends,
  panics, Script, ends, asks, perform, run_script, suspend, settle, begin, put_back,
  cancel_deferred, poll_taken, poll_task,
}
use rustdv.Executor.Invariant.{
  WellAt, IsWell, Same, spawn_named-WellAt, result-WellAt, poll_handle-WellAt, cancel_all-WellAt,
  cancel-run_queue, cancel_all-run_queue, cancel-IsWell,
}

module _ {F T S : Type 0} where
  module _ (glue : F → S → S × List TaskId) where
    perform-Same :
        (x : ExecInner F T S) (me : TaskId) (q : Request F S) → Same x (perform glue x me q).0
    unfolding perform
    perform-Same x me (wakes id) = ground arith
    perform-Same x me (cancels id) = (cancel-run_queue glue x id).1
    perform-Same x me (awaits id) = ground arith
    perform-Same x me (results id) = ground arith
    perform-Same x me (states id) = ground arith
    perform-Same x me (spawns f name) = ground arith
    perform-Same x me (changes f) = ground arith

    awaits-run_queue :
        (x : ExecInner F T S) (id me : TaskId) → (poll_handle x id me).0.run_queue ≡ x.run_queue
    unfolding poll_handle
    awaits-run_queue x id me = ground arith

    result-run_queue : (x : ExecInner F T S) (id : TaskId) → (result x id).0.run_queue ≡ x.run_queue
    unfolding result
    result-run_queue x id = ground arith

    perform-IsWell :
        (x : ExecInner F T S) (me : TaskId) (q : Request F S)
        → IsWell x
        → IsWell (perform glue x me q).0
    unfolding perform
    perform-IsWell x me (wakes id) h = record { positive = h.positive; at = h.at }
    perform-IsWell x me (cancels id) h = cancel-IsWell glue x id h
    perform-IsWell x me (awaits id) h = record {
      positive = ground (arith, perform-Same x me (awaits id), h.positive);
      at = λ j. rw (awaits-run_queue x id me) (poll_handle-WellAt x.run_queue x id me j (h.at j));
    }
    perform-IsWell x me (results id) h = record {
      positive = ground (arith, perform-Same x me (results id), h.positive);
      at = λ j. rw (result-run_queue x id) (result-WellAt x.run_queue x id j (h.at j));
    }
    perform-IsWell x me (states id) h = h
    perform-IsWell x me (spawns f name) h = record {
      positive = omega arith;
      at = λ j. spawn_named-WellAt x f name j h.positive (h.at x.next_id) (h.at j);
    }
    perform-IsWell x me (changes f) h = record { positive = h.positive; at = h.at }

    pub run_script-IsWell :
        (me : TaskId) (c : Script F T S) (x : ExecInner F T S)
        → IsWell x
        → let y = (run_script glue me c x).0 in IsWell y × Same x y
    unfolding run_script
    run_script-IsWell me (ends o) x h = (h, record { polling = refl; next = omega arith })
    run_script-IsWell me (asks q next) x h =
        let (y, r) = perform glue x me q in
        let (well, same) = run_script-IsWell me (next r) y (perform-IsWell x me q h) in
        (well, ground (arith, same, perform-Same x me q))

    cancel_deferred-WellAt :
        (q : List TaskId) (x : ExecInner F T S) (j : TaskId)
        → WellAt q x j
        → WellAt q (cancel_deferred glue x) j
    unfolding cancel_deferred
    cancel_deferred-WellAt q x j h =
        cancel_all-WellAt glue q (record x { cancel_pending = [] }) x.cancel_pending j h

    cancel_deferred-run_queue :
        (x : ExecInner F T S)
        → ((cancel_deferred glue x).run_queue ≡ x.run_queue) × Same x (cancel_deferred glue x)
    unfolding cancel_deferred
    cancel_deferred-run_queue x =
        let (q, same) =
          cancel_all-run_queue glue (record x { cancel_pending = [] }) x.cancel_pending in
        (q, record { polling = same.polling; next = same.next })

    abbrev idle : ExecInner F T S → ExecInner F T S
    idle x = record x { currently_polling = none }

    -- The state after a poll that ends in `o`, before the poller is taken off.
    pub record Settled (q : List TaskId) (x : ExecInner F T S) (id j : TaskId) : Type 0 where
      pub polled : x.currently_polling ≡ some id
      pub own : WellAt q x id
      pub other : WellAt q x j

    put_back-WellAt :
        (q : List TaskId) (x : ExecInner F T S) (f : F) (t : TaskEntry F) (id j : TaskId)
        → Settled q x id j
        → x.tasks id ≡ some t
        → WellAt q (put_back glue (idle x) id f t) j
    unfolding put_back
    put_back-WellAt q x f t id j s e = ground arith

    suspend-WellAt :
        (q : List TaskId) (x : ExecInner F T S) (f : F) (id j : TaskId)
        → Settled q x id j
        → WellAt q (suspend glue (idle x) id f) j
    unfolding suspend
    suspend-WellAt q x f id j s = elim (Option-cases (x.tasks id)) [
      | inl e ↦ absurd (ground arith)
      | inr (t, e) ↦
          rw (e, suspend)
            (cancel_deferred-WellAt q (put_back glue (idle x) id f t) j
              (put_back-WellAt q x f t id j s e))
    ]

    pub settle-WellAt :
        (q : List TaskId) (x : ExecInner F T S) (o : Outcome F T) (id j : TaskId)
        → Settled q x id j
        → WellAt q (settle glue (x, o) id) j
    unfolding settle
    settle-WellAt q x (completes out) id j s = ground arith
    settle-WellAt q x (suspends f) id j s = suspend-WellAt q x f id j s
    settle-WellAt q x (panics f msg) id j s = ground arith

    suspend-run_queue :
        (x : ExecInner F T S) (f : F) (id : TaskId)
        → let y = suspend glue (idle x) id f in
          (y.run_queue ≡ x.run_queue) × (y.currently_polling ≡ none) × (x.next_id ≤ y.next_id)
    unfolding suspend
    suspend-run_queue x f id = elim (Option-cases (x.tasks id)) [
      | inl e ↦ ground (arith, cancel_deferred-run_queue (idle x))
      | inr (t, e) ↦ ground (arith, cancel_deferred-run_queue (put_back glue (idle x) id f t))
    ]

    pub settle-run_queue :
        (x : ExecInner F T S) (o : Outcome F T) (id : TaskId)
        → let y = settle glue (x, o) id in
          (y.run_queue ≡ x.run_queue) × (y.currently_polling ≡ none) × (x.next_id ≤ y.next_id)
    unfolding settle
    settle-run_queue x (completes out) id = ground arith
    settle-run_queue x (suspends f) id = suspend-run_queue x f id
    settle-run_queue x (panics f msg) id = ground arith

    pub begin-WellAt :
        (rest : List TaskId) (x : ExecInner F T S) (id j : TaskId) (t : TaskEntry F)
        → x.currently_polling ≡ none
        → x.tasks id ≡ some t
        → WellAt (id ∷ rest) x id
        → WellAt (id ∷ rest) x j
        → is_scheduled t.state ≡ true
        → WellAt rest (begin glue x id t) j
    unfolding begin
    begin-WellAt rest x id j t p e own h s = ground arith

    module _ (step : F → TaskId → S → Script F T S) where
      poll_taken-IsWell :
          (x : ExecInner F T S) (id : TaskId) (f : F)
          → x.currently_polling ≡ some id
          → IsWell x
          → let y = poll_taken glue step x id (some f) in IsWell y × (y.currently_polling ≡ none)
      unfolding poll_taken
      poll_taken-IsWell x id f p h =
          let (z, o) = run_script glue id (step f id x.user) x in
          let (well, same) = run_script-IsWell id (step f id x.user) x h in
          let (queue, nobody, next) = settle-run_queue z o id in
          let polled : z.currently_polling ≡ some id = same.polling ∙ p in
          (
            record {
              positive = omega (arith, next, well.positive);
              at = λ j. rw queue (
                  settle-WellAt z.run_queue z o id j
                    (record { polled = polled; own = well.at id; other = well.at j }));
            },
            nobody,
          )

      begin-IsWell :
          (x : ExecInner F T S) (id : TaskId) (t : TaskEntry F)
          → x.currently_polling ≡ none
          → x.tasks id ≡ some t
          → 0 < x.next_id
          → ((j : TaskId) → WellAt (id ∷ x.run_queue) x j)
          → is_scheduled t.state ≡ true
          → IsWell (begin glue x id t)
      unfolding begin
      begin-IsWell x id t p e pos h s = record {
        positive = pos;
        at = λ j. begin-WellAt x.run_queue x id j t p e (h id) (h j) s;
      }

      has_future :
          (q : List TaskId) (x : ExecInner F T S) (id : TaskId) (t : TaskEntry F)
          → x.tasks id ≡ some t
          → is_scheduled t.state ≡ true
          → WellAt q x id
          → t.fut ≢ none
      has_future q x id t e s h = ground arith

      stale-WellAt :
          (x : ExecInner F T S) (id j : TaskId) (o : Option (TaskEntry F))
          → x.tasks id ≡ o
          → ((t : TaskEntry F) → o ≡ some t → is_scheduled t.state ≡ false)
          → WellAt (id ∷ x.run_queue) x j
          → WellAt x.run_queue x j
      stale-WellAt x id j none e u h = ground arith
      stale-WellAt x id j (some t) e u h = ground (arith, u t refl)

      -- Polling the task that was taken from the front of the run queue, whatever its future does, keeps
      -- the executor's books, if no task is being polled: every live task's handles see the state of its
      -- entry, a scheduled one is in the run queue, one that is scheduled or waits has its future at hand,
      -- and a task that left the table is done and nobody still awaits it. No task is being polled after.
      pub poll_task-IsWell :
          (x : ExecInner F T S) (id : TaskId)
          → x.currently_polling ≡ none
          → 0 < x.next_id
          → ((j : TaskId) → WellAt (id ∷ x.run_queue) x j)
          → let y = poll_task glue step x id in IsWell y × (y.currently_polling ≡ none)
      unfolding poll_task
      poll_task-IsWell x id p pos h = elim (Option-cases (x.tasks id)) [
        | inl e ↦
            rw (e, poll_task)
              (
                record {
                  positive = pos;
                  at = λ j. stale-WellAt x id j none e (λ t u. absurd (ground arith)) (h j);
                },
                p,
              )
        | inr (t, e) ↦ elim (Bool-cases (is_scheduled t.state)) [
          | inl s ↦ elim (Option-cases t.fut) [
            | inl gone ↦ absurd (has_future (id ∷ x.run_queue) x id t e s (h id) gone)
            | inr (f, here) ↦
                rw (e, poll_task, s, here)
                  (poll_taken-IsWell (begin glue x id t) id f refl
                    (begin-IsWell x id t p e pos h s))
          ]
          | inr s ↦
              rw (e, poll_task, s)
                (
                  record {
                    positive = pos;
                    at = λ j. stale-WellAt x id j (some t) e (λ u v. ground arith) (h j);
                  },
                  p,
                )
        ]
      ]
