-- ===== src/Executor/Poll.antt =====
-- Polling: rustdv/rustdv-sim/src/executor.rs. What a future does while it is polled is code of the
-- testbench. It is a parameter here, as a program over what the executor offers it.
use Prim.Native.String.{String}
use rustdv.Base.{
  ℕ, zero, suc, true, false, List, [], ◌∷◌, ◌++◌, Option, none, some, if◌then◌else◌, Result, ok,
  Poll,
}
use rustdv.Wake.{TaskId, wake}
use rustdv.Executor.State.{
  TaskState, running, waiting, finished, failed, TaskError, panicked_error, TaskEntry, ExecInner,
  is_scheduled, set_entry, set_state, complete, on_abort, spawn_named, drain_woken, result,
  poll_handle, drop_fut, cancel, cancel_all,
}

-- What a running task asks of the executor: to wake a task, to spawn and to cancel one, to await a
-- handle, to take its result or look at its state, and to change the tasks' shared state.
pub data Request (F S : Type 0) : Type 0 where
  wakes cancels awaits results states : TaskId → Request F S
  spawns : F → Option String → Request F S
  changes : (S → S) → Request F S

pub data Response (T S : Type 0) : Type 0 where
  none_needed : Response T S
  spawned : TaskId → Response T S
  awaited : Poll (Result T TaskError) → Response T S
  taken : Result T TaskError → Response T S
  state_is : TaskState → Response T S
  changed : S → Response T S

-- How a poll ends. A future that panicked is still there to be dropped.
pub data Outcome (F T : Type 0) : Type 0 where
  completes : T → Outcome F T
  suspends : F → Outcome F T
  panics : F → String → Outcome F T

-- One poll of a future: requests, each continued on its response, and an outcome.
pub data Script (F T S : Type 0) : Type 0 where
  ends : Outcome F T → Script F T S
  asks : Request F S → (Response T S → Script F T S) → Script F T S

abbrev pub name_of : {F : Type 0} → Option (TaskEntry F) → Option String
name_of none = none
name_of (some t) = t.name

module _ {F T S : Type 0} (glue : F → S → S × List TaskId) where
  -- A request of the task `me`, carried out
  unfoldable pub perform : ExecInner F T S → TaskId → Request F S → ExecInner F T S × Response T S
  unfolding spawn_named cancel poll_handle result
  perform x me (wakes id) = (record x { woken = wake x.woken id }, none_needed)
  perform x me (cancels id) = (cancel glue x id, none_needed)
  perform x me (awaits id) = let (y, p) = poll_handle x id me in (y, awaited p)
  perform x me (results id) = let (y, r) = result x id in (y, taken r)
  perform x me (states id) = (x, state_is (x.shared id).state)
  perform x me (spawns f name) = let (y, id) = spawn_named x f name in (y, spawned id)
  perform x me (changes f) = (record x { user = f x.user }, changed x.user)

  unfoldable pub run_script :
      TaskId → Script F T S → ExecInner F T S → ExecInner F T S × Outcome F T
  run_script me (ends o) x = (x, o)
  run_script me (asks q next) x = let (y, r) = perform x me q in run_script me (next r) y

  -- `Ok(Poll::Ready(()))`, the wrapper future's last lines included
  unfoldable pub finish : ExecInner F T S → TaskId → T → ExecInner F T S
  unfolding complete
  finish x id out = set_entry (complete (set_state x id finished) id (ok out)) id none

  -- The future goes back into its entry.
  unfoldable pub put_back : ExecInner F T S → TaskId → F → TaskEntry F → ExecInner F T S
  put_back x id f t =
      set_state (set_entry x id (some (record t { fut = some f; state = waiting }))) id waiting

  -- The cancellations that tasks asked of themselves and that had to wait
  unfoldable pub cancel_deferred : ExecInner F T S → ExecInner F T S
  unfolding cancel_all
  cancel_deferred x = cancel_all glue (record x { cancel_pending = [] }) x.cancel_pending

  -- `Ok(Poll::Pending)`: a future whose entry is gone is dropped when `poll_task` returns.
  unfoldable pub suspend : ExecInner F T S → TaskId → F → ExecInner F T S
  unfolding put_back cancel_deferred drop_fut
  suspend x id f = elim (x.tasks id) [
    | none ↦ drop_fut glue (cancel_deferred x) (some f)
    | some t ↦ cancel_deferred (put_back x id f t)
  ]

  -- `Err(p)`
  unfoldable pub fail : ExecInner F T S → TaskId → F → String → ExecInner F T S
  unfolding on_abort drop_fut
  fail x id f msg =
      let y = drop_fut glue (set_entry x id none) (some f) in
      let z = on_abort (set_state y id failed) id (panicked_error msg) in
      record z { failures = z.failures ++ (name_of (x.tasks id), msg) ∷ [] }

  unfoldable pub settle : ExecInner F T S × Outcome F T → TaskId → ExecInner F T S
  unfolding finish suspend fail
  settle (x, completes out) id = finish (record x { currently_polling = none }) id out
  settle (x, suspends f) id = suspend (record x { currently_polling = none }) id f
  settle (x, panics f msg) id = fail (record x { currently_polling = none }) id f msg

  -- The entry goes to `Running`, with the placeholder for its future.
  unfoldable pub begin : ExecInner F T S → TaskId → TaskEntry F → ExecInner F T S
  begin x id t =
      let y =
        set_state (set_entry x id (some (record t { fut = none; state = running }))) id running in
      record y { currently_polling = some id }

  module _ (step : F → TaskId → S → Script F T S) where
    -- The poll of the future that was taken out; the placeholder would complete at once.
    unfoldable pub poll_taken : ExecInner F T S → TaskId → Option F → ExecInner F T S
    unfolding run_script settle
    poll_taken x id none = set_entry (record x { currently_polling = none }) id none
    poll_taken x id (some f) = settle (run_script id (step f id x.user) x) id

    unfoldable pub poll_task : ExecInner F T S → TaskId → ExecInner F T S
    unfolding begin poll_taken
    poll_task x id = elim (x.tasks id) [
      | none ↦ x
      | some t ↦ if is_scheduled t.state then poll_taken (begin x id t) id t.fut else x
    ]

    -- The loop of `run_until_idle`, with fuel; `none` means that it ran out.
    unfoldable pub idle_loop : ℕ → ExecInner F T S → Option (ExecInner F T S)
    idle_loop zero x = none
    idle_loop (suc n) x =
        let y = drain_woken x in
        elim y.run_queue [
          | [] ↦ some y
          | id ∷ rest ↦ idle_loop n (poll_task (record y { run_queue = rest }) id)
        ]

    unfoldable pub run_until_idle : ℕ → ExecInner F T S → Option (ExecInner F T S)
    unfolding idle_loop
    run_until_idle fuel x =
        if x.running then some x else elim (idle_loop fuel (record x { running = true })) [
          | none ↦ none
          | some y ↦ some (record y { running = false })
        ]
