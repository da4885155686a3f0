-- ===== src/Executor/State.antt =====
-- The executor's state and what it does without polling: rustdv/rustdv-sim/src/executor.rs. The types
-- of futures and outputs are parameters, and so is the state `S` that the tasks share outside the
-- executor; a task's output has one type here, where each handle of the source has its own.
use Prim.Native.String.{String}
use rustdv.Base.{
  ◌+◌, Bool, true, false, List, [], ◌∷◌, ◌++◌, Option, none, some, leb, ◌==◌, if◌then◌else◌, Result,
  err, Poll, ready, pending, update,
}
use rustdv.Wake.{TaskId, wake_all}

pub data TaskState : Type 0 where
  unstarted scheduled running waiting finished cancelled failed : TaskState

pub data TaskError : Type 0 where
  cancelled_error invalid_state : TaskError
  panicked_error : String → TaskError

-- `TaskShared<T>`: what a task and its handles share. It outlives the task.
pub record TaskShared (T : Type 0) : Type 0 where
  pub state : TaskState
  pub result : Option (Result T TaskError)
  pub joiners : List TaskId

-- `TaskEntry`. `fut` is `none` while the placeholder `async {}` stands in for the future that is being
-- polled. The two hooks reach the `TaskShared` of the same id.
pub record TaskEntry (F : Type 0) : Type 0 where
  pub fut : Option F
  pub name : Option String
  pub state : TaskState

-- `ExecInner`, with every `TaskShared` ever made (by task id) and the shared state of the tasks. A hash
-- map is a function into `Option`. `failures` is what the failure sink, or standard error, was told.
pub record ExecInner (F T S : Type 0) : Type 0 where
  pub tasks : TaskId → Option (TaskEntry F)
  pub next_id : TaskId
  pub run_queue : List TaskId
  pub woken : List TaskId
  pub running : Bool
  pub currently_polling : Option TaskId
  pub cancel_pending : List TaskId
  pub failures : List (Option String × String)
  pub shared : TaskId → TaskShared T
  pub user : S

abbrev pub is_task : Option TaskId → TaskId → Bool
is_task none id = false
is_task (some p) id = p == id

abbrev pub is_scheduled : TaskState → Bool
is_scheduled scheduled = true
is_scheduled _ = false

abbrev pub is_waiting : TaskState → Bool
is_waiting waiting = true
is_waiting _ = false

-- `TaskHandle::done`, on the state
abbrev pub is_done : TaskState → Bool
is_done finished = true
is_done cancelled = true
is_done failed = true
is_done _ = false

abbrev pub abort_state : TaskError → TaskState
abort_state cancelled_error = cancelled
abort_state _ = failed

-- The ids that `cancel_after` collects from the map's keys
unfoldable pub at_least : TaskId → List TaskId → List TaskId
at_least watermark [] = []
at_least watermark (id ∷ ids) =
    if leb watermark id then id ∷ at_least watermark ids else at_least watermark ids

module _ {F T S : Type 0} where
  -- `init`
  unfoldable pub init : S → ExecInner F T S
  init s = record {
    tasks = λ _. none;
    next_id = 1;
    run_queue = [];
    woken = [];
    running = false;
    currently_polling = none;
    cancel_pending = [];
    failures = [];
    shared = λ _. record { state = unstarted; result = none; joiners = [] };
    user = s;
  }

  abbrev pub set_entry : ExecInner F T S → TaskId → Option (TaskEntry F) → ExecInner F T S
  set_entry x id e = record x { tasks = update x.tasks id e }

  -- `(t.state_cell)(s)`
  abbrev pub set_state : ExecInner F T S → TaskId → TaskState → ExecInner F T S
  set_state x id s = record x { shared = update x.shared id (record (x.shared id) { state = s }) }

  -- `TaskShared::complete`
  unfoldable pub complete : ExecInner F T S → TaskId → Result T TaskError → ExecInner F T S
  complete x id r = record x {
    shared = update x.shared id (record (x.shared id) { result = some r; joiners = [] });
    woken = wake_all x.woken (x.shared id).joiners;
  }

  -- `(t.on_abort)(e)`
  unfoldable pub on_abort : ExecInner F T S → TaskId → TaskError → ExecInner F T S
  unfolding complete
  on_abort x id e = complete (set_state x id (abort_state e)) id (err e)

  -- `Executor::spawn_named`: the new state and the handle's id
  unfoldable pub spawn_named : ExecInner F T S → F → Option String → ExecInner F T S × TaskId
  spawn_named x f name = (
    record x {
      next_id = x.next_id + 1;
      tasks =
          update x.tasks x.next_id (some (record { fut = some f; name = name; state = scheduled }));
      run_queue = x.run_queue ++ x.next_id ∷ [];
      shared =
          update x.shared x.next_id (record { state = scheduled; result = none; joiners = [] });
    },
    x.next_id,
  )

  -- The body of `drain_woken`'s loop
  unfoldable pub schedule : ExecInner F T S → TaskId → ExecInner F T S
  schedule x id = elim (x.tasks id) [
    | none ↦ x
    | some t ↦
        if is_waiting t.state
        then (let y =
              set_state (set_entry x id (some (record t { state = scheduled }))) id scheduled in
            record y { run_queue = y.run_queue ++ id ∷ [] })
        else x
  ]

  unfoldable pub schedule_all : ExecInner F T S → List TaskId → ExecInner F T S
  schedule_all x [] = x
  schedule_all x (id ∷ ids) = schedule_all (schedule x id) ids

  unfoldable pub drain_woken : ExecInner F T S → ExecInner F T S
  drain_woken x = schedule_all (record x { woken = [] }) x.woken

  -- `TaskHandle::result`: takes the stored value.
  unfoldable pub result : ExecInner F T S → TaskId → ExecInner F T S × Result T TaskError
  result x id = elim (x.shared id).result [
    | none ↦ (x, err invalid_state)
    | some r ↦
        (record x { shared = update x.shared id (record (x.shared id) { result = none }) }, r)
  ]

  -- `TaskHandle::poll`, by the task `me`
  unfoldable pub poll_handle :
      ExecInner F T S → TaskId → TaskId → ExecInner F T S × Poll (Result T TaskError)
  unfolding result
  poll_handle x id me =
      if is_done (x.shared id).state then (let (y, r) = result x id in (y, ready r)) else (
        record x {
          shared =
              update x.shared id
                (record (x.shared id) { joiners = (x.shared id).joiners ++ me ∷ [] });
        },
        pending,
      )

  -- `glue` is what dropping a future does: the tasks' shared state after its `Drop` impls, and the
  -- tasks that they wake.
  module _ (glue : F → S → S × List TaskId) where
    unfoldable pub drop_fut : ExecInner F T S → Option F → ExecInner F T S
    drop_fut x none = x
    drop_fut x (some f) =
        let (s, ws) = glue f x.user in record x { user = s; woken = wake_all x.woken ws }

    -- `Executor::cancel`
    unfoldable pub cancel : ExecInner F T S → TaskId → ExecInner F T S
    unfolding on_abort drop_fut
    cancel x id =
        if is_task x.currently_polling id
        then record x { cancel_pending = x.cancel_pending ++ id ∷ [] }
        else elim (x.tasks id) [
          | none ↦ x
          | some t ↦ drop_fut (on_abort (set_entry x id none) id cancelled_error) t.fut
        ]

    unfoldable pub cancel_all : ExecInner F T S → List TaskId → ExecInner F T S
    cancel_all x [] = x
    cancel_all x (id ∷ ids) = cancel_all (cancel x id) ids

    -- `Executor::cancel_after`, over the map's keys in the order in which it yields them
    unfoldable pub cancel_after : ExecInner F T S → List TaskId → TaskId → ExecInner F T S
    cancel_after x keys watermark = cancel_all x (at_least watermark keys)
