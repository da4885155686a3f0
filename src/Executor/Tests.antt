-- ===== src/Executor/Tests.antt =====
-- A small testbench on the executor, and the executor's theorems at it.

use rustdv.Base.{
  ℕ, suc, zero, ◌+◌, ◌≡◌, ◌<◌, refl, ap, sym, false, List, [], ◌∷◌, Option, none, some, arith,
  count, update, ◌==◌, if◌then◌else◌, err, ready, leb, ◌⊎◌, length,
}
use rustdv.Wake.{TaskId, wake_all}
use rustdv.Executor.State.{
  TaskState, unstarted, scheduled, waiting, finished, cancelled, TaskEntry, ExecInner,
  cancelled_error, schedule, schedule_all, drain_woken, poll_handle, cancel, cancel_after,
}
use rustdv.Executor.Poll.{
  Script, ends, asks, wakes, completes, suspends, poll_task, run_until_idle, settle, perform,
}
use rustdv.Executor.Invariant.{IsWell, WellAt}
use rustdv.Executor.Polling.{poll_task-IsWell}
use rustdv.Executor.Cancel.{cancel_lem, cancel_after-tasks}
use rustdv.Executor.Idle.{IsQuiet, Settles, run_until_idle-IsQuiet}

-- A future is the number of polls that it still waits for; each wakes task 1.
abbrev Bench : Type 0
Bench = ExecInner ℕ ℕ (List ℕ)

abbrev no_drop : ℕ → List ℕ → List ℕ × List TaskId
no_drop f s = (s, [])

abbrev bench_step : ℕ → TaskId → List ℕ → Script ℕ ℕ (List ℕ)
bench_step zero me s = ends (completes me)
bench_step (suc n) me s = asks (wakes 1) (λ r. ends (suspends n))

-- Two tasks, spawned and not yet polled.
abbrev bench : Bench
bench = record {
  tasks =
      update (update (λ _. none) 1 (some (record { fut = some 1; name = none; state = scheduled })))
        2 (some (record { fut = some 0; name = some "b"; state = scheduled }));
  next_id = 3;
  run_queue = 1 ∷ 2 ∷ [];
  woken = [];
  running = false;
  currently_polling = none;
  cancel_pending = [];
  failures = [];
  shared =
      update
        (update (λ _. record { state = unstarted; result = none; joiners = [] }) 1
          (record { state = scheduled; result = none; joiners = [] }))
        2 (record { state = scheduled; result = none; joiners = 1 ∷ [] });
  user = [];
}

abbrev states_of : Option Bench → Option (TaskState × TaskState × List TaskId)
states_of none = none
states_of (some x) = some ((x.shared 1).state, (x.shared 2).state, x.woken)

bench_runs : states_of (run_until_idle no_drop bench_step 9 bench) ≡ some (finished, finished, [])
unfolding run_until_idle drain_woken poll_task settle schedule_all perform schedule wake_all
bench_runs = refl

bench-WellAt : (j : TaskId) → WellAt (1 ∷ 2 ∷ []) bench j
bench-WellAt j = ground arith

bench-IsWell : IsWell bench
bench-IsWell = record { positive = omega arith; at = bench-WellAt }

poll_task-IsWell_example :
    let y = poll_task no_drop bench_step (record bench { run_queue = 2 ∷ [] }) 1 in
    IsWell y × (y.currently_polling ≡ none)
poll_task-IsWell_example =
    poll_task-IsWell no_drop bench_step (record bench { run_queue = 2 ∷ [] }) 1 refl (omega arith)
      bench-WellAt

-- Task 1 waits, and was woken twice.
abbrev asleep : Bench
asleep = record bench {
  tasks = update bench.tasks 1 (some (record { fut = some 0; name = none; state = waiting }));
  run_queue = 2 ∷ [];
  woken = 1 ∷ 1 ∷ 7 ∷ [];
}

abbrev second : TaskEntry ℕ
second = record { fut = some 0; name = some "b"; state = scheduled }

cancel_lem_example :
    let y = cancel no_drop bench 2 in
    (y.tasks 1 ≡ (if 1 == 2 then none else bench.tasks 1))
    × ((y.shared 2).state ≡ cancelled)
    × ((poll_handle y 2 4).1 ≡ ready (err cancelled_error))
    × (count 1 y.woken ≡ 0 + 1 + 0)
cancel_lem_example = cancel_lem no_drop bench 2 1 1 4 second refl refl

-- Task 1, which is being polled, cancels what is younger than it.
abbrev in_poll : Bench
in_poll = record bench {
  tasks =
      update bench.tasks 1 (some (record { fut = none; name = none; state = TaskState.running }));
  currently_polling = some 1;
}

bench_keys : (k : TaskId) → (in_poll.tasks k ≡ none) ⊎ (0 < count k (2 ∷ 1 ∷ []))
bench_keys k = ground arith

cancel_after-tasks_example :
    (cancel_after no_drop in_poll (2 ∷ 1 ∷ []) 2).tasks 1
    ≡ (if leb 2 1 then none else in_poll.tasks 1)
cancel_after-tasks_example =
    cancel_after-tasks no_drop in_poll (2 ∷ 1 ∷ []) 2 1 1 bench_keys refl (omega arith)

-- A testbench whose tasks complete when they are polled, and in which nobody awaits anybody: it comes
-- to rest, since its run queue gets shorter.
abbrev quick_step : ℕ → TaskId → List ℕ → Script ℕ ℕ (List ℕ)
quick_step f me s = ends (completes me)

abbrev Quick : Bench → Type 0
Quick x = (x.woken ≡ []) × ((j : TaskId) → (x.shared j).joiners ≡ [])

abbrev queued : Bench → ℕ
queued x = length x.run_queue

poll_quick :
    (x : Bench) (id j : TaskId)
    → x.woken ≡ []
    → (x.shared id).joiners ≡ []
    → (x.shared j).joiners ≡ []
    → let y = poll_task no_drop quick_step x id in
      (y.woken ≡ []) × ((y.shared j).joiners ≡ []) × (y.run_queue ≡ x.run_queue)
unfolding poll_task wake_all
poll_quick x id j w h k = ground arith

drain_quick : (x : Bench) → x.woken ≡ [] → drain_woken x ≡ record x { woken = [] }
unfolding drain_woken schedule_all
drain_quick x w = ground arith

Quick-Settles : Settles no_drop quick_step Quick queued
Quick-Settles x id rest (w, joiners) e =
    let y : Bench = record (drain_woken x) { run_queue = rest } in
    let same = drain_quick x w in
    let still : (j : TaskId) → ((drain_woken x).shared j).joiners ≡ [] = λ j. rw same (joiners j) in
    (
      (
        (poll_quick y id id (rw same) (still id) (still id)).0,
        λ j. (poll_quick y id j (rw same) (still id) (still j)).1,
      ),
      rw ((poll_quick y id id (rw same) (still id) (still id)).2)
          (omega (arith, ap length (sym e), ap (λ (z : Bench). length z.run_queue) same)),
    )

abbrev quick : Bench
quick = record bench {
  shared = update bench.shared 2 (record { state = scheduled; result = none; joiners = [] });
}

run_until_idle-IsQuiet_example :
    (z : Bench) × (run_until_idle no_drop quick_step 3 quick ≡ some z)
    × IsWell z
    × IsQuiet z
    × (z.running ≡ false)
run_until_idle-IsQuiet_example =
    run_until_idle-IsQuiet no_drop quick_step Quick queued Quick-Settles 3 quick
      (record { positive = omega arith; at = λ j. ground arith }) refl refl
      (refl, λ j. ground arith) (omega arith)
