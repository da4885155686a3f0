-- ===== src/Executor/Idle.antt =====
-- The loop of `run_until_idle`: rustdv/rustdv-sim/src/executor.rs.
use rustdv.Base.{ℕ, zero, suc, ◌≡◌, ◌<◌, refl, ◌∙◌, true, false, List, [], ◌∷◌, none, some, arith}
use rustdv.Wake.{TaskId}
use rustdv.Executor.State.{waiting, TaskEntry, ExecInner, drain_woken}
use rustdv.Executor.Poll.{Script, poll_task, idle_loop, run_until_idle}
use rustdv.Executor.Invariant.{WellAt, IsWell}
use rustdv.Executor.Polling.{poll_task-IsWell}
use rustdv.Executor.Wakes.{drain_woken-IsWell}

module _ {F T S : Type 0} where
  -- Nothing is left to poll: no wake is pending, and each live task waits.
  pub record IsQuiet (x : ExecInner F T S) : Type 0 where
    pub queue : x.run_queue ≡ []
    pub woken : x.woken ≡ []
    pub asleep : (j : TaskId) (t : TaskEntry F) → x.tasks j ≡ some t → t.state ≡ waiting

  well-asleep :
      (x : ExecInner F T S) (j : TaskId) (t : TaskEntry F)
      → x.run_queue ≡ []
      → x.currently_polling ≡ none
      → WellAt x.run_queue x j
      → x.tasks j ≡ some t
      → t.state ≡ waiting
  well-asleep x j t q p h e = ground arith

  module _ (glue : F → S → S × List TaskId) (step : F → TaskId → S → Script F T S) where
    -- The state after one round of the loop that finds `id` at the front of the run queue
    abbrev pub round : ExecInner F T S → TaskId → List TaskId → ExecInner F T S
    round x id rest = poll_task glue step (record (drain_woken x) { run_queue = rest }) id

    -- The testbench comes to rest: some number falls in each round, from any state with `P`.
    abbrev pub Settles : (ExecInner F T S → Type 0) → (ExecInner F T S → ℕ) → Type 0
    Settles P measure =
        (x : ExecInner F T S) (id : TaskId) (rest : List TaskId)
        → P x
        → (drain_woken x).run_queue ≡ id ∷ rest
        → P (round x id rest) × (measure (round x id rest) < measure x)

    module _ (P : ExecInner F T S → Type 0) (measure : ExecInner F T S → ℕ)
        (settles : Settles P measure) where
      loop_cases :
          (n : ℕ) (x : ExecInner F T S) (q : List TaskId)
          → (drain_woken x).run_queue ≡ q
          → IsWell x
          → x.currently_polling ≡ none
          → P x
          → measure x < suc n
          → ((y : ExecInner F T S)
              → IsWell y
              → y.currently_polling ≡ none
              → P y
              → measure y < n
              → (z : ExecInner F T S) × (idle_loop glue step n y ≡ some z) × IsWell z × IsQuiet z)
          → (z : ExecInner F T S) × (idle_loop glue step (suc n) x ≡ some z) × IsWell z × IsQuiet z
      unfolding idle_loop
      loop_cases n x [] e h p inv m rec =
          let (well, awake, polling, _) = drain_woken-IsWell x h in
          (
            drain_woken x,
            ground arith,
            well,
            record {
              queue = e;
              woken = awake;
              asleep = λ j t f. well-asleep (drain_woken x) j t e (polling ∙ p) (well.at j) f;
            },
          )
      loop_cases n x (id ∷ rest) e h p inv m rec =
          let (well, awake, polling, _) = drain_woken-IsWell x h in
          let (kept, less) = settles x id rest inv e in
          let (well', nobody) =
            poll_task-IsWell glue step (record (drain_woken x) { run_queue = rest }) id
              (polling ∙ p) well.positive (λ j. rw e at (well.at j)) in
          rw (e, idle_loop) (rec (round x id rest) well' nobody kept (omega arith))

      idle_loop-IsQuiet :
          (n : ℕ) (x : ExecInner F T S)
          → IsWell x
          → x.currently_polling ≡ none
          → P x
          → measure x < n
          → (z : ExecInner F T S) × (idle_loop glue step n x ≡ some z) × IsWell z × IsQuiet z
      idle_loop-IsQuiet zero x h p inv m = absurd (omega arith)
      idle_loop-IsQuiet (suc n) x h p inv m =
          loop_cases n x (drain_woken x).run_queue refl h p inv m (idle_loop-IsQuiet n)

      -- If some number falls in each round, as it does for tasks that come to rest, then
      -- `run_until_idle`, called from the simulator with the executor's books in order, ends within as
      -- many rounds; then the books are in order, the run queue and the woken queue are empty, every
      -- live task waits, and the executor can be run again.
      pub run_until_idle-IsQuiet :
          (fuel : ℕ) (x : ExecInner F T S)
          → IsWell x
          → x.running ≡ false
          → x.currently_polling ≡ none
          → P (record x { running = true })
          → measure (record x { running = true }) < fuel
          → (z : ExecInner F T S) × (run_until_idle glue step fuel x ≡ some z)
            × IsWell z
            × IsQuiet z
            × (z.running ≡ false)
      unfolding run_until_idle
      run_until_idle-IsQuiet fuel x h idle p inv m =
          let (z, ran, well, quiet) =
            idle_loop-IsQuiet fuel (record x { running = true })
              (record { positive = h.positive; at = h.at }) p inv m in
          (
            record z { running = false },
            rw (idle, ran, run_until_idle),
            record { positive = well.positive; at = well.at },
            record { queue = quiet.queue; woken = quiet.woken; asleep = quiet.asleep },
            refl,
          )
