-- ===== src/Executor/Wakes.antt =====
-- What a wake does: rustdv/rustdv-sim/src/executor.rs, `drain_woken`.
use rustdv.Base.{
  ◌+◌, ◌≡◌, refl, Bool, false, List, [], ◌∷◌, Option, none, some, arith, count, count-append, ◌==◌,
  if◌then◌else◌, ltb, ◌&&◌,
}
use rustdv.Wake.{TaskId}
use rustdv.Executor.State.{
  scheduled, TaskEntry, ExecInner, is_waiting, schedule, schedule_all, drain_woken,
}
use rustdv.Executor.Invariant.{IsWell, schedule-WellAt}

-- The entry of a task that a wake reaches, and whether it is one that the wake schedules.
abbrev pub woken_entry : {F : Type 0} → Option (TaskEntry F) → Option (TaskEntry F)
woken_entry none = none
woken_entry (some t) = if is_waiting t.state then some (record t { state = scheduled }) else some t

abbrev pub sleeps : {F : Type 0} → Option (TaskEntry F) → Bool
sleeps none = false
sleeps (some t) = is_waiting t.state

sleeps-woken_entry : {F : Type 0} → (o : Option (TaskEntry F)) → sleeps (woken_entry o) ≡ false
sleeps-woken_entry none = refl
sleeps-woken_entry (some t) = ground arith

woken_entry_twice :
    {F : Type 0} → (o : Option (TaskEntry F)) → woken_entry (woken_entry o) ≡ woken_entry o
woken_entry_twice none = refl
woken_entry_twice (some t) = ground arith

module _ {F T S : Type 0} where
  schedule-tasks :
      (x : ExecInner F T S) (id j : TaskId)
      → ((schedule x id).tasks j ≡ (if id == j then woken_entry (x.tasks j) else x.tasks j))
        × (count j (schedule x id).run_queue
            ≡ count j x.run_queue + (if id == j && sleeps (x.tasks j) then 1 else 0))
  unfolding schedule
  schedule-tasks x id j = ground (arith, count-append j x.run_queue (id ∷ []))

  schedule_all-tasks :
      (x : ExecInner F T S) (ids : List TaskId) (j : TaskId)
      → ((schedule_all x ids).tasks j
          ≡ (if ltb 0 (count j ids) then woken_entry (x.tasks j) else x.tasks j))
        × (count j (schedule_all x ids).run_queue
            ≡ count j x.run_queue + (if ltb 0 (count j ids) && sleeps (x.tasks j) then 1 else 0))
  unfolding schedule_all
  schedule_all-tasks x [] j = (refl, omega arith)
  schedule_all-tasks x (id ∷ ids) j = ground (
    arith,
    schedule-tasks x id j,
    schedule_all-tasks (schedule x id) ids j,
    sleeps-woken_entry (x.tasks j),
    woken_entry_twice (x.tasks j),
  )

  -- Draining the woken queue schedules each waiting task that was woken and puts it in the run queue
  -- once, however often it was woken; a wake of any other task, or of none, changes nothing.
  pub drain_woken-tasks :
      (x : ExecInner F T S) (j : TaskId)
      → let y = drain_woken x in
        (y.tasks j ≡ (if ltb 0 (count j x.woken) then woken_entry (x.tasks j) else x.tasks j))
        × (count j y.run_queue
            ≡ count j x.run_queue
              + (if ltb 0 (count j x.woken) && sleeps (x.tasks j) then 1 else 0))
  unfolding drain_woken
  drain_woken-tasks x j = schedule_all-tasks (record x { woken = [] }) x.woken j

  -- What scheduling leaves alone
  pub record Kept (x y : ExecInner F T S) : Type 0 where
    pub next : y.next_id ≡ x.next_id
    pub polling : y.currently_polling ≡ x.currently_polling
    pub woken : y.woken ≡ x.woken
    pub running : y.running ≡ x.running

  schedule-Kept : (x : ExecInner F T S) (id : TaskId) → Kept x (schedule x id)
  unfolding schedule
  schedule-Kept x id = ground arith

  schedule_all-IsWell :
      (x : ExecInner F T S) (ids : List TaskId)
      → IsWell x
      → IsWell (schedule_all x ids) × Kept x (schedule_all x ids)
  unfolding schedule_all
  schedule_all-IsWell x [] h =
      (h, record { next = refl; polling = refl; woken = refl; running = refl })
  schedule_all-IsWell x (id ∷ ids) h =
      let y = schedule x id in
      let k : Kept x y = schedule-Kept x id in
      let (well, kept) = schedule_all-IsWell y ids (record {
        positive = omega (arith, k.next, h.positive);
        at = λ j. schedule-WellAt x id j (h.at j);
      }) in
      (well, ground (arith, k, kept))

  pub drain_woken-IsWell :
      (x : ExecInner F T S)
      → IsWell x
      → let y = drain_woken x in
        IsWell y
        × (y.woken ≡ [])
        × (y.currently_polling ≡ x.currently_polling)
        × (y.running ≡ x.running)
  unfolding drain_woken
  drain_woken-IsWell x h =
      let (well, kept) =
        schedule_all-IsWell (record x { woken = [] }) x.woken
          (record { positive = h.positive; at = h.at }) in
      (well, kept.woken, kept.polling, kept.running)
