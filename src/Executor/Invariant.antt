-- ===== src/Executor/Invariant.antt =====
-- The executor's books: rustdv/rustdv-sim/src/executor.rs.
use Prim.Native.String.{String}
use rustdv.Base.{
  ◌≡◌, ◌<◌, ◌≤◌, refl, Bool, true, false, List, [], ◌∷◌, Option, none, some, arith, count,
  count-append, Result,
}
use rustdv.Wake.{TaskId}
use rustdv.Executor.State.{
  TaskState, scheduled, running, waiting, TaskEntry, ExecInner, TaskError, is_task, is_done,
  complete, spawn_named, schedule, result, poll_handle, cancel, cancel_all,
}

abbrev pub is_there {ℓ} : {A : Type ℓ} → Option A → Bool
is_there none = false
is_there (some a) = true

module _ {F T S : Type 0} where
  -- What an entry's state says: a scheduled task is in the run queue, a task waits or is scheduled with
  -- its future at hand, and exactly the running task has the future taken out.
  abbrev pub StateOk : List TaskId → ExecInner F T S → TaskId → Option F → TaskState → Type 0
  StateOk q x j f scheduled =
      (0 < count j q) × (is_there f ≡ true) × (is_task x.currently_polling j ≡ false)
  StateOk q x j f waiting = (is_there f ≡ true) × (is_task x.currently_polling j ≡ false)
  StateOk q x j f running = (is_there f ≡ false) × (is_task x.currently_polling j ≡ true)
  StateOk q x j f _ = ⊥

  -- An entry is of an id that was given out and mirrors the state that the handles see. A task that has
  -- left the table is done, and nobody is left awaiting it.
  abbrev pub EntryOk : List TaskId → ExecInner F T S → TaskId → Option (TaskEntry F) → Type 0
  EntryOk q x j none =
      (is_task x.currently_polling j ≡ false)
      × (0 < j → j < x.next_id → (is_done (x.shared j).state ≡ true) × ((x.shared j).joiners ≡ []))
  EntryOk q x j (some t) =
      (0 < j) × (j < x.next_id) × ((x.shared j).state ≡ t.state) × StateOk q x j t.fut t.state

  -- The books at one id, where `q` is the run queue.
  abbrev pub WellAt : List TaskId → ExecInner F T S → TaskId → Type 0
  WellAt q x j = EntryOk q x j (x.tasks j)

  -- The books of the whole executor
  pub record IsWell (x : ExecInner F T S) : Type 0 where
    pub positive : 0 < x.next_id
    pub at : (j : TaskId) → WellAt x.run_queue x j

  complete-WellAt :
      (q : List TaskId) (x : ExecInner F T S) (id j : TaskId) (r : Result T TaskError)
      → WellAt q x j
      → WellAt q (complete x id r) j
  unfolding complete
  complete-WellAt q x id j r h = ground arith

  pub spawn_named-WellAt :
      (x : ExecInner F T S) (f : F) (name : Option String) (j : TaskId)
      → 0 < x.next_id
      → WellAt x.run_queue x x.next_id
      → WellAt x.run_queue x j
      → let y = (spawn_named x f name).0 in WellAt y.run_queue y j
  unfolding spawn_named
  spawn_named-WellAt x f name j pos n h =
      ground (arith, count-append j x.run_queue (x.next_id ∷ []))

  pub schedule-WellAt :
      (x : ExecInner F T S) (id j : TaskId)
      → WellAt x.run_queue x j
      → let y = schedule x id in WellAt y.run_queue y j
  unfolding schedule
  schedule-WellAt x id j h = ground (arith, count-append j x.run_queue (id ∷ []))

  pub result-WellAt :
      (q : List TaskId) (x : ExecInner F T S) (id j : TaskId)
      → WellAt q x j
      → WellAt q (result x id).0 j
  unfolding result
  result-WellAt q x id j h = ground arith

  pub poll_handle-WellAt :
      (q : List TaskId) (x : ExecInner F T S) (id me j : TaskId)
      → WellAt q x j
      → WellAt q (poll_handle x id me).0 j
  unfolding poll_handle
  poll_handle-WellAt q x id me j h = ground arith

  -- What neither a cancellation nor a request of a running task touches.
  pub record Same (x y : ExecInner F T S) : Type 0 where
    pub polling : y.currently_polling ≡ x.currently_polling
    pub next : x.next_id ≤ y.next_id

  module _ (glue : F → S → S × List TaskId) where
    pub cancel-WellAt :
        (q : List TaskId) (x : ExecInner F T S) (id j : TaskId)
        → WellAt q x j
        → WellAt q (cancel glue x id) j
    unfolding cancel
    cancel-WellAt q x id j h = ground arith

    pub cancel_all-WellAt :
        (q : List TaskId) (x : ExecInner F T S) (ids : List TaskId) (j : TaskId)
        → WellAt q x j
        → WellAt q (cancel_all glue x ids) j
    unfolding cancel_all
    cancel_all-WellAt q x [] j h = h
    cancel_all-WellAt q x (id ∷ ids) j h =
        cancel_all-WellAt q (cancel glue x id) ids j (cancel-WellAt q x id j h)

    pub cancel-run_queue :
        (x : ExecInner F T S) (id : TaskId)
        → ((cancel glue x id).run_queue ≡ x.run_queue) × Same x (cancel glue x id)
    unfolding cancel
    cancel-run_queue x id = ground arith

    pub cancel_all-run_queue :
        (x : ExecInner F T S) (ids : List TaskId)
        → ((cancel_all glue x ids).run_queue ≡ x.run_queue) × Same x (cancel_all glue x ids)
    unfolding cancel_all
    cancel_all-run_queue x [] = (refl, record { polling = refl; next = omega arith })
    cancel_all-run_queue x (id ∷ ids) =
        ground (arith, cancel-run_queue x id, cancel_all-run_queue (cancel glue x id) ids)

    pub cancel-IsWell : (x : ExecInner F T S) (id : TaskId) → IsWell x → IsWell (cancel glue x id)
    cancel-IsWell x id h = record {
      positive = ground (arith, cancel-run_queue x id, h.positive);
      at = λ j. rw ((cancel-run_queue x id).0) (cancel-WellAt x.run_queue x id j (h.at j));
    }
