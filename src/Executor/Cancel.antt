-- ===== src/Executor/Cancel.antt =====
-- Cancelling a task: rustdv/rustdv-sim/src/executor.rs, `cancel` and `cancel_after`.
use rustdv.Base.{
  ◌+◌, ◌≡◌, ◌<◌, refl, false, List, [], ◌∷◌, Option, none, some, arith, count, ◌==◌, if◌then◌else◌,
  err, ready, leb, ◌⊎◌, inl, inr, Bool-cases,
}
use rustdv.Wake.{TaskId, wake_all, count-wake_all}
use rustdv.Executor.State.{
  cancelled, TaskEntry, ExecInner, cancelled_error, is_task, poll_handle, cancel, cancel_all,
  cancel_after, at_least,
}

-- The wakes that the future's `Drop` makes, if it is at hand
abbrev pub dropped_wakes : {F S : Type 0} → (F → S → S × List TaskId) → Option F → S → List TaskId
dropped_wakes glue none s = []
dropped_wakes glue (some f) s = (glue f s).1

count-at_least :
    (w j : TaskId) (ids : List TaskId)
    → count j (at_least w ids) ≡ (if leb w j then count j ids else 0)
unfolding at_least
count-at_least w j [] = ground arith
count-at_least w j (id ∷ ids) = ground (arith, count-at_least w j ids)

module _ {F T S : Type 0} (glue : F → S → S × List TaskId) where
  -- Cancelling a live task that is not the one being polled takes it out of the table at once, marks it
  -- cancelled, hands the cancellation to the next task that awaits it, and wakes each task that was
  -- awaiting it and each that its future's `Drop` wakes, once; no other task's entry changes.
  pub cancel_lem :
      (x : ExecInner F T S) (id a j me : TaskId) (t : TaskEntry F)
      → x.tasks id ≡ some t
      → is_task x.currently_polling id ≡ false
      → let y = cancel glue x id in
        (y.tasks j ≡ (if j == id then none else x.tasks j))
        × ((y.shared id).state ≡ cancelled)
        × ((poll_handle y id me).1 ≡ ready (err cancelled_error))
        × (count a y.woken
            ≡ count a x.woken
              + count a (x.shared id).joiners
              + count a (dropped_wakes glue t.fut x.user))
  unfolding cancel poll_handle
  cancel_lem x id a j me t e p = ground (
    arith,
    count-wake_all a x.woken (x.shared id).joiners,
    count-wake_all a (wake_all x.woken (x.shared id).joiners) (dropped_wakes glue t.fut x.user),
  )

  gone :
      (x : ExecInner F T S) (id j me : TaskId)
      → x.currently_polling ≡ some me
      → me < id
      → ((cancel glue x id).tasks j ≡ (if id == j then none else x.tasks j))
        × ((cancel glue x id).currently_polling ≡ some me)
  unfolding cancel
  gone x id j me p l = ground arith

  cancel_all-tasks :
      (x : ExecInner F T S) (w : TaskId) (ids : List TaskId) (j me : TaskId)
      → x.currently_polling ≡ some me
      → me < w
      → (cancel_all glue x (at_least w ids)).tasks j
        ≡ (if leb 1 (count j (at_least w ids)) then none else x.tasks j)
  unfolding cancel_all at_least
  cancel_all-tasks x w [] j me p l = refl
  cancel_all-tasks x w (id ∷ ids) j me p l = elim (Bool-cases (leb w id)) [
    | inl e ↦
        let below : me < id = ground arith in
        let (now, still) = gone x id j me p below in
        let rest = cancel_all-tasks (cancel glue x id) w ids j me still l in
        ground (arith, e, now, rest)
    | inr e ↦ ground (arith, e, cancel_all-tasks x w ids j me p l)
  ]

  -- After a test, the regression's own task, which is being polled and is older than the watermark,
  -- calls `cancel_after`: every task whose id is at least the watermark is gone and every other
  -- entry, its own included, is as it was, if the keys are those of the table (in whatever order).
  pub cancel_after-tasks :
      (x : ExecInner F T S) (keys : List TaskId) (watermark j me : TaskId)
      → ((k : TaskId) → (x.tasks k ≡ none) ⊎ (0 < count k keys))
      → x.currently_polling ≡ some me
      → me < watermark
      → (cancel_after glue x keys watermark).tasks j ≡ (if leb watermark j then none else x.tasks j)
  unfolding cancel_after
  cancel_after-tasks x keys w j me all p l =
      ground (arith, cancel_all-tasks x w keys j me p l, count-at_least w j keys, all j)
