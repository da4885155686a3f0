-- ===== src/Handle/ReadOnly.antt =====
-- Nothing is written in the ReadOnly phase: both ways to write of rustdv/rustdv-sim/src/handle/logic.rs and phase.rs.
use rustdv.Base.{
  Bool, true, false, ◌&&◌, List, [], ◌∷◌, none, some, ◌≡◌, refl, sym, ◌∙◌, arith, Option-cases, inl,
  inr, if◌then◌else◌,
}
use rustdv.Wake.{World}
use rustdv.LogicArray.Big.{BigUint}
use rustdv.Phase
use rustdv.Phase.{
  Hub, PhaseKind, normal, read_write, read_only, schedule, apply_write, poll_phase, schedules,
  begins, polls, drops, enters, leaves, drop_trig,
}
use rustdv.Handle.{WriteVal, Call, does, sets_now, call, run, set_now, deny_write_in_read_only}

module _ (N : BigUint) where
  -- A call of a task: the simulator begins and ends no callback meanwhile.
  abbrev pub of_task : Call N → Bool
  of_task (does (enters k)) = false
  of_task (does (leaves k)) = false
  of_task c = true

  abbrev pub is_write : Call N → Bool
  is_write (does (schedules t v)) = true
  is_write (sets_now t v) = true
  is_write c = false

  abbrev pub all_of_task : List (Call N) → Bool
  all_of_task [] = true
  all_of_task (c ∷ cs) = of_task c && all_of_task cs

  abbrev pub none_write : List (Call N) → Bool
  none_write [] = true
  none_write (c ∷ cs) = (if is_write c then false else true) && none_write cs

  Quiet : World (Hub (WriteVal N)) → World (Hub (WriteVal N)) → Type 0
  Quiet w w' =
      (w'.inner.phase ≡ read_only)
      × (w'.inner.applied ≡ w.inner.applied)
      × (w'.inner.writes ≡ w.inner.writes)

  call-Quiet :
      (w w' : World (Hub (WriteVal N))) (c : Call N)
      → w.inner.phase ≡ read_only
      → of_task c ≡ true
      → call N w c ≡ some w'
      → Quiet w w' × (is_write c ≡ false)
  unfolding Quiet call set_now deny_write_in_read_only Phase.call schedule poll_phase drop_trig
  call-Quiet w w' (does (schedules t v)) p o e = ground arith
  call-Quiet w w' (does (begins k id)) p o e = ground arith
  call-Quiet w w' (does (polls k t id)) p o e = ground arith
  call-Quiet w w' (does (drops t)) p o e = ground arith
  call-Quiet w w' (does (enters k)) p o e = absurd (ground arith)
  call-Quiet w w' (does (leaves k)) p o e = absurd (ground arith)
  call-Quiet w w' (sets_now t v) p o e = ground arith

  none-some : {A : Type 0} {x : A} → none ≡ some x → ⊥
  none-some e = ground arith

  step_on :
      (w v : World (Hub (WriteVal N))) (c : Call N) (cs : List (Call N))
      → call N w c ≡ some v
      → run N w (c ∷ cs) ≡ run N v cs
  unfolding run
  step_on w v c cs e = rw (run, e) refl

  step_off :
      (w : World (Hub (WriteVal N))) (c : Call N) (cs : List (Call N))
      → call N w c ≡ none
      → run N w (c ∷ cs) ≡ none
  unfolding run
  step_off w c cs e = rw (run, e) refl

  run-Quiet :
      (w w' : World (Hub (WriteVal N))) (cs : List (Call N))
      → w.inner.phase ≡ read_only
      → all_of_task cs ≡ true
      → run N w cs ≡ some w'
      → Quiet w w' × (none_write cs ≡ true)
  unfolding Quiet run
  run-Quiet w w' [] p o e = ground arith
  run-Quiet w w' (c ∷ cs) p o e = elim (Option-cases (call N w c)) [
    | inl k ↦ absurd (none-some (sym (step_off w c cs k) ∙ e))
    | inr (v, k) ↦
        let ((q, a, b), r) = call-Quiet w v c p (ground arith) k in
        let ((q', a', b'), r') =
          run-Quiet v w' cs q (ground arith) (sym (step_on w v c cs k) ∙ e) in
        ((q', a' ∙ a, b' ∙ b), ground arith)
  ]

  -- In the ReadOnly phase, through any calls of tasks, polls and drops of phase futures included: if none of them panics, then
  -- no write was among them, buffered or immediate, and the simulator got none; the phase stays, and so does the buffer.
  pub run_read_only :
      (w w' : World (Hub (WriteVal N))) (cs : List (Call N))
      → w.inner.phase ≡ read_only
      → all_of_task cs ≡ true
      → run N w cs ≡ some w'
      → (none_write cs ≡ true)
        × (w'.inner.applied ≡ w.inner.applied)
        × (w'.inner.phase ≡ read_only)
        × (w'.inner.writes ≡ w.inner.writes)
  unfolding Quiet
  run_read_only w w' cs p o e = let ((q, a, b), r) = run-Quiet w w' cs p o e in (r, a, q, b)
