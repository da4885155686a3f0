-- ===== src/Cycle/Errors.antt =====
-- rustdv/rustdv-cycle/src/rustdv_cycle.rs: what crosses the C interface is well formed.
use rustdv.Base.{
  ℕ, ◌≡◌, refl, Bool, true, false, List, [], ◌∷◌, ◌&&◌, not, Option, none, some, arith,
  Option-cases, ◌⊎◌, inl, inr,
}
use rustdv.RustdvPath.{Str}
use rustdv.Cycle.{
  CycleStatus, continue, pass, fail, to_raw, from_raw, Ended, returned, failed, panicked,
  panic_text, finish_text, CycleModel, ExportContext, without_nuls, has_nul, c_string, set_error,
  create_context, step_context, finish_context, context_error, fail_with,
}

Ended-cases :
    {A : Type 0} (r : Ended A)
    → ((a : A) × (r ≡ returned a)) ⊎ ((m : Str) × (r ≡ failed m)) ⊎ ((m : Str) × (r ≡ panicked m))
Ended-cases (returned a) = inl (a, refl)
Ended-cases (failed m) = inr (inl (m, refl))
Ended-cases (panicked m) = inr (inr (m, refl))

without_nuls_lem : (s : Str) → has_nul (without_nuls s) ≡ false
unfolding has_nul without_nuls
without_nuls_lem [] = refl
without_nuls_lem (b ∷ bs) = ground (arith, without_nuls_lem bs)

-- A call of the simulator's side
pub data Call (I : Type 0) : Type 0 where
  steps : Option I → Call I
  finishes : Call I

abbrev pub is_status : ℕ → Bool
unfolding from_raw
is_status n = elim (from_raw n) [ none ↦ false | some _ ↦ true ]

abbrev pub is_text : Option Str → Bool
is_text none = true
is_text (some s) = not (has_nul s)

is_status-to_raw : (s : CycleStatus) → is_status (to_raw s) ≡ true
unfolding to_raw from_raw
is_status-to_raw continue = refl
is_status-to_raw pass = refl
is_status-to_raw fail = refl

module _ {M I O : Type 0} (cm : CycleModel M I O) where
  unfoldable pub call :
      Option (ExportContext M)
      → Option O
      → Call I
      → Option (Option (ExportContext M) × Option O × ℕ)
  unfolding step_context finish_context
  call context outputs (steps inputs) = step_context cm context inputs outputs
  call context outputs finishes = finish_context cm context outputs

  -- All calls go through, each with a status, and leave a text.
  unfoldable pub goes_well : Option (ExportContext M) → Option O → List (Call I) → Bool
  goes_well context outputs [] = is_text (context_error context)
  goes_well context outputs (c ∷ cs) = elim (call context outputs c) [
    | none ↦ false
    | some r ↦ is_text (context_error context) && is_status r.2 && goes_well r.0 r.1 cs
  ]

  abbrev fine : Option (Option (ExportContext M) × Option O × ℕ) → Bool
  fine none = false
  fine (some r) = is_text (context_error r.0) && is_status r.2

  fail_with-fine :
      (c : ExportContext M) (outputs : Option O) (message : Str)
      → fine (fail_with cm c outputs message) ≡ true
  unfolding fail_with set_error c_string context_error
  fail_with-fine c outputs message = ground (arith, without_nuls_lem message, is_status-to_raw fail)

  call-fine :
      (context : Option (ExportContext M)) (outputs : Option O) (c : Call I)
      → is_text (context_error context) ≡ true
      → fine (call context outputs c) ≡ true
  unfolding call step_context finish_context context_error
  call-fine none outputs (steps inputs) h = is_status-to_raw fail
  call-fine (some c) outputs (steps none) h = ground (arith, is_status-to_raw fail)
  call-fine (some c) none (steps (some i)) h = ground (arith, is_status-to_raw fail)
  call-fine (some c) (some o) (steps (some i)) h =
      let (m, o', r) = cm.step c.model i o in
      let c' = record c { model = m } in
      elim (Ended-cases r) [
        | inl (status, e) ↦ ground (arith, e, is_status-to_raw status)
        | inr (inl (message, e)) ↦ ground (arith, e, fail_with-fine c' (some o') message)
        | inr (inr (message, e)) ↦
            ground (arith, e, fail_with-fine c' (some o') (panic_text message))
      ]
  call-fine none outputs finishes h = is_status-to_raw fail
  call-fine (some c) outputs finishes h =
      let (m, r) = cm.finish c.model in
      let c' = record c { model = m } in
      elim (Ended-cases r) [
        | inl (_, e) ↦ ground (arith, e, is_status-to_raw pass)
        | inr (inl (message, e)) ↦ ground (arith, e, fail_with-fine c' outputs message)
        | inr (inr (message, e)) ↦
            ground (arith, e, fail_with-fine c' outputs (finish_text message))
      ]

  goes_well_from :
      (context : Option (ExportContext M)) (outputs : Option O) (cs : List (Call I))
      → is_text (context_error context) ≡ true
      → goes_well context outputs cs ≡ true
  unfolding goes_well
  goes_well_from context outputs [] h = h
  goes_well_from context outputs (c ∷ cs) h = elim (Option-cases (call context outputs c)) [
    | inl e ↦ ground (arith, e, call-fine context outputs c h)
    | inr (r, e) ↦ ground (arith, e, call-fine context outputs c h, goes_well_from r.0 r.1 cs)
  ]

  -- Whatever the model does, errors and panics included, and whatever pointers are null: from the creation
  -- of its context on, every step and finish returns to the caller, without a panic of its own, with the
  -- number of a status, and the text of the last error has no NUL in it.
  pub create_context-goes_well :
      (outputs : Option O) (cs : List (Call I))
      → let (o, context) = create_context cm outputs in goes_well context o cs ≡ true
  unfolding create_context context_error has_nul
  create_context-goes_well none cs = goes_well_from none none cs refl
  create_context-goes_well (some o) cs =
      let (o', r) = cm.new o in
      elim (Ended-cases r) [
        | inl (m, e) ↦
            ground (arith, e, goes_well_from (some (record { model = m; error = [] })) (some o') cs)
        | inr (inl (message, e)) ↦ ground (arith, e, goes_well_from none (some o') cs)
        | inr (inr (message, e)) ↦ ground (arith, e, goes_well_from none (some o') cs)
      ]
