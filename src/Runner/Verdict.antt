-- ===== src/Runner/Verdict.antt =====
-- The verdict on one test, in rustdv/rustdv-runner/src/rustdv_runner.rs: which tests pass.
use rustdv.Base.{
  ℕ, Bool, true, false, not, ◌&&◌, Option, none, some, ok, err, if◌then◌else◌, ◌≡◌, arith,
}
use rustdv.RustdvPath.{Str}
use rustdv.Runner.{
  TestRegistration, Outcome, pass, fail_with, skipped, fail, Ended, finished, raw_outcome,
  with_background, kind_is, expecting_error, expecting_fail, expectation,
}

abbrev pub is_pass : Outcome → Bool
is_pass pass = true
is_pass (fail_with msg kind) = false
is_pass skipped = false

abbrev pub is_none {ℓ} : {A : Type ℓ} → Option A → Bool
is_none none = true
is_none (some a) = false

abbrev pub ended_well : Ended → Bool
ended_well (err e) = false
ended_well (ok (err e)) = false
ended_well (ok (ok u)) = true

-- The body returned an error of that cause.
abbrev pub ended_with : Str → Ended → Bool
ended_with k (err e) = false
ended_with k (ok (err e)) = kind_is e.kind k
ended_with k (ok (ok u)) = false

abbrev pub in_time : Option (ℕ × Str) → Bool → Bool
in_time none timed_out = true
in_time (some d) timed_out = not timed_out

-- Did the body end well and in time, and did no task beside it panic?
abbrev pub clean : TestRegistration → Option Str → Bool → Ended → Bool
clean reg bg timed_out r = in_time reg.timeout timed_out && ended_well r && is_none bg

abbrev pub verdict : TestRegistration → Option Str → Bool → Ended → Outcome
verdict reg bg timed_out r =
    expectation reg (with_background bg (raw_outcome reg.timeout timed_out r))

-- A test that expects an error passes exactly if its body returned, in time, an error of that cause,
-- whatever its other tasks did; a test that expects only to fail passes exactly if its body did not
-- end well and in time or a task beside it panicked; and every other test passes exactly if its body
-- did and none panicked.
pub verdict_passes :
    (reg : TestRegistration) (bg : Option Str) (timed_out : Bool) (r : Ended)
    → is_pass (verdict reg bg timed_out r) ≡ elim reg.expect_error [
      | some e ↦ in_time reg.timeout timed_out && ended_with e r
      | none ↦ if reg.expect_fail then not (clean reg bg timed_out r) else clean reg bg timed_out r
    ]
unfolding expectation expecting_error expecting_fail raw_outcome finished with_background fail
verdict_passes reg bg timed_out r = ground arith
