-- ===== src/Runner/Whole.antt =====
-- A whole regression: `run_one`, `regression` and the counts of `write_xunit` in rustdv/rustdv-runner/src/rustdv_runner.rs.
use rustdv.Base.{
  ℕ, ◌+◌, ◌%◌, ◌^◌, Bool, true, false, ◌||◌, List, [], ◌∷◌, Option, none, some, Result, ok, err,
  if◌then◌else◌, length,
}
use rustdv.RustdvPath.{Str}
use rustdv.Runner.{TestRegistration, Outcome, pass, fail_with, skipped, fail, no_dut, Ended}
use rustdv.Runner.Verdict.{verdict}
use rustdv.SimDuration.{SimDuration, from_unit}

-- How a test's body ended, whether its timer came first, and the panics of tasks and callbacks while it ran
pub record Body : Type 0 where
  pub timed_out : Bool
  pub ended : Ended
  pub panics : List Str

-- What the runner uses of the executor, the methodology's state and the simulator
pub record Session : Type 1 where
  pub World : Type 0
  pub Dut : Type 0
  pub Ns : Type 0
  -- with the panics of what it lets run meanwhile
  pub leave_read_only : World → List Str × World
  -- `ConfigDb::clear` and `log::reset_config`
  pub clear_config : World → World
  pub reset_log : World → World
  pub top_module : World → Result Dut Str
  -- the simulator's time precision, as `SimDuration` counts it
  pub precision : ℕ
  -- the test's body, its wait for the objections included, as a task beside its timer
  pub run_body : TestRegistration → ℕ → Dut → Option SimDuration → World → Body × World
  -- `cancel_after` with the mark taken before the body was spawned
  pub cancel_after : World → World → World
  pub sim_time_ns : World → Ns
  pub elapsed : Ns → Ns → Ns
  pub zero_ns : Ns

-- The failure sinks keep the first message.
abbrev pub note : Option Str → Str → Option Str
note none msg = some msg
note (some m) msg = some m

unfoldable pub note_all : Option Str → List Str → Option Str
note_all slot [] = slot
note_all slot (m ∷ ms) = note_all (note slot m) ms

abbrev pub is_fail : Outcome → Bool
is_fail pass = false
is_fail (fail_with msg kind) = true
is_fail skipped = false

abbrev pub is_skipped : Outcome → Bool
is_skipped pass = false
is_skipped (fail_with msg kind) = false
is_skipped skipped = true

unfoldable pub count_of : {A : Type 0} → (A → Bool) → List A → ℕ
count_of p [] = 0
count_of p (x ∷ xs) = (if p x then 1 else 0) + count_of p xs

module _ (S : Session) where
  open S use {
    World, Dut, Ns, leave_read_only, clear_config, reset_log, top_module, run_body, cancel_after,
    sim_time_ns, elapsed, zero_ns, precision,
  }

  pub record TestResult : Type 0 where
    pub name : Str
    pub outcome : Outcome
    pub sim_ns : Ns

  -- The world and `CURRENT_FAILURE`
  pub record State : Type 0 where
    pub world : World
    pub failure : Option Str

  abbrev pub prepared : World → List Str × World
  prepared w = let (left, w') = leave_read_only w in (left, reset_log (clear_config w'))

  -- `SimDuration::from_unit`, if there is a timeout; `none` is its panic.
  unfoldable pub timer_of : TestRegistration → Option (Option SimDuration)
  unfolding from_unit
  timer_of reg = elim reg.timeout [
    | none ↦ some none
    | some (n, unit) ↦ elim (from_unit precision n unit) [ none ↦ none | some d ↦ some (some d) ]
  ]

  -- The end of `run_one`, once the body has run from the world `w`
  unfoldable pub conclude : TestRegistration → World → Option Str → Body × World → Outcome × State
  unfolding note_all
  conclude reg w slot (b, w') = (
    verdict reg (note_all slot b.panics) b.timed_out b.ended,
    record { world = cancel_after w w'; failure = none },
  )

  -- `none` is a panic of the regression's own task.
  unfoldable pub run_one : TestRegistration → ℕ → State → Option (Outcome × State)
  unfolding conclude fail timer_of
  run_one reg seed s =
      let (left, w) = prepared s.world in
      let noted = note_all s.failure left in
      elim (top_module w) [
        | err e ↦ some (fail (no_dut e), record { world = w; failure = noted })
        | ok dut ↦ elim (timer_of reg) [
          | none ↦ none
          | some d ↦ some (conclude reg w noted (run_body reg seed dut d w))
        ]
      ]

  abbrev pub result_of : TestRegistration → State → Outcome × State → TestResult
  result_of reg s (o, s') = record {
    name = reg.name;
    outcome = o;
    sim_ns = elapsed (sim_time_ns s'.world) (sim_time_ns s.world);
  }

  abbrev pub with_result :
      TestResult → Option (List TestResult × State) → Option (List TestResult × State)
  with_result r none = none
  with_result r (some (rs, s)) = some (r ∷ rs, s)

  -- The loop of `regression`, at the test with index `i`; a panic of its task ends it without a report.
  unfoldable pub run_tests :
      ℕ → ℕ → List TestRegistration → State → Option (List TestResult × State)
  unfolding run_one
  run_tests seed i [] s = some ([], s)
  run_tests seed i (reg ∷ regs) s =
      if reg.skip
      then with_result (record { name = reg.name; outcome = skipped; sim_ns = zero_ns })
          (run_tests seed (i + 1) regs s)
      else elim (run_one reg ((seed + i) % 2 ^ 64) s) [
        | none ↦ none
        | some o ↦ with_result (result_of reg s o) (run_tests seed (i + 1) regs o.1)
      ]

  -- Is the regression's last line `REGRESSION: FAIL`?
  unfoldable pub failed : List TestResult → Bool
  failed [] = false
  failed (r ∷ rs) = is_fail r.outcome || failed rs

  -- `tests`, `failures` and `skipped` in the attributes of `testsuite`
  unfoldable pub xunit_counts : List TestResult → ℕ × ℕ × ℕ
  unfolding count_of
  xunit_counts rs = (
    length rs,
    count_of (λ (r : TestResult). is_fail r.outcome) rs,
    count_of (λ (r : TestResult). is_skipped r.outcome) rs,
  )
