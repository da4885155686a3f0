-- ===== src/Runner/Report.antt =====
-- What a regression of rustdv/rustdv-runner/src/rustdv_runner.rs reports: each test on its own.
use rustdv.Base.{
  ℕ, ◌+◌, ◌%◌, ◌^◌, Bool, true, false, not, List, [], ◌∷◌, ◌++◌, ◌||◌, ◌&&◌, map, Option, none,
  some, Result, ok, err, ◌==◌, ◌≡◌, refl, arith, if◌then◌else◌,
}
use rustdv.RustdvPath.{Str}
use rustdv.Runner.{TestRegistration, Outcome, fail_with, no_dut}
use rustdv.Runner.Verdict.{verdict}
use rustdv.SimDuration.{SimDuration}
use rustdv.Runner.Whole.{
  Session, count_of, TestResult, State, prepared, timer_of, run_one, failed, xunit_counts,
}

abbrev pub first_of_all : List Str → Option Str
first_of_all [] = none
first_of_all (m ∷ ms) = some m

abbrev pub is_ok : {A B : Type 0} → Result A B → Bool
is_ok (ok a) = true
is_ok (err b) = false

abbrev is_some : {A : Type 0} → Option A → Bool
is_some none = false
is_some (some a) = true

module _ (S : Session) where
  open S use {World, Dut, top_module, run_body}

  -- The outcome of a test that starts with no failure noted, from the world where the last one ended:
  -- of the panics, those while it gets out of the ReadOnly phase and while it runs count.
  abbrev pub own_outcome : TestRegistration → ℕ → World → Option Outcome
  own_outcome reg seed w =
      let (left, w') = prepared S w in
      elim (top_module w') [
        | err e ↦ some (fail_with (no_dut e) none)
        | ok dut ↦ elim (timer_of S reg) [
          | none ↦ none
          | some d ↦
              let b = (run_body reg seed dut d w').0 in
              some (verdict reg (first_of_all (left ++ b.panics)) b.timed_out b.ended)
        ]
      ]

  abbrev pub outcomes : List (TestResult S) → List Outcome
  outcomes rs = map (λ (r : TestResult S). r.outcome) rs

  -- The timeout of each test that is run is a duration that the simulator can count.
  abbrev pub all_timed : List TestRegistration → Bool
  all_timed [] = true
  all_timed (reg ∷ regs) = (reg.skip || is_some (timer_of S reg)) && all_timed regs

  -- Where the tests of `pre` leave the simulation
  unfoldable pub after_tests : ℕ → ℕ → List TestRegistration → State S → World
  unfolding run_one
  after_tests seed i [] s = s.world
  after_tests seed i (reg ∷ pre) s =
      if reg.skip
      then after_tests seed (i + 1) pre s
      else elim (run_one S reg ((seed + i) % 2 ^ 64) s) [
        | none ↦ s.world
        | some o ↦ after_tests seed (i + 1) pre o.1
      ]

  -- The regression's last line counts what the report counts.
  pub failed-counts : (rs : List (TestResult S)) → failed S rs ≡ not ((xunit_counts S rs).1 == 0)
  unfolding failed xunit_counts count_of
  failed-counts [] = refl
  failed-counts (r ∷ rs) = let rest = failed-counts rs in ground arith
