-- ===== src/Runner/Tests.antt =====
-- Runs of the regression manager at concrete inputs.
use rustdv.Base.{
  ℕ, suc, ◌≡◌, refl, true, false, ◌==◌, none, some, List, [], ◌∷◌, if◌then◌else◌, ok, err, In, ◌↔◌,
  inl,
}
use rustdv.RustdvPath.{Str}
use rustdv.Runner.{TestRegistration}
use rustdv.Runner.Verdict.{verdict, verdict_passes, is_pass}
use rustdv.Runner.Filter.{apply_testcase_filter, is_empty, split_commas, trim, trim_start, is_space}
use rustdv.Runner.Selects.{apply_testcase_filter-selects, let_through, is_error, Selected}
use rustdv.Runner.Whole.{Session, State}

abbrev file_a : Str
file_a = b'a' ∷ []

abbrev plain_test : Str → ℕ → TestRegistration
plain_test name line = record {
  name = name;
  file = file_a;
  line = line;
  timeout = some (5, b'u' ∷ b's' ∷ []);
  skip = false;
  expect_fail = false;
  expect_error = none;
}

abbrev first_test : TestRegistration
first_test = plain_test (b'A' ∷ b'b' ∷ []) 9

abbrev second_test : TestRegistration
second_test = record (plain_test (b'c' ∷ []) 3) { skip = true }

abbrev third_test : TestRegistration
third_test = record (plain_test (b'b' ∷ []) 4) { expect_error = some (b'k' ∷ []) }

abbrev all_tests : List TestRegistration
all_tests = first_test ∷ second_test ∷ third_test ∷ []

verdict_passes_example :
    is_pass
      (verdict third_test none false (ok (err (record { text = []; kind = some (b'k' ∷ []) }))))
    ≡ true
verdict_passes_example =
    verdict_passes third_test none false (ok (err (record { text = []; kind = some (b'k' ∷ []) })))

abbrev filter_text : Str
filter_text = b' ' ∷ b'B' ∷ b',' ∷ []

apply_testcase_filter-selects_example :
    (In first_test (let_through (apply_testcase_filter (some filter_text) all_tests))
      ↔ (In first_test all_tests × Selected filter_text first_test))
    × (is_error (apply_testcase_filter (some filter_text) all_tests)
        ≡ is_empty (let_through (apply_testcase_filter (some filter_text) all_tests)))
unfolding split_commas trim trim_start is_space
apply_testcase_filter-selects_example =
    apply_testcase_filter-selects filter_text (b' ' ∷ b'B' ∷ []) all_tests first_test (inl refl)
      refl

-- The world counts the bodies run; a body ends well, and a task panics beside the first.
abbrev session : Session
session = record {
  World = ℕ;
  Dut = Unit {0};
  Ns = ℕ;
  leave_read_only = λ w. (if w == 2 then (b'q' ∷ []) ∷ [] else [], w);
  clear_config = λ w. w;
  reset_log = λ w. w;
  top_module = λ w. ok tt;
  precision = 3;
  run_body = λ reg seed dut d w. (
    record {
      timed_out = false;
      ended = ok (ok tt);
      panics = if w == 0 then (b'p' ∷ []) ∷ [] else [];
    },
    suc w,
  );
  cancel_after = λ w w'. w';
  sim_time_ns = λ w. w;
  elapsed = λ a b. b;
  zero_ns = 0;
}

abbrev fresh : State session
fresh = record { world = 0; failure = none }
