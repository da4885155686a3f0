-- ===== src/Runner.antt =====
-- The regression manager: rustdv/rustdv-runner/src/rustdv_runner.rs. A message is kept as the parts that its
-- `format!` puts together. What runs a test, the executor under the simulator, is a parameter.
mod Filter
mod Order
mod Report
mod Selects
mod Tests
mod Verdict
mod Whole
use rustdv.Base.{
  ℕ, ◌+◌, ◌%◌, ◌^◌, Bool, true, false, not, ◌&&◌, ◌||◌, List, [], ◌∷◌, ◌++◌, Option, none, some,
  Result, ok, err, if◌then◌else◌, ◌==◌, leb, ltb, length,
}
use rustdv.RustdvPath.{Str, str_eq}

pub record TestRegistration : Type 0 where
  pub name : Str
  pub file : Str
  pub line : ℕ
  -- the time and its unit
  pub timeout : Option (ℕ × Str)
  pub skip : Bool
  pub expect_fail : Bool
  pub expect_error : Option Str

-- A message, by its parts
pub data Message : Type 0 where
  plain : Str → Message
  no_dut : Str → Message
  timeout_after : ℕ → Str → Message
  test_task : Str → Message
  expected_error_but_passed : Str → Message
  -- the error expected, the cause there was, and the message
  expected_error_got : Str → Option Str → Message → Message
  expected_failure_but_passed : Message

pub data Outcome : Type 0 where
  pass : Outcome
  fail_with : Message → Option Str → Outcome
  skipped : Outcome

pub fail : Message → Outcome
fail msg = fail_with msg none

pub record TestError : Type 0 where
  pub text : Str
  pub kind : Option Str

-- What `handle.await` gives: the end of the body, or the failure of its task
abbrev pub Ended : Type 0
Ended = Result (Result (Unit {0}) TestError) Str

unfoldable pub finished : Ended → Outcome
unfolding fail
finished (err e) = fail (test_task e)
finished (ok (err e)) = fail_with (plain e.text) e.kind
finished (ok (ok u)) = pass

-- The outcome of the body, where `timed_out` says whether the timer came first
unfoldable pub raw_outcome : Option (ℕ × Str) → Bool → Ended → Outcome
unfolding finished fail
raw_outcome none timed_out r = finished r
raw_outcome (some (n, unit)) timed_out r =
    if timed_out then fail (timeout_after n unit) else finished r

-- A panic in a child task fails the test even if the body passed.
unfoldable pub with_background : Option Str → Outcome → Outcome
unfolding fail
with_background (some bg) pass = fail (plain bg)
with_background (some bg) (fail_with msg kind) = fail_with msg kind
with_background (some bg) skipped = skipped
with_background none o = o

abbrev pub kind_is : Option Str → Str → Bool
kind_is none e = false
kind_is (some k) e = str_eq k e

unfoldable pub expecting_error : Str → Outcome → Outcome
unfolding fail
expecting_error e pass = fail (expected_error_but_passed e)
expecting_error e (fail_with msg kind) =
    if kind_is kind e then pass else fail (expected_error_got e kind msg)
expecting_error e skipped = skipped

unfoldable pub expecting_fail : Outcome → Outcome
unfolding fail
expecting_fail pass = fail expected_failure_but_passed
expecting_fail (fail_with msg kind) = pass
expecting_fail skipped = skipped

unfoldable pub expectation : TestRegistration → Outcome → Outcome
unfolding expecting_error expecting_fail
expectation reg o = elim reg.expect_error [
  | some e ↦ expecting_error e o
  | none ↦ if reg.expect_fail then expecting_fail o else o
]

-- `(file, line)` of the first is not after that of the second.
unfoldable pub bytes_leb : Str → Str → Bool
bytes_leb [] t = true
bytes_leb (a ∷ s) [] = false
bytes_leb (a ∷ s) (b ∷ t) = if ltb a b then true else if a == b then bytes_leb s t else false

unfoldable pub key_leb : TestRegistration → TestRegistration → Bool
unfolding bytes_leb
key_leb r s = if str_eq r.file s.file then leb r.line s.line else bytes_leb r.file s.file

-- `sort_by_key`, which is stable
unfoldable pub insert_test : TestRegistration → List TestRegistration → List TestRegistration
unfolding key_leb
insert_test r [] = r ∷ []
insert_test r (s ∷ ss) = if key_leb r s then r ∷ s ∷ ss else s ∷ insert_test r ss

unfoldable pub collect_tests : List TestRegistration → List TestRegistration
unfolding insert_test
collect_tests [] = []
collect_tests (r ∷ rs) = insert_test r (collect_tests rs)
