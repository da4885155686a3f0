-- ===== src/Triggers/Matches.antt =====
-- rustdv/rustdv-sim/src/triggers.rs: an edge wakes its task at the first change that matches.
use rustdv.Base.{
  ℕ, ◌≡◌, refl, sym, Bool, true, false, List, [], ◌∷◌, ◌++◌, Option, none, some, if◌then◌else◌,
  Poll, ready, pending, arith, append-nil,
}
use rustdv.Wake.{TaskId, World}
use rustdv.Triggers.{Trigger, EdgeKind, poll, is_hit, value_change}

-- What happens to an edge: polls, and changes of its signal
pub data Event : Type 0 where
  polls : TaskId → Event
  changes : ℕ → Option ℕ → Event

unfoldable pub step : EdgeKind → World Trigger → Event → World Trigger
unfolding poll value_change
step kind w (polls id) = (poll w id).0
step kind w (changes size value) = value_change kind w size value

unfoldable pub run : EdgeKind → World Trigger → List Event → World Trigger
unfolding step
run kind w [] = w
run kind w (e ∷ es) = run kind (step kind w e) es

-- The task that polled last before the first match since the first poll, if there is such a match; `last`
-- has polled last so far.
abbrev pub first_match : EdgeKind → Option TaskId → List Event → Option TaskId
first_match kind last [] = none
first_match kind last (polls id ∷ es) = first_match kind (some id) es
first_match kind none (changes size value ∷ es) = first_match kind none es
first_match kind (some id) (changes size value ∷ es) =
    let rest = first_match kind (some id) es in if is_hit kind size value then some id else rest

abbrev pub one_or_none : Option TaskId → List TaskId
one_or_none none = []
one_or_none (some id) = id ∷ []

abbrev pub is_some : {A : Type 0} → Option A → Bool
is_some none = false
is_some (some _) = true

abbrev pub is_ready : {A : Type 0} → Poll A → Bool
is_ready (ready _) = true
is_ready pending = false

abbrev waiting : Option TaskId → Trigger
waiting none = none
waiting (some id) = some (record { fired = false; waker = some id })

abbrev over : Trigger
over = some (record { fired = true; waker = none })

run-over :
    (kind : EdgeKind) (woken : List TaskId) (es : List Event)
    → run kind (record { inner = over; woken = woken }) es ≡ record { inner = over; woken = woken }
unfolding run poll value_change
run-over kind woken [] = refl
run-over kind woken (polls id ∷ es) = run-over kind woken es
run-over kind woken (changes size value ∷ es) = run-over kind woken es

run-waiting :
    (kind : EdgeKind) (woken : List TaskId) (last : Option TaskId) (es : List Event) (id : TaskId)
    → let w = run kind (record { inner = waiting last; woken = woken }) es in
      (w.woken ≡ woken ++ one_or_none (first_match kind last es))
      × (is_ready (poll w id).1 ≡ is_some (first_match kind last es))
unfolding run poll value_change
run-waiting kind woken none [] id = (sym (append-nil woken), refl)
run-waiting kind woken (some last) [] id = (sym (append-nil woken), refl)
run-waiting kind woken none (polls task ∷ es) id = run-waiting kind woken (some task) es id
run-waiting kind woken (some last) (polls task ∷ es) id = run-waiting kind woken (some task) es id
run-waiting kind woken none (changes size value ∷ es) id = run-waiting kind woken none es id
run-waiting kind woken (some last) (changes size value ∷ es) id =
    ground (arith, run-waiting kind woken (some last) es id, run-over kind (woken ++ last ∷ []) es)

-- From its creation on, whatever the polls and the changes of its signal: an edge is ready exactly when
-- the signal has had a matching change since the first poll. The first such change wakes the task that
-- polled last before it; no other change, and no later one, wakes anybody.
pub run_edge :
    (kind : EdgeKind) (woken : List TaskId) (es : List Event) (id : TaskId)
    → let w = run kind (record { inner = none; woken = woken }) es in
      (w.woken ≡ woken ++ one_or_none (first_match kind none es))
      × (is_ready (poll w id).1 ≡ is_some (first_match kind none es))
run_edge kind woken es id = run-waiting kind woken none es id
