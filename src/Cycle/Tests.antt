-- ===== src/Cycle/Tests.antt =====
-- Runs of the contexts of rustdv/rustdv-cycle/src/rustdv_cycle.rs.
use rustdv.Base.{ℕ, ◌+◌, ◌≡◌, refl, true, leb, [], ◌∷◌, none, some, if◌then◌else◌}
use rustdv.Cycle.{
  CycleModel, continue, pass, to_raw, from_raw, returned, failed, panicked, create_context,
  step_context,
}
use rustdv.Cycle.Errors.{steps, finishes, goes_well, create_context-goes_well}

-- A model that adds up, passes at 4, fails at 10 with a NUL in its message, and panics at 20
abbrev adder : CycleModel ℕ ℕ ℕ
adder = record {
  new = λ o. (1, returned 1);
  step = λ m i o. (
    m + i,
    m + i,
    if leb 20 (m + i)
        then panicked (b'!' ∷ [])
        else if leb 10 (m + i)
        then failed (b'a' ∷ 0 ∷ [])
        else if leb 4 (m + i)
        then returned pass
        else returned continue,
  );
  finish = λ m. (m, returned tt);
}

steps_pass :
    step_context adder (create_context adder (some 0)).1 (some 3) (some 1)
    ≡ some (some (record { model = 4; error = [] }), some 4, 1)
unfolding step_context create_context to_raw
steps_pass = refl

-- The NUL of the message is spelled out.
steps_fail :
    step_context adder (some (record { model = 4; error = [] })) (some 6) (some 4)
    ≡ some (some (record { model = 10; error = b'a' ∷ b'\\' ∷ b'0' ∷ [] }), some 10, 2)
unfolding step_context to_raw
steps_fail = refl

no_status : from_raw 3 ≡ none
unfolding from_raw
no_status = refl

create_context-goes_well_example :
    let (o, context) = create_context adder (some 0) in
    goes_well adder context o
      (steps (some 3) ∷ steps none ∷ steps (some 9) ∷ steps (some 9) ∷ finishes ∷ [])
    ≡ true
create_context-goes_well_example =
    create_context-goes_well adder (some 0)
      (steps (some 3) ∷ steps none ∷ steps (some 9) ∷ steps (some 9) ∷ finishes ∷ [])
