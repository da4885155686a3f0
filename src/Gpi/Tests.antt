-- ===== src/Gpi/Tests.antt =====
-- Runs of the callbacks and of the signals at concrete inputs.
use rustdv.Base.{
  ℕ, zero, suc, ◌+◌, ◌*◌, ◌%◌, ◌^◌, ◌≡◌, ◌≢◌, ◌≤◌, refl, arith, true, none, some, List, [], ◌∷◌,
  ◌++◌, if◌then◌else◌, ok,
}
use rustdv.Gpi.Callbacks.{
  Gpi, Out, fine, panics, fault, register, drop_ref, remove_cb, add_ref, trampoline, trampoline_end,
  run_or_drop, drop_handle, drop_body,
}
use rustdv.Gpi.Steps.{
  register_once, drop, fire, return, step, Reach, at_start, after, start, Counted,
}
use rustdv.Gpi.Fires.{Reach-Counted, step_safe}
use rustdv.LogicArray.Bits.{big}
use rustdv.LogicArray.Codec.{
  LogicArray, word_count, first_of, second_of, width_error, four_state, to_binstr,
}
use rustdv.Base.{err, map, length, ltb, ◌==◌}
use rustdv.Gpi.Signals.{
  Vecval, Signal, slice, set_vector_words, get_u64, get_wide, get_logic, mask_vector_words,
  take_words,
}
use rustdv.Gpi.Words.{num}
use rustdv.Gpi.Writes.{set_vector_words_cut}
use rustdv.Gpi.Reads.{get_wide_reads, plane_of}
use rustdv.Gpi.RoundTrip.{get_u64-set_u64}
use rustdv.Gpi.Once.{stay, more, drops, runs_at, Steps-runs_at, fire-runs}

abbrev reached : Out (Gpi ℕ) → Gpi ℕ
reached (fine g) = g
reached panics = start
reached fault = start

abbrev registered : Gpi ℕ
unfolding step
registered = reached (step (register_once 5 0 (some 7)) start)

registered-Reach : Reach registered
unfolding registered step register
registered-Reach = after (register_once 5 0 (some 7)) at_start (refl, refl) refl

-- A registered one-shot counts its handle and the simulator's reference.
Reach-Counted_example : Counted registered
unfolding registered
Reach-Counted_example = Reach-Counted registered registered-Reach

step_safe_example : step (fire 7) registered ≢ fault
unfolding registered
step_safe_example = step_safe (fire 7) registered registered-Reach (0, refl)

abbrev called : Gpi ℕ
unfolding registered
called = reached (step (fire 7) registered)

abbrev ended : Gpi ℕ
unfolding called
ended = reached (step (return 0 (some (b'x' ∷ []))) called)

abbrev dropped : Gpi ℕ
unfolding ended
dropped = reached (step (drop 0) ended)

abbrev later : Gpi ℕ
unfolding dropped
later = reached (step (register_once 6 1 (some 8)) dropped)

-- The call of a one-shot and its end, the drop of its handle, and another registration: one run
Steps-runs_at_example :
    (runs_at 0 later.ran
      ≤ runs_at 0 registered.ran + (if (registered.cells 0).released then 0 else 1))
    × (runs_at 0 later.ran ≤ runs_at 0 ended.ran + (if true then 0 else 1))
unfolding later dropped ended called registered step register trampoline add_ref remove_cb drop_ref
    run_or_drop trampoline_end drop_handle drop_body
Steps-runs_at_example =
    Steps-runs_at 0 registered ended dropped later true registered-Reach refl
      (more (return 0 (some (b'x' ∷ []))) (more (fire 7) stay (0, refl) tt refl) (omega arith) tt
        refl)
      (drops refl refl) (more (register_once 6 1 (some 8)) stay (refl, refl) refl refl)

fire-runs_example :
    (g' : Gpi ℕ) × (step (fire 7) registered ≡ fine g')
    × (g'.ran ≡ registered.ran ++ (0, 5) ∷ [])
    × (g'.sim 7 ≡ none)
    × ((g'.cells 0).released ≡ true)
    × ((g'.cells 0).once ≡ none)
unfolding registered step register
fire-runs_example = fire-runs registered 0 7 5 registered-Reach refl refl refl

-- A pointer to two words, and zeros after them
abbrev two_at : ℕ → ℕ → ℕ → Vecval
two_at a b zero = (a, 0)
two_at a b (suc zero) = (b, 0)
two_at a b (suc (suc i)) = (0, 0)

abbrev forty : Signal
forty = record { width = 40; vector = some (two_at 7 200) }

abbrev three_words : List Vecval
three_words = (5, 0) ∷ (300, 1) ∷ (9, 9) ∷ []

set_vector_words_cut_example :
    (out : List Vecval) × (set_vector_words 40 three_words ≡ some out)
    × (length out ≡ word_count 40)
    × (num (map first_of out) ≡ num (map first_of three_words) % 2 ^ 40)
    × (num (map second_of out) ≡ num (map second_of three_words) % 2 ^ 40)
set_vector_words_cut_example =
    set_vector_words_cut 40 three_words (omega arith, (omega arith, (omega arith, tt)))
      (omega arith, (omega arith, (omega arith, tt)))

get_wide_reads_example :
    (v : LogicArray big) × (get_logic big forty ≡ some (ok v))
    × (get_wide big forty 64
        ≡ some (
            if ltb 64 40
            then err (width_error 64 40)
            else if plane_of second_of (two_at 7 200) 40 % 2 ^ 40 == 0
            then ok (plane_of first_of (two_at 7 200) 40 % 2 ^ 40)
            else err (four_state (to_binstr big v))))
unfolding word_count slice
get_wide_reads_example =
    get_wide_reads big forty 64 (two_at 7 200) refl (omega arith, (omega arith, tt))
      (omega arith, (omega arith, tt))

-- 859 * 2^32 + 7, written to 40 bits
get_u64-set_u64_example :
    get_u64 big (record { width = 40; vector = some (two_at 7 91) })
    ≡ some (ok ((859 * 2 ^ 32 + 7) % 2 ^ 40))
unfolding word_count slice set_vector_words mask_vector_words take_words
get_u64-set_u64_example =
    get_u64-set_u64 big (record { width = 40; vector = some (two_at 7 91) }) (two_at 7 91)
      (859 * 2 ^ 32 + 7) (omega arith) (omega arith) refl (omega arith, (omega arith, tt))
      (omega arith, (omega arith, tt)) refl
