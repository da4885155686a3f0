-- ===== src/Handle/Tests.antt =====
-- Runs of the handles at concrete inputs.
use rustdv.Base.{
  ℕ, zero, suc, ◌+◌, ◌*◌, ◌%◌, ◌^◌, ◌≡◌, refl, arith, true, List, [], ◌∷◌, ◌++◌, Option, none, some,
  ok,
}
use rustdv.Wake.{World}
use rustdv.LogicArray.Bits.{big}
use rustdv.LogicArray.Codec.{word_count}
use rustdv.Gpi.Signals.{
  Vecval, Signal, slice, get_u64, set_vector_words, mask_vector_words, take_words,
}
use rustdv.Phase
use rustdv.Phase.{
  Hub, normal, read_only, for_read_write, for_read_only, enter, init_hub, begins, for_next_time,
  polls, drops, poll_phase, drop_trig,
}
use rustdv.Phase.Writes.{scheduled}
use rustdv.Handle.{WriteVal, u64_val, bool_val, apply_words, words_of, Call, does, run, call}
use rustdv.Handle.Settles.{set-get_u64, value_in, writes_to}
use rustdv.Handle.ReadOnly.{run_read_only, none_write}

abbrev two_at : ℕ → ℕ → ℕ → Vecval
two_at a b zero = (a, 0)
two_at a b (suc zero) = (b, 0)
two_at a b (suc (suc i)) = (0, 0)

abbrev held : Signal
held = record { width = 40; vector = some (two_at 7 91) }

abbrev idle_world : World (Hub (WriteVal big))
unfolding init_hub
idle_world = record { inner = init_hub; woken = [] }

abbrev earlier : List (ℕ × WriteVal big)
earlier = (3, u64_val 1) ∷ (4, bool_val true) ∷ []

-- 859 * 2^32 + 7, written to 40 bits
set-get_u64_example :
    let v = 859 * 2 ^ 32 + 7 in
    (w' : World (Hub (WriteVal big))) × (written : List (ℕ × WriteVal big)) × (Phase.run idle_world
        (scheduled (earlier ++ (3, u64_val v) ∷ []))
      ≡ some w')
    × ((enter w' for_read_write).inner.applied ≡ idle_world.inner.applied ++ written)
    × (value_in 3 written ≡ some (u64_val v))
    × (writes_to 3 written ≡ 1)
    × (get_u64 big held ≡ some (ok (v % 2 ^ 40)))
unfolding idle_world init_hub apply_words words_of word_count slice set_vector_words
    mask_vector_words take_words
set-get_u64_example =
    set-get_u64 big idle_world earlier 3 (859 * 2 ^ 32 + 7) held (two_at 7 91) refl refl
      (omega arith) (omega arith) refl (omega arith, (omega arith, tt))
      (omega arith, (omega arith, tt)) refl

abbrev in_read_only : World (Hub (WriteVal big))
unfolding idle_world
in_read_only = record idle_world { inner = record idle_world.inner { phase = read_only } }

-- A task awaits the next time step, is polled again and drops its future.
abbrev task_calls : List (Call big)
task_calls = does (begins for_next_time 5) ∷ does (polls for_next_time 0 5) ∷ does (drops 0) ∷ []

abbrev reached : Option (World (Hub (WriteVal big))) → World (Hub (WriteVal big))
reached none = in_read_only
reached (some w) = w

abbrev after_calls : World (Hub (WriteVal big))
unfolding in_read_only run call Phase.call poll_phase drop_trig
after_calls = reached (run big in_read_only task_calls)

run_read_only_example :
    (none_write big task_calls ≡ true)
    × (after_calls.inner.applied ≡ in_read_only.inner.applied)
    × (after_calls.inner.phase ≡ read_only)
    × (after_calls.inner.writes ≡ in_read_only.inner.writes)
unfolding idle_world init_hub after_calls in_read_only run call Phase.call poll_phase drop_trig
run_read_only_example = run_read_only big in_read_only after_calls task_calls refl refl refl
