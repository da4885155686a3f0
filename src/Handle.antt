-- ===== src/Handle.antt =====
-- The handles that tasks use: the reads and the writes of rustdv/rustdv-sim/src/handle/logic.rs, over the signals of Gpi and
-- the buffered writes of Phase. A signal's handle is a number.
mod Settles
mod ReadOnly
mod Tests
use rustdv.Base.{
  ℕ, Bool, true, false, List, [], ◌∷◌, map, Option, none, some, Result, ok, err, if◌then◌else◌,
}
use rustdv.Wake.{World}
use rustdv.LogicArray.Big.{BigUint}
use rustdv.LogicArray.Codec.{LogicArray, to_vpi_words, to_binstr}
use rustdv.Gpi.Signals.{
  Vecval, Read, Signal, ◌>>=◌, pure, get_bool, get_logic, set_vector_words, one_word, two_words,
  four_words,
}
use rustdv.Phase
use rustdv.Phase.{Hub, SimPhase, normal, read_write, read_only, schedule, apply_write}

module _ (N : BigUint) where
  open N use {Big, u32_digits}

  -- The values that are written to a signal
  pub data WriteVal : Type 0 where
    bool_val : Bool → WriteVal
    u8_val u16_val u32_val u64_val u128_val : ℕ → WriteVal
    big_val : Big → WriteVal
    logic_val : LogicArray N → WriteVal

  -- The words that the setter for the value makes of it
  unfoldable pub words_of : WriteVal → List Vecval
  unfolding to_vpi_words
  words_of (bool_val b) = one_word (if b then 1 else 0)
  words_of (u8_val v) = one_word v
  words_of (u16_val v) = one_word v
  words_of (u32_val v) = one_word v
  words_of (u64_val v) = two_words v
  words_of (u128_val v) = four_words v
  words_of (big_val v) = map (λ d. (d, 0)) (u32_digits v)
  words_of (logic_val v) = to_vpi_words N v

  -- What the simulator gets for a value that is applied to a signal of that width; `none` is a panic.
  unfoldable pub apply_words : ℕ → WriteVal → Option (List Vecval)
  unfolding words_of set_vector_words
  apply_words width v = set_vector_words width (words_of v)

  -- `set_bool` to `set_logic`
  unfoldable pub set : Hub WriteVal → ℕ → WriteVal → Option (Hub WriteVal)
  unfolding schedule
  set h target v = schedule h target v

  -- `deny_write_in_read_only`: `none` is its panic.
  unfoldable pub deny_write_in_read_only : Hub WriteVal → Option (Hub WriteVal)
  deny_write_in_read_only h = elim h.phase [ read_only ↦ none | _ ↦ some h ]

  -- `set_bool_now` to `set_logic_now`
  unfoldable pub set_now : Hub WriteVal → ℕ → WriteVal → Option (Hub WriteVal)
  unfolding deny_write_in_read_only apply_write
  set_now h target v = elim (deny_write_in_read_only h) [
    | none ↦ none
    | some k ↦ some (apply_write k target v)
  ]

  unfoldable pub get_binstr : Signal → Read (List ℕ)
  unfolding get_logic to_binstr
  get_binstr s = get_logic N s >>= λ v. pure (to_binstr N v)

  abbrev pub is_ok_of : Bool → Read Bool → Bool
  is_ok_of b none = false
  is_ok_of b (some (err e)) = false
  is_ok_of true (some (ok v)) = v
  is_ok_of false (some (ok v)) = if v then false else true

  unfoldable pub is_high : Signal → Bool
  unfolding get_bool
  is_high s = is_ok_of true (get_bool N s)

  unfoldable pub is_low : Signal → Bool
  unfolding get_bool
  is_low s = is_ok_of false (get_bool N s)

  -- What happens to the hub: a call of Phase, or an immediate write
  pub data Call : Type 0 where
    does : Phase.Call WriteVal → Call
    sets_now : ℕ → WriteVal → Call

  unfoldable pub call : World (Hub WriteVal) → Call → Option (World (Hub WriteVal))
  unfolding set_now
  call w (does c) = Phase.call w c
  call w (sets_now target v) = elim (set_now w.inner target v) [
    | none ↦ none
    | some h ↦ some (record w { inner = h })
  ]

  unfoldable pub run : World (Hub WriteVal) → List Call → Option (World (Hub WriteVal))
  unfolding call
  run w [] = some w
  run w (c ∷ cs) = elim (call w c) [ none ↦ none | some w' ↦ run w' cs ]
