-- ===== src/Gpi/Signals.antt =====
-- The values of a signal: the reads and writes of `LogicHandle` in rustdv/rustdv-gpi/src/rustdv_gpi.rs, and
-- rustdv/rustdv-gpi/src/util.rs. What the simulator hands out is a pointer to words, each a pair of
-- `aval` and `bval`, or null; the words that `vpi_put_value` gets are a result of each write.
use Prim.Native.Nat.{bit_or}
use rustdv.Base.{
  ℕ, zero, suc, ◌-◌, ◌*◌, ◌/◌, ◌%◌, ◌^◌, Bool, true, false, not, List, [], ◌∷◌, ◌++◌, Option, none,
  some, ◌==◌, ltb, ◌&&◌, if◌then◌else◌, length, Result, ok, err,
}
use rustdv.LogicArray.Big.{BigUint}
use rustdv.LogicArray.Codec.{
  LogicArray, ValueError, four_state, unavailable, width_error, word_count, from_vpi_words,
  to_binstr,
}
use rustdv.LogicArray.Words.{cut_last}

-- A 32-bit `t_vpi_vecval`: `aval` and `bval`
abbrev pub Vecval : Type 0
Vecval = ℕ × ℕ

-- `none` is a panic.
abbrev pub Read : Type 0 → Type 0
Read A = Option (Result A ValueError)

infixl 5 ◌>>=◌
abbrev pub ◌>>=◌ : {A B : Type 0} → Read A → (A → Read B) → Read B
none >>= f = none
some (err e) >>= f = some (err e)
some (ok a) >>= f = f a

abbrev pub pure : {A : Type 0} → A → Read A
pure a = some (ok a)

-- `slice::from_raw_parts(p + i, n)`
unfoldable pub slice : (ℕ → Vecval) → ℕ → ℕ → List Vecval
slice p i zero = []
slice p i (suc n) = p i ∷ slice p (suc i) n

-- The signal's width, and what `vpi_get_value` leaves in `vector`
pub record Signal : Type 0 where
  pub width : ℕ
  pub vector : Option (ℕ → Vecval)

unfoldable pub get_vpi_words : Signal → Read (List Vecval)
unfolding word_count slice
get_vpi_words s = elim s.vector [
  | none ↦ some (err unavailable)
  | some p ↦ pure (slice p 0 (word_count s.width))
]

unfoldable pub check_size : Signal → ℕ → Read (Unit {0})
check_size s want = if ltb want s.width then some (err (width_error want s.width)) else pure tt

unfoldable pub used_bits : ℕ → Bool → ℕ
used_bits width last = if last && not (width % 32 == 0) then width % 32 else 32

-- `if let` of each `for (index, word) in words.iter().enumerate()`
abbrev pub is_last : List Vecval → Bool
is_last [] = true
is_last (w ∷ ws) = false

module _ (N : BigUint) where
  open N use {Big, from_slice}

  -- `none` is the failed assertion of `from_vpi_words`.
  unfoldable pub as_array : Signal → List Vecval → Read (LogicArray N)
  as_array s ws = elim (from_vpi_words N ws s.width) [ none ↦ none | some v ↦ pure v ]

  unfoldable pub get_logic : Signal → Read (LogicArray N)
  unfolding get_vpi_words as_array
  get_logic s = get_vpi_words s >>= as_array s

  -- The mask of `used_bits` ones
  unfoldable pub get_vpi_word : Signal → Vecval → Bool → Read ℕ
  unfolding used_bits get_logic
  get_vpi_word s (aval, bval) last =
      if bval % 2 ^ used_bits s.width last == 0
      then pure (aval % 2 ^ used_bits s.width last)
      else get_logic s >>= λ v. some (err (four_state (to_binstr N v)))

  -- `words[0]`, which panics where there is none
  unfoldable pub first_word : Signal → List Vecval → Read ℕ
  unfolding get_vpi_word
  first_word s [] = none
  first_word s (w ∷ ws) = get_vpi_word s w true

  unfoldable pub get_bool : Signal → Read Bool
  unfolding check_size get_vpi_words first_word
  get_bool s = check_size s 1 >>= λ _. get_vpi_words s >>= first_word s >>= λ n. pure (not (n == 0))

  unfoldable pub get_u8 : Signal → Read ℕ
  unfolding check_size get_vpi_words first_word
  get_u8 s = check_size s 8 >>= λ _. get_vpi_words s >>= first_word s >>= λ n. pure (n % 2 ^ 8)

  unfoldable pub get_u16 : Signal → Read ℕ
  unfolding check_size get_vpi_words first_word
  get_u16 s = check_size s 16 >>= λ _. get_vpi_words s >>= first_word s >>= λ n. pure (n % 2 ^ 16)

  unfoldable pub get_u32 : Signal → Read ℕ
  unfolding check_size get_vpi_words first_word
  get_u32 s = check_size s 32 >>= λ _. get_vpi_words s >>= first_word s

  -- The loop of `get_u64` and `get_u128`, from the word `index` on, with `result` so far; the shift
  -- drops what leaves the `want` bits of the result.
  unfoldable pub or_words : Signal → ℕ → ℕ → List Vecval → ℕ → Read ℕ
  unfolding get_vpi_word
  or_words s want index [] result = pure result
  or_words s want index (w ∷ ws) result = get_vpi_word s w (is_last ws) >>= λ n.
      or_words s want (suc index) ws (bit_or result (n * 2 ^ (index * 32) % 2 ^ want))

  -- `get_u64` and `get_u128`, which differ in the width `want` of the result
  unfoldable pub get_wide : Signal → ℕ → Read ℕ
  unfolding check_size get_vpi_words or_words
  get_wide s want = check_size s want >>= λ _. get_vpi_words s >>= λ ws. or_words s want 0 ws 0

  abbrev pub get_u64 : Signal → Read ℕ
  get_u64 s = get_wide s 64

  abbrev pub get_u128 : Signal → Read ℕ
  get_u128 s = get_wide s 128

  unfoldable pub get_digits : Signal → List Vecval → Read (List ℕ)
  unfolding get_vpi_word
  get_digits s [] = pure []
  get_digits s (w ∷ ws) =
      get_vpi_word s w (is_last ws) >>= λ n. get_digits s ws >>= λ ns. pure (n ∷ ns)

  unfoldable pub get_bigint : Signal → Read Big
  unfolding get_vpi_words get_digits
  get_bigint s = get_vpi_words s >>= get_digits s >>= λ ns. pure (from_slice ns)

-- `none` is the panic of `expect`.
unfoldable pub mask_vector_words : ℕ → List Vecval → Option (List Vecval)
mask_vector_words width [] = if width % 32 == 0 then some [] else none
mask_vector_words width (w ∷ ws) =
    some (if width % 32 == 0 then w ∷ ws else cut_last (width % 32) (w ∷ ws))

unfoldable pub take_words : ℕ → List Vecval → List Vecval
take_words zero ws = []
take_words (suc n) [] = []
take_words (suc n) (w ∷ ws) = w ∷ take_words n ws

unfoldable pub zero_words : ℕ → List Vecval
zero_words zero = []
zero_words (suc n) = (0, 0) ∷ zero_words n

-- The words that `vpi_put_value` gets
unfoldable pub set_vector_words : ℕ → List Vecval → Option (List Vecval)
unfolding word_count mask_vector_words take_words zero_words
set_vector_words width ws =
    if length ws == word_count width
    then mask_vector_words width ws
    else if ltb (word_count width) (length ws)
    then mask_vector_words width (take_words (word_count width) ws)
    else some (ws ++ zero_words (word_count width - length ws))

-- `ToVpiWords` for `bool`, `u8`, `u16` and `u32`
abbrev pub one_word : ℕ → List Vecval
one_word v = (v, 0) ∷ []

-- `ToVpiWords` for `u64`
abbrev pub two_words : ℕ → List Vecval
two_words v = (v % 2 ^ 32, 0) ∷ (v / 2 ^ 32 % 2 ^ 32, 0) ∷ []

-- `ToVpiWords` for `u128`
abbrev pub four_words : ℕ → List Vecval
four_words v =
    (v % 2 ^ 32, 0)
    ∷ (v / 2 ^ 32 % 2 ^ 32, 0)
    ∷ (v / 2 ^ 64 % 2 ^ 32, 0)
    ∷ (v / 2 ^ 96 % 2 ^ 32, 0)
    ∷ []
