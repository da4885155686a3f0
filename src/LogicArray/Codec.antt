-- ===== src/LogicArray/Codec.antt =====
-- `Logic` and `LogicArray` of rustdv/rustdv-gpi/src/value.rs.
use rustdv.Base.{
  ℕ, zero, suc, ◌+◌, ◌*◌, ◌/◌, ◌%◌, ◌^◌, min, Bool, true, false, not, List, [], ◌∷◌, map, Option,
  none, some, ◌==◌, leb, ◌||◌, if◌then◌else◌, length, Result, ok, err,
}
use mathlib.Core.List.{reverse}
use rustdv.LogicArray.Big.{BigUint, get_or}

-- `Zero` is spelled `low`, which keeps it apart from the number.
pub data Logic : Type 0 where
  low high x z : Logic

unfoldable pub from_char : ℕ → Logic
from_char c =
    if c == b'0' then low else if c == b'1' then high else if c == b'z' || c == b'Z' then z else x

unfoldable pub to_char : Logic → ℕ
to_char low = b'0'
to_char high = b'1'
to_char x = b'x'
to_char z = b'z'

-- `Logic::is_resolvable`
unfoldable pub is_known : Logic → Bool
is_known low = true
is_known high = true
is_known x = false
is_known z = false

--
pub data ValueError : Type 0 where
  four_state : List ℕ → ValueError
  unavailable : ValueError
  interior_nul : ValueError
  -- the width wanted, and the width there is
  width_error : ℕ → ℕ → ValueError

-- `width.div_ceil(32)`
unfoldable pub word_count : ℕ → ℕ
word_count width = (width + 31) / 32

-- `*words.last_mut() &= (1 << bits) - 1`
unfoldable pub mask_last : ℕ → List ℕ → List ℕ
mask_last bits [] = []
mask_last bits (w ∷ []) = w % 2 ^ bits ∷ []
mask_last bits (w ∷ v ∷ ws) = w ∷ mask_last bits (v ∷ ws)

unfoldable pub mask_words : ℕ → List ℕ → List ℕ
unfolding mask_last
mask_words width ws = if width % 32 == 0 then ws else mask_last (width % 32) ws

abbrev pub first_of : {A B : Type 0} → A × B → A
first_of (a, b) = a

abbrev pub second_of : {A B : Type 0} → A × B → B
second_of (a, b) = b

-- `(0..n).map(|_| (a.next().unwrap_or(0), b.next().unwrap_or(0)))`
unfoldable pub pad_words : ℕ → List ℕ → List ℕ → List (ℕ × ℕ)
pad_words zero xs ys = []
pad_words (suc n) [] [] = (0, 0) ∷ pad_words n [] []
pad_words (suc n) (a ∷ xs) [] = (a, 0) ∷ pad_words n xs []
pad_words (suc n) [] (b ∷ ys) = (0, b) ∷ pad_words n [] ys
pad_words (suc n) (a ∷ xs) (b ∷ ys) = (a, b) ∷ pad_words n xs ys

module _ (N : BigUint) where
  open N use {
    Big, zero_big, bit, set_bit, is_zero, bit_and, ones, u32_digits, u64_digits, from_slice,
  }

  pub record LogicArray : Type 0 where
    pub a_val : Big
    pub b_val : Big
    pub width : ℕ

  -- `from_vpi_words`; `none` is the failed assertion on the number of words.
  unfoldable pub from_vpi_words : List (ℕ × ℕ) → ℕ → Option LogicArray
  unfolding word_count mask_words
  from_vpi_words words width =
      if length words == word_count width
      then some (record {
        a_val = from_slice (mask_words width (map first_of words));
        b_val = from_slice (mask_words width (map second_of words));
        width = width;
      })
      else none

  -- The body of `from_binstr`'s loop, at the next bit
  unfoldable pub push_char : LogicArray → ℕ → LogicArray
  unfolding from_char
  push_char v c =
      let n = v.width in
      elim (from_char c) [
        | low ↦ record v { width = n + 1 }
        | high ↦ record v { a_val = set_bit v.a_val n; width = n + 1 }
        | x ↦ record v { a_val = set_bit v.a_val n; b_val = set_bit v.b_val n; width = n + 1 }
        | z ↦ record v { b_val = set_bit v.b_val n; width = n + 1 }
      ]

  unfoldable pub push_chars : LogicArray → List ℕ → LogicArray
  push_chars v [] = v
  push_chars v (c ∷ cs) = push_chars (push_char v c) cs

  abbrev pub empty_array : LogicArray
  empty_array = record { a_val = zero_big; b_val = zero_big; width = 0 }

  unfoldable pub from_binstr : List ℕ → LogicArray
  unfolding push_chars
  from_binstr s = push_chars empty_array (reverse s)

  -- The loop of `from_u128`, after the bits below `n`
  unfoldable pub low_bits : ℕ → ℕ → Big
  low_bits zero v = zero_big
  low_bits (suc n) v = if v / 2 ^ n % 2 == 1 then set_bit (low_bits n v) n else low_bits n v

  unfoldable pub from_u128 : ℕ → ℕ → LogicArray
  unfolding low_bits
  from_u128 v width = record { a_val = low_bits (min width 128) v; b_val = zero_big; width = width }

  unfoldable pub from_bool : Bool → ℕ → LogicArray
  unfolding from_u128
  from_bool v width = from_u128 (if v then 1 else 0) width

  -- `from_u8`, `from_u16`, `from_u32` and `from_u64` only widen their argument.
  unfoldable pub from_word : ℕ → ℕ → LogicArray
  unfolding from_u128
  from_word v width = from_u128 v width

  unfoldable pub from_bigint : Big → ℕ → LogicArray
  from_bigint v width = record { a_val = bit_and v (ones width); b_val = zero_big; width = width }

  unfoldable pub to_vpi_words : LogicArray → List (ℕ × ℕ)
  unfolding word_count pad_words
  to_vpi_words v = pad_words (word_count v.width) (u32_digits v.a_val) (u32_digits v.b_val)

  abbrev pub decode : Bool → Bool → Logic
  decode false false = low
  decode true false = high
  decode true true = x
  decode false true = z

  -- `impl Index<usize>`
  unfoldable pub index : LogicArray → ℕ → Option Logic
  index v i = if leb v.width i then none else some (decode (bit v.a_val i) (bit v.b_val i))

  -- `self[index].expect(..).to_char()`; 0 stands for the panic, which `binstr_below` never meets.
  abbrev pub char_of : Option Logic → ℕ
  char_of none = 0
  char_of (some l) = to_char l

  -- `(0..n).rev().map(..).collect()`
  unfoldable pub binstr_below : LogicArray → ℕ → List ℕ
  unfolding index
  binstr_below v zero = []
  binstr_below v (suc n) = char_of (index v n) ∷ binstr_below v n

  unfoldable pub to_binstr : LogicArray → List ℕ
  unfolding binstr_below
  to_binstr v = binstr_below v v.width

  unfoldable pub is_resolvable : LogicArray → Bool
  is_resolvable v = is_zero v.b_val

  -- The guard that every `TryFrom<&LogicArray>` begins with
  abbrev pub resolved {ℓ} : {A : Type ℓ} → LogicArray → A → Result A ValueError
  resolved v a = if not (is_resolvable v) then err (four_state (to_binstr v)) else ok a

  unfoldable pub try_bool : LogicArray → Result Bool ValueError
  unfolding is_resolvable to_binstr
  try_bool v = resolved v (not (is_zero v.a_val))

  unfoldable pub try_u8 : LogicArray → Result ℕ ValueError
  unfolding is_resolvable to_binstr
  try_u8 v = resolved v (get_or (u32_digits v.a_val) 0 0 % 2 ^ 8)

  unfoldable pub try_u16 : LogicArray → Result ℕ ValueError
  unfolding is_resolvable to_binstr
  try_u16 v = resolved v (get_or (u32_digits v.a_val) 0 0 % 2 ^ 16)

  unfoldable pub try_u32 : LogicArray → Result ℕ ValueError
  unfolding is_resolvable to_binstr
  try_u32 v = resolved v (get_or (u32_digits v.a_val) 0 0)

  unfoldable pub try_u64 : LogicArray → Result ℕ ValueError
  unfolding is_resolvable to_binstr
  try_u64 v = resolved v (get_or (u64_digits v.a_val) 0 0)

  -- `low | (high << 64)`, where the two have no bit in common
  unfoldable pub try_u128 : LogicArray → Result ℕ ValueError
  unfolding is_resolvable to_binstr
  try_u128 v =
      resolved v (get_or (u64_digits v.a_val) 0 0 + get_or (u64_digits v.a_val) 1 0 * 2 ^ 64)

  unfoldable pub try_big : LogicArray → Result Big ValueError
  unfolding is_resolvable to_binstr
  try_big v = resolved v v.a_val
