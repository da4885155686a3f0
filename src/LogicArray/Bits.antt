-- ===== src/LogicArray/Bits.antt =====
-- A concrete `BigUint`, for runs of the code: the bits of a number, least significant first.
use native.Mathlib.Nat.{pow-suc, mul_assoc}
use rustdv.Base.{
  ℕ, zero, suc, ◌+◌, ◌*◌, ◌/◌, ◌%◌, ◌^◌, ◌≡◌, ◌≤◌, ◌<◌, refl, ap, sym, ◌∙◌, Bool, true, false, not,
  List, [], ◌∷◌, ◌++◌, arith, ◌==◌, ltb, ◌&&◌, ◌||◌, length, Bool-cases, inl, inr, ==_iff,
}
use rustdv.LogicArray.Big.{BigUint, get_or, AllWords}

pub value : List Bool → ℕ
value [] = 0
value (true ∷ bs) = 1 + 2 * value bs
value (false ∷ bs) = 2 * value bs

unfoldable pub set_bit : List Bool → ℕ → List Bool
set_bit [] zero = true ∷ []
set_bit [] (suc i) = false ∷ set_bit [] i
set_bit (b ∷ bs) zero = true ∷ bs
set_bit (b ∷ bs) (suc i) = b ∷ set_bit bs i

pub is_zero : List Bool → Bool
is_zero [] = true
is_zero (b ∷ bs) = not b && is_zero bs

pub bit_and : List Bool → List Bool → List Bool
bit_and [] ys = []
bit_and (b ∷ xs) [] = []
bit_and (b ∷ xs) (c ∷ ys) = (b && c) ∷ bit_and xs ys

pub ones : ℕ → List Bool
ones zero = []
ones (suc n) = true ∷ ones n

pub digits : ℕ → ℕ → ℕ → List ℕ
digits base zero v = []
digits base (suc n) v = v % base ∷ digits base n (v / base)

word_bits : ℕ → ℕ → List Bool
word_bits zero v = []
word_bits (suc n) v = (v % 2 == 1) ∷ word_bits n (v / 2)

pub from_slice : List ℕ → List Bool
from_slice [] = []
from_slice (w ∷ ws) = word_bits 32 w ++ from_slice ws

pub value_set :
    (bs : List Bool) (i : ℕ) → get_or bs i false ≡ false → value (set_bit bs i) ≡ value bs + 2 ^ i
unfolding value set_bit
value_set [] zero h = ground arith
value_set [] (suc i) h = ground (arith, value_set [] i refl, pow-suc 2 i)
value_set (true ∷ bs) zero h = ground arith
value_set (false ∷ bs) zero h = ground arith
value_set (true ∷ bs) (suc i) h = ground (arith, value_set bs i h, pow-suc 2 i)
value_set (false ∷ bs) (suc i) h = ground (arith, value_set bs i h, pow-suc 2 i)

pub get_set :
    (bs : List Bool) (i j : ℕ) → get_or (set_bit bs i) j false ≡ (j == i || get_or bs j false)
unfolding set_bit
get_set [] zero zero = refl
get_set [] zero (suc j) = ground arith
get_set [] (suc i) zero = ground arith
get_set [] (suc i) (suc j) = ground (arith, get_set [] i j)
get_set (b ∷ bs) zero zero = refl
get_set (b ∷ bs) zero (suc j) = ground arith
get_set (b ∷ bs) (suc i) zero = ground arith
get_set (b ∷ bs) (suc i) (suc j) = ground (arith, get_set bs i j)

pub get-bit_and :
    (xs ys : List Bool) (i : ℕ)
    → get_or (bit_and xs ys) i false ≡ (get_or xs i false && get_or ys i false)
unfolding bit_and
get-bit_and [] ys i = refl
get-bit_and (b ∷ xs) [] i = ground arith
get-bit_and (b ∷ xs) (c ∷ ys) zero = refl
get-bit_and (b ∷ xs) (c ∷ ys) (suc i) = get-bit_and xs ys i

pub get-ones : (n i : ℕ) → get_or (ones n) i false ≡ ltb i n
unfolding ones
get-ones zero i = ground arith
get-ones (suc n) zero = ground arith
get-ones (suc n) (suc i) = ground (arith, get-ones n i)

pub zero_bits : (bs : List Bool) → is_zero bs ≡ true → (i : ℕ) → get_or bs i false ≡ false
unfolding is_zero
zero_bits [] h i = refl
zero_bits (true ∷ bs) h i = ground arith
zero_bits (false ∷ bs) h zero = refl
zero_bits (false ∷ bs) h (suc i) = zero_bits bs h i

pub bits_zero : (bs : List Bool) → ((i : ℕ) → get_or bs i false ≡ false) → is_zero bs ≡ true
unfolding is_zero
bits_zero [] h = refl
bits_zero (true ∷ bs) h = ground (arith, h 0)
bits_zero (false ∷ bs) h = bits_zero bs (λ i. h (suc i))

value-word_bits :
    (n w : ℕ) (bs : List Bool) → w < 2 ^ n → value (word_bits n w ++ bs) ≡ w + value bs * 2 ^ n
unfolding value word_bits
value-word_bits zero w bs h = omega (arith, h)
value-word_bits (suc n) w bs h =
    let m : value bs * 2 ^ suc n ≡ value bs * 2 ^ n * 2 =
      ap (λ (t : ℕ). value bs * t) (pow-suc 2 n) ∙ sym (mul_assoc (value bs) (2 ^ n) 2) in
    let rest = value-word_bits n (w / 2) bs (omega (arith, h, pow-suc 2 n)) in
    elim (Bool-cases (w % 2 == 1)) [
      | inl e ↦ rw e (omega (arith, rest, m, (==_iff (w % 2) 1).0 e))
      | inr e ↦ rw e (ground (arith, rest, m))
    ]

length-word_bits : (n w : ℕ) (bs : List Bool) → length (word_bits n w ++ bs) ≡ n + length bs
unfolding word_bits
length-word_bits zero w bs = ground arith
length-word_bits (suc n) w bs = ground (arith, length-word_bits n (w / 2) bs)

pub digits-from_slice :
    (ws : List ℕ) (n i : ℕ)
    → length ws ≤ n
    → AllWords ws
    → get_or (digits (2 ^ 32) n (value (from_slice ws))) i 0 ≡ get_or ws i 0
unfolding digits from_slice value
digits-from_slice [] zero i h k = refl
digits-from_slice [] (suc n) zero h k = refl
digits-from_slice [] (suc n) (suc i) h k = digits-from_slice [] n i (omega arith) tt
digits-from_slice (w ∷ ws) zero i h k = omega (arith, h)
digits-from_slice (w ∷ ws) (suc n) zero h k =
    omega (arith, k.0, value-word_bits 32 w (from_slice ws) k.0)
digits-from_slice (w ∷ ws) (suc n) (suc i) h k =
    let e : value (word_bits 32 w ++ from_slice ws) / 2 ^ 32 ≡ value (from_slice ws) =
      omega (arith, k.0, value-word_bits 32 w (from_slice ws) k.0) in
    ap (λ v. get_or (digits (2 ^ 32) n v) i 0) e ∙ digits-from_slice ws n i (omega (arith, h)) k.1

pub length-from_slice : (ws : List ℕ) → length ws ≤ length (from_slice ws)
unfolding from_slice
length-from_slice [] = omega arith
length-from_slice (w ∷ ws) =
    omega (arith, length-from_slice ws, length-word_bits 32 w (from_slice ws))

unfoldable pub big : BigUint
unfolding value digits
big = record {
  Big = List Bool;
  value = value;
  zero_big = [];
  bit = λ x i. get_or x i false;
  set_bit = set_bit;
  is_zero = is_zero;
  bit_and = bit_and;
  ones = ones;
  u32_digits = λ x. digits (2 ^ 32) (suc (length x)) (value x);
  u64_digits = λ x. digits (2 ^ 64) 2 (value x);
  from_slice = from_slice;
  value_zero = refl;
  value_set = value_set;
  bit_zero = λ i. refl;
  bit_set = get_set;
  bit-bit_and = get-bit_and;
  bit-ones = get-ones;
  zero_bits = zero_bits;
  bits_zero = bits_zero;
  low_u32 = λ x. refl;
  low_u64 = λ x. refl;
  high_u64 = λ x. refl;
  slice_digits = λ ws i k.
      digits-from_slice ws (suc (length (from_slice ws))) i (omega (arith, length-from_slice ws)) k;
}
