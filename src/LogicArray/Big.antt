-- ===== src/LogicArray/Big.antt =====
-- What `LogicArray` of rustdv/rustdv-gpi/src/value.rs uses of the crate `num_bigint`: a natural number
-- of any size with its bits, and its digits to the bases 2^32 and 2^64, least significant first.
use rustdv.Base.{
  ℕ, ◌+◌, ◌/◌, ◌%◌, ◌^◌, ◌≡◌, ◌<◌, Bool, true, false, List, [], ◌∷◌, ◌==◌, ltb, ◌&&◌, ◌||◌,
}

abbrev pub get_or {ℓ} : {A : Type ℓ} → List A → ℕ → A → A
get_or [] i d = d
get_or (x ∷ xs) ℕ.zero d = x
get_or (x ∷ xs) (ℕ.suc i) d = get_or xs i d

abbrev pub AllWords : List ℕ → Type 0
AllWords [] = Unit
AllWords (x ∷ xs) = (x < 2 ^ 32) × AllWords xs

pub record BigUint : Type 1 where
  pub Big : Type 0
  pub value : Big → ℕ
  pub zero_big : Big
  pub bit : Big → ℕ → Bool
  -- `x.set_bit(i, true)`
  pub set_bit : Big → ℕ → Big
  -- `x == BigUint::ZERO`
  pub is_zero : Big → Bool
  pub bit_and : Big → Big → Big
  -- `(BigUint::from(1u8) << width) - BigUint::from(1u8)`
  pub ones : ℕ → Big
  pub u32_digits : Big → List ℕ
  pub u64_digits : Big → List ℕ
  pub from_slice : List ℕ → Big
  pub value_zero : value zero_big ≡ 0
  pub value_set : (x : Big) (i : ℕ) → bit x i ≡ false → value (set_bit x i) ≡ value x + 2 ^ i
  pub bit_zero : (i : ℕ) → bit zero_big i ≡ false
  pub bit_set : (x : Big) (i j : ℕ) → bit (set_bit x i) j ≡ (j == i || bit x j)
  pub bit-bit_and : (x y : Big) (i : ℕ) → bit (bit_and x y) i ≡ (bit x i && bit y i)
  pub bit-ones : (width i : ℕ) → bit (ones width) i ≡ ltb i width
  pub zero_bits : (x : Big) → is_zero x ≡ true → (i : ℕ) → bit x i ≡ false
  pub bits_zero : (x : Big) → ((i : ℕ) → bit x i ≡ false) → is_zero x ≡ true
  pub low_u32 : (x : Big) → get_or (u32_digits x) 0 0 ≡ value x % 2 ^ 32
  pub low_u64 : (x : Big) → get_or (u64_digits x) 0 0 ≡ value x % 2 ^ 64
  pub high_u64 : (x : Big) → get_or (u64_digits x) 1 0 ≡ value x / 2 ^ 64 % 2 ^ 64
  pub slice_digits :
      (ws : List ℕ) (i : ℕ) → AllWords ws → get_or (u32_digits (from_slice ws)) i 0 ≡ get_or ws i 0
