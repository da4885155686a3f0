-- ===== src/Base/Bits.antt =====
-- The native `bit_or` of numbers that share no binary digit.
use Prim.Native.Nat.{
  ℕ, zero, suc, ◌+◌, ◌-◌, ◌*◌, ◌/◌, ◌%◌, ◌^◌, ◌≤◌, ◌<◌, max, digits, bit_or, bit_or-bitwise,
}
use mathlib.Core.Path.{◌≡◌, refl, ap, sym, ◌∙◌}
use native.Mathlib.Omega.{arith}
use native.Mathlib.Nat.{
  pow-succ', mul_assoc, add-mul-mod_self_left, mod-add-div, mod-eq_of_lt, mod-lt, one-le-pow,
}

abbrev or_digits : ℕ → ℕ → ℕ → ℕ
or_digits n a b = digits (λ b. b) max n a b

or_digits_fuel : (n m a b : ℕ) → a ≤ n → a ≤ m → or_digits n a b ≡ or_digits m a b
or_digits_fuel zero zero a b p q = refl
or_digits_fuel zero (suc m) zero b p q = refl
or_digits_fuel zero (suc m) (suc a) b p q = absurd (omega arith)
or_digits_fuel (suc n) zero zero b p q = refl
or_digits_fuel (suc n) zero (suc a) b p q = absurd (omega arith)
or_digits_fuel (suc n) (suc m) zero b p q = refl
or_digits_fuel (suc n) (suc m) (suc a) b p q =
    omega (arith, or_digits_fuel n m (suc a / 2) (b / 2) (omega arith) (omega arith))

zero-bit_or : (b : ℕ) → bit_or 0 b ≡ b
zero-bit_or b = bit_or-bitwise 0 b

bit_or_step : (a b : ℕ) → bit_or a b ≡ bit_or (a / 2) (b / 2) * 2 + max (a % 2) (b % 2)
bit_or_step zero b = omega (arith, zero-bit_or b, zero-bit_or (b / 2))
bit_or_step (suc a) b = omega (
  arith,
  bit_or-bitwise (suc a) b,
  bit_or-bitwise (suc a / 2) (b / 2),
  or_digits_fuel a (suc a / 2) (suc a / 2) (b / 2) (omega arith) (omega arith),
)

two_times : (m b : ℕ) → b * 2 ^ suc m ≡ 2 * (b * 2 ^ m)
two_times m b =
    ap (λ k. b * k) (pow-succ' 2 m)
    ∙ sym (mul_assoc b 2 (2 ^ m))
    ∙ ap (λ k. k * 2 ^ m) (swap b)
    ∙ mul_assoc 2 b (2 ^ m)
  where
    swap : (b : ℕ) → b * 2 ≡ 2 * b
    swap b = omega arith

-- Below and above the digit `m`, or is a sum.
pub bit_or-above : (m a b : ℕ) → a < 2 ^ m → bit_or a (b * 2 ^ m) ≡ a + b * 2 ^ m
bit_or-above zero a b h =
    ap (λ k. bit_or k (b * 1)) (none_left a h) ∙ zero-bit_or (b * 1) ∙ back a b h
  where
    none_left : (a : ℕ) → a < 1 → a ≡ 0
    none_left a h = omega arith

    back : (a b : ℕ) → a < 1 → b * 1 ≡ a + b * 1
    back a b h = omega arith
bit_or-above (suc m) a b h =
    ap (λ k. bit_or a k) (two_times m b)
    ∙ bit_or_step a (2 * (b * 2 ^ m))
    ∙ ap (λ k. bit_or (a / 2) k * 2 + max (a % 2) (2 * (b * 2 ^ m) % 2)) (half (b * 2 ^ m))
    ∙ ap (λ k. k * 2 + max (a % 2) (2 * (b * 2 ^ m) % 2))
        (bit_or-above m (a / 2) b (below (2 ^ m) a (omega (arith, h, pow-succ' 2 m))))
    ∙ together a (b * 2 ^ m)
    ∙ ap (λ k. a + k) (sym (two_times m b))
  where
    half : (k : ℕ) → 2 * k / 2 ≡ k
    half k = omega arith

    below : (p a : ℕ) → a < 2 * p → a / 2 < p
    below p a h = omega arith

    together : (a k : ℕ) → (a / 2 + k) * 2 + max (a % 2) (2 * k % 2) ≡ a + 2 * k
    together a k = omega arith

pub two_pow_add : (k a : ℕ) → 2 ^ (k + a) ≡ 2 ^ k * 2 ^ a
two_pow_add zero a = ap (λ n. 2 ^ n) (none_more a) ∙ once (2 ^ a)
  where
    none_more : (a : ℕ) → 0 + a ≡ a
    none_more a = omega arith

    once : (x : ℕ) → x ≡ 1 * x
    once x = omega arith
two_pow_add (suc k) a =
    ap (λ n. 2 ^ n) (shift k a)
    ∙ pow-succ' 2 (k + a)
    ∙ ap (λ n. 2 * n) (two_pow_add k a)
    ∙ sym (mul_assoc 2 (2 ^ k) (2 ^ a))
    ∙ ap (λ n. n * 2 ^ a) (sym (pow-succ' 2 k))
  where
    shift : (k a : ℕ) → suc k + a ≡ suc (k + a)
    shift k a = omega arith

-- The low `m` bits of a number whose low word is `w`
pub low_bits : (m w x : ℕ) → m ≤ 32 → (w + 2 ^ 32 * x) % 2 ^ m ≡ w % 2 ^ m
low_bits m w x h =
    ap (λ k. (w + k * x) % 2 ^ m) (ap (λ k. 2 ^ k) (split m h) ∙ two_pow_add m (32 - m))
    ∙ ap (λ k. (w + k) % 2 ^ m) (mul_assoc (2 ^ m) (2 ^ (32 - m)) x)
    ∙ add-mul-mod_self_left w (2 ^ m) (2 ^ (32 - m) * x)
  where
    split : (m : ℕ) → m ≤ 32 → 32 ≡ m + (32 - m)
    split m h = omega arith

-- The low `32 + m` bits: the low word, and the low `m` bits of the rest
pub word_bits :
    (m w x : ℕ) → w < 2 ^ 32 → (w + 2 ^ 32 * x) % 2 ^ (32 + m) ≡ w + 2 ^ 32 * (x % 2 ^ m)
word_bits m w x h =
    let p = 2 ^ m in
    let r = x % p in
    let q = x / p in
    ap (λ k. (w + 2 ^ 32 * x) % k) (two_pow_add 32 m)
    ∙ ap (λ k. k % (2 ^ 32 * p)) (regroup w r (p * q) x (mod-add-div x p))
    ∙ ap (λ k. (w + 2 ^ 32 * r + k) % (2 ^ 32 * p)) (sym (mul_assoc (2 ^ 32) p q))
    ∙ add-mul-mod_self_left (w + 2 ^ 32 * r) (2 ^ 32 * p) q
    ∙ mod-eq_of_lt (fits w p r h (mod-lt x (one-le-pow m 2 (omega arith))))
  where
    regroup : (w r k x : ℕ) → r + k ≡ x → w + 2 ^ 32 * x ≡ w + 2 ^ 32 * r + 2 ^ 32 * k
    regroup w r k x e = omega arith

    fits : (w p r : ℕ) → w < 2 ^ 32 → r < p → w + 2 ^ 32 * r < 2 ^ 32 * p
    fits w p r h l = omega arith

bit_or-zero_fuel : (n a : ℕ) → a ≤ n → bit_or a 0 ≡ a
bit_or-zero_fuel n zero h = refl
bit_or-zero_fuel zero (suc a) h = absurd (omega arith)
bit_or-zero_fuel (suc n) (suc a) h =
    omega (arith, bit_or_step (suc a) 0, bit_or-zero_fuel n (suc a / 2) (omega arith))

-- The same with the high part first
pub bit_or-below : (m a b : ℕ) → a < 2 ^ m → bit_or (b * 2 ^ m) a ≡ a + b * 2 ^ m
bit_or-below zero a b h =
    ap (λ k. bit_or (b * 1) k) (none_left a h)
    ∙ bit_or-zero_fuel (b * 1) (b * 1) (omega arith)
    ∙ back a b h
  where
    none_left : (a : ℕ) → a < 1 → a ≡ 0
    none_left a h = omega arith

    back : (a b : ℕ) → a < 1 → b * 1 ≡ a + b * 1
    back a b h = omega arith
bit_or-below (suc m) a b h =
    ap (λ k. bit_or k a) (two_times m b)
    ∙ bit_or_step (2 * (b * 2 ^ m)) a
    ∙ ap (λ k. bit_or k (a / 2) * 2 + max (2 * (b * 2 ^ m) % 2) (a % 2)) (half (b * 2 ^ m))
    ∙ ap (λ k. k * 2 + max (2 * (b * 2 ^ m) % 2) (a % 2))
        (bit_or-below m (a / 2) b (below (2 ^ m) a (omega (arith, h, pow-succ' 2 m))))
    ∙ together a (b * 2 ^ m)
    ∙ ap (λ k. a + k) (sym (two_times m b))
  where
    half : (k : ℕ) → 2 * k / 2 ≡ k
    half k = omega arith

    below : (p a : ℕ) → a < 2 * p → a / 2 < p
    below p a h = omega arith

    together : (a k : ℕ) → (a / 2 + k) * 2 + max (2 * k % 2) (a % 2) ≡ a + 2 * k
    together a k = omega arith
