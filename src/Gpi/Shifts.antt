-- ===== src/Gpi/Shifts.antt =====
-- The arithmetic of the loop that joins a signal's words: each word is shifted above the result so far.
use Prim.Native.Nat.{bit_or}
use native.Mathlib.Nat.{
  mod-eq_of_lt, pow-le-pow_right, mod-lt, one-le-pow, mul-lt-mul_of_pos_right, add-mul, mul_comm,
  suc-mul, mul-le-mul_right, mul_assoc,
}
use rustdv.Base.{
  ℕ, suc, ◌+◌, ◌*◌, ◌%◌, ◌^◌, ◌≡◌, ◌≤◌, ◌<◌, ap, sym, ◌∙◌, Bool, List, [], ◌∷◌, length, arith,
  two_pow_add, bit_or-above,
}
use rustdv.LogicArray.Codec.{word_count}
use rustdv.Gpi.Signals.{Vecval, used_bits, is_last}

-- A number of `u` bits, shifted by `k`, fits in the bits that are wanted.
pub shifted : (n u k want : ℕ) → n < 2 ^ u → u + k ≤ want → n * 2 ^ k < 2 ^ want
shifted n u k want l h =
    let step : n * 2 ^ k < 2 ^ u * 2 ^ k =
      mul-lt-mul_of_pos_right l (one-le-pow k 2 (omega arith)) in
    let top : 2 ^ (u + k) ≤ 2 ^ want = pow-le-pow_right {n = 2} (omega arith) h in
    omega (arith, step, top, two_pow_add u k)

-- One turn of the loop: the word goes above the result so far.
pub or_word :
    (result n u k want : ℕ)
    → result < 2 ^ k
    → n < 2 ^ u
    → u + k ≤ want
    → bit_or result (n * 2 ^ k % 2 ^ want) ≡ result + n * 2 ^ k
or_word result n u k want r l h =
    ap (λ x. bit_or result x) (mod-eq_of_lt (shifted n u k want l h)) ∙ bit_or-above k result n r

pub or_word_below :
    (result n k : ℕ) → result < 2 ^ k → n < 2 ^ 32 → result + n * 2 ^ k < 2 ^ (32 + k)
or_word_below result n k r l =
    let top : suc n * 2 ^ k ≤ 2 ^ 32 * 2 ^ k = mul-le-mul_right {m = suc n} (2 ^ k) l in
    omega (arith, top, two_pow_add 32 k, r, suc-mul n (2 ^ k))

-- The words that are left, above the result
pub above_words :
    (result n x k : ℕ) → result + n * 2 ^ k + x * 2 ^ (32 + k) ≡ result + (n + 2 ^ 32 * x) * 2 ^ k
above_words result n x k =
    let move : x * (2 ^ 32 * 2 ^ k) ≡ 2 ^ 32 * x * 2 ^ k =
      sym (mul_assoc x (2 ^ 32) (2 ^ k)) ∙ ap (λ y. y * 2 ^ k) (mul_comm x (2 ^ 32)) in
    ap (λ y. result + n * 2 ^ k + x * y) (two_pow_add 32 k)
    ∙ ap (λ y. result + n * 2 ^ k + y) move
    ∙ omega (arith, add-mul n (2 ^ 32 * x) (2 ^ k))

pub used_fits :
    (width index : ℕ) (ws : List Vecval)
    → index + suc (length ws) ≡ word_count width
    → used_bits width (is_last ws) + index * 32 ≤ width
unfolding used_bits word_count
used_fits width index [] e = ground arith
used_fits width index (w ∷ ws) e = omega (arith, e)

pub used_bits_word : (width : ℕ) (last : Bool) → used_bits width last ≤ 32
unfolding used_bits
used_bits_word width last = ground arith

pub used_below : (a width : ℕ) (last : Bool) → a % 2 ^ used_bits width last < 2 ^ 32
used_below a width last = omega (
  arith,
  mod-lt a (one-le-pow (used_bits width last) 2 (omega arith)),
  pow-le-pow_right {n = 2} (omega arith) (used_bits_word width last),
)

pub sum_zero : (a x : ℕ) → a + 2 ^ 32 * x ≡ 0 → (a ≡ 0) × (x ≡ 0)
sum_zero a x e = (omega (arith, e), omega (arith, e))
