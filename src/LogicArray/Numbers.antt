-- ===== src/LogicArray/Numbers.antt =====
-- Numbers in and out of a `LogicArray`: `from_u128` and the `TryFrom` impls of
-- rustdv/rustdv-gpi/src/value.rs.
use native.Mathlib.Nat.{mod-eq-sub-div-mul, div-mul-le_self, pow-suc, div-div-eq-div-mul}
use rustdv.Base.{
  ℕ, zero, suc, ◌+◌, ◌*◌, ◌/◌, ◌%◌, ◌^◌, ◌≡◌, ◌≤◌, ◌<◌, min, ap, sym, true, false, arith, ok,
}
use rustdv.LogicArray.Big.{BigUint, get_or}
use rustdv.LogicArray.Codec.{low_bits, from_u128, try_u8, try_u16, try_u32, try_u64, try_u128}

-- The remainder by `m * 2` from that by `m` and the next bit
mod-double : (v m : ℕ) → 0 < m → v % (m * 2) ≡ v % m + v / m % 2 * m
mod-double v m h =
    let q = v / m in
    let halves : q ≡ q / 2 * 2 + q % 2 = omega arith in
    let same : v / (m * 2) ≡ q / 2 = sym (div-div-eq-div-mul v m 2) in
    omega (
      arith,
      mod-eq-sub-div-mul v (m * 2),
      mod-eq-sub-div-mul v m,
      div-mul-le_self v m,
      ap (λ (t : ℕ). t * m) halves,
      ap (λ (t : ℕ). t * (m * 2)) same,
    )

module _ (N : BigUint) where
  open N use {
    bit, bit_set, bit_zero, zero_bits, bits_zero, is_zero, zero_big, value, value_zero, value_set,
    low_u32, low_u64, high_u64, u32_digits, u64_digits,
  }

  bit-low_bits : (n v j : ℕ) → n ≤ j → bit (low_bits N n v) j ≡ false
  unfolding low_bits
  bit-low_bits zero v j h = bit_zero j
  bit-low_bits (suc n) v j h = ground (arith, bit_set (low_bits N n v) n j, bit-low_bits n v j)

  pow_pos : (n : ℕ) → 0 < 2 ^ n
  pow_pos zero = omega arith
  pow_pos (suc n) = omega (arith, pow-suc 2 n, pow_pos n)

  -- The loop of `from_u128` keeps the low bits.
  value-low_bits : (n v : ℕ) → value (low_bits N n v) ≡ v % 2 ^ n
  unfolding low_bits
  value-low_bits zero v = omega (arith, value_zero)
  value-low_bits (suc n) v = ground (
    arith,
    value_set (low_bits N n v) n (bit-low_bits n v n (omega arith)),
    value-low_bits n v,
    mod-double v (2 ^ n) (pow_pos n),
    pow-suc 2 n,
  )

  -- A number that goes in through `from_u128` at some width comes out of each `TryFrom` without an
  -- error, cut to the width (to 128 bits, if that is less) and then to the bits of the type.
  pub try-from_u128 :
      (v width : ℕ)
      → let a = from_u128 N v width in
        let kept = v % 2 ^ min width 128 in
        (try_u8 N a ≡ ok (kept % 2 ^ 8))
        × (try_u16 N a ≡ ok (kept % 2 ^ 16))
        × (try_u32 N a ≡ ok (kept % 2 ^ 32))
        × (try_u64 N a ≡ ok (kept % 2 ^ 64))
        × (try_u128 N a ≡ ok (kept % 2 ^ 128))
  unfolding try_u8 try_u16 try_u32 try_u64 try_u128 from_u128 low_bits
  try-from_u128 v width =
      let n = min width 128 in
      let b = low_bits N n v in
      let e : value b ≡ v % 2 ^ n = value-low_bits n v in
      let known : is_zero zero_big ≡ true = bits_zero zero_big bit_zero in
      let u32 : get_or (u32_digits b) 0 0 ≡ value b % 2 ^ 32 = low_u32 b in
      let u64 : get_or (u64_digits b) 0 0 ≡ value b % 2 ^ 64 = low_u64 b in
      let top : get_or (u64_digits b) 1 0 ≡ value b / 2 ^ 64 % 2 ^ 64 = high_u64 b in
      (
        rw (← e) (rw known (ap ok (omega (arith, u32)))),
        rw (← e) (rw known (ap ok (omega (arith, u32)))),
        rw (← e) (rw known (ap ok u32)),
        rw (← e) (rw known (ap ok u64)),
        rw (← e) (rw known (ap ok (omega (arith, u64, top)))),
      )
