-- ===== src/SimDuration/Exact.antt =====
-- rustdv/rustdv-sim/src/time.rs: a duration is exact, or it is refused.
use native.Mathlib.Nat.{pow-succ', div-add-mod', mul_assoc}
use rustdv.Base.{
  ℕ, zero, suc, ◌+◌, ◌*◌, ◌-◌, ◌^◌, ◌%◌, ◌/◌, ◌<◌, ◌≤◌, ◌≡◌, ap, sym, ◌∙◌, leb, ◌==◌, Bool-cases,
  ◌⊎◌, inl, inr, ◌≢◌, none, some, arith,
}
use rustdv.SimDuration.{SimDuration, from_pow10}

pow_add : (k a : ℕ) → 10 ^ (k + a) ≡ 10 ^ k * 10 ^ a
pow_add zero a = ap (λ n. 10 ^ n) (none_more a) ∙ once (10 ^ a)
  where
    none_more : (a : ℕ) → 0 + a ≡ a
    none_more a = omega arith

    once : (x : ℕ) → x ≡ 1 * x
    once x = omega arith
pow_add (suc k) a =
    ap (λ n. 10 ^ n) (shift k a)
    ∙ pow-succ' 10 (k + a)
    ∙ ap (λ n. 10 * n) (pow_add k a)
    ∙ sym (mul_assoc 10 (10 ^ k) (10 ^ a))
    ∙ ap (λ n. n * 10 ^ a) (sym (pow-succ' 10 k))
  where
    shift : (k a : ℕ) → suc k + a ≡ suc (k + a)
    shift k a = omega arith

-- `10^a` splits off a higher power.
pow_gap : (a b : ℕ) → a ≤ b → 10 ^ b ≡ 10 ^ (b - a) * 10 ^ a
pow_gap a b h = ap (λ n. 10 ^ n) (meet a b h) ∙ pow_add (b - a) a
  where
    meet : (a b : ℕ) → a ≤ b → b ≡ b - a + a
    meet a b h = omega arith

fits_mod : (x : ℕ) → x < 2 ^ 64 → x % 2 ^ 64 ≡ x
fits_mod x h = omega arith

-- A coarser unit: the factor is the gap.
scaled : (prec n exp : ℕ) → prec ≤ exp → n * 10 ^ (exp - prec) * 10 ^ prec ≡ n * 10 ^ exp
scaled prec n exp h =
    mul_assoc n (10 ^ (exp - prec)) (10 ^ prec) ∙ ap (λ k. n * k) (sym (pow_gap prec exp h))

-- A finer unit: whole steps lose nothing.
divided :
    (prec n exp : ℕ)
    → exp ≤ prec
    → n % 10 ^ (prec - exp) ≡ 0
    → n / 10 ^ (prec - exp) * 10 ^ prec ≡ n * 10 ^ exp
divided prec n exp h whole =
    let m = 10 ^ (prec - exp) in
    ap (λ k. n / m * k) (pow_gap exp prec h)
    ∙ sym (mul_assoc (n / m) m (10 ^ exp))
    ∙ ap (λ k. k * 10 ^ exp) (back (n / m * m) (n % m) n (div-add-mod' n m) whole)
  where
    back : (q r n : ℕ) → q + r ≡ n → r ≡ 0 → q ≡ n
    back q r n e z = omega arith

-- A duration that a unit gives is exact: its steps, at the simulator's precision, are the time that was
-- asked for, if that many steps fit in 64 bits. And a duration is refused exactly if it is finer than the
-- precision and not a whole number of steps.
pub from_pow10_exact :
    (prec n exp : ℕ)
    → n * 10 ^ (exp - prec) < 2 ^ 64
    → ((from_pow10 prec n exp ≡ none) × (exp < prec) × (n % 10 ^ (prec - exp) ≢ 0))
      ⊎ ((d : SimDuration) × (from_pow10 prec n exp ≡ some d)
          × (d.steps * 10 ^ prec ≡ n * 10 ^ exp)
          × ((prec ≤ exp) ⊎ (n % 10 ^ (prec - exp) ≡ 0)))
unfolding from_pow10
from_pow10_exact prec n exp fits = elim (Bool-cases (leb prec exp)) [
  | inl coarse ↦ inr (
    record { steps = n * 10 ^ (exp - prec) % 2 ^ 64 },
    ground (arith, coarse),
    ap (λ k. k * 10 ^ prec) (fits_mod (n * 10 ^ (exp - prec)) fits)
        ∙ scaled prec n exp (ground (arith, coarse)),
    inl (ground (arith, coarse)),
  )
  | inr fine ↦ elim (Bool-cases (n % 10 ^ (prec - exp) == 0)) [
    | inl whole ↦ inr (
      record { steps = n / 10 ^ (prec - exp) },
      ground (arith, fine, whole),
      divided prec n exp (ground (arith, fine)) (ground (arith, whole)),
      inr (ground (arith, whole)),
    )
    | inr part ↦ inl (ground (arith, fine, part), ground (arith, fine), ground (arith, part))
  ]
]
