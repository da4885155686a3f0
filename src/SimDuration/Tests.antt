-- ===== src/SimDuration/Tests.antt =====
-- Durations of rustdv/rustdv-sim/src/time.rs.
use rustdv.Base.{◌*◌, ◌-◌, ◌^◌, ◌%◌, ◌<◌, ◌≤◌, ◌≡◌, ◌≢◌, ◌⊎◌, refl, [], ◌∷◌, none, some, arith}
use rustdv.SimDuration.{SimDuration, from_pow10, from_unit}
use rustdv.SimDuration.Exact.{from_pow10_exact}

-- Five nanoseconds are 5000 steps of a picosecond, and 5 picoseconds are no step of a nanosecond.
five_ns : from_unit 3 5 (b'n' ∷ b's' ∷ []) ≡ some (record { steps = 5000 })
unfolding from_unit
five_ns = refl

five_ps : from_unit 6 5 (b'p' ∷ b's' ∷ []) ≡ none
unfolding from_unit
five_ps = refl

unknown_unit : from_unit 6 5 (b'h' ∷ []) ≡ none
unfolding from_unit
unknown_unit = refl

from_pow10_exact_example :
    ((from_pow10 3 5 6 ≡ none) × (6 < 3) × (5 % 10 ^ (3 - 6) ≢ 0))
    ⊎ ((d : SimDuration) × (from_pow10 3 5 6 ≡ some d)
        × (d.steps * 10 ^ 3 ≡ 5 * 10 ^ 6)
        × ((3 ≤ 6) ⊎ (5 % 10 ^ (3 - 6) ≡ 0)))
from_pow10_exact_example = from_pow10_exact 3 5 6 (omega arith)
