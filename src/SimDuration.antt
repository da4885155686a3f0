-- ===== src/SimDuration.antt =====
-- `SimDuration` of rustdv/rustdv-sim/src/time.rs: spans of simulation time in steps of the simulator's
-- precision. An exponent of ten is counted from -15 up, the finest there is, so that 0 stands for
-- femtoseconds and 15 for seconds; the precision is what the simulator says. The product wraps at 64 bits,
-- as it does without overflow checks.
pub mod Exact
mod Tests
use rustdv.Base.{
  ℕ, ◌*◌, ◌-◌, ◌^◌, ◌%◌, ◌/◌, leb, ◌==◌, if◌then◌else◌, Bool, List, [], ◌∷◌, Option, none, some,
}
use rustdv.RustdvPath.{Str, str_eq}

pub record SimDuration : Type 0 where
  pub steps : ℕ

unfoldable pub steps : ℕ → SimDuration
steps n = record { steps = n }

-- `none` is the panic of a duration below the precision.
unfoldable pub from_pow10 : ℕ → ℕ → ℕ → Option SimDuration
from_pow10 prec n exp =
    if leb prec exp
    then some (record { steps = n * 10 ^ (exp - prec) % 2 ^ 64 })
    else if n % 10 ^ (prec - exp) == 0
    then some (record { steps = n / 10 ^ (prec - exp) })
    else none

-- `fs`, `ps`, `ns`, `us`, `ms` and `sec`
abbrev pub fs : ℕ → ℕ → Option SimDuration
fs prec n = from_pow10 prec n 0

abbrev pub ps : ℕ → ℕ → Option SimDuration
ps prec n = from_pow10 prec n 3

abbrev pub ns : ℕ → ℕ → Option SimDuration
ns prec n = from_pow10 prec n 6

abbrev pub us : ℕ → ℕ → Option SimDuration
us prec n = from_pow10 prec n 9

abbrev pub ms : ℕ → ℕ → Option SimDuration
ms prec n = from_pow10 prec n 12

abbrev pub sec : ℕ → ℕ → Option SimDuration
sec prec n = from_pow10 prec n 15

-- `none` is also the panic of an unknown unit.
unfoldable pub from_unit : ℕ → ℕ → Str → Option SimDuration
unfolding from_pow10 steps
from_unit prec n unit =
    if str_eq unit (b'f' ∷ b's' ∷ [])
    then fs prec n
    else if str_eq unit (b'p' ∷ b's' ∷ [])
    then ps prec n
    else if str_eq unit (b'n' ∷ b's' ∷ [])
    then ns prec n
    else if str_eq unit (b'u' ∷ b's' ∷ [])
    then us prec n
    else if str_eq unit (b'm' ∷ b's' ∷ [])
    then ms prec n
    else if str_eq unit (b's' ∷ [])
    then sec prec n
    else if str_eq unit (b's' ∷ b'e' ∷ b'c' ∷ [])
    then sec prec n
    else if str_eq unit (b's' ∷ b't' ∷ b'e' ∷ b'p' ∷ [])
    then some (steps n)
    else if str_eq unit (b's' ∷ b't' ∷ b'e' ∷ b'p' ∷ b's' ∷ [])
    then some (steps n)
    else none
