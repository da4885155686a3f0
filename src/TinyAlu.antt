-- ===== src/TinyAlu.antt =====
-- The test bench of the ALU: rustdv/tinyalu_tb/src/alu_item.rs, and the scoreboard and the coverage of components.rs beside it. An
-- error carries what its text lists.
mod Bfm
mod Protocol
mod Scores
mod Whole
mod Tests
use Prim.Native.Nat.{bit_and, bit_xor}
use rustdv.Base.{
  ℕ, ◌+◌, ◌*◌, ◌%◌, ◌^◌, Bool, true, false, not, List, [], ◌∷◌, ◌++◌, Option, none, some,
  if◌then◌else◌, ◌==◌, length,
}

pub data Ops : Type 0 where
  op_add op_and op_xor op_mul : Ops

unfoldable pub as_u64 : Ops → ℕ
as_u64 op_add = 1
as_u64 op_and = 2
as_u64 op_xor = 3
as_u64 op_mul = 4

unfoldable pub from_u64 : ℕ → Option Ops
from_u64 v =
    if v == 1
    then some op_add
    else if v == 2
    then some op_and
    else if v == 3
    then some op_xor
    else if v == 4
    then some op_mul
    else none

pub record AluCommand : Type 0 where
  pub a : ℕ
  pub b : ℕ
  pub op : Ops

-- `predict`, of an `AluResult`: 16 bits
unfoldable pub predict : AluCommand → ℕ
predict cmd = elim cmd.op [
  | op_add ↦ (cmd.a + cmd.b) % 2 ^ 16
  | op_and ↦ bit_and cmd.a cmd.b
  | op_xor ↦ bit_xor cmd.a cmd.b
  | op_mul ↦ cmd.a * cmd.b % 2 ^ 16
]

pub data CheckError : Type 0 where
  -- the command, the result, and the one expected
  mismatch : AluCommand → ℕ → ℕ → CheckError
  -- how many commands, and how many results
  unequal_streams : ℕ → ℕ → CheckError
  nothing_compared : CheckError
  never_exercised : Ops → CheckError

pub record Scoreboard : Type 0 where
  pub cmds : List AluCommand
  pub results : List ℕ
  pub compared : ℕ
  pub mismatches : ℕ

-- The loop of `Scoreboard::check` over both streams, with the errors so far
unfoldable pub compare_all :
    List AluCommand → List ℕ → ℕ × ℕ × List CheckError → ℕ × ℕ × List CheckError
unfolding predict
compare_all (cmd ∷ cmds) (actual ∷ results) (compared, mismatches, errors) =
    compare_all cmds results (
      if predict cmd == actual
      then (compared + 1, mismatches, errors)
      else (compared + 1, mismatches + 1, errors ++ mismatch cmd actual (predict cmd) ∷ []))
compare_all [] results acc = acc
compare_all (cmd ∷ cmds) [] acc = acc

unfoldable pub check : Scoreboard → List CheckError → Scoreboard × List CheckError
unfolding compare_all
check s errors =
    let (compared, mismatches, found) =
      compare_all s.cmds s.results (s.compared, s.mismatches, errors) in
    let unequal =
      if length s.cmds == length s.results
      then found
      else found ++ unequal_streams (length s.cmds) (length s.results) ∷ [] in
    (
      record s { compared = compared; mismatches = mismatches },
      if compared == 0 then unequal ++ nothing_compared ∷ [] else unequal,
    )

abbrev pub same_op : Ops → Ops → Bool
same_op p q = as_u64 p == as_u64 q

-- `CovCollector::write`: the operations seen, with how often
unfoldable pub count_op : Ops → List (Ops × ℕ) → List (Ops × ℕ)
unfolding as_u64
count_op p [] = (p, 1) ∷ []
count_op p ((q, n) ∷ seen) = if same_op q p then (q, n + 1) ∷ seen else (q, n) ∷ count_op p seen

unfoldable pub contains_key : Ops → List (Ops × ℕ) → Bool
unfolding as_u64
contains_key p [] = false
contains_key p ((q, n) ∷ seen) = if same_op q p then true else contains_key p seen

-- `Coverage::check`, over the operations that are left
unfoldable pub check_covered : List Ops → List (Ops × ℕ) → List CheckError → List CheckError
unfolding contains_key
check_covered [] seen errors = errors
check_covered (p ∷ ps) seen errors =
    check_covered ps seen (if contains_key p seen then errors else errors ++ never_exercised p ∷ [])

abbrev pub all_ops : List Ops
all_ops = op_add ∷ op_and ∷ op_xor ∷ op_mul ∷ []
