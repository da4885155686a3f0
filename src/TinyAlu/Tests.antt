-- ===== src/TinyAlu/Tests.antt =====
-- Runs of the ALU's test bench at concrete inputs.
use rustdv.Base.{◌≡◌, refl, arith, none, some, List, [], ◌∷◌, ◌++◌}
use rustdv.LogicArray.Codec.{low, high, x}
use rustdv.TinyAlu.{
  AluCommand, op_add, op_xor, as_u64, from_u64, predict, check, count_op, check_covered,
  never_exercised, op_and, op_mul, all_ops, contains_key,
}
use rustdv.TinyAlu.Bfm.{
  Call, edges, sends, run, call, falling_edge, send_op, drive, monitor_cmd, monitor_result,
  observed, observe,
}
use rustdv.TinyAlu.Protocol.{commands, sent, run-commands}
use rustdv.TinyAlu.Whole.{run-check, after_reset, board}

abbrev add_command : AluCommand
add_command = record { a = 255; b = 2; op = op_add }

-- A command is sent, driven, observed, and ended by the device with 257.
abbrev script : List Call
script =
    sends add_command ∷ edges low none ∷ edges x none ∷ edges high (some 257) ∷ edges low none ∷ []

run-commands_example : commands (run after_reset script) ≡ commands after_reset ++ sent script
run-commands_example = run-commands after_reset script tt (omega arith, omega arith, tt)

run-check_example :
    let s = run after_reset script in
    (s.cmd_q ≡ add_command ∷ [])
    × (check (board s.cmd_q s.result_q) []
        ≡ (record (board s.cmd_q s.result_q) { compared = 1 }, []))
unfolding run call falling_edge send_op drive monitor_cmd monitor_result observed observe from_u64
    as_u64 predict
run-check_example =
    run-check script (omega arith, omega arith, tt)
      (
        (λ e. absurd (ground arith)),
        (
          (λ e. absurd (ground arith)),
          ((λ e. (257, refl, refl)), ((λ e. absurd (ground arith)), tt)),
        ),
      )
      refl refl

-- Two operations of four
covered :
    check_covered all_ops (count_op op_xor (count_op op_add [])) []
    ≡ never_exercised op_and ∷ never_exercised op_mul ∷ []
unfolding check_covered count_op contains_key as_u64
covered = refl
