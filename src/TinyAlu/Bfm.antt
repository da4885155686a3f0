-- ===== src/TinyAlu/Bfm.antt =====
-- The bus functional model: the three loops of rustdv/tinyalu_tb/src/alu_bfm.rs, one turn at each falling edge of the
-- clock. The loops read the signals as they are at the edge; what they write is buffered until the
-- ReadWrite phase after it. What the device does with `done` and `result` is a parameter of each edge.
use rustdv.Base.{
  ℕ, ◌%◌, ◌^◌, Bool, true, false, not, ◌&&◌, List, [], ◌∷◌, ◌++◌, Option, none, some, if◌then◌else◌,
}
use rustdv.LogicArray.Codec.{Logic, low, high, x, z}
use rustdv.TinyAlu.{AluCommand, Ops, as_u64, from_u64}

-- The signals that the loops drive, where `none` is a value with unknown bits, and their queues
pub record TinyAluBfm : Type 0 where
  pub start : Logic
  pub a : Option ℕ
  pub b : Option ℕ
  pub op : Option ℕ
  pub driver_q : List AluCommand
  pub cmd_q : List AluCommand
  pub result_q : List ℕ
  pub prev_start : Bool

-- `is_high`, and the test against the text "1"
abbrev pub is_high : Logic → Bool
is_high low = false
is_high high = true
is_high x = false
is_high z = false

abbrev pub is_low : Logic → Bool
is_low low = true
is_low high = false
is_low x = false
is_low z = false

-- The signals that the driver's turn writes, and the queue that it leaves
unfoldable pub drive : TinyAluBfm → Logic → TinyAluBfm
unfolding as_u64
drive s done =
    if is_low s.start && is_low done
    then elim s.driver_q [
      | [] ↦ s
      | cmd ∷ rest ↦ record s {
        a = some cmd.a;
        b = some cmd.b;
        op = some (as_u64 cmd.op);
        start = high;
        driver_q = rest;
      }
    ]
    else if is_high s.start && is_high done
    then record s { start = low }
    else s

-- `if let Some(ops) = Ops::from_u64(opv) { let _ = q.try_put(..) }`
unfoldable pub observe : List AluCommand → ℕ → ℕ → Option Ops → List AluCommand
observe q av bv none = q
observe q av bv (some ops) = q ++ record { a = av % 2 ^ 8; b = bv % 2 ^ 8; op = ops } ∷ []

unfoldable pub observed : List AluCommand → Option ℕ → Option ℕ → Option ℕ → List AluCommand
unfolding observe from_u64
observed q (some av) (some bv) (some opv) = observe q av bv (from_u64 opv)
observed q (some av) (some bv) none = q
observed q (some av) none opv = q
observed q none bv opv = q

-- The turn of the command monitor, on the signals of `s`
unfoldable pub monitor_cmd : TinyAluBfm → List AluCommand
unfolding observed
monitor_cmd s =
    if is_high s.start && not s.prev_start then observed s.cmd_q s.a s.b s.op else s.cmd_q

-- The turn of the result monitor
unfoldable pub monitor_result : TinyAluBfm → Logic → Option ℕ → List ℕ
monitor_result s done none = s.result_q
monitor_result s done (some r) =
    if is_high s.start && is_high done then s.result_q ++ r % 2 ^ 16 ∷ [] else s.result_q

-- A falling edge with the device's `done` and `result`, and the ReadWrite phase after it
unfoldable pub falling_edge : TinyAluBfm → Logic → Option ℕ → TinyAluBfm
unfolding drive monitor_cmd monitor_result
falling_edge s done result = record (drive s done) {
  cmd_q = monitor_cmd s;
  prev_start = is_high s.start;
  result_q = monitor_result s done result;
}

-- `send_op`, whose queue has no bound
unfoldable pub send_op : TinyAluBfm → AluCommand → TinyAluBfm
send_op s cmd = record s { driver_q = s.driver_q ++ cmd ∷ [] }

-- What happens to the model: an edge, or a command sent
pub data Call : Type 0 where
  edges : Logic → Option ℕ → Call
  sends : AluCommand → Call

unfoldable pub call : TinyAluBfm → Call → TinyAluBfm
unfolding falling_edge send_op
call s (edges done result) = falling_edge s done result
call s (sends cmd) = send_op s cmd

unfoldable pub run : TinyAluBfm → List Call → TinyAluBfm
unfolding call
run s [] = s
run s (c ∷ cs) = run (call s c) cs
