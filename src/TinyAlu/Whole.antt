-- ===== src/TinyAlu/Whole.antt =====
-- The whole test bench of the ALU at work: what the scoreboard of rustdv/tinyalu_tb/src/components.rs finds.
use rustdv.Base.{
  ℕ, suc, ◌+◌, ◌≡◌, refl, ap, ap₂, sym, ◌∙◌, Bool, true, false, not, ◌&&◌, List, [], ◌∷◌, ◌++◌, map,
  append-nil, some, if◌then◌else◌, arith, length, ◌==◌, ==_iff,
}
use rustdv.LogicArray.Codec.{low}
use rustdv.TinyAlu.{
  AluCommand, predict, Scoreboard, check, compare_all, CheckError, nothing_compared,
}
use rustdv.TinyAlu.Bfm.{TinyAluBfm, is_high, Call, run}
use rustdv.TinyAlu.Protocol.{held, current, commands, AllBytes, sent, run-commands}
use rustdv.TinyAlu.Scores.{Correct, due, Scored, run-Scored}

compare_all-predicted :
    (cs : List AluCommand) (n : ℕ) (errors : List CheckError)
    → compare_all cs (map predict cs) (n, 0, errors) ≡ (n + length cs, 0, errors)
unfolding compare_all
compare_all-predicted [] n errors = ap (λ k. (k, 0, errors)) (none_more n)
  where
    none_more : (n : ℕ) → n ≡ n + 0
    none_more n = omega arith
compare_all-predicted (c ∷ cs) n errors =
    rw ((==_iff (predict c) (predict c)).1 refl)
      (compare_all-predicted cs (n + 1) errors ∙ ap (λ k. (k, 0, errors)) (next n (length cs)))
  where
    next : (n k : ℕ) → n + 1 + k ≡ n + suc k
    next n k = omega arith

length-predicted : (cs : List AluCommand) → length (map predict cs) ≡ length cs
length-predicted [] = refl
length-predicted (c ∷ cs) = ap suc (length-predicted cs)

abbrev pub board : List AluCommand → List ℕ → Scoreboard
board cmds results = record { cmds = cmds; results = results; compared = 0; mismatches = 0 }

check-predicted :
    (cs : List AluCommand)
    → check (board cs (map predict cs)) [] ≡ (
      record (board cs (map predict cs)) { compared = length cs },
      if length cs == 0 then nothing_compared ∷ [] else [],
    )
unfolding check
check-predicted cs =
    let all : compare_all cs (map predict cs) (0, 0, []) ≡ (length cs, 0, []) =
      compare_all-predicted cs 0 [] ∙ ap (λ k. (k, 0, [])) (from_zero (length cs)) in
    let same : (length cs == length (map predict cs)) ≡ true =
      (==_iff (length cs) (length (map predict cs))).1 (sym (length-predicted cs)) in
    rw (check, all, same) refl
  where
    from_zero : (n : ℕ) → 0 + n ≡ n
    from_zero n = omega arith

-- The model after its reset
abbrev pub after_reset : TinyAluBfm
after_reset = record {
  start = low;
  a = some 0;
  b = some 0;
  op = some 0;
  driver_q = [];
  cmd_q = [];
  result_q = [];
  prev_start = false;
}

at_rest : (s : TinyAluBfm) → is_high s.start ≡ false → s.driver_q ≡ [] → commands s ≡ s.cmd_q
at_rest s e q =
    ap₂
      (λ (b : Bool) (l : List AluCommand).
        s.cmd_q ++ (if b && not s.prev_start then held s else []) ++ l)
      e q
    ∙ append-nil (s.cmd_q ++ [])
    ∙ append-nil s.cmd_q

-- From its reset on, over any edges and any commands sent: if the device gives the predicted result at each edge at which a
-- command ends, and the bus comes to rest with no command queued, then the monitors have seen every command that was sent, in
-- order, and the scoreboard compares them all and finds no error, unless nothing was sent, which it reports.
pub run-check :
    (cs : List Call)
    → AllBytes (sent cs)
    → Correct after_reset cs
    → is_high (run after_reset cs).start ≡ false
    → (run after_reset cs).driver_q ≡ []
    → (let s = run after_reset cs in
        let n = length (sent cs) in
        (s.cmd_q ≡ sent cs)
        × (check (board s.cmd_q s.result_q) [] ≡ (
          record (board s.cmd_q s.result_q) { compared = n },
          if n == 0 then nothing_compared ∷ [] else [],
        )))
unfolding Scored
run-check cs k c e q =
    let s = run after_reset cs in
    let all : s.cmd_q ≡ sent cs = sym (at_rest s e q) ∙ run-commands after_reset cs tt k in
    let scored = run-Scored after_reset cs tt k refl c in
    let quiet : s.cmd_q ++ current s ≡ s.cmd_q =
      ap (λ (b : Bool). s.cmd_q ++ (if b && not s.prev_start then held s else [])) e
      ∙ append-nil s.cmd_q in
    let none_due : s.result_q ++ due s ≡ s.result_q =
      ap (λ (b : Bool). s.result_q ++ (if b then map predict (held s) else [])) e
      ∙ append-nil s.result_q in
    let results : s.result_q ≡ map predict s.cmd_q =
      sym (sym (ap (map predict) quiet) ∙ scored ∙ none_due) in
    (
      all,
      ap (λ r. check (board s.cmd_q r) []) results
          ∙ check-predicted s.cmd_q
          ∙ ap₂
              (λ r n. (
                record (board s.cmd_q r) { compared = n },
                if n == 0 then nothing_compared ∷ [] else [],
              ))
              (sym results) (ap length all),
    )
