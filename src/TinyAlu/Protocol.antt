-- ===== src/TinyAlu/Protocol.antt =====
-- The handshake of rustdv/tinyalu_tb/src/alu_bfm.rs: what is sent is what is observed, and each command has its result.
use rustdv.Base.{
  ℕ, ◌^◌, ◌<◌, ◌≡◌, refl, ap, sym, subst, ◌∙◌, Bool, true, false, not, ◌&&◌, List, [], ◌∷◌, ◌++◌,
  append_assoc, append-nil, Option, none, some, if◌then◌else◌, arith, Bool-cases, inl, inr, ◌⊎◌,
}
use rustdv.LogicArray.Codec.{Logic, low, high}
use rustdv.TinyAlu.{AluCommand, Ops, op_add, op_and, op_xor, op_mul, as_u64, from_u64}
use rustdv.TinyAlu.Bfm.{
  TinyAluBfm, is_high, is_low, drive, observe, observed, monitor_cmd, falling_edge, send_op, Call,
  edges, sends, call, run,
}

-- The command that the signals hold
abbrev pub held : TinyAluBfm → List AluCommand
held s = observed [] s.a s.b s.op

-- The command that is driven and not observed yet
abbrev pub current : TinyAluBfm → List AluCommand
current s = if is_high s.start && not s.prev_start then held s else []

-- Every command there is, the oldest first
abbrev pub commands : TinyAluBfm → List AluCommand
commands s = s.cmd_q ++ current s ++ s.driver_q

-- The operands are of type `u8`.
abbrev pub AllBytes : List AluCommand → Type 0
AllBytes [] = Unit
AllBytes (c ∷ cs) = (c.a < 2 ^ 8) × (c.b < 2 ^ 8) × AllBytes cs

abbrev pub sent : List Call → List AluCommand
sent [] = []
sent (edges d r ∷ cs) = sent cs
sent (sends c ∷ cs) = c ∷ sent cs

from-as_u64 : (p : Ops) → from_u64 (as_u64 p) ≡ some p
unfolding from_u64 as_u64
from-as_u64 op_add = refl
from-as_u64 op_and = refl
from-as_u64 op_xor = refl
from-as_u64 op_mul = refl

-- A command that is driven is read back by the monitor.
pub driven_held :
    (c : AluCommand)
    → c.a < 2 ^ 8
    → c.b < 2 ^ 8
    → observed [] (some c.a) (some c.b) (some (as_u64 c.op)) ≡ c ∷ []
unfolding observed observe
driven_held c h k = rw (from-as_u64 c.op) (ground arith)

observe-queue :
    (q : List AluCommand) (av bv : ℕ) (o : Option Ops) → observe q av bv o ≡ q ++ observe [] av bv o
unfolding observe
observe-queue q av bv none = sym (append-nil q)
observe-queue q av bv (some p) = refl

observed-queue :
    (q : List AluCommand) (a b op : Option ℕ) → observed q a b op ≡ q ++ observed [] a b op
unfolding observed
observed-queue q (some a) (some b) (some op) = observe-queue q a b (from_u64 op)
observed-queue q (some a) (some b) none = sym (append-nil q)
observed-queue q (some a) none op = sym (append-nil q)
observed-queue q none b op = sym (append-nil q)

pub monitor_cmd-queue : (s : TinyAluBfm) → monitor_cmd s ≡ s.cmd_q ++ current s
unfolding monitor_cmd
monitor_cmd-queue s = ground (arith, observed-queue s.cmd_q s.a s.b s.op, append-nil s.cmd_q)

abbrev pub driven : AluCommand → List AluCommand → TinyAluBfm → TinyAluBfm
driven c rest s = record s {
  a = some c.a;
  b = some c.b;
  op = some (as_u64 c.op);
  start = high;
  driver_q = rest;
}

queue-cases :
    (q : List AluCommand)
    → (q ≡ []) ⊎ ((c : AluCommand) × (rest : List AluCommand) × (q ≡ c ∷ rest))
queue-cases [] = inl refl
queue-cases (c ∷ rest) = inr (c, rest, refl)

-- Where a start is low and the bus idle: the turn waits, or drives the first command.
drive_idle :
    (s : TinyAluBfm) (d : Logic)
    → is_low s.start && is_low d ≡ true
    → ((is_high s.start && is_high d ≡ false) × (drive s d ≡ s))
      ⊎ ((c : AluCommand) × (rest : List AluCommand) × (s.driver_q ≡ c ∷ rest)
          × (is_high s.start ≡ false)
          × (drive s d ≡ driven c rest s))
unfolding drive
drive_idle s d e = elim (queue-cases s.driver_q) [
  | inl q ↦ inl (ground arith, simp (drive, e, q))
  | inr (c, rest, q) ↦ inr (c, rest, q, ground arith, simp (drive, e, q))
]

-- The turns of the driver: nothing, a command driven, or the start taken back
pub drive-cases :
    (s : TinyAluBfm) (d : Logic)
    → ((is_high s.start && is_high d ≡ false) × (drive s d ≡ s))
      ⊎ ((c : AluCommand) × (rest : List AluCommand) × (s.driver_q ≡ c ∷ rest)
          × (is_high s.start ≡ false)
          × (drive s d ≡ driven c rest s))
      ⊎ ((is_high s.start && is_high d ≡ true) × (drive s d ≡ record s { start = low }))
unfolding drive
drive-cases s d = elim (Bool-cases (is_low s.start && is_low d)) [
  | inl e ↦ elim (drive_idle s d e) [ inl k ↦ inl k | inr k ↦ inr (inl k) ]
  | inr e ↦ elim (Bool-cases (is_high s.start && is_high d)) [
    | inl h ↦ inr (inr (h, simp (drive, e, h)))
    | inr h ↦ inl (h, simp (drive, e, h))
  ]
]

abbrev pub to_observe : TinyAluBfm → TinyAluBfm → List AluCommand
to_observe s t = if is_high t.start && not (is_high s.start) then held t else []

pub not_both : (b : Bool) → b && not b ≡ false
not_both b = ground arith

pub driven_observed :
    (s : TinyAluBfm) (c : AluCommand) (rest : List AluCommand)
    → c.a < 2 ^ 8
    → c.b < 2 ^ 8
    → is_high s.start ≡ false
    → to_observe s (driven c rest s) ≡ c ∷ []
driven_observed s c rest h k l = rw l (driven_held c h k)

-- What a turn of the driver leaves to observe and in its queue
drive-commands :
    (s : TinyAluBfm) (d : Logic)
    → AllBytes s.driver_q
    → to_observe s (drive s d) ++ (drive s d).driver_q ≡ s.driver_q
drive-commands s d h = elim (drive-cases s d) [
  | inl (b, e) ↦
      ap (λ t. to_observe s t ++ t.driver_q) e
      ∙ ap (λ (b : Bool). (if b then held s else []) ++ s.driver_q) (not_both (is_high s.start))
  | inr k ↦ elim k [
    | inl (c, rest, q, l, e) ↦
        let bytes : AllBytes (c ∷ rest) = subst (λ l. AllBytes l) q h in
        ap (λ t. to_observe s t ++ t.driver_q) e
        ∙ ap (λ l. l ++ rest) (driven_observed s c rest bytes.0 bytes.1 l)
        ∙ sym q
    | inr (l, e) ↦ ap (λ t. to_observe s t ++ t.driver_q) e
  ]
]

pub drive-AllBytes :
    (s : TinyAluBfm) (d : Logic) → AllBytes s.driver_q → AllBytes (drive s d).driver_q
drive-AllBytes s d h = elim (drive-cases s d) [
  | inl (b, e) ↦ subst (λ t. AllBytes t.driver_q) (sym e) h
  | inr k ↦ elim k [
    | inl (c, rest, q, l, e) ↦
        let bytes : AllBytes (c ∷ rest) = subst (λ l. AllBytes l) q h in
        subst (λ t. AllBytes t.driver_q) (sym e) bytes.2
    | inr (l, e) ↦ subst (λ t. AllBytes t.driver_q) (sym e) h
  ]
]

falling_edge-commands :
    (s : TinyAluBfm) (d : Logic) (r : Option ℕ)
    → AllBytes s.driver_q
    → commands (falling_edge s d r) ≡ commands s
unfolding falling_edge
falling_edge-commands s d r h =
    append_assoc (monitor_cmd s) (to_observe s (drive s d)) (drive s d).driver_q
    ∙ ap (λ l. monitor_cmd s ++ l) (drive-commands s d h)
    ∙ ap (λ l. l ++ s.driver_q) (monitor_cmd-queue s)

pub AllBytes-append : (xs ys : List AluCommand) → AllBytes xs → AllBytes ys → AllBytes (xs ++ ys)
AllBytes-append [] ys h k = k
AllBytes-append (c ∷ xs) ys h k = (h.0, h.1, AllBytes-append xs ys h.2 k)

send_op-commands : (s : TinyAluBfm) (c : AluCommand) → commands (send_op s c) ≡ commands s ++ c ∷ []
unfolding send_op
send_op-commands s c = sym (append_assoc (s.cmd_q ++ current s) s.driver_q (c ∷ []))

-- Over any edges, whatever the device does, and any commands sent between them: every command that is sent is observed
-- by the monitor, or driven, or queued, once and in the order in which it was sent, with its operands and its operation.
pub run-commands :
    (s : TinyAluBfm) (cs : List Call)
    → AllBytes s.driver_q
    → AllBytes (sent cs)
    → commands (run s cs) ≡ commands s ++ sent cs
unfolding run call
run-commands s [] h k = sym (append-nil (commands s))
run-commands s (edges d r ∷ cs) h k =
    run-commands (falling_edge s d r) cs (drive-AllBytes s d h) k
    ∙ ap (λ l. l ++ sent cs) (falling_edge-commands s d r h)
run-commands s (sends c ∷ cs) h k =
    run-commands (send_op s c) cs (AllBytes-append s.driver_q (c ∷ []) h (k.0, k.1, tt)) k.2
    ∙ ap (λ l. l ++ sent cs) (send_op-commands s c)
    ∙ append_assoc (commands s) (c ∷ []) (sent cs)
