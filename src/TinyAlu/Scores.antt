-- ===== src/TinyAlu/Scores.antt =====
-- The results of rustdv/tinyalu_tb/src/alu_bfm.rs: with a device that answers right, each command observed has its own.
use rustdv.Base.{
  ℕ, ◌%◌, ◌^◌, ◌<◌, ◌≡◌, refl, ap, ap₂, sym, subst, ◌∙◌, Bool, true, false, ◌&&◌, List, [], ◌∷◌,
  ◌++◌, map, append-nil, Option, none, some, if◌then◌else◌, arith, inl, inr,
}
use rustdv.LogicArray.Codec.{Logic, low}
use rustdv.TinyAlu.{AluCommand, predict}
use rustdv.TinyAlu.Bfm.{
  TinyAluBfm, is_high, monitor_cmd, monitor_result, falling_edge, send_op, Call, edges, sends, call,
  run,
}
use rustdv.TinyAlu.Protocol.{
  held, current, AllBytes, sent, driven, driven_held, monitor_cmd-queue, not_both, to_observe,
  driven_observed, drive-cases, drive-AllBytes, AllBytes-append,
}

-- At an edge at which a command ends, the result is the predicted one.
abbrev pub Answers : TinyAluBfm → Logic → Option ℕ → Type 0
Answers s d r =
    is_high s.start && is_high d ≡ true
    → (v : ℕ) × (r ≡ some v) × (map predict (held s) ≡ v % 2 ^ 16 ∷ [])

abbrev pub Correct : TinyAluBfm → List Call → Type 0
Correct s [] = Unit
Correct s (edges d r ∷ cs) = Answers s d r × Correct (falling_edge s d r) cs
Correct s (sends c ∷ cs) = Correct (send_op s c) cs

-- The results that are due
abbrev pub due : TinyAluBfm → List ℕ
due s = if is_high s.start then map predict (held s) else []

-- Each command has its predicted result, or it is due.
unfoldable pub Scored : TinyAluBfm → Type 0
Scored s = map predict (s.cmd_q ++ current s) ≡ s.result_q ++ due s

map-append : (xs ys : List AluCommand) → map predict (xs ++ ys) ≡ map predict xs ++ map predict ys
map-append [] ys = refl
map-append (c ∷ xs) ys = ap (λ l. predict c ∷ l) (map-append xs ys)

no_result :
    (s : TinyAluBfm) (d : Logic) (r : Option ℕ)
    → is_high s.start && is_high d ≡ false
    → monitor_result s d r ≡ s.result_q
unfolding monitor_result
no_result s d none e = refl
no_result s d (some v) e = rw e refl

one_result :
    (s : TinyAluBfm) (d : Logic) (v : ℕ)
    → is_high s.start && is_high d ≡ true
    → monitor_result s d (some v) ≡ s.result_q ++ v % 2 ^ 16 ∷ []
unfolding monitor_result
one_result s d v e = rw e refl

-- What the scores are once the driver's turn has led to `t`
After : TinyAluBfm → Logic → Option ℕ → TinyAluBfm → Type 0
After s d r t =
    map predict (monitor_cmd s ++ to_observe s t)
    ≡ monitor_result s d r ++ (if is_high t.start then map predict (held t) else [])

seen : (s : TinyAluBfm) → Scored s → map predict (monitor_cmd s) ≡ s.result_q ++ due s
unfolding Scored
seen s h = ap (map predict) (monitor_cmd-queue s) ∙ h

stay-After :
    (s : TinyAluBfm) (d : Logic) (r : Option ℕ)
    → Scored s
    → is_high s.start && is_high d ≡ false
    → After s d r s
unfolding After
stay-After s d r h e =
    ap (λ (b : Bool). map predict (monitor_cmd s ++ (if b then held s else [])))
      (not_both (is_high s.start))
    ∙ ap (map predict) (append-nil (monitor_cmd s))
    ∙ seen s h
    ∙ ap (λ l. l ++ due s) (sym (no_result s d r e))

low_both : (b c : Bool) → b ≡ false → b && c ≡ false
low_both b c e = rw e refl

drive-After :
    (s : TinyAluBfm) (d : Logic) (r : Option ℕ) (c : AluCommand) (rest : List AluCommand)
    → Scored s
    → c.a < 2 ^ 8
    → c.b < 2 ^ 8
    → is_high s.start ≡ false
    → After s d r (driven c rest s)
unfolding After
drive-After s d r c rest h k l e =
    ap (λ q. map predict (monitor_cmd s ++ q)) (driven_observed s c rest k l e)
    ∙ map-append (monitor_cmd s) (c ∷ [])
    ∙ ap (λ q. q ++ predict c ∷ [])
        (seen s h
          ∙ ap (λ (b : Bool). s.result_q ++ (if b then map predict (held s) else [])) e
          ∙ append-nil s.result_q)
    ∙ ap₂ (λ q p. q ++ p) (sym (no_result s d r (low_both (is_high s.start) (is_high d) e)))
        (ap (map predict) (sym (driven_held c k l)))

both_high : (b c : Bool) → b && c ≡ true → b ≡ true
both_high b c e = ground arith

end-After :
    (s : TinyAluBfm) (d : Logic) (r : Option ℕ)
    → Scored s
    → Answers s d r
    → is_high s.start && is_high d ≡ true
    → After s d r (record s { start = low })
unfolding After
end-After s d r h a e =
    let (v, o, p) = a e in
    ap (map predict) (append-nil (monitor_cmd s))
    ∙ seen s h
    ∙ ap (λ (b : Bool). s.result_q ++ (if b then map predict (held s) else []))
        (both_high (is_high s.start) (is_high d) e)
    ∙ ap (λ l. s.result_q ++ l) p
    ∙ sym (one_result s d v e)
    ∙ ap (monitor_result s d) (sym o)
    ∙ sym (append-nil (monitor_result s d r))

falling_edge-Scored :
    (s : TinyAluBfm) (d : Logic) (r : Option ℕ)
    → AllBytes s.driver_q
    → Scored s
    → Answers s d r
    → Scored (falling_edge s d r)
unfolding Scored After falling_edge
falling_edge-Scored s d r k h a = elim (drive-cases s d) [
  | inl (b, e) ↦ subst (λ t. After s d r t) (sym e) (stay-After s d r h b)
  | inr x ↦ elim x [
    | inl (c, rest, q, l, e) ↦
        let bytes : AllBytes (c ∷ rest) = subst (λ l. AllBytes l) q k in
        subst (λ t. After s d r t) (sym e) (drive-After s d r c rest h bytes.0 bytes.1 l)
    | inr (l, e) ↦ subst (λ t. After s d r t) (sym e) (end-After s d r h a l)
  ]
]

pub run-Scored :
    (s : TinyAluBfm) (cs : List Call)
    → AllBytes s.driver_q
    → AllBytes (sent cs)
    → Scored s
    → Correct s cs
    → Scored (run s cs)
unfolding run call Scored
run-Scored s [] k l h c = h
run-Scored s (edges d r ∷ cs) k l h c =
    run-Scored (falling_edge s d r) cs (drive-AllBytes s d k) l (falling_edge-Scored s d r k h c.0)
      c.1
run-Scored s (sends m ∷ cs) k l h c =
    run-Scored (send_op s m) cs (AllBytes-append s.driver_q (m ∷ []) k (l.0, l.1, tt)) l.2 h c
