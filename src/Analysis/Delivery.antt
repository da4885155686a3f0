-- ===== src/Analysis/Delivery.antt =====
-- rustdv/rustdv-methodology/src/analysis.rs: what a subscriber of the bus receives.
use rustdv.Base.{
  ℕ, zero, suc, ◌+◌, ◌≡◌, refl, ap, sym, ◌∙◌, Bool, true, false, List, [], ◌∷◌, ◌++◌, ◌==◌,
  if◌then◌else◌, none, some, arith, append_assoc, append-nil, Option-cases, inl, inr, count, Option,
  update, ap₂, subst, Bool-cases,
}
use rustdv.Port.{
  owner_port_slot, typed_slot, bind, sink_of, iface, is_bound, subscribe, Kind, Port, PortOwner,
}
use rustdv.RustdvPath.{Str}
use mathlib.Core.Path.{fun_ext}
use rustdv.Analysis.{
  Sink, AnalysisBus, Call, subscribes, joins, attaches, writes, publishes, deliver, broadcast,
  write, connect_source, connect_sink, call, run,
}

-- The wiring of a bus: the subscriber that each subscribe port holds, the publish ports that are
-- connected, and who has joined
pub record Wires : Type 0 where
  pub held : ℕ → Option Sink
  pub attached : ℕ → Bool
  pub members : List Sink

abbrev from : Option Sink → List Sink
from none = []
from (some t) = t ∷ []

-- Binding a port is noted at that port.
slots-bound :
    {I : Type 0} (cells : ℕ → Port I) (c : ℕ) (i : I) (k : ℕ)
    → (update cells c (record (cells c) { slot = some i }) k).slot
      ≡ update (λ j. (cells j).slot) c (some i) k
slots-bound cells c i k = ground arith

abbrev is_there : {I : Type 0} → Option I → Bool
is_there none = false
is_there (some i) = true

bound-bound :
    {I : Type 0} (cells : ℕ → Port I) (c : ℕ) (i : I) (k : ℕ)
    → is_bound (update cells c (record (cells c) { slot = some i })) k
      ≡ update (λ j. is_bound cells j) c true k
unfolding is_bound
bound-bound cells c i k = ap is_there (slots-bound cells c i k) ∙ ground arith

module _ {T : Type 0} where
  -- The items that a subscriber was given
  abbrev pub received : Sink → List (Sink × T) → List T
  received s [] = []
  received s ((t, item) ∷ log) = let rest = received s log in if t == s then item ∷ rest else rest

  abbrev pub copies : ℕ → T → List T
  copies zero item = []
  copies (suc k) item = item ∷ copies k item

  -- What a call does to the wiring: a port's name leads to its cell, whatever the ports hold.
  unfoldable pub wire : Wires → Call T → Wires
  unfolding owner_port_slot
  wire ws (subscribes c t) = record ws { held = update ws.held c (some t) }
  wire ws (joins kind owner name) = elim (owner_port_slot owner.ports name) [
    | none ↦ ws
    | some c ↦ record ws { members = ws.members ++ from (ws.held c) }
  ]
  wire ws (attaches kind owner name) = elim (owner_port_slot owner.ports name) [
    | none ↦ ws
    | some c ↦ record ws { attached = update ws.attached c true }
  ]
  wire ws _ = ws

  -- The item of a call, once per time that the subscriber has joined
  abbrev pub given : Sink → Wires → Call T → List T
  given s ws (writes c item) = if ws.attached c then copies (count s ws.members) item else []
  given s ws (publishes item) = copies (count s ws.members) item
  given s ws _ = []

  -- What a subscriber is due, from the wiring alone
  unfoldable pub due : Sink → Wires → List (Call T) → List T
  unfolding wire
  due s ws [] = []
  due s ws (c ∷ cs) = let rest = due s (wire ws c) cs in given s ws c ++ rest

  -- The wiring of a bus
  unfoldable pub wires_of : AnalysisBus T → Wires
  unfolding is_bound
  wires_of b = record {
    held = λ c. (b.sinks c).slot;
    attached = λ c. is_bound b.sources c;
    members = b.subs;
  }

  copies-count :
      (b : Bool) (item : T) (k : ℕ)
      → (if b then item ∷ [] else []) ++ copies k item ≡ copies ((if b then 1 else 0) + k) item
  copies-count true item k = ap (λ (n : ℕ). copies n item) (one k)
    where
      one : (k : ℕ) → suc k ≡ 1 + k
      one k = omega arith
  copies-count false item k = ap (λ (n : ℕ). copies n item) (none_more k)
    where
      none_more : (k : ℕ) → k ≡ 0 + k
      none_more k = omega arith

  received-append :
      (s : Sink) (xs ys : List (Sink × T)) → received s (xs ++ ys) ≡ received s xs ++ received s ys
  received-append s [] ys = refl
  received-append s ((t, item) ∷ xs) ys = ground (arith, received-append s xs ys)

  received-deliver :
      (s : Sink) (subs : List Sink) (item : T) (log : List (Sink × T))
      → received s (deliver subs item log) ≡ received s log ++ copies (count s subs) item
  unfolding deliver
  received-deliver s [] item log = sym (append-nil (received s log))
  received-deliver s (t ∷ subs) item log =
      received-deliver s subs item (log ++ (t, item) ∷ [])
      ∙ ap (λ (r : List T). r ++ copies (count s subs) item)
          (received-append s log ((t, item) ∷ []))
      ∙ append_assoc (received s log) (received s ((t, item) ∷ [])) (copies (count s subs) item)
      ∙ ap (λ (r : List T). received s log ++ r) (copies-count (t == s) item (count s subs))

  abbrev Rewired : Wires → Option (AnalysisBus T) → Type 0
  Rewired ws none = Unit
  Rewired ws (some b) = wires_of b ≡ ws

  joins-Rewired :
      (b : AnalysisBus T) (kind : Kind) (owner : PortOwner) (name : Str)
      → Rewired (wire (wires_of b) (joins kind owner name)) (call b (joins kind owner name))
  unfolding call connect_sink sink_of typed_slot wire wires_of
  joins-Rewired b kind owner name = elim (Option-cases (owner_port_slot owner.ports name)) [
    | inl e ↦ rw (call, connect_sink, sink_of, typed_slot, wire, e) tt
    | inr (c, e) ↦ elim (Bool-cases ((b.sinks c).kind == kind)) [
      | inl k ↦ elim (Option-cases (b.sinks c).slot) [
        | inl n ↦ rw (call, connect_sink, sink_of, typed_slot, wire, e, k, n) tt
        | inr (t, n) ↦ rw (call, connect_sink, sink_of, typed_slot, wire, e, k, n) refl
      ]
      | inr k ↦ rw (call, connect_sink, sink_of, typed_slot, wire, e, k) tt
    ]
  ]

  attaches-Rewired :
      (b : AnalysisBus T) (kind : Kind) (owner : PortOwner) (name : Str)
      → Rewired (wire (wires_of b) (attaches kind owner name)) (call b (attaches kind owner name))
  unfolding call connect_source bind typed_slot wire wires_of
  attaches-Rewired b kind owner name = elim (Option-cases (owner_port_slot owner.ports name)) [
    | inl e ↦ rw (call, connect_source, bind, typed_slot, wire, e) tt
    | inr (c, e) ↦ elim (Bool-cases ((b.sources c).kind == kind)) [
      | inl k ↦
          rw (call, connect_source, bind, typed_slot, wire, e, k)
            (ap (λ f. record { held = λ j. (b.sinks j).slot; attached = f; members = b.subs })
              (fun_ext (bound-bound b.sources c tt)))
      | inr k ↦ rw (call, connect_source, bind, typed_slot, wire, e, k) tt
    ]
  ]

  call-Rewired : (b : AnalysisBus T) (c : Call T) → Rewired (wire (wires_of b) c) (call b c)
  unfolding call write broadcast wire wires_of subscribe iface
  call-Rewired b (subscribes c t) =
      ap (λ f. record { held = f; attached = λ j. is_bound b.sources j; members = b.subs })
        (fun_ext (slots-bound b.sinks c t))
  call-Rewired b (joins kind owner name) = joins-Rewired b kind owner name
  call-Rewired b (attaches kind owner name) = attaches-Rewired b kind owner name
  call-Rewired b (writes c item) = elim (Option-cases (b.sources c).slot) [
    | inl n ↦ rw (call, write, iface, n) refl
    | inr (i, n) ↦ rw (call, write, iface, n) refl
  ]
  call-Rewired b (publishes item) = refl

  call-received :
      (s : Sink) (b : AnalysisBus T) (c : Call T) {b' : AnalysisBus T}
      → call b c ≡ some b'
      → received s b'.log ≡ received s b.log ++ given s (wires_of b) c
  unfolding call write broadcast connect_sink connect_source wires_of is_bound
  call-received s b (subscribes c t) e = ground (arith, append-nil (received s b.log))
  call-received s b (joins kind owner name) e = ground (arith, append-nil (received s b.log))
  call-received s b (attaches kind owner name) e = ground (arith, append-nil (received s b.log))
  call-received s b (writes c item) e =
      ground (arith, append-nil (received s b.log), received-deliver s b.subs item b.log)
  call-received s b (publishes item) e = ground (arith, received-deliver s b.subs item b.log)

  -- Over any calls without a panic, a subscriber is given, in the order of the writes, each item that
  -- is written after it joined, once per time that it has joined by then, and nothing else. A port
  -- that is attached stays so and its writes go out; a write through a publish port that is not
  -- connected sends nothing.
  pub run-received :
      (s : Sink) (b : AnalysisBus T) (cs : List (Call T)) {b' : AnalysisBus T}
      → run b cs ≡ some b'
      → received s b'.log ≡ received s b.log ++ due s (wires_of b) cs
  unfolding run due
  run-received s b [] e = ground (arith, append-nil (received s b.log))
  run-received s b (c ∷ cs) e = elim (Option-cases (call b c)) [
    | inl n ↦ ground (arith, n)
    | inr (b1, p) ↦
        let now = call-received s b c p in
        let rest = run-received s b1 cs (rw (run, p) at e) in
        rest
        ∙ ap₂ (λ (r : List T) (ws : Wires). r ++ due s ws cs) now
            (subst (λ o. Rewired (wire (wires_of b) c) o) p (call-Rewired b c))
        ∙ append_assoc (received s b.log) (given s (wires_of b) c) (due s (wire (wires_of b) c) cs)
  ]
