-- ===== src/Analysis/Tests.antt =====
-- Runs of the analysis bus of rustdv/rustdv-methodology/src/analysis.rs.
use rustdv.Base.{ℕ, ◌≡◌, refl, List, [], ◌∷◌, ◌++◌, Option, none, some}
use rustdv.Port.{PortOwner}
use rustdv.Analysis.{AnalysisBus, Call, subscribes, joins, attaches, writes, publishes, run}
use rustdv.Analysis.Delivery.{received, due, wires_of, run-received}

abbrev quiet_bus : AnalysisBus ℕ
quiet_bus = record {
  subs = [];
  sinks = λ c. record { kind = 7; slot = none };
  sources = λ c. record { kind = 8; slot = none };
  log = [];
}

abbrev listener : PortOwner
listener = record { label = b'L' ∷ []; ports = (b'i' ∷ [], 1) ∷ (b'j' ∷ [], 2) ∷ [] }

abbrev source : PortOwner
source = record { label = b'S' ∷ []; ports = (b'o' ∷ [], 3) ∷ [] }

-- Subscriber 20 joins before the second write, and 10 before both; port 4 is never connected.
abbrev script : List (Call ℕ)
script =
    subscribes 1 10
    ∷ subscribes 2 20
    ∷ attaches 8 source (b'o' ∷ [])
    ∷ joins 7 listener (b'i' ∷ [])
    ∷ writes 3 5
    ∷ joins 7 listener (b'j' ∷ [])
    ∷ publishes 6
    ∷ writes 4 9
    ∷ []

abbrev after : Option (AnalysisBus ℕ) → AnalysisBus ℕ
after none = quiet_bus
after (some b) = b

script-ran : run quiet_bus script ≡ some (after (run quiet_bus script))
unfolding run
script-ran = refl

script_log : (after (run quiet_bus script)).log ≡ (10, 5) ∷ (10, 6) ∷ (20, 6) ∷ []
unfolding run
script_log = refl

-- A port of another kind, a name that there is not, and a port without a subscriber are panics.
script_panics :
    (run quiet_bus (joins 8 listener (b'i' ∷ []) ∷ []) ≡ none)
    × (run quiet_bus (joins 7 listener (b'k' ∷ []) ∷ []) ≡ none)
    × (run quiet_bus (joins 7 listener (b'i' ∷ []) ∷ []) ≡ none)
unfolding run
script_panics = (refl, refl, refl)

run-received_example :
    received 20 (after (run quiet_bus script)).log
    ≡ received 20 quiet_bus.log ++ due 20 (wires_of quiet_bus) script
run-received_example = run-received 20 quiet_bus script script-ran
