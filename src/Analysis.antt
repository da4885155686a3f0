-- ===== src/Analysis.antt =====
-- The analysis bus of rustdv/rustdv-methodology/src/analysis.rs over the ports of
-- rustdv/rustdv-methodology/src/port.rs. A subscriber (`Rc<dyn SinkHandle<T>>`) is a number, and a
-- delivery to it is recorded: what its handler does is code of the test bench.
pub mod Delivery
mod Tests
use rustdv.Base.{ℕ, Bool, true, false, List, [], ◌∷◌, ◌++◌, Option, none, some, Result, ok, err}
use rustdv.RustdvPath.{Str}
use rustdv.Port.{Port, PortOwner, Kind, bind, sink_of, iface, subscribe}

abbrev pub Sink : Type 0
Sink = ℕ

-- `HubInner`, beside the subscribe ports and the publish ports of the test bench and the deliveries so
-- far. All publish ports of the bus's kind that are bound are bound to it.
pub record AnalysisBus (T : Type 0) : Type 0 where
  pub subs : List Sink
  pub sinks : ℕ → Port Sink
  pub sources : ℕ → Port (Unit {0})
  pub log : List (Sink × T)

module _ {T : Type 0} where
  -- The loop of `broadcast`, over the subscribers as they were when it began
  unfoldable pub deliver : List Sink → T → List (Sink × T) → List (Sink × T)
  deliver [] item log = log
  deliver (s ∷ subs) item log = deliver subs item (log ++ (s, item) ∷ [])

  unfoldable pub broadcast : AnalysisBus T → T → AnalysisBus T
  unfolding deliver
  broadcast b item = record b { log = deliver b.subs item b.log }

  -- `PublishPort::write`: silent when nothing is connected
  unfoldable pub write : AnalysisBus T → ℕ → T → AnalysisBus T
  unfolding iface broadcast
  write b c item = elim (iface b.sources c) [ none ↦ b | some _ ↦ broadcast b item ]

  -- `PublishExport::connect`; `none` is the panic of a failed bind.
  unfoldable pub connect_source : AnalysisBus T → Kind → PortOwner → Str → Option (AnalysisBus T)
  unfolding bind
  connect_source b kind owner name = elim (bind b.sources owner name kind tt) [
    | err e ↦ none
    | ok cells ↦ some (record b { sources = cells })
  ]

  -- `SubscribeExport::connect`; `none` is its panic.
  unfoldable pub connect_sink : AnalysisBus T → Kind → PortOwner → Str → Option (AnalysisBus T)
  unfolding sink_of
  connect_sink b kind owner name = elim (sink_of b.sinks owner name kind) [
    | err e ↦ none
    | ok s ↦ some (record b { subs = b.subs ++ s ∷ [] })
  ]

-- What a test bench does with the bus
pub data Call (T : Type 0) : Type 0 where
  subscribes : ℕ → Sink → Call T
  joins attaches : Kind → PortOwner → Str → Call T
  writes : ℕ → T → Call T
  publishes : T → Call T

module _ {T : Type 0} where
  unfoldable pub call : AnalysisBus T → Call T → Option (AnalysisBus T)
  unfolding subscribe connect_sink connect_source write broadcast
  call b (subscribes c s) = some (record b { sinks = subscribe b.sinks c s })
  call b (joins kind owner name) = connect_sink b kind owner name
  call b (attaches kind owner name) = connect_source b kind owner name
  call b (writes c item) = some (write b c item)
  call b (publishes item) = some (broadcast b item)

  -- Calls in a row; `none` is a panic of one of them.
  unfoldable pub run : AnalysisBus T → List (Call T) → Option (AnalysisBus T)
  unfolding call
  run b [] = some b
  run b (c ∷ cs) = elim (call b c) [ none ↦ none | some b' ↦ run b' cs ]
