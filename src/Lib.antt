-- ===== src/Lib.antt =====
-- The verification library of rustdv, a framework for test benches of hardware in Rust.
--
-- A test bench is a set of cooperative tasks on one thread. The executor polls the tasks that are
-- scheduled; a task that has to wait leaves its waker with the object that it waits for, and whoever
-- changes that object wakes the waiting tasks, which pushes their ids onto the woken queue that the
-- executor drains. The objects are events, locks and queues; on queues stand the TLM FIFOs, on events
-- the objections that keep a test phase running, and channels and combinators stand beside them. The
-- values that the simulator hands over are four-state vectors.
--
-- A test is a tree of components, which a walk builds, connects, runs and checks phase by phase; each has
-- its path in the tree, under which it reads the configuration database, asks the factory for children
-- and logs. Components talk through ports, bound by name to FIFOs, buses and the sequencer, which hands
-- the items of sequences to a driver. Tasks await edges, timers and the phases of a time step, which the
-- simulator's callbacks fire.
--
--   Base            numbers, Booleans, lists, `Result` and `Poll`
--   Wake            `TaskWaker`, `WokenQueue` of rustdv/rustdv-sim/src/executor.rs
--   Executor        rustdv/rustdv-sim/src/executor.rs: State has the data and `init`, `spawn_named`,
--                   `drain_woken`, `cancel`, `cancel_after` and the handle; Poll has `poll_task` and
--                   `run_until_idle`; the others prove
--   Event, Lock     rustdv/rustdv-sim/src/sync.rs: `set`, `clear`, `poll_wait`; `release`,
--                   `poll_acquire`, `drop_acquire`. Lock/Clients has the tasks that use a lock, and
--                   Lock/Turns what a lock promises
--   Queue           rustdv/rustdv-sim/src/queue.rs: `try_put`, `try_get`, `try_peek`, and `poll_put`,
--                   `poll_get`, `poll_peek`, `poll_space` for the polls of its futures
--   Combinators     rustdv/rustdv-sim/src/combinators.rs: `first2`, `join2`, `join_all`, `with_timeout`
--   Channel         rustdv/rustdv-methodology/src/channel.rs
--   TlmFifo         rustdv/rustdv-methodology/src/fifo.rs
--   Objection       rustdv/rustdv-methodology/src/objection.rs
--   RustdvPath      rustdv/rustdv-sim/src/path.rs
--   Config          rustdv/rustdv-methodology/src/config.rs: globs and addresses; Config/Store has
--                   `ConfigDb` with `set`, `get`, `exists` and `clear`
--   Sequencer       rustdv/rustdv-methodology/src/sequence.rs: `start_item`, `finish_item`;
--                   Driver has `poll_get_next_item`, `try_next_item` and `item_done`, Responses the
--                   answers, and Bench sequences and a driver that call them in any order
--   Phase           rustdv/rustdv-sim/src/phase.rs: the hub with `schedule`, `poll_phase` and the
--                   callbacks, `enter` before the run of the executor in one and `leave` after it
--   Component       rustdv/rustdv-methodology/src/component.rs: the tree and the walks of its phases;
--                   Build has `build_all`, Run `run_all` and Phaser `run_component_test`
--   Factory         rustdv/rustdv-methodology/src/factory.rs: `resolve` of a child slot, and the overrides
--                   that it looks up in the configuration database; Installs and Typed prove what a
--                   look-up finds
--   Port, Analysis  rustdv/rustdv-methodology/src/port.rs, with `bind` and `sink_of`, and analysis.rs
--                   beside it, with the bus that hands each item written to every subscriber
--   SimDuration     rustdv/rustdv-sim/src/time.rs
--   Triggers        rustdv/rustdv-sim/src/triggers.rs: timers and edges, `value_change` and `timer_fires`
--                   for the callbacks
--   Cycle           rustdv/rustdv-cycle/src/rustdv_cycle.rs: `create_context`, `step_context` and
--                   `finish_context`, over a model whose methods are a parameter
--   Log             rustdv/rustdv-sim/src/log.rs
--   Gpi             rustdv/rustdv-gpi/src/rustdv_gpi.rs: Callbacks has the registrations of callbacks with
--                   `register`, `trampoline` and the drop of a handle, Steps what may happen to them, in
--                   any order; Requests what a registration asks for; Handles and Lookup the objects and
--                   how they are found; Signals the reads and writes of `LogicHandle`, with the words of
--                   rustdv/rustdv-gpi/src/util.rs; the others prove
--   Handle          rustdv/rustdv-sim/src/handle/logic.rs: `set`, `set_now` and the reads, over Phase and Gpi
--   Runner          rustdv/rustdv-runner/src/rustdv_runner.rs: the verdict on a test; Filter has
--                   `apply_testcase_filter`, Whole `run_one` and `regression`
--   TinyAlu         rustdv/tinyalu_tb/src/alu_item.rs and the scoreboard of components.rs beside it; Bfm has
--                   the loops of alu_bfm.rs, one turn at each falling edge of the clock
--   LogicArray      rustdv/rustdv-gpi/src/value.rs; Big is what it uses of the crate `num_bigint`
--
-- State. A shared object (`Rc` with cells) is a record that the operations take and give back. An
-- object whose methods wake tasks is a `World`: the object beside the woken queue. A waker is the id of
-- its task. A future is modelled by its poll. A panic on a future that is polled after its completion
-- is `none`. A history is a list of calls, in whatever order the tasks make them, each with the id of
-- the task; clones of a handle share the object, so that they need no model of their own but for the
-- channel, which counts them.
--
-- What a task does while it is polled is code of the test bench: in Executor it is a program over the
-- requests that the executor serves (`Script`), and what dropping a future does is a function `glue`.
-- In Combinators the poll of a future is a parameter. In Component what a component type does in each
-- phase is a record of functions, `Phases`, and what its own run comes to, a function `ends`: the joined
-- runs interleave as Combinators has it, and the walk only puts their results together.
--
-- In Gpi an `Rc` is an address with its strong count, and the use of freed memory is a fault. The closure
-- of a callback may do anything, so that the call of a callback is two steps, and whatever its closure
-- does stands between them. What the simulator answers is a parameter of each operation. In Runner the
-- body of a test is a function of its world, which says how it ended and what panicked meanwhile; a
-- panic of the regression's own task, at a timeout that the simulator cannot count, is `none`. In Phase
-- the slot of a callback and what the simulator has registered are told apart. The target of a write is
-- the number of its handle. In Analysis a delivery is recorded: a subscriber's handler is code of the test
-- bench, and stands outside the bus.
--
-- Fuel. `run_until_idle` takes fuel, since a test bench may keep itself busy for ever; it is enough if
-- it exceeds a measure that falls in each round. The loop of `flush` takes fuel too, and one more than
-- the number of items is enough. `build_all` takes fuel, one per level of the tree that the components
-- make, and it is enough if a rank falls from each component to its children. All other loops are
-- structural.
--
-- Numbers. Counters and lengths are `usize` and `u64` in the source, and do not wrap in the model: each
-- counts objects in memory or tasks spawned. The words of a vector are below 2^32 by hypothesis, and
-- the integer conversions cut to the width of their type; the steps of a duration wrap at 64 bits. A
-- precedence is an `i32` with 2^31 added, and an exponent of ten is counted from -15 up.
--
-- Not modelled: the clock, a loop of writes and timers; the real
-- variables of the simulator, which are floats; the macros, which generate code; the tracing and the dump
-- of the configuration database; the summary of a regression; the random generator; handlers of
-- subscribers that panic or call the bus again; the white space that is not ASCII, at the ends of a test
-- filter's pieces; and texts of messages.
pub mod Base
pub mod Wake
pub mod Queue
pub mod Event
pub mod Channel
pub mod TlmFifo
pub mod Objection
pub mod Executor
pub mod Gpi
pub mod Lock
pub mod LogicArray
pub mod Combinators
pub mod RustdvPath
pub mod Config
pub mod Factory
pub mod Cycle
pub mod Log
pub mod Sequencer
pub mod Component
pub mod Port
pub mod Analysis
pub mod Phase
pub mod SimDuration
pub mod Triggers
pub mod Handle
pub mod Runner
pub mod TinyAlu
