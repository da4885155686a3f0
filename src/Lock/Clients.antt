-- ===== src/Lock/Clients.antt =====
-- The users of one `Lock` of rustdv/rustdv-sim/src/sync.rs. Each client is a task that may hold an
-- `Acquire` future or a `LockGuard`; they take their turns in any order.
use rustdv.Base.{ℕ, update, Poll, ready, pending, []}
use rustdv.Wake.{TaskId, World}
use rustdv.Lock.{LockInner, Acquire, acquire, new, release, poll_acquire, drop_acquire}

pub data Client : Type 0 where
  idle : Client
  trying : Acquire → Client
  holding : Client

pub record Clients : Type 0 where
  pub lock : World LockInner
  pub client : ℕ → Client

-- `starts` calls `acquire`, `polls` polls the future (which is dropped once it is ready), and `leaves`
-- drops what the client has: the future, as a cancelled task does, or the guard.
pub data Event : Type 0 where
  starts leaves : ℕ → Event
  polls : ℕ → TaskId → Event

abbrev pub become : Clients → World LockInner → ℕ → Client → Clients
become s w c k = record { lock = w; client = update s.client c k }

abbrev pub after_poll : Clients → ℕ → World LockInner × Acquire × Poll (Unit {0}) → Clients
after_poll s c (w, f, ready _) = become s (drop_acquire w f) c holding
after_poll s c (w, f, pending) = become s w c (trying f)

abbrev pub start_client : Clients → ℕ → Client → Clients
start_client s c idle = become s s.lock c (trying acquire)
start_client s c (trying f) = s
start_client s c holding = s

abbrev pub poll_client : Clients → ℕ → TaskId → Client → Clients
poll_client s c id idle = s
poll_client s c id (trying f) = after_poll s c (poll_acquire c s.lock f id)
poll_client s c id holding = s

abbrev pub drop_client : Clients → ℕ → Client → Clients
drop_client s c idle = s
drop_client s c (trying f) = become s (drop_acquire s.lock f) c idle
drop_client s c holding = become s (release s.lock) c idle

unfoldable pub step : Clients → Event → Clients
unfolding acquire release poll_acquire drop_acquire
step s (starts c) = start_client s c (s.client c)
step s (polls c id) = poll_client s c id (s.client c)
step s (leaves c) = drop_client s c (s.client c)

-- A new lock, with nobody at it.
unfoldable pub at_rest : Clients
unfolding new
at_rest = record { lock = record { inner = new; woken = [] }; client = λ _. idle }
