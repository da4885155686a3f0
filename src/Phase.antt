-- ===== src/Phase.antt =====
-- The phases of a time step, rustdv/rustdv-sim/src/phase.rs, with the fire/waker cells of triggers.rs
-- beside it. The simulator is not modelled: registering a callback with it sets a flag, it may call a
-- registered callback at any time, and each write that reaches it is recorded in order. A signal's handle
-- and a value are parameters.
pub mod Writes
pub mod Primed
mod Tests
use rustdv.Base.{
  ℕ, ◌+◌, Bool, true, false, List, [], ◌∷◌, ◌++◌, Option, none, some, ◌==◌, if◌then◌else◌, Poll,
  ready, pending, update,
}
use rustdv.Wake.{TaskId, World, wake}

pub data SimPhase : Type 0 where
  normal read_write read_only : SimPhase

pub data PhaseKind : Type 0 where
  for_read_write for_read_only for_next_time : PhaseKind

-- `TrigShared`. It lives as long as the future that holds it; the hub has it weakly.
pub record TrigShared : Type 0 where
  pub fired : Bool
  pub waker : Option TaskId
  pub alive : Bool

-- `Hub`, with every `TrigShared` ever made and the writes that reached the simulator. A handle is a
-- number. `rw_cb`, `ro_cb` and `nt_cb` tell whether the slot holds a callback; whether the simulator has
-- one registered, which it unregisters when it calls it, stands beside each slot.
pub record Hub (V : Type 0) : Type 0 where
  pub phase : SimPhase
  pub rw_waiters : List ℕ
  pub rw_cb : Bool
  pub rw_registered : Bool
  pub ro_waiters : List ℕ
  pub ro_cb : Bool
  pub ro_registered : Bool
  pub nt_waiters : List ℕ
  pub nt_cb : Bool
  pub nt_registered : Bool
  pub writes : List (ℕ × V)
  pub trigs : ℕ → TrigShared
  pub next_trig : ℕ
  pub applied : List (ℕ × V)

-- May this kind be awaited in this phase?
abbrev pub may_await : PhaseKind → SimPhase → Bool
may_await for_read_write read_only = false
may_await for_read_only read_only = false
may_await _ _ = true

module _ {V : Type 0} where
  -- `init_hub`
  unfoldable pub init_hub : Hub V
  init_hub = record {
    phase = normal;
    rw_waiters = [];
    rw_cb = false;
    rw_registered = false;
    ro_waiters = [];
    ro_cb = false;
    ro_registered = false;
    nt_waiters = [];
    nt_cb = false;
    nt_registered = false;
    writes = [];
    trigs = λ _. record { fired = false; waker = none; alive = false };
    next_trig = 0;
    applied = [];
  }

  abbrev pub with_trig : World (Hub V) → ℕ → TrigShared → World (Hub V)
  with_trig w t s = record w { inner = record w.inner { trigs = update w.inner.trigs t s } }

  -- `apply_write`: the call of the simulator's setter
  unfoldable pub apply_write : Hub V → ℕ → V → Hub V
  apply_write h target v = record h { applied = h.applied ++ (target, v) ∷ [] }

  -- `for (sig, val) in &writes { apply_write(*sig, val); }`
  unfoldable pub apply_writes : Hub V → List (ℕ × V) → Hub V
  unfolding apply_write
  apply_writes h [] = h
  apply_writes h ((target, v) ∷ ws) = apply_writes (apply_write h target v) ws

  -- The slot of the target, if there is one, gets the value; else there is a new slot at the end.
  unfoldable pub buffer : ℕ → V → List (ℕ × V) → List (ℕ × V)
  buffer target v [] = (target, v) ∷ []
  buffer target v ((eh, x) ∷ ws) =
      let rest = buffer target v ws in if eh == target then (eh, v) ∷ ws else (eh, x) ∷ rest

  -- If the slot is full nothing changes; else a callback is registered and put into it.
  abbrev pub prime_rw : Hub V → Hub V
  prime_rw h = record h { rw_cb = true; rw_registered = if h.rw_cb then h.rw_registered else true }

  abbrev pub prime_ro : Hub V → Hub V
  prime_ro h = record h { ro_cb = true; ro_registered = if h.ro_cb then h.ro_registered else true }

  abbrev pub prime_nt : Hub V → Hub V
  prime_nt h = record h { nt_cb = true; nt_registered = if h.nt_cb then h.nt_registered else true }

  -- `schedule`; `none` is the panic of a write in the ReadOnly phase.
  unfoldable pub schedule : Hub V → ℕ → V → Option (Hub V)
  unfolding apply_write buffer
  schedule h target v = elim h.phase [
    | read_only ↦ none
    | read_write ↦ some (apply_write h target v)
    | normal ↦ some (prime_rw (record h { writes = buffer target v h.writes }))
  ]

  -- `TrigShared::fire`
  unfoldable pub fire : World (Hub V) → ℕ → World (Hub V)
  fire w t =
      let s = w.inner.trigs t in
      let w' = with_trig w t (record s { fired = true; waker = none }) in
      elim s.waker [ none ↦ w' | some id ↦ record w' { woken = wake w'.woken id } ]

  -- The loop of `fire_waiters`, over the batch that it detached
  unfoldable pub fire_waiters : World (Hub V) → List ℕ → World (Hub V)
  unfolding fire
  fire_waiters w [] = w
  fire_waiters w (t ∷ ts) = fire_waiters (if (w.inner.trigs t).alive then fire w t else w) ts

  abbrev pub waiters_of : PhaseKind → Hub V → List ℕ
  waiters_of for_read_write h = h.rw_waiters
  waiters_of for_read_only h = h.ro_waiters
  waiters_of for_next_time h = h.nt_waiters

  abbrev pub is_registered : PhaseKind → Hub V → Bool
  is_registered for_read_write h = h.rw_registered
  is_registered for_read_only h = h.ro_registered
  is_registered for_next_time h = h.nt_registered

  -- A waiter more
  abbrev pub await_kind : PhaseKind → Hub V → ℕ → Hub V
  await_kind for_read_write h t = prime_rw (record h { rw_waiters = h.rw_waiters ++ t ∷ [] })
  await_kind for_read_only h t = prime_ro (record h { ro_waiters = h.ro_waiters ++ t ∷ [] })
  await_kind for_next_time h t = prime_nt (record h { nt_waiters = h.nt_waiters ++ t ∷ [] })

  -- A poll of a `PhaseFut`, by its kind and its `shared`; `none` is a panic.
  unfoldable pub poll_phase :
      World (Hub V)
      → PhaseKind
      → Option ℕ
      → TaskId
      → Option (World (Hub V) × Option ℕ × Poll (Unit {0}))
  poll_phase w kind (some t) id =
      let s = w.inner.trigs t in
      if s.fired
      then some (w, some t, ready tt)
      else some (with_trig w t (record s { waker = some id }), some t, pending)
  poll_phase w kind none id =
      if may_await kind w.inner.phase
      then (let t = w.inner.next_trig in
          let w' = with_trig w t (record { fired = false; waker = some id; alive = true }) in
          some (
            record w' { inner = await_kind kind (record w'.inner { next_trig = t + 1 }) t },
            some t,
            pending,
          ))
      else none

  -- The end of the future that holds a `TrigShared`
  unfoldable pub drop_trig : World (Hub V) → ℕ → World (Hub V)
  drop_trig w t = with_trig w t (record (w.inner.trigs t) { waker = none; alive = false })

  -- A registered callback up to its run of the executor: `rw_cb.take()` and what follows, and the same
  -- for the other two
  unfoldable pub enter : World (Hub V) → PhaseKind → World (Hub V)
  unfolding apply_writes fire_waiters
  enter w for_read_write =
      let h = record w.inner {
        rw_registered = false;
        rw_cb = false;
        phase = read_write;
        writes = [];
        rw_waiters = [];
      } in
      fire_waiters (record w { inner = apply_writes h w.inner.writes }) w.inner.rw_waiters
  enter w for_read_only =
      let h = record w.inner {
        ro_registered = false;
        ro_cb = false;
        phase = read_only;
        ro_waiters = [];
      } in
      fire_waiters (record w { inner = h }) w.inner.ro_waiters
  enter w for_next_time =
      let h = record w.inner { nt_registered = false; nt_cb = false; nt_waiters = [] } in
      fire_waiters (record w { inner = h }) w.inner.nt_waiters

  -- The end of the callback, after its run of the executor
  unfoldable pub leave : World (Hub V) → PhaseKind → World (Hub V)
  leave w for_next_time = w
  leave w _ = record w { inner = record w.inner { phase = normal } }

-- What the tasks and the simulator do with the hub
pub data Call (V : Type 0) : Type 0 where
  schedules : ℕ → V → Call V
  begins : PhaseKind → TaskId → Call V
  polls : PhaseKind → ℕ → TaskId → Call V
  drops : ℕ → Call V
  enters leaves : PhaseKind → Call V

module _ {V : Type 0} where
  -- A call of a callback that is not registered is no call. `none` is a panic.
  unfoldable pub call : World (Hub V) → Call V → Option (World (Hub V))
  unfolding schedule poll_phase drop_trig enter leave
  call w (schedules target v) = elim (schedule w.inner target v) [
    | none ↦ none
    | some h ↦ some (record w { inner = h })
  ]
  call w (begins kind id) = elim (poll_phase w kind none id) [ none ↦ none | some r ↦ some r.0 ]
  call w (polls kind t id) = elim (poll_phase w kind (some t) id) [
    | none ↦ none
    | some r ↦ some r.0
  ]
  call w (drops t) = some (drop_trig w t)
  call w (enters kind) = if is_registered kind w.inner then some (enter w kind) else some w
  call w (leaves kind) = some (leave w kind)

  unfoldable pub run : World (Hub V) → List (Call V) → Option (World (Hub V))
  run w [] = some w
  run w (c ∷ cs) = elim (call w c) [ none ↦ none | some w' ↦ run w' cs ]
