-- ===== src/Phase/Primed.antt =====
-- rustdv/rustdv-sim/src/phase.rs: nothing that was asked for is forgotten.
use rustdv.Base.{
  ℕ, ◌≡◌, refl, ◌∙◌, Bool, true, false, List, [], ◌∷◌, ◌++◌, Option, none, some, arith, ◌⊎◌, inl,
  inr, In, In-append_left, In-append_right, Option-cases, Bool-cases, append-nil, append_assoc, ◌≢◌,
  if◌then◌else◌, Poll,
}
use rustdv.Wake.{TaskId, World}
use rustdv.Phase.{
  Hub, TrigShared, PhaseKind, read_write, read_only, for_read_write, for_read_only, for_next_time,
  waiters_of, is_registered, fire, fire_waiters, apply_write, apply_writes, enter, poll_phase, Call,
  schedules, begins, polls, drops, enters, leaves, call, run, init_hub,
}

-- Does the trigger hold the waker of a task?
abbrev pub is_held : TrigShared → Bool
is_held s = elim s.waker [ none ↦ false | some _ ↦ true ]

module _ {V : Type 0} where
  -- A trigger stands in a list of waiters, and the callback that goes through that list is registered.
  abbrev pub Awaited : Hub V → ℕ → Type 0
  Awaited h t =
      (In t h.rw_waiters × (h.rw_registered ≡ true))
      ⊎ (In t h.ro_waiters × (h.ro_registered ≡ true))
      ⊎ (In t h.nt_waiters × (h.nt_registered ≡ true))

  pub record IsPrimed (h : Hub V) : Type 0 where
    pub awaited : (t : ℕ) → (h.trigs t).alive ≡ true → (h.trigs t).fired ≡ false → Awaited h t
    pub held :
        (t : ℕ) → (h.trigs t).alive ≡ true → (h.trigs t).fired ≡ false → is_held (h.trigs t) ≡ true
    pub slots :
        (h.rw_registered ≡ h.rw_cb) × (h.ro_registered ≡ h.ro_cb) × (h.nt_registered ≡ h.nt_cb)
    pub written : (h.writes ≡ []) ⊎ (h.rw_registered ≡ true)

  pub apply_writes-same :
      (h : Hub V) (ws : List (ℕ × V)) → apply_writes h ws ≡ record h { applied = h.applied ++ ws }
  unfolding apply_writes apply_write
  apply_writes-same h [] = ground (arith, append-nil h.applied)
  apply_writes-same h ((target, v) ∷ ws) = ground (
    arith,
    apply_writes-same (apply_write h target v) ws,
    append_assoc h.applied ((target, v) ∷ []) ws,
  )

  -- Firing changes nothing of the hub but the triggers that it fires.
  pub fire_waiters-trigs :
      (w : World (Hub V)) (ts : List ℕ)
      → (fire_waiters w ts).inner ≡ record w.inner { trigs = (fire_waiters w ts).inner.trigs }
  unfolding fire_waiters
  fire_waiters-trigs w [] = refl
  fire_waiters-trigs w (t ∷ ts) =
      ground (arith, fire_waiters-trigs (if (w.inner.trigs t).alive then fire w t else w) ts)

  fire_one :
      (w : World (Hub V)) (u t : ℕ)
      → let w' = if (w.inner.trigs u).alive then fire w u else w in
        (w'.inner.trigs t).alive ≡ true
        → (w'.inner.trigs t).fired ≡ false
        → (w'.inner.trigs t ≡ w.inner.trigs t) × (t ≢ u)
  unfolding fire
  fire_one w u t a h = ground arith

  -- A trigger that is still to fire is as it was, and was not in the list.
  fire_waiters-fired :
      (w : World (Hub V)) (ts : List ℕ) (t : ℕ)
      → let s = (fire_waiters w ts).inner.trigs t in
        s.alive ≡ true → s.fired ≡ false → (s ≡ w.inner.trigs t) × ¬ In t ts
  unfolding fire_waiters
  fire_waiters-fired w [] t a h = (refl, λ m. m)
  fire_waiters-fired w (u ∷ us) t a h =
      let w' = if (w.inner.trigs u).alive then fire w u else w in
      let (same, absent) = fire_waiters-fired w' us t a h in
      let (before, other) = fire_one w u t (rw same at a) (rw same at h) in
      (same ∙ before, λ m. elim m [ inl e ↦ other e | inr n ↦ absent n ])

  -- The waiters that fire need no callback any more.
  fire_waiters-IsPrimed :
      (w : World (Hub V)) (ts : List ℕ)
      → ((t : ℕ)
          → (w.inner.trigs t).alive ≡ true
          → (w.inner.trigs t).fired ≡ false
          → (In t ts ⊎ Awaited w.inner t) × (is_held (w.inner.trigs t) ≡ true))
      → (w.inner.rw_registered ≡ w.inner.rw_cb)
        × (w.inner.ro_registered ≡ w.inner.ro_cb)
        × (w.inner.nt_registered ≡ w.inner.nt_cb)
      → (w.inner.writes ≡ []) ⊎ (w.inner.rw_registered ≡ true)
      → IsPrimed (fire_waiters w ts).inner
  fire_waiters-IsPrimed w ts each sl ws = record {
    awaited = λ t a f.
        let (same, absent) = fire_waiters-fired w ts t a f in
        elim (each t (rw same at a) (rw same at f)).0 [
          | inl m ↦ elim (absent m) [ ]
          | inr k ↦ rw (fire_waiters-trigs w ts) k
        ];
    held = λ t a f.
        let (same, absent) = fire_waiters-fired w ts t a f in
        rw (same, (each t (rw same at a) (rw same at f)).1);
    slots = rw (fire_waiters-trigs w ts) sl;
    written = rw (fire_waiters-trigs w ts) ws;
  }

  enter-IsPrimed :
      (w : World (Hub V)) (kind : PhaseKind) → IsPrimed w.inner → IsPrimed (enter w kind).inner
  unfolding enter
  enter-IsPrimed w for_read_write v =
      let h = record w.inner {
        rw_registered = false;
        rw_cb = false;
        phase = read_write;
        writes = [];
        rw_waiters = [];
      } in
      rw (apply_writes-same h w.inner.writes) (
        fire_waiters-IsPrimed
          (record w { inner = record h { applied = h.applied ++ w.inner.writes } })
          w.inner.rw_waiters
          (λ t a f.
            (elim (v.awaited t a f) [ inl k ↦ inl k.0 | inr k ↦ inr (inr k) ], v.held t a f))
          (refl, v.slots.1, v.slots.2) (inl refl))
  enter-IsPrimed w for_read_only v =
      fire_waiters-IsPrimed
        (record w {
          inner = record w.inner {
            ro_registered = false;
            ro_cb = false;
            phase = read_only;
            ro_waiters = [];
          };
        })
        w.inner.ro_waiters
        (λ t a f. (
          elim (v.awaited t a f) [
            | inl k ↦ inr (inl k)
            | inr (inl k) ↦ inl k.0
            | inr (inr k) ↦ inr (inr (inr k))
          ],
          v.held t a f,
        ))
        (v.slots.0, refl, v.slots.2) v.written
  enter-IsPrimed w for_next_time v =
      fire_waiters-IsPrimed
        (record w {
          inner = record w.inner { nt_registered = false; nt_cb = false; nt_waiters = [] };
        })
        w.inner.nt_waiters
        (λ t a f. (
          elim (v.awaited t a f) [
            | inl k ↦ inr (inl k)
            | inr (inl k) ↦ inr (inr (inl k))
            | inr (inr k) ↦ inl k.0
          ],
          v.held t a f,
        ))
        (v.slots.0, v.slots.1, refl) v.written

  begin-IsPrimed :
      (w : World (Hub V)) (kind : PhaseKind) (id : TaskId)
      {r : World (Hub V) × Option ℕ × Poll (Unit {0})}
      → poll_phase w kind none id ≡ some r
      → IsPrimed w.inner
      → IsPrimed r.0.inner
  unfolding poll_phase
  begin-IsPrimed w kind id e v =
      let n = w.inner.next_trig in
      let old = waiters_of kind w.inner in
      record {
        awaited = λ t a f. ground (
          arith,
          In-append_left t old (n ∷ []),
          In-append_right t old (n ∷ []),
          v.awaited t,
          v.slots,
        );
        held = λ t a f. ground (arith, v.held t);
        slots = ground (arith, v.slots);
        written = ground (arith, v.written);
      }

  poll-IsPrimed :
      (w : World (Hub V)) (kind : PhaseKind) (n : ℕ) (id : TaskId)
      {r : World (Hub V) × Option ℕ × Poll (Unit {0})}
      → poll_phase w kind (some n) id ≡ some r
      → IsPrimed w.inner
      → IsPrimed r.0.inner
  unfolding poll_phase
  poll-IsPrimed w kind n id e v = record {
    awaited = λ t a f. ground (arith, v.awaited t);
    held = λ t a f. ground (arith, v.held t);
    slots = ground (arith, v.slots);
    written = ground arith;
  }

  call-IsPrimed :
      (w : World (Hub V)) (c : Call V) {w' : World (Hub V)}
      → call w c ≡ some w'
      → IsPrimed w.inner
      → IsPrimed w'.inner
  unfolding call
  call-IsPrimed w (schedules target x) e v = ground arith
  call-IsPrimed w (begins kind id) e v = elim (Option-cases (poll_phase w kind none id)) [
    | inl n ↦ ground (arith, n)
    | inr (r, p) ↦ ground (arith, p, begin-IsPrimed w kind id p v)
  ]
  call-IsPrimed w (polls kind t id) e v = elim (Option-cases (poll_phase w kind (some t) id)) [
    | inl n ↦ ground (arith, n)
    | inr (r, p) ↦ ground (arith, p, poll-IsPrimed w kind t id p v)
  ]
  call-IsPrimed w (drops t) e v = ground arith
  call-IsPrimed w (enters kind) e v = elim (Bool-cases (is_registered kind w.inner)) [
    | inl on ↦ ground (arith, on, enter-IsPrimed w kind v)
    | inr off ↦ ground (arith, off)
  ]
  call-IsPrimed w (leaves kind) e v = ground arith

  run-IsPrimed :
      (w : World (Hub V)) (cs : List (Call V)) {w' : World (Hub V)}
      → run w cs ≡ some w'
      → IsPrimed w.inner
      → IsPrimed w'.inner
  unfolding run
  run-IsPrimed w [] e v = ground (arith, v)
  run-IsPrimed w (c ∷ cs) e v = elim (Option-cases (call w c)) [
    | inl n ↦ ground (arith, n)
    | inr (w1, p) ↦ run-IsPrimed w1 cs (rw (run, p) at e) (call-IsPrimed w c p v)
  ]

  init_hub-IsPrimed : IsPrimed init_hub
  unfolding init_hub
  init_hub-IsPrimed = record {
    awaited = λ t a f. ground arith;
    held = λ t a f. ground arith;
    slots = (refl, refl, refl);
    written = inl refl;
  }

  -- Whatever the tasks and the simulator do from the start on, as long as no call is a panic: a trigger
  -- that its future still holds and that has not fired stands in a list of waiters whose callback the
  -- simulator has registered, and holds the waker of a task; and when a write is still in the buffer,
  -- the simulator has the ReadWrite callback, which applies it.
  pub run-Awaited :
      (woken : List TaskId) (cs : List (Call V)) (w : World (Hub V)) (t : ℕ)
      → run (record { woken = woken; inner = init_hub }) cs ≡ some w
      → (w.inner.trigs t).alive ≡ true
      → (w.inner.trigs t).fired ≡ false
      → Awaited w.inner t
        × (is_held (w.inner.trigs t) ≡ true)
        × ((w.inner.writes ≡ []) ⊎ (w.inner.rw_registered ≡ true))
  run-Awaited woken cs w t e a f =
      let v = run-IsPrimed (record { woken = woken; inner = init_hub }) cs e init_hub-IsPrimed in
      (v.awaited t a f, v.held t a f, v.written)
