-- ===== src/Phase/Writes.antt =====
-- rustdv/rustdv-sim/src/phase.rs: the buffer of scheduled writes coalesces them.
use rustdv.Base.{
  ℕ, ◌≡◌, refl, ap, sym, ◌∙◌, false, List, [], ◌∷◌, ◌++◌, some, arith, ◌==◌, if◌then◌else◌,
  append_assoc, append-nil,
}
use rustdv.Wake.{World}
use rustdv.Phase.{
  prime_rw, Hub, normal, read_write, for_read_write, buffer, schedule, enter, Call, schedules, call,
  run, apply_writes,
}
use rustdv.Phase.Primed.{apply_writes-same, fire_waiters-trigs}

module _ {V : Type 0} where
  -- The last value that the writes give the target, after the value `x`
  abbrev pub last_or : V → ℕ → List (ℕ × V) → V
  last_or x t [] = x
  last_or x t ((u, y) ∷ ws) = last_or (if u == t then y else x) t ws

  -- The writes to other targets
  abbrev pub remove : ℕ → List (ℕ × V) → List (ℕ × V)
  remove t [] = []
  remove t ((u, y) ∷ ws) = if u == t then remove t ws else (u, y) ∷ remove t ws

  -- Each target once, in the order of the first writes, with its last value
  abbrev pub coalesce : List (ℕ × V) → List (ℕ × V)
  coalesce [] = []
  coalesce ((t, v) ∷ ws) = (t, last_or v t ws) ∷ remove t (coalesce ws)

  abbrev pub scheduled : List (ℕ × V) → List (Call V)
  scheduled [] = []
  scheduled ((t, v) ∷ ws) = schedules t v ∷ scheduled ws

  last_or-same : (x : V) (t : ℕ) (v : V) (ws : List (ℕ × V)) → last_or x t (ws ++ (t, v) ∷ []) ≡ v
  last_or-same x t v [] = ground arith
  last_or-same x t v ((u, y) ∷ ws) = last_or-same (if u == t then y else x) t v ws

  last_or-other :
      (x : V) (e t : ℕ) (v : V) (ws : List (ℕ × V))
      → (t == e) ≡ false
      → last_or x e (ws ++ (t, v) ∷ []) ≡ last_or x e ws
  last_or-other x e t v [] n = ground arith
  last_or-other x e t v ((u, y) ∷ ws) n = last_or-other (if u == e then y else x) e t v ws n

  remove-buffer_same : (t : ℕ) (v : V) (ws : List (ℕ × V)) → remove t (buffer t v ws) ≡ remove t ws
  unfolding buffer
  remove-buffer_same t v [] = ground arith
  remove-buffer_same t v ((u, y) ∷ ws) = ground (arith, remove-buffer_same t v ws)

  remove-buffer_other :
      (e t : ℕ) (v : V) (ws : List (ℕ × V))
      → (t == e) ≡ false
      → remove e (buffer t v ws) ≡ buffer t v (remove e ws)
  unfolding buffer
  remove-buffer_other e t v [] n = ground arith
  remove-buffer_other e t v ((u, y) ∷ ws) n = ground (arith, remove-buffer_other e t v ws n)

  pub coalesce-last :
      (t : ℕ) (v : V) (ws : List (ℕ × V)) → coalesce (ws ++ (t, v) ∷ []) ≡ buffer t v (coalesce ws)
  unfolding buffer
  coalesce-last t v [] = refl
  coalesce-last t v ((e, x) ∷ ws) = ground (
    arith,
    coalesce-last t v ws,
    last_or-same x t v ws,
    last_or-other x e t v ws,
    remove-buffer_same t v (coalesce ws),
    remove-buffer_other e t v (coalesce ws),
  )

  call-schedules :
      (w : World (Hub V)) (t : ℕ) (v : V)
      → w.inner.phase ≡ normal
      → call w (schedules t v)
        ≡ some
            (record w { inner = prime_rw (record w.inner { writes = buffer t v w.inner.writes }) })
  unfolding call schedule
  call-schedules w t v p = ground arith

  run-scheduled :
      (w : World (Hub V)) (pre ws : List (ℕ × V))
      → w.inner.phase ≡ normal
      → w.inner.writes ≡ coalesce pre
      → (w' : World (Hub V)) × (run w (scheduled ws) ≡ some w')
        × (w'.inner.writes ≡ coalesce (pre ++ ws))
        × (w'.inner.applied ≡ w.inner.applied)
  unfolding run
  run-scheduled w pre [] p e = (w, refl, rw (append-nil pre) e, refl)
  run-scheduled w pre ((t, v) ∷ ws) p e =
      let h = prime_rw (record w.inner { writes = buffer t v w.inner.writes }) in
      let kept = ap (buffer t v) e ∙ sym (coalesce-last t v pre) in
      let (w', ran, last, same) =
        run-scheduled (record w { inner = h }) (pre ++ (t, v) ∷ []) ws p kept in
      (
        w',
        rw (run, call-schedules w t v p) ran,
        rw (append_assoc pre ((t, v) ∷ []) ws) at last,
        same,
      )

  enter-applied :
      (w : World (Hub V))
      → (enter w for_read_write).inner.applied ≡ w.inner.applied ++ w.inner.writes
  unfolding enter
  enter-applied w =
      let h = record w.inner {
        rw_registered = false;
        rw_cb = false;
        phase = read_write;
        writes = [];
        rw_waiters = [];
      } in
      let w0 = record w { inner = apply_writes h w.inner.writes } in
      ap (λ (k : Hub V). k.applied) (fire_waiters-trigs w0 w.inner.rw_waiters)
      ∙ ap (λ (k : Hub V). k.applied) (apply_writes-same h w.inner.writes)

  -- Writes that tasks schedule in the Normal phase, from an empty buffer, are no panic and reach the
  -- simulator only at the start of the ReadWrite phase. It then gets each target once, in the order of
  -- the first write to each, with the last value written to it.
  pub scheduled-enter :
      (w : World (Hub V)) (ws : List (ℕ × V))
      → w.inner.phase ≡ normal
      → w.inner.writes ≡ []
      → (w' : World (Hub V)) × (run w (scheduled ws) ≡ some w')
        × (w'.inner.applied ≡ w.inner.applied)
        × ((enter w' for_read_write).inner.applied ≡ w.inner.applied ++ coalesce ws)
  scheduled-enter w ws p e =
      let (w', ran, last, same) = run-scheduled w [] ws p e in
      (
        w',
        ran,
        same,
        enter-applied w'
            ∙ ap (λ (k : List (ℕ × V)). k ++ w'.inner.writes) same
            ∙ ap (λ (k : List (ℕ × V)). w.inner.applied ++ k) last,
      )
