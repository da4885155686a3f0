-- ===== src/Gpi/Fires.antt =====
-- The calls of the simulator: what `trampoline` does to the strong counts, and so every step.
use rustdv.Base.{
  ℕ, suc, ◌+◌, ◌≡◌, ◌≢◌, refl, subst, true, false, Option, none, some, inl, inr, if◌then◌else◌,
  update, arith, Bool-cases, Option-cases,
}
use rustdv.Gpi.Callbacks.{
  one_shot, recurring, Gpi, Out, fine, fault, remove_cb, add_ref, set_cell, trampoline, run_or_drop,
  enter,
}
use rustdv.Gpi.Steps.{
  Op, register_once, register_repeat, drop, forget_it, fire, return, step, Allowed, Reach, at_start,
  after, CellOk, SimOk, Counted,
}
use rustdv.Gpi.Counts.{
  Good, drop_ref-suc, with_refs, drop-Good, forget-Good, register-Good, CbKind-cases, return-Good,
}

abbrev pub taken : {F : Type 0} → ℕ → Gpi F → Gpi F
taken i g = record (set_cell g i (record (g.cells i) { released = true; once = none })) {
  sim = update g.sim (g.cells i).vpi_h none;
}

abbrev pub fired : {F : Type 0} → ℕ → ℕ → Gpi F → Gpi F
fired i n g = with_refs i (suc n) (taken i (with_refs i (suc (suc n)) g))

abbrev pub held : {F : Type 0} → ℕ → ℕ → Gpi F → Gpi F
held i n g =
    let g1 = with_refs i (suc (suc n)) g in set_cell g1 i (record (g1.cells i) { busy = true })

-- What `trampoline` comes to for a one-shot that is not released
pub fire_once :
    {F : Type 0} (i n : ℕ) (g : Gpi F)
    → (g.cells i).kind ≡ one_shot
    → (g.cells i).released ≡ false
    → (g.cells i).strong ≡ suc n
    → g.sim (g.cells i).vpi_h ≡ some i
    → trampoline (some i) g ≡ run_or_drop i (g.cells i).once (fired i n g)
unfolding trampoline add_ref remove_cb
fire_once i n g k r e s =
    ground (arith, drop_ref-suc i (suc n) (taken i (with_refs i (suc (suc n)) g)))

pub fire_repeat :
    {F : Type 0} (i n : ℕ) (f : F) (g : Gpi F)
    → (g.cells i).kind ≡ recurring
    → (g.cells i).busy ≡ false
    → (g.cells i).strong ≡ suc n
    → (g.cells i).repeat ≡ some f
    → trampoline (some i) g ≡ fine (enter i f (held i n g))
unfolding trampoline add_ref
fire_repeat i n f g k b e p = simp (add_ref, e, k, b, p)

fired_counts :
    {F : Type 0} (i n : ℕ) (f : F) (g : Gpi F)
    → Counted g
    → (g.cells i).released ≡ false
    → (g.cells i).strong ≡ suc n
    → Counted (enter i f (fired i n g))
unfolding Counted CellOk SimOk
fired_counts i n f g (hc, hs) r e =
    (λ j. ground (arith, hc j, hc i), λ h j e. ground (arith, hs h j, hs (g.cells i).vpi_h i, hc i))

dropped_counts :
    {F : Type 0} (i n : ℕ) (g : Gpi F)
    → Counted g
    → (g.cells i).released ≡ false
    → (g.cells i).strong ≡ suc n
    → Counted (with_refs i n (fired i n g))
unfolding Counted CellOk SimOk
dropped_counts i n g (hc, hs) r e =
    (λ j. ground (arith, hc j, hc i), λ h j e. ground (arith, hs h j, hs (g.cells i).vpi_h i, hc i))

held_counts :
    {F : Type 0} (i n : ℕ) (f : F) (g : Gpi F)
    → Counted g
    → (g.cells i).strong ≡ suc n
    → Counted (enter i f (held i n g))
unfolding Counted CellOk SimOk
held_counts i n f g (hc, hs) e =
    (λ j. ground (arith, hc j, hc i), λ h j e. ground (arith, hs h j, hc i))

skipped_counts :
    {F : Type 0} (i n : ℕ) (g : Gpi F)
    → Counted g
    → (g.cells i).strong ≡ suc n
    → Counted (with_refs i (suc n) (with_refs i (suc (suc n)) g))
unfolding Counted CellOk SimOk
skipped_counts i n g (hc, hs) e =
    (λ j. ground (arith, hc j, hc i), λ h j e. ground (arith, hs h j, hc i))

once-Good :
    {F : Type 0} (i n : ℕ) (f : Option F) (g : Gpi F)
    → Counted g
    → (g.cells i).released ≡ false
    → (g.cells i).strong ≡ suc n
    → Good (run_or_drop i f (fired i n g))
unfolding run_or_drop
once-Good i n none g c r e =
    rw (drop_ref-suc i n (fired i n g) (ground arith)) (dropped_counts i n g c r e)
once-Good i n (some f) g c r e = fired_counts i n f g c r e

repeat-Good :
    {F : Type 0} (i n : ℕ) (g : Gpi F)
    → Counted g
    → (g.cells i).kind ≡ recurring
    → (g.cells i).strong ≡ suc n
    → Good (trampoline (some i) g)
unfolding trampoline add_ref
repeat-Good i n g c k e = elim (Bool-cases (g.cells i).busy) [
  | inl b ↦ rw (add_ref, e, k, b) tt
  | inr b ↦ elim (Option-cases (g.cells i).repeat) [
    | inl p ↦
        rw
          (add_ref, e, k, b, p, drop_ref-suc i (suc n) (with_refs i (suc (suc n)) g) (ground arith))
          (skipped_counts i n g c e)
    | inr (f, p) ↦ rw (fire_repeat i n f g k b e p) (held_counts i n f g c e)
  ]
]

fire-Good :
    {F : Type 0} (i h : ℕ) (g : Gpi F)
    → Counted g
    → g.sim h ≡ some i
    → Good (trampoline (g.sim h) g)
unfolding Counted CellOk SimOk
fire-Good i h g c s =
    let n = (if g.owned i then 1 else 0) + g.frames i in
    let (v, r) = c.1 h i s in
    let e : (g.cells i).strong ≡ suc n = ground (arith, c.0 i) in
    elim (CbKind-cases (g.cells i).kind) [
      | inl k ↦ rw (s, fire_once i n g k r e ((c.0 i).1 r)) (once-Good i n (g.cells i).once g c r e)
      | inr k ↦ rw s (repeat-Good i n g c k e)
    ]

pub step-Good : {F : Type 0} (op : Op F) (g : Gpi F) → Counted g → Allowed op g → Good (step op g)
unfolding step
step-Good (register_once f i h) g c (z, t) = register-Good one_shot (some f) none i h g c z t
step-Good (register_repeat f i h) g c (z, t) = register-Good recurring none (some f) i h g c z t
step-Good (drop i) g c a = drop-Good i g c a
step-Good (forget_it i) g c a = forget-Good i g c a
step-Good (fire h) g c (i, s) = fire-Good i h g c s
step-Good (return i p) g c t = return-Good i p g c t

fine-Good : {F : Type 0} (o : Out (Gpi F)) (g : Gpi F) → Good o → o ≡ fine g → Counted g
fine-Good o g h e = subst (λ o. Good o) e h

-- In every state that the program and the simulator reach, each registration's strong count is one
-- for the handle that the program owns, one for the simulator's reference while the registration is
-- not released, and one for each call of it in flight; the simulator holds exactly the
-- registrations that are not released.
pub Reach-Counted : {F : Type 0} (g : Gpi F) → Reach g → Counted g
unfolding Counted CellOk SimOk
Reach-Counted g at_start = (λ i. (refl, λ e. ground arith), λ h i e. ground arith)
Reach-Counted g (after op r a e) = fine-Good (step op _) g (step-Good op _ (Reach-Counted _ r) a) e

-- From every state that they reach, no step uses freed memory, takes a count below zero or removes
-- a registration that the simulator does not hold.
pub step_safe : {F : Type 0} (op : Op F) (g : Gpi F) → Reach g → Allowed op g → step op g ≢ fault
step_safe op g r a = λ e. subst (λ o. Good o) e (step-Good op g (Reach-Counted g r) a)
