-- ===== src/Gpi/Once.antt =====
-- How often the closure of a registration runs.
use rustdv.Base.{
  ℕ, suc, ◌+◌, ◌≡◌, ◌≤◌, refl, ap, subst, ◌∙◌, Bool, true, false, Option, none, some, List, [], ◌∷◌,
  ◌++◌, inl, inr, if◌then◌else◌, ◌==◌, arith, Bool-cases, Option-cases,
}
use rustdv.Gpi.Callbacks.{
  CbKind, one_shot, recurring, Gpi, Out, fine, panics, fault, register, drop_handle, drop_body,
  drop_ref, add_ref, forget, trampoline, trampoline_end, run_or_drop, enter,
}
use rustdv.Gpi.Steps.{
  Op, register_once, register_repeat, drop, forget_it, fire, return, step, Allowed, Reach, after,
  CellOk, SimOk, Counted, own, handle_at, keep,
}
use rustdv.Gpi.Counts.{drop_ref-suc, drop_released, drop_live, CbKind-cases, with_refs}
use rustdv.Gpi.Fires.{fired, fire_once, fire_repeat, Reach-Counted}

abbrev pub runs_at : {F : Type 0} → ℕ → List (ℕ × F) → ℕ
runs_at i [] = 0
runs_at i ((j, f) ∷ fs) = (if j == i then 1 else 0) + runs_at i fs

runs_at-last :
    {F : Type 0} (i j : ℕ) (f : F) (fs : List (ℕ × F))
    → runs_at i (fs ++ (j, f) ∷ []) ≡ runs_at i fs + (if j == i then 1 else 0)
runs_at-last i j f [] = omega arith
runs_at-last i j f ((k, x) ∷ fs) = let rest = runs_at-last i j f fs in omega (arith, rest)

-- The runs that a one-shot has had, and the one to come while it is not released
abbrev pub budget : {F : Type 0} → ℕ → Gpi F → ℕ
budget i g = runs_at i g.ran + (if (g.cells i).released then 0 else 1)

abbrev pub Elsewhere : {F : Type 0} → ℕ → Op F → Type 0
Elsewhere i (register_once f j h) = (j == i) ≡ false
Elsewhere i (register_repeat f j h) = (j == i) ≡ false
Elsewhere i (drop j) = Unit
Elsewhere i (forget_it j) = Unit
Elsewhere i (fire h) = Unit
Elsewhere i (return j p) = Unit

-- Steps that register nothing new at the address `i`
pub data Steps {F : Type 0} (i : ℕ) (g : Gpi F) : Gpi F → Type 0 where
  stay : Steps i g g
  more :
      {g' g'' : Gpi F} (op : Op F)
      → Steps i g g'
      → Allowed op g'
      → Elsewhere i op
      → step op g' ≡ fine g''
      → Steps i g g''

-- The one-shot at `i` stays one, and no run is gained.
unfoldable Less : {F : Type 0} → ℕ → Gpi F → Gpi F → Type 0
Less i g g' = ((g'.cells i).kind ≡ one_shot) × (budget i g' ≤ budget i g)

abbrev Ends : {F : Type 0} → ℕ → Gpi F → Out (Gpi F) → Type 0
Ends i g (fine g') = Less i g g'
Ends i g panics = Unit
Ends i g fault = Unit

register-Ends :
    {F : Type 0} (k : CbKind) (f p : Option F) (i j : ℕ) (h : Option ℕ) (g : Gpi F)
    → (g.cells i).kind ≡ one_shot
    → (j == i) ≡ false
    → Ends i g (keep (register k f p j h g))
unfolding register Less
register-Ends k f p i j none g o d = tt
register-Ends k f p i j (some h) g o d = ground arith

drop-Ends :
    {F : Type 0} (i j : ℕ) (g : Gpi F)
    → Counted g
    → (g.cells i).kind ≡ one_shot
    → g.owned j ≡ true
    → Ends i g (drop_handle (handle_at j) (own j false g))
unfolding Counted CellOk Less
drop-Ends i j g c o w = elim (Bool-cases (g.cells j).released) [
  | inl r ↦
      rw (drop_released j (g.frames j) (own j false g) r (ground (arith, c.0 j))) (ground arith)
  | inr r ↦
      rw (drop_live j (g.frames j) (own j false g) r (ground (arith, c.0 j)) ((c.0 j).1 r))
        (ground arith)
]

forget-Ends :
    {F : Type 0} (i j : ℕ) (g : Gpi F)
    → (g.cells i).kind ≡ one_shot
    → Ends i g (forget (handle_at j) (own j false g))
unfolding forget drop_handle drop_body drop_ref Less
forget-Ends i j g o = ground arith

return-Ends :
    {F : Type 0} (i j : ℕ) (p : Option (List ℕ)) (g : Gpi F)
    → (g.cells i).kind ≡ one_shot
    → Ends i g (trampoline_end j p g)
unfolding trampoline_end drop_ref Less
return-Ends i j p g o = ground arith

run-Ends :
    {F : Type 0} (i j n : ℕ) (f : Option F) (g : Gpi F)
    → (g.cells i).kind ≡ one_shot
    → (g.cells j).released ≡ false
    → Ends i g (run_or_drop j f (fired j n g))
unfolding run_or_drop Less
run-Ends i j n none g o r = rw (drop_ref-suc j n (fired j n g) (ground arith)) (ground arith)
run-Ends i j n (some f) g o r = ground (arith, runs_at-last i j f g.ran)

repeat-Ends :
    {F : Type 0} (i j n : ℕ) (g : Gpi F)
    → (g.cells i).kind ≡ one_shot
    → (g.cells j).kind ≡ recurring
    → (g.cells j).strong ≡ suc n
    → Ends i g (trampoline (some j) g)
unfolding trampoline add_ref Less
repeat-Ends i j n g o k e = elim (Bool-cases (g.cells j).busy) [
  | inl b ↦ rw (add_ref, e, k, b) tt
  | inr b ↦ elim (Option-cases (g.cells j).repeat) [
    | inl p ↦
        rw
          (add_ref, e, k, b, p, drop_ref-suc j (suc n) (with_refs j (suc (suc n)) g) (ground arith))
          (ground arith)
    | inr (f, p) ↦ rw (fire_repeat j n f g k b e p) (ground (arith, runs_at-last i j f g.ran))
  ]
]

fire-Ends :
    {F : Type 0} (i j h : ℕ) (g : Gpi F)
    → Counted g
    → (g.cells i).kind ≡ one_shot
    → g.sim h ≡ some j
    → Ends i g (trampoline (g.sim h) g)
unfolding Counted CellOk SimOk
fire-Ends i j h g c o s =
    let n = (if g.owned j then 1 else 0) + g.frames j in
    let (v, r) = c.1 h j s in
    let e : (g.cells j).strong ≡ suc n = ground (arith, c.0 j) in
    elim (CbKind-cases (g.cells j).kind) [
      | inl k ↦ rw (s, fire_once j n g k r e ((c.0 j).1 r)) (run-Ends i j n (g.cells j).once g o r)
      | inr k ↦ rw s (repeat-Ends i j n g o k e)
    ]

step-Ends :
    {F : Type 0} (i : ℕ) (op : Op F) (g : Gpi F)
    → Counted g
    → (g.cells i).kind ≡ one_shot
    → Allowed op g
    → Elsewhere i op
    → Ends i g (step op g)
unfolding step
step-Ends i (register_once f j h) g c o a d = register-Ends one_shot (some f) none i j h g o d
step-Ends i (register_repeat f j h) g c o a d = register-Ends recurring none (some f) i j h g o d
step-Ends i (drop j) g c o a d = drop-Ends i j g c o a
step-Ends i (forget_it j) g c o a d = forget-Ends i j g o
step-Ends i (fire h) g c o (j, s) d = fire-Ends i j h g c o s
step-Ends i (return j p) g c o a d = return-Ends i j p g o

Reach-Steps : {F : Type 0} (i : ℕ) (g g' : Gpi F) → Reach g → Steps i g g' → Reach g'
Reach-Steps i g g' r stay = r
Reach-Steps i g g' r (more op s a d e) = after op (Reach-Steps i g _ r s) a e

Steps-Less :
    {F : Type 0} (i : ℕ) (g g' : Gpi F)
    → Reach g
    → (g.cells i).kind ≡ one_shot
    → Steps i g g'
    → Less i g g'
unfolding Less
Steps-Less i g g' r o stay = (o, omega arith)
Steps-Less i g g' r o (more {g' = m} op s a d e) =
    let (k, l) = Steps-Less i g m r o s in
    let (k', l') =
      subst (λ x. Ends i m x) e
        (step-Ends i op m (Reach-Counted m (Reach-Steps i g m r s)) k a d) in
    (k', omega (arith, l, l'))

-- The drop of the handle releases the registration, and runs nothing.
drop_releases :
    {F : Type 0} (i : ℕ) (g g' : Gpi F)
    → Counted g
    → g.owned i ≡ true
    → step (drop i) g ≡ fine g'
    → ((g'.cells i).released ≡ true) × ((g'.cells i).kind ≡ (g.cells i).kind) × (g'.ran ≡ g.ran)
unfolding Counted CellOk step
drop_releases i g g' c w e = elim (Bool-cases (g.cells i).released) [
  | inl r ↦
      ground (arith, e, drop_released i (g.frames i) (own i false g) r (ground (arith, c.0 i)))
  | inr r ↦
      ground
        (arith, e, drop_live i (g.frames i) (own i false g) r (ground (arith, c.0 i)) ((c.0 i).1 r))
]

-- Whether the program drops its handle of `i` then
pub data Dropping {F : Type 0} (i : ℕ) (g : Gpi F) : Bool → Gpi F → Type 0 where
  keeps : Dropping i g false g
  drops : {g' : Gpi F} → g.owned i ≡ true → step (drop i) g ≡ fine g' → Dropping i g true g'

Dropping-cases :
    {F : Type 0} (i : ℕ) (g g1 g2 : Gpi F) (d : Bool)
    → Reach g
    → (g.cells i).kind ≡ one_shot
    → Steps i g g1
    → Dropping i g1 d g2
    → Reach g2
      × ((g2.cells i).kind ≡ one_shot)
      × (budget i g2 ≤ budget i g)
      × (budget i g2 ≤ runs_at i g1.ran + (if d then 0 else 1))
unfolding Less
Dropping-cases i g g1 _ _ r o s keeps =
    let (k, l) = Steps-Less i g g1 r o s in (Reach-Steps i g g1 r s, k, l, ground arith)
Dropping-cases i g g1 g2 _ r o s (drops w e) =
    let r1 = Reach-Steps i g g1 r s in
    let (k, l) = Steps-Less i g g1 r o s in
    let (gone, same, ran) = drop_releases i g1 g2 (Reach-Counted g1 r1) w e in
    (after (drop i) r1 w e, same ∙ k, ground (arith, l, gone, ran), ground (arith, gone, ran))

-- From a state that is reached, through any steps of the simulator and of the program with no new
-- registration at the address `i`, also while closures run: a one-shot at `i` gains at most one run,
-- and none if it was released before. And whenever the program drops its handle, it gains no run after
-- that.
pub Steps-runs_at :
    {F : Type 0} (i : ℕ) (g g1 g2 g3 : Gpi F) (d : Bool)
    → Reach g
    → (g.cells i).kind ≡ one_shot
    → Steps i g g1
    → Dropping i g1 d g2
    → Steps i g2 g3
    → (runs_at i g3.ran ≤ runs_at i g.ran + (if (g.cells i).released then 0 else 1))
      × (runs_at i g3.ran ≤ runs_at i g1.ran + (if d then 0 else 1))
unfolding Less
Steps-runs_at i g g1 g2 g3 d r o s w t =
    let (r2, k, l, m) = Dropping-cases i g g1 g2 d r o s w in
    let l' = Steps-Less i g2 g3 r2 k t in (omega (arith, l'.1, l), omega (arith, l'.1, m))

-- In a state that is reached, the simulator's call of a one-shot that holds its closure runs that closure, unregisters the
-- one-shot from the simulator and leaves it released, with the closure taken.
pub fire-runs :
    {F : Type 0} (g : Gpi F) (i h : ℕ) (f : F)
    → Reach g
    → g.sim h ≡ some i
    → (g.cells i).kind ≡ one_shot
    → (g.cells i).once ≡ some f
    → (g' : Gpi F) × (step (fire h) g ≡ fine g')
      × (g'.ran ≡ g.ran ++ (i, f) ∷ [])
      × (g'.sim h ≡ none)
      × ((g'.cells i).released ≡ true)
      × ((g'.cells i).once ≡ none)
unfolding step Counted CellOk SimOk run_or_drop
fire-runs g i h f r s k o =
    let c = Reach-Counted g r in
    let n = (if g.owned i then 1 else 0) + g.frames i in
    let (v, q) = c.1 h i s in
    let e : (g.cells i).strong ≡ suc n = ground (arith, c.0 i) in
    (
      enter i f (fired i n g),
      ap (λ x. trampoline x g) s
          ∙ fire_once i n g k q e ((c.0 i).1 q)
          ∙ ap (λ x. run_or_drop i x (fired i n g)) o,
      refl,
      ground arith,
      ground arith,
      ground arith,
    )
