-- ===== src/Gpi/Counts.antt =====
-- The strong counts of the callback registrations: each step keeps them right, and none faults.
use rustdv.Base.{
  ℕ, suc, ◌+◌, ◌-◌, ◌≡◌, ◌<◌, refl, true, false, Option, none, some, List, ◌⊎◌, inl, inr,
  if◌then◌else◌, update, ◌==◌, arith, Bool-cases,
}
use rustdv.Gpi.Callbacks.{
  CbKind, one_shot, recurring, Gpi, Out, fine, panics, fault, register, drop_handle, drop_body,
  drop_ref, remove_cb, set_cell, forget, trampoline_end, reported,
}
use rustdv.Gpi.Steps.{CellOk, SimOk, Counted, own, handle_at, keep, FreshHandle}

-- A step that ends well keeps the counts.
abbrev pub Good : {F : Type 0} → Out (Gpi F) → Type 0
Good (fine g) = Counted g
Good panics = Unit
Good fault = ⊥

-- `drop_ref` at a count that is not zero
pub drop_ref-suc :
    {F : Type 0} (i n : ℕ) (g : Gpi F)
    → (g.cells i).strong ≡ suc n
    → drop_ref i g ≡ fine (set_cell g i (record (g.cells i) { strong = n }))
unfolding drop_ref
drop_ref-suc i n g e = rw (drop_ref, e)

abbrev pub freed : {F : Type 0} → ℕ → Gpi F → Gpi F
freed i g = record (set_cell g i (record (g.cells i) { released = true })) {
  sim = update g.sim (g.cells i).vpi_h none;
}

-- Released, with `n` references
abbrev pub with_refs : {F : Type 0} → ℕ → ℕ → Gpi F → Gpi F
with_refs i n g = set_cell g i (record (g.cells i) { strong = n })

pub drop_live :
    {F : Type 0} (i n : ℕ) (g : Gpi F)
    → (g.cells i).released ≡ false
    → (g.cells i).strong ≡ suc (suc n)
    → g.sim (g.cells i).vpi_h ≡ some i
    → drop_handle (handle_at i) g ≡ fine (with_refs i n (with_refs i (suc n) (freed i g)))
unfolding drop_handle drop_body remove_cb
drop_live i n g r e s =
    ground (
      arith,
      drop_ref-suc i (suc n) (freed i g),
      drop_ref-suc i n (with_refs i (suc n) (freed i g)),
    )

pub drop_released :
    {F : Type 0} (i n : ℕ) (g : Gpi F)
    → (g.cells i).released ≡ true
    → (g.cells i).strong ≡ suc n
    → drop_handle (handle_at i) g ≡ fine (with_refs i n g)
unfolding drop_handle drop_body
drop_released i n g r e = ground (arith, drop_ref-suc i n g)

pub same_or_not : (i j : ℕ) → ((j ≡ i) × ((j == i) ≡ true)) ⊎ ((j == i) ≡ false)
same_or_not i j = ground arith

pub live_counts :
    {F : Type 0} (i : ℕ) (g : Gpi F)
    → Counted g
    → g.owned i ≡ true
    → (g.cells i).released ≡ false
    → Counted (with_refs i (g.frames i) (with_refs i (suc (g.frames i)) (freed i (own i false g))))
unfolding Counted CellOk SimOk
live_counts i g (hc, hs) o r = (
  λ j. ground (arith, hc j, hc i, hs (g.cells i).vpi_h i, hs (g.cells i).vpi_h j),
  λ h j e. ground (arith, hs h j, hs (g.cells i).vpi_h i, hc i),
)

pub released_counts :
    {F : Type 0} (i n : ℕ) (g : Gpi F)
    → Counted g
    → g.owned i ≡ true
    → (if (g.cells i).released then 0 else 1) + g.frames i ≡ n
    → Counted (with_refs i n (own i false g))
unfolding Counted CellOk SimOk
released_counts i n g (hc, hs) o r =
    (λ j. ground (arith, hc j, hc i), λ h j e. ground (arith, hs h j, hc i))

pub drop-Good :
    {F : Type 0} (i : ℕ) (g : Gpi F)
    → Counted g
    → g.owned i ≡ true
    → Good (drop_handle (handle_at i) (own i false g))
unfolding Counted CellOk
drop-Good i g c o = elim (Bool-cases (g.cells i).released) [
  | inl r ↦
      rw (drop_released i (g.frames i) (own i false g) r (ground (arith, c.0 i)))
        (released_counts i (g.frames i) g c o (ground arith))
  | inr r ↦
      rw (drop_live i (g.frames i) (own i false g) r (ground (arith, c.0 i)) ((c.0 i).1 r))
        (live_counts i g c o r)
]

pub forget-Good :
    {F : Type 0} (i : ℕ) (g : Gpi F)
    → Counted g
    → g.owned i ≡ true
    → Good (forget (handle_at i) (own i false g))
unfolding Counted CellOk forget drop_handle drop_body
forget-Good i g c o =
    let n = (if (g.cells i).released then 0 else 1) + g.frames i in
    rw (drop_ref-suc i n (own i false g) (ground (arith, c.0 i))) (released_counts i n g c o refl)

pub register-Good :
    {F : Type 0} (k : CbKind) (f p : Option F) (i : ℕ) (h : Option ℕ) (g : Gpi F)
    → Counted g
    → (g.cells i).strong ≡ 0
    → FreshHandle h g
    → Good (keep (register k f p i h g))
unfolding Counted CellOk SimOk register
register-Good k f p i none g c z t = tt
register-Good k f p i (some h) g (hc, hs) z t =
    (λ j. ground (arith, hc j, hc i), λ h' j e. ground (arith, hs h' j, hc i))

pub CbKind-cases : (k : CbKind) → (k ≡ one_shot) ⊎ (k ≡ recurring)
CbKind-cases one_shot = inl refl
CbKind-cases recurring = inr refl

abbrev pub back : {F : Type 0} → ℕ → List (List ℕ) → Gpi F → Gpi F
back i rs g = record g { frames = update g.frames i (g.frames i - 1); reports = rs }

abbrev pub idle : {F : Type 0} → ℕ → Gpi F → Gpi F
idle i g = set_cell g i (record (g.cells i) { busy = false })

pub back_counts :
    {F : Type 0} (i n : ℕ) (rs : List (List ℕ)) (g : Gpi F)
    → Counted g
    → g.frames i ≡ suc n
    → (m : ℕ) → (g.cells i).strong ≡ suc m
    → Counted (with_refs i m (back i rs g))
unfolding Counted CellOk SimOk
back_counts i n rs g (hc, hs) t m e =
    (λ j. ground (arith, hc j, hc i), λ h j e. ground (arith, hs h j, hc i))

pub idle_counts : {F : Type 0} (i : ℕ) (g : Gpi F) → Counted g → Counted (idle i g)
unfolding Counted CellOk SimOk
idle_counts i g (hc, hs) = (λ j. ground (arith, hc j, hc i), λ h j e. ground (arith, hs h j, hc i))

pub return-Good :
    {F : Type 0} (i : ℕ) (p : Option (List ℕ)) (g : Gpi F)
    → Counted g
    → 0 < g.frames i
    → Good (trampoline_end i p g)
unfolding Counted CellOk SimOk trampoline_end
return-Good i p g c t =
    let m =
      (if g.owned i then 1 else 0) + (if (g.cells i).released then 0 else 1) + (g.frames i - 1) in
    let rs = reported p g.reports in
    elim (CbKind-cases (g.cells i).kind) [
      | inl k ↦
          rw (k, drop_ref-suc i m (back i rs g) (ground (arith, c.0 i)))
            (back_counts i (g.frames i - 1) rs g c (ground arith) m (ground (arith, c.0 i)))
      | inr k ↦
          rw (k, drop_ref-suc i m (idle i (back i rs g)) (ground (arith, c.0 i)))
            (back_counts i (g.frames i - 1) rs (idle i g) (idle_counts i g c) (ground arith) m
              (ground (arith, c.0 i)))
    ]
