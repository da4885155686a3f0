-- ===== src/Gpi/Steps.antt =====
-- What the program and the simulator do to the callback registrations, and the states they reach.
use rustdv.Base.{
  ℕ, ◌+◌, ◌≡◌, ◌<◌, Bool, true, false, Option, none, some, List, [], if◌then◌else◌, update,
}
use rustdv.Gpi.Callbacks.{
  one_shot, recurring, CbShared, CallbackHandle, Gpi, Out, fine, panics, fault, register,
  drop_handle, forget, trampoline, trampoline_end,
}

-- `fire h` is the simulator's call for its handle `h`; `return i p` ends the closure that runs for
-- the registration at `i`, with the message of its panic if it panicked.
pub data Op (F : Type 0) : Type 0 where
  register_once : F → ℕ → Option ℕ → Op F
  register_repeat : F → ℕ → Option ℕ → Op F
  drop : ℕ → Op F
  forget_it : ℕ → Op F
  fire : ℕ → Op F
  return : ℕ → Option (List ℕ) → Op F

abbrev pub own : {F : Type 0} → ℕ → Bool → Gpi F → Gpi F
own i b g = record g { owned = update g.owned i b }

abbrev pub keep : {F : Type 0} → Out (CallbackHandle × Gpi F) → Out (Gpi F)
keep (fine (hd, g)) = fine (own hd.shared true g)
keep panics = panics
keep fault = fault

abbrev pub handle_at : ℕ → CallbackHandle
handle_at i = record { shared = i; raw = i; detached = false }

unfoldable pub step : {F : Type 0} → Op F → Gpi F → Out (Gpi F)
unfolding register drop_handle forget trampoline trampoline_end
step (register_once f i h) g = keep (register one_shot (some f) none i h g)
step (register_repeat f i h) g = keep (register recurring none (some f) i h g)
step (drop i) g = drop_handle (handle_at i) (own i false g)
step (forget_it i) g = forget (handle_at i) (own i false g)
step (fire h) g = trampoline (g.sim h) g
step (return i p) g = trampoline_end i p g

abbrev pub FreshHandle : {F : Type 0} → Option ℕ → Gpi F → Type 0
FreshHandle none g = Unit
FreshHandle (some h) g = g.sim h ≡ none

-- What Rust's ownership, the allocator and the simulator keep to: a handle is dropped once, memory
-- is free when it is allocated, the simulator's handle is new, and it calls what it holds.
abbrev pub Allowed : {F : Type 0} → Op F → Gpi F → Type 0
Allowed (register_once f i h) g = ((g.cells i).strong ≡ 0) × FreshHandle h g
Allowed (register_repeat f i h) g = ((g.cells i).strong ≡ 0) × FreshHandle h g
Allowed (drop i) g = g.owned i ≡ true
Allowed (forget_it i) g = g.owned i ≡ true
Allowed (fire h) g = (i : ℕ) × (g.sim h ≡ some i)
Allowed (return i p) g = 0 < g.frames i

abbrev pub vacant : {F : Type 0} → CbShared F
vacant = record {
  kind = one_shot;
  vpi_h = 0;
  released = true;
  once = none;
  repeat = none;
  busy = false;
  strong = 0;
}

abbrev pub start : {F : Type 0} → Gpi F
start = record {
  cells = λ i. vacant;
  owned = λ i. false;
  frames = λ i. 0;
  sim = λ h. none;
  ran = [];
  reports = [];
}

pub data Reach {F : Type 0} : Gpi F → Type 0 where
  at_start : Reach start
  after : {g g' : Gpi F} (op : Op F) → Reach g → Allowed op g → step op g ≡ fine g' → Reach g'

-- The strong count is the handle, the simulator's reference and the calls in flight.
unfoldable pub CellOk : {F : Type 0} → Gpi F → ℕ → Type 0
CellOk g i =
    ((g.cells i).strong
      ≡ (if g.owned i then 1 else 0) + (if (g.cells i).released then 0 else 1) + g.frames i)
    × ((g.cells i).released ≡ false → g.sim (g.cells i).vpi_h ≡ some i)

unfoldable pub SimOk : {F : Type 0} → Gpi F → ℕ → Type 0
SimOk g h = (i : ℕ) → g.sim h ≡ some i → ((g.cells i).vpi_h ≡ h) × ((g.cells i).released ≡ false)

unfoldable pub Counted : {F : Type 0} → Gpi F → Type 0
unfolding CellOk SimOk
Counted g = ((i : ℕ) → CellOk g i) × ((h : ℕ) → SimOk g h)
