-- ===== src/Gpi/Callbacks.antt =====
-- Callback registrations: `CbShared`, `CallbackHandle`, `register` and `trampoline` of
-- rustdv/rustdv-gpi/src/rustdv_gpi.rs. An `Rc<CbShared>` is an address with a strong count; the
-- simulator is the table of the registrations that it holds. A fault is a use of freed memory, a
-- strong count below zero, or the removal of a registration that the simulator does not hold.
-- `trampoline` is two steps, up to the closure and after it, so that whatever the closure does is
-- the steps between.
use rustdv.Base.{
  ℕ, zero, suc, ◌-◌, Bool, true, false, Option, none, some, List, [], ◌∷◌, ◌++◌, if◌then◌else◌,
  update,
}

--
pub data CbKind : Type 0 where
  one_shot : CbKind
  recurring : CbKind

--
pub record CbShared (F : Type 0) : Type 0 where
  pub kind : CbKind
  pub vpi_h : ℕ
  pub released : Bool
  pub once : Option F
  pub repeat : Option F
  -- `repeat` is mutably borrowed
  pub busy : Bool
  -- the `Rc`'s strong count
  pub strong : ℕ

--
pub record CallbackHandle : Type 0 where
  pub shared : ℕ
  pub raw : ℕ
  pub detached : Bool

-- The heap of `CbShared`s, the handles that the program owns, the calls of `trampoline` that have
-- not returned, the simulator's table from its handle to `user_data`, the closures run with their
-- address, and the panics reported.
pub record Gpi (F : Type 0) : Type 0 where
  pub cells : ℕ → CbShared F
  pub owned : ℕ → Bool
  pub frames : ℕ → ℕ
  pub sim : ℕ → Option ℕ
  pub ran : List (ℕ × F)
  pub reports : List (List ℕ)

--
pub data Out (S : Type 0) : Type 0 where
  fine : S → Out S
  -- a Rust panic that leaves the operation
  panics : Out S
  fault : Out S

infixl 5 ◌>>=◌
abbrev pub ◌>>=◌ : {S : Type 0} → Out S → (S → Out S) → Out S
fine s >>= f = f s
panics >>= f = panics
fault >>= f = fault

abbrev pub set_cell : {F : Type 0} → Gpi F → ℕ → CbShared F → Gpi F
set_cell g i c = record g { cells = update g.cells i c }

-- `vpi_remove_cb`
unfoldable pub remove_cb : {F : Type 0} → ℕ → Gpi F → Out (Gpi F)
remove_cb h g = elim (g.sim h) [
  | none ↦ fault
  | some i ↦ fine (record g { sim = update g.sim h none })
]

-- An `Rc` to the cell is dropped.
unfoldable pub drop_ref : {F : Type 0} → ℕ → Gpi F → Out (Gpi F)
drop_ref i g = elim (g.cells i).strong [
  | zero ↦ fault
  | suc n ↦ fine (set_cell g i (record (g.cells i) { strong = n }))
]

-- `Rc::increment_strong_count`
unfoldable pub add_ref : {F : Type 0} → ℕ → Gpi F → Out (Gpi F)
add_ref i g = elim (g.cells i).strong [
  | zero ↦ fault
  | suc n ↦ fine (set_cell g i (record (g.cells i) { strong = suc (suc n) }))
]

abbrev pub set_released : {F : Type 0} → ℕ → Gpi F → Gpi F
set_released i g = set_cell g i (record (g.cells i) { released = true })

-- `Drop::drop`, then the drop of the field `shared`
unfoldable pub drop_body : {F : Type 0} → CallbackHandle → Gpi F → Out (Gpi F)
unfolding remove_cb drop_ref
drop_body hd g =
    if hd.detached
    then fine g
    else if (g.cells hd.shared).released
    then fine g
    else remove_cb (g.cells hd.shared).vpi_h (set_released hd.shared g) >>= drop_ref hd.raw

unfoldable pub drop_handle : {F : Type 0} → CallbackHandle → Gpi F → Out (Gpi F)
unfolding drop_ref drop_body
drop_handle hd g = drop_body hd g >>= drop_ref hd.shared

-- `forget` sets the flag of the handle, which is then dropped.
unfoldable pub forget : {F : Type 0} → CallbackHandle → Gpi F → Out (Gpi F)
unfolding drop_handle
forget hd g = drop_handle (record hd { detached = true }) g

-- The allocator puts the cell at address `i`; the simulator answers with its handle, or with null.
unfoldable pub register :
    {F : Type 0}
    → CbKind
    → Option F
    → Option F
    → ℕ
    → Option ℕ
    → Gpi F
    → Out (CallbackHandle × Gpi F)
register kind once repeat i none g = panics
register kind once repeat i (some h) g = fine (
  record { shared = i; raw = i; detached = false },
  record (set_cell g i (record {
    kind = kind;
    vpi_h = h;
    released = false;
    once = once;
    repeat = repeat;
    busy = false;
    strong = 2;
  })) { sim = update g.sim h (some i) },
)

abbrev pub enter : {F : Type 0} → ℕ → F → Gpi F → Gpi F
enter i f g = record g { ran = g.ran ++ (i, f) ∷ []; frames = update g.frames i (suc (g.frames i)) }

-- A closure to run, or none
unfoldable pub run_or_drop : {F : Type 0} → ℕ → Option F → Gpi F → Out (Gpi F)
unfolding drop_ref
run_or_drop i none g = drop_ref i g
run_or_drop i (some f) g = fine (enter i f g)

-- `trampoline`, up to the call of the closure
unfoldable pub trampoline : {F : Type 0} → Option ℕ → Gpi F → Out (Gpi F)
unfolding add_ref drop_ref remove_cb run_or_drop
trampoline none g = fine g
trampoline (some i) g =
    let c = g.cells i in
    add_ref i g >>= λ g1. elim c.kind [
      | one_shot ↦
          if c.released
          then drop_ref i g1
          else remove_cb c.vpi_h
              (set_cell g1 i (record (g1.cells i) { released = true; once = none }))
            >>= drop_ref i
            >>= run_or_drop i c.once
      | recurring ↦ if c.busy then panics else elim c.repeat [
        | none ↦ drop_ref i g1
        | some f ↦ fine (enter i f (set_cell g1 i (record (g1.cells i) { busy = true })))
      ]
    ]

-- `report_panic`, with the message of the payload, where a closure panicked
abbrev pub reported : Option (List ℕ) → List (List ℕ) → List (List ℕ)
reported none rs = rs
reported (some msg) rs = rs ++ msg ∷ []

-- `trampoline`, from the return of the closure on, or from its panic with the message
unfoldable pub trampoline_end : {F : Type 0} → ℕ → Option (List ℕ) → Gpi F → Out (Gpi F)
unfolding drop_ref
trampoline_end i p g =
    let g1 = record g {
      frames = update g.frames i (g.frames i - 1);
      reports = reported p g.reports;
    } in
    drop_ref i (elim (g.cells i).kind [
      | one_shot ↦ g1
      | recurring ↦ set_cell g1 i (record (g1.cells i) { busy = false })
    ])
