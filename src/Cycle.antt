-- ===== src/Cycle.antt =====
-- The contexts of cycle models, rustdv/rustdv-cycle/src/rustdv_cycle.rs. A raw pointer is `none` when it is
-- null, and the context behind it else. The model's own methods are parameters: what they leave behind,
-- and how they end. A string is its list of bytes.
pub mod Errors
mod Tests
use rustdv.Base.{ℕ, Bool, true, false, List, [], ◌∷◌, ◌++◌, ◌==◌, if◌then◌else◌, Option, none, some}
use rustdv.RustdvPath.{Str}

pub data CycleStatus : Type 0 where
  continue pass fail : CycleStatus

-- `status as u32`
unfoldable pub to_raw : CycleStatus → ℕ
to_raw continue = 0
to_raw pass = 1
to_raw fail = 2

unfoldable pub from_raw : ℕ → Option CycleStatus
from_raw value =
    if value == 0
    then some continue
    else if value == 1
    then some pass
    else if value == 2
    then some fail
    else none

-- How a method of a model ends: with a value, an error or a panic, each with its message
pub data Ended (A : Type 0) : Type 0 where
  returned : A → Ended A
  failed panicked : Str → Ended A

-- `CycleModel`. A method that fails or panics may have changed the model and the outputs before.
pub record CycleModel (M I O : Type 0) : Type 0 where
  pub new : O → O × Ended M
  pub step : M → I → O → M × O × Ended CycleStatus
  pub finish : M → M × Ended (Unit {0})

pub record ExportContext (M : Type 0) : Type 0 where
  pub model : M
  pub error : Str

-- `message.replace('\0', "\\0")`
unfoldable pub without_nuls : Str → Str
without_nuls [] = []
without_nuls (b ∷ bs) =
    let rest = without_nuls bs in if b == 0 then b'\\' ∷ b'0' ∷ rest else b ∷ rest

unfoldable pub has_nul : Str → Bool
has_nul [] = false
has_nul (b ∷ bs) = if b == 0 then true else has_nul bs

-- `cycle model panicked: ` and the message
abbrev pub panic_text : Str → Str
panic_text message =
    b'c' ∷ b'y' ∷ b'c' ∷ b'l' ∷ b'e' ∷ b' ' ∷ b'm' ∷ b'o' ∷ b'd' ∷ b'e' ∷ b'l' ∷ b' ' ∷ b'p' ∷ b'a'
    ∷ b'n' ∷ b'i' ∷ b'c' ∷ b'k' ∷ b'e' ∷ b'd' ∷ b':' ∷ b' ' ∷ message

-- `cycle model panicked during finish: ` and the message
abbrev pub finish_text : Str → Str
finish_text message =
    b'c' ∷ b'y' ∷ b'c' ∷ b'l' ∷ b'e' ∷ b' ' ∷ b'm' ∷ b'o' ∷ b'd' ∷ b'e' ∷ b'l' ∷ b' ' ∷ b'p' ∷ b'a'
    ∷ b'n' ∷ b'i' ∷ b'c' ∷ b'k' ∷ b'e' ∷ b'd' ∷ b' ' ∷ b'd' ∷ b'u' ∷ b'r' ∷ b'i' ∷ b'n' ∷ b'g'
    ∷ b' ' ∷ b'f' ∷ b'i' ∷ b'n' ∷ b'i' ∷ b's' ∷ b'h' ∷ b':' ∷ b' ' ∷ message

-- `CString::new`: a text with a NUL in it is refused, which `set_error` takes for a panic.
unfoldable pub c_string : Str → Option Str
unfolding has_nul
c_string s = if has_nul s then none else some s

module _ {M I O : Type 0} (cm : CycleModel M I O) where
  -- `set_error`; `none` is the panic of the `expect`.
  unfoldable pub set_error : ExportContext M → Str → Option (ExportContext M)
  unfolding c_string without_nuls
  set_error context message = elim (c_string (without_nuls message)) [
    | none ↦ none
    | some s ↦ some (record context { error = s })
  ]

  -- `create_context`, with the outputs, `none` when they are null
  unfoldable pub create_context : Option O → Option O × Option (ExportContext M)
  create_context none = (none, none)
  create_context (some outputs) =
      let (o, r) = cm.new outputs in
      elim r [
        | returned m ↦ (some o, some (record { model = m; error = [] }))
        | failed message ↦ (some o, none)
        | panicked message ↦ (some o, none)
      ]

  -- How a failed call ends: the message kept in the context, and the status `Fail`
  unfoldable pub fail_with :
      ExportContext M → Option O → Str → Option (Option (ExportContext M) × Option O × ℕ)
  unfolding set_error to_raw
  fail_with context outputs message = elim (set_error context message) [
    | none ↦ none
    | some c ↦ some (some c, outputs, to_raw fail)
  ]

  -- `step_context`; the outer `none` is a panic.
  unfoldable pub step_context :
      Option (ExportContext M)
      → Option I
      → Option O
      → Option (Option (ExportContext M) × Option O × ℕ)
  unfolding fail_with to_raw
  step_context none inputs outputs = some (none, outputs, to_raw fail)
  step_context (some c) none outputs = some (some c, outputs, to_raw fail)
  step_context (some c) (some i) none = some (some c, none, to_raw fail)
  step_context (some c) (some i) (some o) =
      let (m, o', r) = cm.step c.model i o in
      let c' = record c { model = m } in
      elim r [
        | returned status ↦ some (some c', some o', to_raw status)
        | failed message ↦ fail_with c' (some o') message
        | panicked message ↦ fail_with c' (some o') (panic_text message)
      ]

  unfoldable pub finish_context :
      Option (ExportContext M) → Option O → Option (Option (ExportContext M) × Option O × ℕ)
  unfolding fail_with to_raw
  finish_context none outputs = some (none, outputs, to_raw fail)
  finish_context (some c) outputs =
      let (m, r) = cm.finish c.model in
      let c' = record c { model = m } in
      elim r [
        | returned _ ↦ some (some c', outputs, to_raw pass)
        | failed message ↦ fail_with c' outputs message
        | panicked message ↦ fail_with c' outputs (finish_text message)
      ]

-- `context_error`
unfoldable pub context_error : {M : Type 0} → Option (ExportContext M) → Option Str
context_error none = none
context_error (some c) = some c.error
