-- ===== src/Factory/Tests.antt =====
-- Overrides of rustdv/rustdv-methodology/src/factory.rs on a small tree. Nodes are numbers.
use rustdv.Base.{ℕ, ◌≡◌, refl, true, false, List, [], ◌∷◌, ◌==◌, ◌⊎◌, none, some}
use rustdv.RustdvPath.{Str}
use rustdv.Config.{glob_match, resolve as resolve_path}
use rustdv.Config.Store.{Entry, clear, get}
use rustdv.Factory.{
  Override, Stored, RustdvComp, overridable, fixed, create_by_name, set_type_override,
  set_type_override_by_name, set_inst_override, lookup_override, resolve,
}
use rustdv.Factory.Resolve.{
  Install, on_type, on_inst, building, slot_path, any_applies, all_fit, installed, resolve_once,
}

abbrev driver : Str
driver = b'D' ∷ []

abbrev monitor : Str
monitor = b'M' ∷ []

abbrev env : Str
env = b'e' ∷ []

abbrev slot_name : Str
slot_name = b'd' ∷ []

-- The order of the matches as they come, which is enough for one match
abbrev kept : List (Str × Entry (Stored ℕ)) → List (Str × Entry (Stored ℕ))
kept l = l

abbrev after_type : RustdvComp ℕ
after_type =
    resolve 8 (b'O' ∷ []) kept (overridable 5 driver)
      (set_type_override 8 (b'O' ∷ []) clear driver (b'X' ∷ []) 77) env slot_name

swapped : after_type.inner ≡ some 77
unfolding resolve set_type_override overridable clear lookup_override get glob_match resolve_path
swapped = refl

-- A slot of another type, and a fixed slot, keep their node.
others_kept :
    ((resolve 8
        (b'O' ∷ [])
        kept
        (overridable 5 monitor)
        (set_type_override 8 (b'O' ∷ []) clear driver (b'X' ∷ []) 77)
        env
        slot_name).inner
      ≡ some 5)
    × ((resolve 8
          (b'O' ∷ [])
          kept
          (fixed 5)
          (set_type_override 8 (b'O' ∷ []) clear driver (b'X' ∷ []) 77)
          env
          slot_name).inner
        ≡ some 5)
unfolding resolve set_type_override overridable fixed clear lookup_override get glob_match
    resolve_path
others_kept = (refl, refl)

-- An override of one instance leaves the others alone.
inst_kept :
    ((resolve 8
        (b'O' ∷ [])
        kept
        (overridable 5 driver)
        (set_inst_override 8 (b'O' ∷ []) clear env slot_name driver (b'X' ∷ []) 77)
        env
        slot_name).inner
      ≡ some 77)
    × ((resolve 8
          (b'O' ∷ [])
          kept
          (overridable 5 driver)
          (set_inst_override 8 (b'O' ∷ []) clear env slot_name driver (b'X' ∷ []) 77)
          env
          (b'f' ∷ [])).inner
        ≡ some 5)
unfolding resolve set_inst_override overridable clear lookup_override get glob_match resolve_path
inst_kept = (refl, refl)

abbrev makers : List (Str × ℕ)
makers = (driver, 5) ∷ []

unregistered :
    (create_by_name makers monitor ≡ none)
    × (set_type_override_by_name 8 (b'O' ∷ []) makers clear driver monitor ≡ none)
unfolding create_by_name set_type_override_by_name
unregistered = (refl, refl)

-- Overrides of every driver and of the slot's by node 77; those of another type, and at another path,
-- are by other nodes.
abbrev history : List (Install ℕ)
history =
    on_type driver (b'X' ∷ []) 77
    ∷ building true
    ∷ on_type monitor (b'Y' ∷ []) 78
    ∷ on_inst env (b'f' ∷ []) driver (b'Z' ∷ []) 79
    ∷ on_inst env slot_name driver (b'X' ∷ []) 77
    ∷ []

history_fit : all_fit (λ ov. ov.make == 77) driver (slot_path env slot_name) history ≡ true
unfolding glob_match resolve_path
history_fit = refl

resolve_once_example :
    let db = installed 8 (b'O' ∷ []) clear history in
    let slot = resolve 8 (b'O' ∷ []) kept (overridable 5 driver) db env slot_name in
    let applied = any_applies driver (slot_path env slot_name) history in
    (resolve 8 (b'O' ∷ []) kept slot clear env slot_name ≡ slot)
    × (((applied ≡ false) × (slot.inner ≡ some 5))
        ⊎ ((ov : Override ℕ) × (applied ≡ true)
            × ((ov.make == 77) ≡ true)
            × (slot.inner ≡ some ov.make)))
resolve_once_example =
    resolve_once 8 (b'O' ∷ []) (λ ov. ov.make == 77) kept history 5 driver env slot_name clear env
      slot_name (λ l. refl) (λ l. refl) history_fit
