-- ===== src/Factory.antt =====
-- The factory of rustdv/rustdv-methodology/src/factory.rs, which keeps its overrides in the configuration
-- database. A maker makes a node, and stands for it here. What Rust's `TypeId` of an `Override` is, and its
-- name, are parameters, as is what registrations the linker has collected.
pub mod Typed
pub mod Installs
pub mod Resolve
mod Tests
use rustdv.Base.{
  ℕ, Bool, true, false, List, [], ◌∷◌, ◌++◌, Option, none, some, if◌then◌else◌, Result, ok, err,
}
use rustdv.RustdvPath.{Str, str_eq, is_empty_str}
use rustdv.Config.Store.{Entry, ConfigDb, set, get}

pub record Override (N : Type 0) : Type 0 where
  pub make : N
  pub to : Str

-- What stands in the configuration database: an `Override`, or a value of any other type
pub data Stored (N : Type 0) : Type 0 where
  an_override : Override N → Stored N
  other : Stored N

-- The child slot. The source calls the second field `overridable`.
pub record RustdvComp (N : Type 0) : Type 0 where
  pub inner : Option N
  pub is_overridable : Bool
  pub requested : Option Str

-- `__factory_override__` and the name
unfoldable pub override_key : Str → Str
override_key requested_name =
    b'_' ∷ b'_' ∷ b'f' ∷ b'a' ∷ b'c' ∷ b't' ∷ b'o' ∷ b'r' ∷ b'y' ∷ b'_' ∷ b'o' ∷ b'v' ∷ b'e' ∷ b'r'
    ∷ b'r' ∷ b'i' ∷ b'd' ∷ b'e' ∷ b'_' ∷ b'_' ∷ requested_name

-- `Foo::new_comp()` and `Foo::create_comp()`
module _ {N : Type 0} where
  unfoldable pub fixed : N → RustdvComp N
  fixed n = record { inner = some n; is_overridable = false; requested = none }

  unfoldable pub overridable : N → Str → RustdvComp N
  overridable n requested = record {
    inner = some n;
    is_overridable = true;
    requested = some requested;
  }

  abbrev pub as_override : Stored N → Option (Override N)
  as_override (an_override ov) = some ov
  as_override other = none

  -- The registered maker of a name: a later registration of it replaces an earlier one.
  unfoldable pub registered : List (Str × N) → Str → Option N
  registered [] name = none
  registered ((n, make) ∷ regs) name = elim (registered regs name) [
    | some m ↦ some m
    | none ↦ if str_eq n name then some make else none
  ]

  -- `Factory::create_by_name`; `none` is the panic of a name that is not registered.
  unfoldable pub create_by_name : List (Str × N) → Str → Option (RustdvComp N)
  unfolding registered overridable
  create_by_name regs name = elim (registered regs name) [
    | none ↦ none
    | some make ↦ some (overridable make name)
  ]

-- The path of a child slot
abbrev pub path_of : Str → Str → Str
path_of ctx name = if is_empty_str ctx then name else ctx ++ b'.' ∷ name

-- `TypeId::of::<Override>()`, and its type name
module _ {N : Type 0} (override_id : ℕ) (override_name : Str) where
  -- `Factory::store_override`
  unfoldable pub store_override :
      ConfigDb (Stored N) → Option Str → Str → Str → Str → N → ConfigDb (Stored N)
  unfolding set override_key
  store_override db ctx offset from_name to_name make =
      set db ctx offset (override_key from_name) (record {
        value = an_override (record { make = make; to = to_name });
        type_name = override_name;
        type_id = override_id;
        rendered = b'-' ∷ b'>' ∷ b' ' ∷ to_name;
      })

  unfoldable pub set_type_override : ConfigDb (Stored N) → Str → Str → N → ConfigDb (Stored N)
  unfolding store_override
  set_type_override db from_name to_name make =
      store_override db none (b'*' ∷ []) from_name to_name make

  -- `none` is the panic of a name that is not registered.
  unfoldable pub set_type_override_by_name :
      List (Str × N) → ConfigDb (Stored N) → Str → Str → Option (ConfigDb (Stored N))
  unfolding registered store_override
  set_type_override_by_name regs db from_name to_name = elim (registered regs to_name) [
    | none ↦ none
    | some make ↦ some (store_override db none (b'*' ∷ []) from_name to_name make)
  ]

  unfoldable pub set_inst_override :
      ConfigDb (Stored N) → Str → Str → Str → Str → N → ConfigDb (Stored N)
  unfolding store_override
  set_inst_override db ctx path from_name to_name make =
      store_override db (some ctx) path from_name to_name make

  -- `sort` is the one of the database's `get`.
  module _ (sort : List (Str × Entry (Stored N)) → List (Str × Entry (Stored N))) where
    -- `Factory::lookup_override`
    unfoldable pub lookup_override : ConfigDb (Stored N) → Str → Str → Option (Override N)
    lookup_override db requested_name abs_path =
        elim (get sort db none abs_path (override_key requested_name) override_id override_name) [
          | ok v ↦ as_override v
          | err e ↦ none
        ]

    -- `RustdvComp::resolve`, in the context of the parent's path
    unfoldable pub resolve : RustdvComp N → ConfigDb (Stored N) → Str → Str → RustdvComp N
    resolve slot db ctx name =
        if slot.is_overridable
        then elim slot.requested [
          | none ↦ slot
          | some req ↦ elim (lookup_override db req (path_of ctx name)) [
            | none ↦ record slot { is_overridable = false }
            | some ov ↦ record slot { inner = some ov.make; is_overridable = false }
          ]
        ]
        else slot
