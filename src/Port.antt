-- ===== src/Port.antt =====
-- The ports of rustdv/rustdv-methodology/src/port.rs. The cell of a port (`Rc<RefCell<Option<Rc<I>>>>`) is a
-- number, and the cells stand in a store. What a port wants, which `downcast` compares, is its
-- `Kind`, and ports whose interfaces are values of one type `I` stand in one store.
use rustdv.Base.{
  ℕ, Bool, true, false, List, [], ◌∷◌, Option, none, some, ◌==◌, if◌then◌else◌, Result, ok, err,
  update,
}
use rustdv.RustdvPath.{Str, str_eq}

-- What a port wants: an interface trait at a transaction type
abbrev pub Kind : Type 0
Kind = ℕ

pub record Port (I : Type 0) : Type 0 where
  pub kind : Kind
  pub slot : Option I

-- A component, by its label and its ports' names and cells
pub record PortOwner : Type 0 where
  pub label : Str
  pub ports : List (Str × ℕ)

pub data ConnectError : Type 0 where
  no_such_port wrong_interface no_subscriber : Str → Str → ConnectError

-- `owner_port_slot`: the derived `match` on the port's name
unfoldable pub owner_port_slot : List (Str × ℕ) → Str → Option ℕ
owner_port_slot [] name = none
owner_port_slot ((field, c) ∷ ports) name =
    let rest = owner_port_slot ports name in if str_eq field name then some c else rest

module _ {I : Type 0} where
  -- `slot.downcast()`, of the cell that the owner has under the name
  unfoldable pub typed_slot : (ℕ → Port I) → PortOwner → Str → Kind → Result ℕ ConnectError
  unfolding owner_port_slot
  typed_slot cells owner name kind = elim (owner_port_slot owner.ports name) [
    | none ↦ err (no_such_port owner.label name)
    | some c ↦ if (cells c).kind == kind then ok c else err (wrong_interface owner.label name)
  ]

  -- `bind`: the store after it
  unfoldable pub bind : (ℕ → Port I) → PortOwner → Str → Kind → I → Result (ℕ → Port I) ConnectError
  unfolding typed_slot
  bind cells owner name kind iface = elim (typed_slot cells owner name kind) [
    | err e ↦ err e
    | ok c ↦ ok (update cells c (record (cells c) { slot = some iface }))
  ]

  -- The subscriber that stands in a component's subscribe port
  unfoldable pub sink_of : (ℕ → Port I) → PortOwner → Str → Kind → Result I ConnectError
  unfolding typed_slot
  sink_of cells owner name kind = elim (typed_slot cells owner name kind) [
    | err e ↦ err e
    | ok c ↦ elim (cells c).slot [
      | none ↦ err (no_subscriber owner.label name)
      | some sink ↦ ok sink
    ]
  ]

  unfoldable pub is_bound : (ℕ → Port I) → ℕ → Bool
  is_bound cells c = elim (cells c).slot [ none ↦ false | some _ ↦ true ]

  -- `iface`; `none` is the panic of a port that is used before it is connected.
  unfoldable pub iface : (ℕ → Port I) → ℕ → Option I
  iface cells c = (cells c).slot

  -- `SubscribePort::subscribe`
  unfoldable pub subscribe : (ℕ → Port I) → ℕ → I → ℕ → Port I
  subscribe cells c sink = update cells c (record (cells c) { slot = some sink })
