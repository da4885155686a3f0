-- ===== src/Component.antt =====
-- The component tree and its phases, rustdv/rustdv-methodology/src/component.rs. What a component type does
-- in a phase is a parameter, `Phases`: it changes the component's own fields and the world, which is all that
-- is outside the tree (configuration, logs, objections, port cells); a component's children are changed by
-- their own methods only. A context is its path, the rest of it is shared and part of the world. Texts of
-- messages are not built: an error carries what its text lists.
pub mod Build
pub mod Walk
pub mod Ports
pub mod Checks
pub mod Run
pub mod Whole
pub mod Outcome
pub mod Phaser
mod Tests
use rustdv.Base.{
  ℕ, Bool, true, false, List, [], ◌∷◌, ◌++◌, ◌&&◌, not, if◌then◌else◌, Result, ok, err,
}
use rustdv.RustdvPath.{Str, RustdvPath, child}

-- How a parent holds a child: in a `RustdvComp`, whose box can be moved out, or in a field of its own
pub data Held : Type 0 where
  boxed in_place : Held

-- A component with fields `D` of its own, and its children in the order of their declaration. A slot is
-- `emptied` while its `RustdvComp` has no node.
mutual
  pub data Node (D : Type 0) : Type 0 where
    node : D → Children D → Node D

  pub data Children (D : Type 0) : Type 0 where
    no_more : Children D
    child_of : Str → Held → Node D → Children D → Children D
    emptied : Str → Children D → Children D

-- One phase method
abbrev pub Act : (D W : Type 0) → Type 0
Act D W = RustdvPath → D → W → D × W

pub record PortInfo : Type 0 where
  pub name : Str
  pub kind : Str
  pub required : Bool
  pub connected : Bool

-- A port that nobody connected: `path.name (kind)`
pub record Missing : Type 0 where
  pub owner : RustdvPath
  pub name : Str
  pub kind : Str

-- The methods of `Component` and `ComponentNode`, by a component's own fields. `build` also makes
-- children; `check` is given the errors so far and reports its own, in order.
pub record Phases (D W : Type 0) : Type 0 where
  pub build : RustdvPath → D → Children D → W → D × Children D × W
  pub resolve_children : RustdvPath → Children D → W → Children D
  pub connect : Act D W
  pub end_of_elaboration : Act D W
  pub start_of_simulation : Act D W
  pub start : Act D W
  pub extract : Act D W
  pub check : RustdvPath → D → W → List Str → D × W × List Str
  pub report : Act D W
  pub final_phase : Act D W
  pub port_infos : D → W → List PortInfo

-- `CheckSink`: its errors
abbrev pub CheckSink : Type 0
CheckSink = List Str

-- `CheckSink::error`, for each message
unfoldable pub error : CheckSink → List Str → CheckSink
error sink [] = sink
error sink (msg ∷ msgs) = error (sink ++ msg ∷ []) msgs

unfoldable pub into_result : CheckSink → Result (Unit {0}) CheckSink
into_result [] = ok tt
into_result (e ∷ es) = err (e ∷ es)

-- The node acts, then its children.
unfoldable mutual
  pub top_down : {D W : Type 0} → Act D W → RustdvPath → Node D → W → Node D × W
  top_down act p (node d cs) w =
      let (d', w1) = act p d w in let (cs', w2) = top_down_children act p cs w1 in (node d' cs', w2)

  pub top_down_children : {D W : Type 0} → Act D W → RustdvPath → Children D → W → Children D × W
  top_down_children act p no_more w = (no_more, w)
  top_down_children act p (emptied name cs) w =
      let (cs', w1) = top_down_children act p cs w in (emptied name cs', w1)
  top_down_children act p (child_of name held n cs) w =
      let (n', w1) = top_down act (child p name) n w in
      let (cs', w2) = top_down_children act p cs w1 in (child_of name held n' cs', w2)

-- The children first, then the node.
unfoldable mutual
  pub bottom_up : {D W : Type 0} → Act D W → RustdvPath → Node D → W → Node D × W
  bottom_up act p (node d cs) w =
      let (cs', w1) = bottom_up_children act p cs w in
      let (d', w2) = act p d w1 in (node d' cs', w2)

  pub bottom_up_children : {D W : Type 0} → Act D W → RustdvPath → Children D → W → Children D × W
  bottom_up_children act p no_more w = (no_more, w)
  bottom_up_children act p (emptied name cs) w =
      let (cs', w1) = bottom_up_children act p cs w in (emptied name cs', w1)
  bottom_up_children act p (child_of name held n cs) w =
      let (n', w1) = bottom_up act (child p name) n w in
      let (cs', w2) = bottom_up_children act p cs w1 in (child_of name held n' cs', w2)

-- The ports of one node that are required and not connected
unfoldable pub open_ports : RustdvPath → List PortInfo → List Missing
open_ports p [] = []
open_ports p (info ∷ infos) =
    let rest = open_ports p infos in
    if info.required && not info.connected
    then record { owner = p; name = info.name; kind = info.kind } ∷ rest
    else rest

unfoldable mutual
  unfolding open_ports

  pub unconnected_ports : {D W : Type 0} → Phases D W → RustdvPath → Node D → W → List Missing
  unconnected_ports ph p (node d cs) w =
      open_ports p (ph.port_infos d w) ++ unconnected_children ph p cs w

  pub unconnected_children :
      {D W : Type 0} → Phases D W → RustdvPath → Children D → W → List Missing
  unconnected_children ph p no_more w = []
  unconnected_children ph p (emptied name cs) w = unconnected_children ph p cs w
  unconnected_children ph p (child_of name held n cs) w =
      unconnected_ports ph (child p name) n w ++ unconnected_children ph p cs w

module _ {D W : Type 0} (ph : Phases D W) where
  unfoldable pub connect_all : RustdvPath → Node D → W → Node D × W
  unfolding bottom_up
  connect_all = bottom_up ph.connect

  -- `tlm_unconnected_port`, with the ports that its message lists
  unfoldable pub check_connections : RustdvPath → Node D → W → Result (Unit {0}) (List Missing)
  unfolding unconnected_ports
  check_connections p n w = elim (unconnected_ports ph p n w) [ [] ↦ ok tt | m ∷ ms ↦ err (m ∷ ms) ]

  unfoldable pub end_of_elaboration_all : RustdvPath → Node D → W → Node D × W
  unfolding top_down
  end_of_elaboration_all = top_down ph.end_of_elaboration

  unfoldable pub start_of_simulation_all : RustdvPath → Node D → W → Node D × W
  unfolding top_down
  start_of_simulation_all = top_down ph.start_of_simulation

  unfoldable pub start_all : RustdvPath → Node D → W → Node D × W
  unfolding bottom_up
  start_all = bottom_up ph.start

  unfoldable pub extract_all : RustdvPath → Node D → W → Node D × W
  unfolding top_down
  extract_all = top_down ph.extract

  -- `dyn_check` of one node, with the sink beside the world
  unfoldable pub checking : Act D (W × CheckSink)
  unfolding error
  checking p d (w, sink) = let (d', w', msgs) = ph.check p d w sink in (d', (w', error sink msgs))

  unfoldable pub check_all : RustdvPath → Node D → W × CheckSink → Node D × (W × CheckSink)
  unfolding top_down checking
  check_all = top_down checking

  unfoldable pub report_all : RustdvPath → Node D → W → Node D × W
  unfolding top_down
  report_all = top_down ph.report

  unfoldable pub final_all : RustdvPath → Node D → W → Node D × W
  unfolding top_down
  final_all = top_down ph.final_phase

  unfoldable pub run_extract_check_report :
      RustdvPath → Node D → W → (Node D × W) × Result (Unit {0}) CheckSink
  unfolding extract_all check_all report_all final_all into_result
  run_extract_check_report p n w =
      let (n1, w1) = extract_all p n w in
      let (n2, (w2, sink)) = check_all p n1 (w1, []) in
      let (n3, w3) = report_all p n2 w2 in (final_all p n3 w3, into_result sink)
