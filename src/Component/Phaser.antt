-- ===== src/Component/Phaser.antt =====
-- `run_component_test` of rustdv/rustdv-methodology/src/component.rs: all phases of a test, in order.
use rustdv.Base.{
  ℕ, ◌≡◌, Bool, true, false, List, [], ◌∷◌, ◌&&◌, Option, none, some, Result, ok, err, arith,
}
use rustdv.RustdvPath.{Str, RustdvPath}
use rustdv.Component.{
  Node, Phases, Missing, CheckSink, into_result, connect_all, check_connections,
  end_of_elaboration_all, start_of_simulation_all, run_extract_check_report,
}
use rustdv.Component.Build.{build_all}
use rustdv.Component.Run.{run_all}
use rustdv.Component.Walk.{preorder, acts}
use rustdv.Component.Ports.{all_wired, check_connections-all_wired}
use rustdv.Component.Outcome.{is_ok, all_ok, run_all_ok}
use rustdv.Component.Checks.{complaints, run_extract_check_report-complaints}

-- `TestError`, by what it comes from
pub data TestError (E : Type 0) : Type 0 where
  tlm_unconnected_port : List Missing → TestError E
  run_failed : E → TestError E
  checks_failed : CheckSink → TestError E

-- `Result::and`, of the run phase and the post-run phases
unfoldable pub and_then :
    {E : Type 0}
    → Result (Unit {0}) E
    → Result (Unit {0}) CheckSink
    → Result (Unit {0}) (TestError E)
and_then (err e) post = err (run_failed e)
and_then (ok _) (err es) = err (checks_failed es)
and_then (ok _) (ok u) = ok u

-- What `run_component_test` is given besides the methods of the components: `config::set_in_build`, what
-- the components' own runs come to, and the world after the run phase
pub record Env (D W E : Type 0) : Type 0 where
  pub set_in_build : Bool → W → W
  pub ends : RustdvPath → D → D × Result (Unit {0}) E
  pub ran : Node D → W → W

abbrev pub quiet : List Str → Bool
quiet [] = true
quiet (msg ∷ msgs) = false

module _ {D W E : Type 0} (ph : Phases D W) (env : Env D W E) where
  -- The run phase, then the post-run phases
  unfoldable pub run_and_check :
      RustdvPath → Node D → W → (Node D × W) × Result (Unit {0}) (TestError E)
  unfolding and_then run_all run_extract_check_report
  run_and_check p n w =
      let (n', run_result) = run_all env.ends p n in
      let (final, post) = run_extract_check_report ph p n' (env.ran n w) in
      (final, and_then run_result post)

  -- From `connect` on
  unfoldable pub connect_and_run :
      RustdvPath → Node D → W → (Node D × W) × Result (Unit {0}) (TestError E)
  unfolding run_and_check connect_all check_connections end_of_elaboration_all
      start_of_simulation_all
  connect_and_run p n w =
      let (n1, w1) = connect_all ph p n w in
      let (n2, w2) = end_of_elaboration_all ph p n1 w1 in
      let (n3, w3) = start_of_simulation_all ph p n2 w2 in
      elim (check_connections ph p n1 w1) [
        | err ms ↦ ((n1, w1), err (tlm_unconnected_port ms))
        | ok _ ↦ run_and_check p n3 w3
      ]

  -- `none`: the fuel of the build has run out.
  unfoldable pub run_component_test :
      ℕ → RustdvPath → Node D → W → Option ((Node D × W) × Result (Unit {0}) (TestError E))
  unfolding build_all connect_and_run
  run_component_test fuel p n w = elim (build_all ph fuel p n (env.set_in_build true w)) [
    | none ↦ none
    | some r ↦ some (connect_and_run p r.0 (env.set_in_build false r.1))
  ]

  is_ok-run_and_check :
      (p : RustdvPath) (n : Node D) (w : W)
      → let (ds, w') = acts ph.extract (preorder p (run_all env.ends p n).0) (env.ran n w) in
        is_ok (run_and_check p n w).1
        ≡ all_ok env.ends (preorder p n) && quiet (complaints ph ds w' [])
  unfolding run_and_check and_then into_result
  is_ok-run_and_check p n w = ground (
    arith,
    run_all_ok env.ends p n,
    run_extract_check_report-complaints ph p (run_all env.ends p n).0 (env.ran n w),
  )

  -- A built test passes exactly when, after the connect phase, every required port of the tree is
  -- connected; and, from the tree as the elaboration phases leave it, each component's own run ends well;
  -- and no component's check, on the tree and the world as the run and extract phases leave them, reports
  -- anything.
  pub connect_and_run_passes :
      (p : RustdvPath) (n : Node D) (w : W)
      → let (n1, w1) = connect_all ph p n w in
        let (n2, w2) = end_of_elaboration_all ph p n1 w1 in
        let (n3, w3) = start_of_simulation_all ph p n2 w2 in
        let (ds, w4) = acts ph.extract (preorder p (run_all env.ends p n3).0) (env.ran n3 w3) in
        is_ok (connect_and_run p n w).1
        ≡ all_wired ph w1 (preorder p n1)
          && all_ok env.ends (preorder p n3)
          && quiet (complaints ph ds w4 [])
  unfolding connect_and_run
  connect_and_run_passes p n w =
      let (n1, w1) = connect_all ph p n w in
      let (n2, w2) = end_of_elaboration_all ph p n1 w1 in
      let (n3, w3) = start_of_simulation_all ph p n2 w2 in
      ground (arith, check_connections-all_wired ph w1 p n1, is_ok-run_and_check p n3 w3)
