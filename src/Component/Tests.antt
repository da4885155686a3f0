-- ===== src/Component/Tests.antt =====
-- Runs of the phases of rustdv/rustdv-methodology/src/component.rs on a small bench.
use rustdv.Base.{
  ℕ, zero, suc, ◌≡◌, refl, true, false, List, [], ◌∷◌, ◌++◌, ◌&&◌, ◌==◌, if◌then◌else◌, Result, ok,
  err, arith,
}
use rustdv.RustdvPath.{RustdvPath, root}
use rustdv.Component.{
  Node, node, Children, no_more, child_of, boxed, in_place, Phases, Act, into_result, connect_all,
  start_all, end_of_elaboration_all, start_of_simulation_all, extract_all, report_all, final_all,
  run_extract_check_report, top_down, bottom_up, checking, check_all, error,
}
use rustdv.Component.Walk.{preorder, postorder, acts, Visits, phases-Visits}
use rustdv.Component.Build.{below}
use rustdv.Component.Ports.{all_wired}
use rustdv.Component.Checks.{complaints}
use rustdv.Component.Run.{run_all}
use rustdv.Component.Whole.{shape, well_named, run_all-whole}
use rustdv.Component.Outcome.{is_ok, all_ok}
use rustdv.Component.Phaser.{Env, connect_and_run, quiet, connect_and_run_passes}

-- A component is a number, and the world is a trace. Phase `k` notes the component and its phase.
notes : ℕ → Act ℕ (List (ℕ × ℕ))
notes k p d w = (d, w ++ (k, d) ∷ [])

-- Each component but 0 makes a child that is one less. Component 5 has a port open, and 3 a complaint.
abbrev bench : Phases ℕ (List (ℕ × ℕ))
bench = record {
  build = λ p d cs w. (
    d,
    elim d [ zero ↦ no_more | suc k ↦ child_of (b'c' ∷ []) boxed (node k no_more) no_more ],
    w ++ (0, d) ∷ [],
  );
  resolve_children = λ p cs w. cs;
  connect = notes 1;
  end_of_elaboration = notes 2;
  start_of_simulation = notes 3;
  start = notes 4;
  extract = notes 5;
  check = λ p d w sofar. (d, w, if d == 3 then (b'3' ∷ []) ∷ [] else []);
  report = notes 6;
  final_phase = notes 7;
  port_infos = λ d w.
      if d == 5
      then record { name = b'o' ∷ []; kind = b'p' ∷ []; required = true; connected = false } ∷ []
      else [];
}

abbrev tree : Node ℕ
tree = node 9 (
    child_of (b'a' ∷ []) boxed (node 3 no_more) (
      child_of (b'b' ∷ []) in_place (node 5 no_more)
        (child_of (b'd' ∷ []) boxed (node 4 no_more) no_more)))

abbrev top : RustdvPath
top = root (b't' ∷ [])

-- Component 5 fails in its run; the others end well and count one on.
abbrev ends : RustdvPath → ℕ → ℕ × Result (Unit {0}) ℕ
ends p d = if d == 5 then (d, err 55) else (suc d, ok tt)

abbrev env : Env ℕ (List (ℕ × ℕ)) ℕ
env = record { set_in_build = λ b w. w; ends = ends; ran = λ n w. w }

connects_first : (connect_all bench top tree []).1 ≡ (1, 3) ∷ (1, 5) ∷ (1, 4) ∷ (1, 9) ∷ []
unfolding connect_all bottom_up notes
connects_first = refl

fails : (run_all ends top tree).1 ≡ err 55
unfolding run_all
fails = refl

kept : (run_all ends top tree).0 ≡ tree
unfolding run_all
kept = refl

complains : (run_extract_check_report bench top tree []).1 ≡ err ((b'3' ∷ []) ∷ [])
unfolding run_extract_check_report extract_all check_all checking error into_result top_down notes
complains = refl

phases-Visits_example :
    Visits postorder bench.connect (connect_all bench) top tree []
    × Visits postorder bench.start (start_all bench) top tree []
    × Visits preorder bench.end_of_elaboration (end_of_elaboration_all bench) top tree []
    × Visits preorder bench.start_of_simulation (start_of_simulation_all bench) top tree []
    × Visits preorder bench.extract (extract_all bench) top tree []
    × Visits preorder bench.report (report_all bench) top tree []
    × Visits preorder bench.final_phase (final_all bench) top tree []
phases-Visits_example = phases-Visits bench top tree []

names_differ : well_named tree ≡ true
unfolding well_named
names_differ = refl

run_all-whole_example : shape (run_all ends top tree).0 ≡ shape tree
run_all-whole_example = run_all-whole ends top tree names_differ

lower :
    (p : RustdvPath) (d : ℕ) (cs : Children ℕ) (w : List (ℕ × ℕ))
    → below (λ n. n) d (let r = bench.build p d cs w in bench.resolve_children p r.1 r.2) ≡ true
lower p zero cs w = refl
lower p (suc k) cs w = ground arith

connect_and_run_passes_example :
    let (n1, w1) = connect_all bench top tree [] in
    let (n2, w2) = end_of_elaboration_all bench top n1 w1 in
    let (n3, w3) = start_of_simulation_all bench top n2 w2 in
    let (ds, w4) = acts bench.extract (preorder top (run_all ends top n3).0) w3 in
    is_ok (connect_and_run bench env top tree []).1
    ≡ all_wired bench w1 (preorder top n1)
      && all_ok ends (preorder top n3)
      && quiet (complaints bench ds w4 [])
connect_and_run_passes_example = connect_and_run_passes bench env top tree []

passes :
    is_ok
      (connect_and_run bench env top
        (node 6 (child_of (b'a' ∷ []) boxed (node 1 no_more) no_more))
        []).1
    ≡ true
unfolding connect_and_run notes
passes = refl
