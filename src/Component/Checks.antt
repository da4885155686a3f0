-- ===== src/Component/Checks.antt =====
-- The post-run phases of rustdv/rustdv-methodology/src/component.rs: which checks fail the test.
use rustdv.Base.{◌≡◌, ap, sym, ◌∙◌, List, [], ◌∷◌, ◌++◌, append_assoc, append-nil}
use rustdv.RustdvPath.{Str, RustdvPath}
use rustdv.Component.{
  Node, Phases, CheckSink, error, into_result, checking, extract_all, check_all,
  run_extract_check_report,
}
use rustdv.Component.Walk.{preorder, acts, preorder-top_down}

error-append : (sink msgs : List Str) → error sink msgs ≡ sink ++ msgs
unfolding error
error-append sink [] = sym (append-nil sink)
error-append sink (msg ∷ msgs) =
    error-append (sink ++ msg ∷ []) msgs ∙ append_assoc sink (msg ∷ []) msgs

module _ {D W : Type 0} (ph : Phases D W) where
  -- What the checks of the components report, one component after the other
  abbrev pub complaints : List (RustdvPath × D) → W → List Str → List Str
  complaints [] w sofar = []
  complaints ((p, d) ∷ ds) w sofar =
      let (d', w', msgs) = ph.check p d w sofar in msgs ++ complaints ds w' (sofar ++ msgs)

  acts-complaints :
      (ds : List (RustdvPath × D)) (w : W) (sofar : List Str)
      → (acts (checking ph) ds (w, sofar)).1.1 ≡ sofar ++ complaints ds w sofar
  unfolding checking
  acts-complaints [] w sofar = sym (append-nil sofar)
  acts-complaints ((p, d) ∷ ds) w sofar =
      let (d', w', msgs) = ph.check p d w sofar in
      rw (error-append sofar msgs) (
        acts-complaints ds w' (sofar ++ msgs)
        ∙ append_assoc sofar msgs (complaints ds w' (sofar ++ msgs)))

  -- The verdict of the post-run phases: an error with everything that the checks reported, parents first,
  -- when they reported anything. The checks see the tree and the world as the extract phase, parents
  -- first too, has left them, and each sees what was reported before it.
  pub run_extract_check_report-complaints :
      (p : RustdvPath) (n : Node D) (w : W)
      → (run_extract_check_report ph p n w).1
        ≡ (let (ds, w1) = acts ph.extract (preorder p n) w in into_result (complaints ds w1 []))
  unfolding run_extract_check_report extract_all check_all
  run_extract_check_report-complaints p n w =
      let (n1, w1) = extract_all ph p n w in
      let extracted = preorder-top_down ph.extract p n w in
      let checked = preorder-top_down (checking ph) p n1 (w1, []) in
      ap into_result (
        ap (λ (r : List (RustdvPath × D) × (W × CheckSink)). r.1.1) checked
        ∙ acts-complaints (preorder p n1) w1 []
        ∙ ap (λ (r : List (RustdvPath × D) × W). complaints r.0 r.1 []) extracted)
