-- ===== src/Component/Walk.antt =====
-- The phase traversals of rustdv/rustdv-methodology/src/component.rs: whom they visit, and in which order.
use rustdv.Base.{◌≡◌, refl, ap, sym, List, [], ◌∷◌, ◌++◌}
use rustdv.RustdvPath.{RustdvPath, child}
use rustdv.Component.{
  Node, node, Children, no_more, child_of, emptied, Act, top_down, top_down_children, bottom_up,
  bottom_up_children, Phases, connect_all, start_all, end_of_elaboration_all,
  start_of_simulation_all, extract_all, report_all, final_all,
}

-- The components of a tree, each with its path: parents first
unfoldable mutual
  pub preorder : {D : Type 0} → RustdvPath → Node D → List (RustdvPath × D)
  preorder p (node d cs) = (p, d) ∷ preorder_children p cs

  pub preorder_children : {D : Type 0} → RustdvPath → Children D → List (RustdvPath × D)
  preorder_children p no_more = []
  preorder_children p (emptied name cs) = preorder_children p cs
  preorder_children p (child_of name held n cs) =
      preorder (child p name) n ++ preorder_children p cs

-- Parents last
unfoldable mutual
  pub postorder : {D : Type 0} → RustdvPath → Node D → List (RustdvPath × D)
  postorder p (node d cs) = postorder_children p cs ++ (p, d) ∷ []

  pub postorder_children : {D : Type 0} → RustdvPath → Children D → List (RustdvPath × D)
  postorder_children p no_more = []
  postorder_children p (emptied name cs) = postorder_children p cs
  postorder_children p (child_of name held n cs) =
      postorder (child p name) n ++ postorder_children p cs

module _ {D W : Type 0} (act : Act D W) where
  -- One component after the other
  abbrev pub acts : List (RustdvPath × D) → W → List (RustdvPath × D) × W
  acts [] w = ([], w)
  acts ((p, d) ∷ ds) w =
      let (d', w1) = act p d w in let (ds', w2) = acts ds w1 in ((p, d') ∷ ds', w2)

  acts-append :
      (xs ys : List (RustdvPath × D)) (w : W)
      → acts (xs ++ ys) w
        ≡ (let (xs', w1) = acts xs w in let (ys', w2) = acts ys w1 in (xs' ++ ys', w2))
  acts-append [] ys w = refl
  acts-append ((p, d) ∷ xs) ys w = rw (acts-append xs ys (act p d w).1)

  mutual
    unfolding top_down preorder

    pub preorder-top_down :
        (p : RustdvPath) (n : Node D) (w : W)
        → (preorder p (top_down act p n w).0, (top_down act p n w).1) ≡ acts (preorder p n) w
    preorder-top_down p (node d cs) w =
        let (d', w1) = act p d w in
        ap (λ (r : List (RustdvPath × D) × W). ((p, d') ∷ r.0, r.1))
          (preorder-top_down_children p cs w1)

    preorder-top_down_children :
        (p : RustdvPath) (cs : Children D) (w : W)
        → (preorder_children p (top_down_children act p cs w).0, (top_down_children act p cs w).1)
          ≡ acts (preorder_children p cs) w
    preorder-top_down_children p no_more w = refl
    preorder-top_down_children p (emptied name cs) w = preorder-top_down_children p cs w
    preorder-top_down_children p (child_of name held n cs) w =
        let r = top_down act (child p name) n w in
        let here = preorder-top_down (child p name) n w in
        let rest = preorder-top_down_children p cs r.1 in
        rw (acts-append (preorder (child p name) n) (preorder_children p cs) w, sym here, sym rest)

  mutual
    unfolding bottom_up postorder

    pub postorder-bottom_up :
        (p : RustdvPath) (n : Node D) (w : W)
        → (postorder p (bottom_up act p n w).0, (bottom_up act p n w).1) ≡ acts (postorder p n) w
    postorder-bottom_up p (node d cs) w = rw (
      acts-append (postorder_children p cs) ((p, d) ∷ []) w,
      sym (postorder-bottom_up_children p cs w),
    )

    postorder-bottom_up_children :
        (p : RustdvPath) (cs : Children D) (w : W)
        → (
          postorder_children p (bottom_up_children act p cs w).0,
          (bottom_up_children act p cs w).1,
        )
          ≡ acts (postorder_children p cs) w
    postorder-bottom_up_children p no_more w = refl
    postorder-bottom_up_children p (emptied name cs) w = postorder-bottom_up_children p cs w
    postorder-bottom_up_children p (child_of name held n cs) w =
        let r = bottom_up act (child p name) n w in
        let here = postorder-bottom_up (child p name) n w in
        let rest = postorder-bottom_up_children p cs r.1 in
        rw
          (acts-append (postorder (child p name) n) (postorder_children p cs) w, sym here, sym rest)

module _ {D W : Type 0} where
  -- The walk is the method on each component of the list, in its order, each once and under its own path.
  abbrev pub Visits :
      (RustdvPath → Node D → List (RustdvPath × D))
      → Act D W
      → (RustdvPath → Node D → W → Node D × W)
      → RustdvPath
      → Node D
      → W
      → Type 0
  Visits order act walk p n w =
      let (n', w') = walk p n w in (order p n', w') ≡ acts act (order p n) w

  -- Seven phases, of those that are neither build, check nor run, call their method once on every
  -- component of the tree, under the path that leads to it: `connect` and `start` on children before
  -- their parents; `end_of_elaboration`, `start_of_simulation`, `extract`, `report` and `final_phase` on
  -- parents before their children; and siblings in the order of their declaration. The world goes from
  -- one call to the next.
  pub phases-Visits :
      (ph : Phases D W) (p : RustdvPath) (n : Node D) (w : W)
      → Visits postorder ph.connect (connect_all ph) p n w
        × Visits postorder ph.start (start_all ph) p n w
        × Visits preorder ph.end_of_elaboration (end_of_elaboration_all ph) p n w
        × Visits preorder ph.start_of_simulation (start_of_simulation_all ph) p n w
        × Visits preorder ph.extract (extract_all ph) p n w
        × Visits preorder ph.report (report_all ph) p n w
        × Visits preorder ph.final_phase (final_all ph) p n w
  unfolding connect_all start_all end_of_elaboration_all start_of_simulation_all extract_all
      report_all final_all
  phases-Visits ph p n w = (
    postorder-bottom_up ph.connect p n w,
    postorder-bottom_up ph.start p n w,
    preorder-top_down ph.end_of_elaboration p n w,
    preorder-top_down ph.start_of_simulation p n w,
    preorder-top_down ph.extract p n w,
    preorder-top_down ph.report p n w,
    preorder-top_down ph.final_phase p n w,
  )
