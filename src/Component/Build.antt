-- ===== src/Component/Build.antt =====
-- `build_all` of rustdv/rustdv-methodology/src/component.rs. A component makes its children while it is
-- built, and they make theirs, so the walk is on fuel.
use rustdv.Base.{
  ℕ, zero, suc, ltb, ◌<◌, ◌≤◌, ◌≡◌, refl, Bool, true, ◌&&◌, Option, none, some, arith,
}
use rustdv.RustdvPath.{RustdvPath, child}
use rustdv.Component.{Node, node, Children, no_more, child_of, emptied, Phases}

module _ {D W : Type 0} where
  -- The loop over the children that the node has after its own `build`
  unfoldable pub build_children :
      (RustdvPath → Node D → W → Option (Node D × W))
      → RustdvPath
      → Children D
      → W
      → Option (Children D × W)
  build_children build p no_more w = some (no_more, w)
  build_children build p (emptied name cs) w = elim (build_children build p cs w) [
    | none ↦ none
    | some r ↦ some (emptied name r.0, r.1)
  ]
  build_children build p (child_of name held n cs) w = elim (build (child p name) n w) [
    | none ↦ none
    | some r ↦ elim (build_children build p cs r.1) [
      | none ↦ none
      | some s ↦ some (child_of name held r.0 s.0, s.1)
    ]
  ]

  unfoldable pub build_all : Phases D W → ℕ → RustdvPath → Node D → W → Option (Node D × W)
  unfolding build_children
  build_all ph zero p n w = none
  build_all ph (suc fuel) p (node d cs) w =
      let (d', cs', w1) = ph.build p d cs w in
      elim (build_children (build_all ph fuel) p (ph.resolve_children p cs' w1) w1) [
        | none ↦ none
        | some r ↦ some (node d' r.0, r.1)
      ]

-- The rank of a tree: the rank of its root's own fields
abbrev pub rank_of : {D : Type 0} → (D → ℕ) → Node D → ℕ
rank_of rank (node d cs) = rank d

-- Each child has a rank below the bound.
abbrev pub below : {D : Type 0} → (D → ℕ) → ℕ → Children D → Bool
below rank k no_more = true
below rank k (emptied name cs) = below rank k cs
below rank k (child_of name held n cs) = ltb (rank_of rank n) k && below rank k cs

below_le :
    {D : Type 0} (rank : D → ℕ) (j k : ℕ) (cs : Children D)
    → j ≤ k
    → below rank j cs ≡ true
    → below rank k cs ≡ true
below_le rank j k no_more le h = refl
below_le rank j k (emptied name cs) le h = below_le rank j k cs le h
below_le rank j k (child_of name held n cs) le h = ground (arith, below_le rank j k cs le)

module _ {D W : Type 0} where
  build_children-some :
      (build : RustdvPath → Node D → W → Option (Node D × W)) (rank : D → ℕ) (k : ℕ)
      (each : (p : RustdvPath) (n : Node D) (w : W)
        → ltb (rank_of rank n) k ≡ true
        → (r : Node D × W) × (build p n w ≡ some r))
      (p : RustdvPath) (cs : Children D) (w : W)
      → below rank k cs ≡ true
      → (r : Children D × W) × (build_children build p cs w ≡ some r)
  unfolding build_children
  build_children-some build rank k each p no_more w h = ((no_more, w), refl)
  build_children-some build rank k each p (emptied name cs) w h =
      let (r, e) = build_children-some build rank k each p cs w h in ((emptied name r.0, r.1), rw e)
  build_children-some build rank k each p (child_of name held n cs) w h =
      let (r, e) = each (child p name) n w (ground arith) in
      let (s, f) = build_children-some build rank k each p cs r.1 (ground arith) in
      ((child_of name held r.0 s.0, s.1), rw (build_children, e, f))

  -- If the children that a component has once it is built, overrides included, have a rank below its own,
  -- whatever the world, then the build of a tree comes to an end, one level per rank: fuel above the rank
  -- of the root is enough.
  pub build_all-some :
      (ph : Phases D W) (rank : D → ℕ)
      (lower : (p : RustdvPath) (d : D) (cs : Children D) (w : W)
        → below rank (rank d) (let r = ph.build p d cs w in ph.resolve_children p r.1 r.2) ≡ true)
      (fuel : ℕ) (p : RustdvPath) (n : Node D) (w : W)
      → rank_of rank n < fuel
      → (r : Node D × W) × (build_all ph fuel p n w ≡ some r)
  unfolding build_all
  build_all-some ph rank lower zero p n w h = absurd (omega (arith, h))
  build_all-some ph rank lower (suc fuel) p (node d cs) w h =
      let b = ph.build p d cs w in
      let (r, e) =
        build_children-some (build_all ph fuel) rank fuel
          (λ q m v k. build_all-some ph rank lower fuel q m v (ground arith)) p
          (ph.resolve_children p b.1 b.2) b.2
          (below_le rank (rank d) fuel (ph.resolve_children p b.1 b.2) (omega arith)
            (lower p d cs w)) in
      ((node b.0 r.0, r.1), rw (build_all, e) refl)
