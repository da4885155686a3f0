-- ===== src/Component/Ports.antt =====
-- The connection sweep of rustdv/rustdv-methodology/src/component.rs.
use rustdv.Base.{
  ◌≡◌, refl, ap, sym, ◌∙◌, Bool, true, List, [], ◌∷◌, ◌++◌, ◌&&◌, not, ok, err, arith, append_assoc,
  ◌↔◌, ◌⊎◌,
}
use rustdv.RustdvPath.{RustdvPath, child}
use rustdv.Component.{
  Node, node, Children, no_more, child_of, emptied, PortInfo, Missing, Phases, open_ports,
  unconnected_ports, unconnected_children, check_connections,
}
use rustdv.Component.Walk.{preorder, preorder_children}

-- No port of the list is required and not connected.
abbrev pub wired : List PortInfo → Bool
wired [] = true
wired (info ∷ infos) = not (info.required && not info.connected) && wired infos

module _ {D W : Type 0} (ph : Phases D W) (w : W) where
  abbrev pub all_wired : List (RustdvPath × D) → Bool
  all_wired [] = true
  all_wired ((p, d) ∷ ds) = wired (ph.port_infos d w) && all_wired ds

  -- The open ports, component by component
  abbrev pub all_open : List (RustdvPath × D) → List Missing
  all_open [] = []
  all_open ((p, d) ∷ ds) = open_ports p (ph.port_infos d w) ++ all_open ds

  all_open-append :
      (xs ys : List (RustdvPath × D)) → all_open (xs ++ ys) ≡ all_open xs ++ all_open ys
  all_open-append [] ys = refl
  all_open-append ((p, d) ∷ xs) ys =
      ap (λ (r : List Missing). open_ports p (ph.port_infos d w) ++ r) (all_open-append xs ys)
      ∙ sym (append_assoc (open_ports p (ph.port_infos d w)) (all_open xs) (all_open ys))

  mutual
    unfolding unconnected_ports preorder

    unconnected_ports-open :
        (p : RustdvPath) (n : Node D) → unconnected_ports ph p n w ≡ all_open (preorder p n)
    unconnected_ports-open p (node d cs) =
        ap (λ (r : List Missing). open_ports p (ph.port_infos d w) ++ r)
          (unconnected_children-open p cs)

    unconnected_children-open :
        (p : RustdvPath) (cs : Children D)
        → unconnected_children ph p cs w ≡ all_open (preorder_children p cs)
    unconnected_children-open p no_more = refl
    unconnected_children-open p (emptied name cs) = unconnected_children-open p cs
    unconnected_children-open p (child_of name held n cs) = rw (
      all_open-append (preorder (child p name) n) (preorder_children p cs),
      unconnected_ports-open (child p name) n,
      unconnected_children-open p cs,
    )

  open_ports-wired :
      (p : RustdvPath) (infos : List PortInfo) → (open_ports p infos ≡ []) ↔ (wired infos ≡ true)
  unfolding open_ports
  open_ports-wired p [] = ground arith
  open_ports-wired p (info ∷ infos) = ground (arith, open_ports-wired p infos)

  append_empty : (xs ys : List Missing) → (xs ++ ys ≡ []) ↔ (xs ≡ []) × (ys ≡ [])
  append_empty [] ys = ground arith
  append_empty (x ∷ xs) ys = ground arith

  all_open-wired : (ds : List (RustdvPath × D)) → (all_open ds ≡ []) ↔ (all_wired ds ≡ true)
  all_open-wired [] = ground arith
  all_open-wired ((p, d) ∷ ds) = ground (
    arith,
    all_open-wired ds,
    open_ports-wired p (ph.port_infos d w),
    append_empty (open_ports p (ph.port_infos d w)) (all_open ds),
  )

  -- The sweep is fine exactly when no component of the tree has a port that is required and not connected;
  -- its error else lists all such ports of the tree, parents first, each under its owner's path.
  pub check_connections-all_wired :
      (p : RustdvPath) (n : Node D)
      → ((check_connections ph p n w ≡ ok tt) ↔ (all_wired (preorder p n) ≡ true))
        × ((check_connections ph p n w ≡ ok tt)
            ⊎ (check_connections ph p n w ≡ err (all_open (preorder p n))))
  unfolding check_connections
  check_connections-all_wired p n =
      ground (arith, unconnected_ports-open p n, all_open-wired (preorder p n))
