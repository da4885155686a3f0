-- ===== src/Component/Whole.antt =====
-- `run_all` of rustdv/rustdv-methodology/src/component.rs puts every child back.
use rustdv.Base.{
  ◌≡◌, refl, ap, ◌∙◌, Bool, true, List, [], ◌∷◌, ◌++◌, ◌&&◌, not, Result, ok, err, arith,
}
use rustdv.RustdvPath.{Str, RustdvPath, child, str_eq}
use rustdv.RustdvPath.Strings.{str_eq_refl}
use rustdv.Component.{Held, boxed, in_place, Node, node, Children, no_more, child_of, emptied}
use rustdv.Component.Run.{
  take_children, put_node, restore_children, first_err, by_fields, run_all, run_fields, run_boxes,
}

-- The tree without the components' own fields
mutual
  pub shape : {D : Type 0} → Node D → Node (Unit {0})
  shape (node d cs) = node tt (shape_children cs)

  pub shape_children : {D : Type 0} → Children D → Children (Unit {0})
  shape_children no_more = no_more
  shape_children (child_of name held n cs) = child_of name held (shape n) (shape_children cs)
  shape_children (emptied name cs) = emptied name (shape_children cs)

-- No `RustdvComp` field has this name.
abbrev pub lacks : {D : Type 0} → Str → Children D → Bool
lacks name no_more = true
lacks name (child_of field boxed n cs) = not (str_eq field name) && lacks name cs
lacks name (child_of field in_place n cs) = lacks name cs
lacks name (emptied field cs) = not (str_eq field name) && lacks name cs

-- The `RustdvComp` fields of a component have different names.
unfoldable mutual
  pub well_named : {D : Type 0} → Node D → Bool
  well_named (node d cs) = well_named_children cs

  pub well_named_children : {D : Type 0} → Children D → Bool
  well_named_children no_more = true
  well_named_children (child_of name boxed n cs) =
      lacks name cs && well_named n && well_named_children cs
  well_named_children (child_of name in_place n cs) = well_named n && well_named_children cs
  well_named_children (emptied name cs) = lacks name cs && well_named_children cs

abbrev absent : {D : Type 0} → Str → List (Str × Node D) → Bool
absent name [] = true
absent name ((field, n) ∷ taken) = not (str_eq field name) && absent name taken

child_same :
    {D : Type 0} (name : Str) (held : Held) {n m : Node D} {cs ds : Children D}
    → n ≡ m
    → cs ≡ ds
    → child_of name held n cs ≡ child_of name held m ds
child_same name held e f = rw (e, f)

by_fields-shape :
    {D E : Type 0} (r : Result (Unit {0}) E) (early : Node D) (late : Node D × Result (Unit {0}) E)
    (whole : Node (Unit {0}))
    → shape early ≡ whole
    → shape late.0 ≡ whole
    → shape (by_fields r early late).0 ≡ whole
unfolding by_fields
by_fields-shape (ok _) early late whole e l = l
by_fields-shape (err x) early late whole e l = e

module _ {D : Type 0} where
  restore_children-in_place :
      (name : Str) (n : Node D) (cs : Children D) (taken : List (Str × Node D))
      → restore_children (child_of name in_place n cs) taken
        ≡ child_of name in_place n (restore_children cs taken)
  unfolding restore_children put_node
  restore_children-in_place name n cs [] = refl
  restore_children-in_place name n cs ((field, m) ∷ taken) =
      restore_children-in_place name n (put_node field m cs) taken

  restore_children-boxed :
      (name : Str) (n : Node D) (cs : Children D) (taken : List (Str × Node D))
      → absent name taken ≡ true
      → restore_children (child_of name boxed n cs) taken
        ≡ child_of name boxed n (restore_children cs taken)
  unfolding restore_children put_node
  restore_children-boxed name n cs [] h = refl
  restore_children-boxed name n cs ((field, m) ∷ taken) h =
      ground (arith, restore_children-boxed name n (put_node field m cs) taken)

  restore_children-emptied :
      (name : Str) (cs : Children D) (taken : List (Str × Node D))
      → absent name taken ≡ true
      → restore_children (emptied name cs) taken ≡ emptied name (restore_children cs taken)
  unfolding restore_children put_node
  restore_children-emptied name cs [] h = refl
  restore_children-emptied name cs ((field, m) ∷ taken) h =
      ground (arith, restore_children-emptied name (put_node field m cs) taken)

  restore_children-taken :
      (name : Str) (n : Node D) (cs : Children D) (taken : List (Str × Node D))
      → absent name taken ≡ true
      → restore_children (emptied name cs) ((name, n) ∷ taken)
        ≡ child_of name boxed n (restore_children cs taken)
  unfolding restore_children put_node
  restore_children-taken name n cs taken h =
      ground (arith, str_eq_refl name, restore_children-boxed name n cs taken h)

  absent-take_children :
      (name : Str) (cs : Children D) → lacks name cs ≡ true → absent name (take_children cs) ≡ true
  unfolding take_children
  absent-take_children name no_more h = refl
  absent-take_children name (child_of field boxed n cs) h =
      ground (arith, absent-take_children name cs)
  absent-take_children name (child_of field in_place n cs) h = absent-take_children name cs h
  absent-take_children name (emptied field cs) h = ground (arith, absent-take_children name cs)

module _ {D E : Type 0} (ends : RustdvPath → D → D × Result (Unit {0}) E) where
  absent-run_boxes :
      (name : Str) (p : RustdvPath) (cs : Children D)
      → lacks name cs ≡ true
      → absent name (run_boxes ends p cs).0 ≡ true
  unfolding run_boxes
  absent-run_boxes name p no_more h = refl
  absent-run_boxes name p (child_of field boxed n cs) h = ground (arith, absent-run_boxes name p cs)
  absent-run_boxes name p (child_of field in_place n cs) h = absent-run_boxes name p cs h
  absent-run_boxes name p (emptied field cs) h = ground (arith, absent-run_boxes name p cs)

  mutual
    unfolding run_all shape well_named

    shape-run_all :
        (p : RustdvPath) (n : Node D) → well_named n ≡ true → shape (run_all ends p n).0 ≡ shape n
    shape-run_all p (node d cs) h =
        by_fields-shape (first_err (run_fields ends p cs).1) _
          (
            node (ends p d).0 (restore_children (run_fields ends p cs).0 (run_boxes ends p cs).0),
            first_err ((run_boxes ends p cs).1 ++ (ends p d).1 ∷ []),
          )
          (shape (node d cs)) (ap (node tt) (shape-restore_taken p cs h))
          (ap (node tt) (shape-restore_run p cs h))

    shape-restore_run :
        (p : RustdvPath) (cs : Children D)
        → well_named_children cs ≡ true
        → shape_children (restore_children (run_fields ends p cs).0 (run_boxes ends p cs).0)
          ≡ shape_children cs
    shape-restore_run p no_more h = refl
    shape-restore_run p (child_of name boxed n cs) h =
        ap shape_children (
          restore_children-taken name (run_all ends (child p name) n).0 (run_fields ends p cs).0
            (run_boxes ends p cs).0 (absent-run_boxes name p cs (ground arith)))
        ∙ child_same name boxed (shape-run_all (child p name) n (ground arith))
            (shape-restore_run p cs (ground arith))
    shape-restore_run p (child_of name in_place n cs) h =
        ap shape_children (
          restore_children-in_place name (run_all ends (child p name) n).0 (run_fields ends p cs).0
            (run_boxes ends p cs).0)
        ∙ child_same name in_place (shape-run_all (child p name) n (ground arith))
            (shape-restore_run p cs (ground arith))
    shape-restore_run p (emptied name cs) h =
        ap shape_children (
          restore_children-emptied name (run_fields ends p cs).0 (run_boxes ends p cs).0
            (absent-run_boxes name p cs (ground arith)))
        ∙ ap (emptied name) (shape-restore_run p cs (ground arith))

    shape-restore_taken :
        (p : RustdvPath) (cs : Children D)
        → well_named_children cs ≡ true
        → shape_children (restore_children (run_fields ends p cs).0 (take_children cs))
          ≡ shape_children cs
    shape-restore_taken p no_more h = refl
    shape-restore_taken p (child_of name boxed n cs) h =
        ap shape_children (
          restore_children-taken name n (run_fields ends p cs).0 (take_children cs)
            (absent-take_children name cs (ground arith)))
        ∙ ap (child_of name boxed (shape n)) (shape-restore_taken p cs (ground arith))
    shape-restore_taken p (child_of name in_place n cs) h =
        ap shape_children (
          restore_children-in_place name (run_all ends (child p name) n).0 (run_fields ends p cs).0
            (take_children cs))
        ∙ child_same name in_place (shape-run_all (child p name) n (ground arith))
            (shape-restore_taken p cs (ground arith))
    shape-restore_taken p (emptied name cs) h =
        ap shape_children (
          restore_children-emptied name (run_fields ends p cs).0 (take_children cs)
            (absent-take_children name cs (ground arith)))
        ∙ ap (emptied name) (shape-restore_taken p cs (ground arith))

  -- After the run phase the tree is whole, whether the runs failed or not: each child is back in its
  -- field, under the same parent, if the `RustdvComp` fields of each component have different names.
  pub run_all-whole :
      (p : RustdvPath) (n : Node D) → well_named n ≡ true → shape (run_all ends p n).0 ≡ shape n
  run_all-whole = shape-run_all
