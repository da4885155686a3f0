-- ===== src/Component/Run.antt =====
-- The run phase, `run_all` of rustdv/rustdv-methodology/src/component.rs with `take_children` and
-- `restore_children` as rustdv/rustdv-macros/src/rustdv_macros.rs derives them. What a component's own run,
-- raced against the end of the objections in `run_one`, comes to is a parameter, `ends`: the component's
-- fields after it, and its result. The joined runs may interleave in any way before that.
use rustdv.Base.{List, [], ◌∷◌, ◌++◌, if◌then◌else◌, Result, ok, err}
use rustdv.RustdvPath.{Str, RustdvPath, child, str_eq}
use rustdv.Component.{boxed, in_place, Node, node, Children, no_more, child_of, emptied}

module _ {D : Type 0} where
  -- `take_children`: what it returns
  unfoldable pub take_children : Children D → List (Str × Node D)
  take_children no_more = []
  take_children (child_of name boxed n cs) = (name, n) ∷ take_children cs
  take_children (child_of name in_place n cs) = take_children cs
  take_children (emptied name cs) = take_children cs

  -- `put_node`, in the field of that name
  unfoldable pub put_node : Str → Node D → Children D → Children D
  put_node name n no_more = no_more
  put_node name n (child_of field boxed old cs) =
      let rest = put_node name n cs in
      if str_eq name field then child_of field boxed n cs else child_of field boxed old rest
  put_node name n (child_of field in_place old cs) =
      child_of field in_place old (put_node name n cs)
  put_node name n (emptied field cs) =
      let rest = put_node name n cs in
      if str_eq name field then child_of field boxed n cs else emptied field rest

  unfoldable pub restore_children : Children D → List (Str × Node D) → Children D
  unfolding put_node
  restore_children cs [] = cs
  restore_children cs ((name, n) ∷ taken) = restore_children (put_node name n cs) taken

-- The first error, if there is one
unfoldable pub first_err : {E : Type 0} → List (Result (Unit {0}) E) → Result (Unit {0}) E
first_err [] = ok tt
first_err (ok _ ∷ rs) = first_err rs
first_err (err e ∷ rs) = err e

-- An error of the children in place ends the walk of the node with the taken children as they were.
unfoldable pub by_fields :
    {D E : Type 0}
    → Result (Unit {0}) E
    → Node D
    → Node D × Result (Unit {0}) E
    → Node D × Result (Unit {0}) E
by_fields (ok _) early late = late
by_fields (err e) early late = (early, err e)

-- `run_fields` runs the children in place and leaves the slots of the others as `take_children` did;
-- `run_boxes` runs the taken ones.
unfoldable mutual
  unfolding by_fields first_err take_children restore_children

  pub run_all :
      {D E : Type 0}
      → (RustdvPath → D → D × Result (Unit {0}) E)
      → RustdvPath
      → Node D
      → Node D × Result (Unit {0}) E
  run_all ends p (node d cs) =
      let (rest, rs) = run_fields ends p cs in
      let (taken, ts) = run_boxes ends p cs in
      let (d', own) = ends p d in
      by_fields (first_err rs) (node d (restore_children rest (take_children cs)))
        (node d' (restore_children rest taken), first_err (ts ++ own ∷ []))

  pub run_fields :
      {D E : Type 0}
      → (RustdvPath → D → D × Result (Unit {0}) E)
      → RustdvPath
      → Children D
      → Children D × List (Result (Unit {0}) E)
  run_fields ends p no_more = (no_more, [])
  run_fields ends p (child_of name in_place n cs) =
      let (n', r) = run_all ends (child p name) n in
      let (cs', rs) = run_fields ends p cs in (child_of name in_place n' cs', r ∷ rs)
  run_fields ends p (child_of name boxed n cs) =
      let (cs', rs) = run_fields ends p cs in (emptied name cs', rs)
  run_fields ends p (emptied name cs) =
      let (cs', rs) = run_fields ends p cs in (emptied name cs', rs)

  pub run_boxes :
      {D E : Type 0}
      → (RustdvPath → D → D × Result (Unit {0}) E)
      → RustdvPath
      → Children D
      → List (Str × Node D) × List (Result (Unit {0}) E)
  run_boxes ends p no_more = ([], [])
  run_boxes ends p (child_of name boxed n cs) =
      let (n', r) = run_all ends (child p name) n in
      let (taken, rs) = run_boxes ends p cs in ((name, n') ∷ taken, r ∷ rs)
  run_boxes ends p (child_of name in_place n cs) = run_boxes ends p cs
  run_boxes ends p (emptied name cs) = run_boxes ends p cs
