-- ===== src/Component/Outcome.antt =====
-- The result of `run_all` of rustdv/rustdv-methodology/src/component.rs: no error is lost.
use rustdv.Base.{◌≡◌, refl, Bool, true, false, List, [], ◌∷◌, ◌++◌, ◌&&◌, Result, ok, err, arith}
use rustdv.RustdvPath.{RustdvPath, child}
use rustdv.Component.{boxed, in_place, Node, node, Children, no_more, child_of, emptied}
use rustdv.Component.Run.{first_err, by_fields, run_all, run_fields, run_boxes}
use rustdv.Component.Walk.{preorder, preorder_children}

abbrev pub is_ok : {A E : Type 0} → Result A E → Bool
is_ok (ok _) = true
is_ok (err _) = false

abbrev oks : {A E : Type 0} → List (Result A E) → Bool
oks [] = true
oks (r ∷ rs) = is_ok r && oks rs

oks-append : {A E : Type 0} (rs ss : List (Result A E)) → oks (rs ++ ss) ≡ oks rs && oks ss
oks-append [] ss = refl
oks-append (r ∷ rs) ss = ground (arith, oks-append rs ss)

is_ok-first_err : {E : Type 0} (rs : List (Result (Unit {0}) E)) → is_ok (first_err rs) ≡ oks rs
unfolding first_err
is_ok-first_err [] = refl
is_ok-first_err (ok _ ∷ rs) = is_ok-first_err rs
is_ok-first_err (err e ∷ rs) = refl

is_ok-by_fields :
    {D E : Type 0} (r : Result (Unit {0}) E) (early : Node D) (late : Node D × Result (Unit {0}) E)
    → is_ok (by_fields r early late).1 ≡ is_ok r && is_ok late.1
unfolding by_fields
is_ok-by_fields (ok _) early late = refl
is_ok-by_fields (err e) early late = refl

module _ {D E : Type 0} (ends : RustdvPath → D → D × Result (Unit {0}) E) where
  -- Each component's own run ends well.
  abbrev pub all_ok : List (RustdvPath × D) → Bool
  all_ok [] = true
  all_ok ((p, d) ∷ ds) = is_ok (ends p d).1 && all_ok ds

  all_ok-append : (xs ys : List (RustdvPath × D)) → all_ok (xs ++ ys) ≡ all_ok xs && all_ok ys
  all_ok-append [] ys = refl
  all_ok-append ((p, d) ∷ xs) ys = ground (arith, all_ok-append xs ys)

  mutual
    unfolding run_all preorder

    is_ok-run_all :
        (p : RustdvPath) (n : Node D) → is_ok (run_all ends p n).1 ≡ all_ok (preorder p n)
    is_ok-run_all p (node d cs) =
        let rs = (run_fields ends p cs).1 in
        let ts = (run_boxes ends p cs).1 in
        let own = (ends p d).1 in
        ground (
          arith,
          is_ok-by_fields (first_err rs) _
              ((run_all ends p (node d cs)).0, first_err (ts ++ own ∷ [])),
          is_ok-first_err rs,
          is_ok-first_err (ts ++ own ∷ []),
          oks-append ts (own ∷ []),
          oks-children p cs,
        )

    oks-children :
        (p : RustdvPath) (cs : Children D)
        → oks (run_fields ends p cs).1 && oks (run_boxes ends p cs).1
          ≡ all_ok (preorder_children p cs)
    oks-children p no_more = refl
    oks-children p (child_of name boxed n cs) = ground (
      arith,
      is_ok-run_all (child p name) n,
      oks-children p cs,
      all_ok-append (preorder (child p name) n) (preorder_children p cs),
    )
    oks-children p (child_of name in_place n cs) = ground (
      arith,
      is_ok-run_all (child p name) n,
      oks-children p cs,
      all_ok-append (preorder (child p name) n) (preorder_children p cs),
    )
    oks-children p (emptied name cs) = oks-children p cs

  -- The run phase ends well exactly when the own run of each component of the tree does, wherever it
  -- stands and however its parent holds it.
  pub run_all_ok :
      (p : RustdvPath) (n : Node D) → is_ok (run_all ends p n).1 ≡ all_ok (preorder p n)
  run_all_ok = is_ok-run_all
