-- ===== src/RustdvPath/Split.antt =====
-- rustdv/rustdv-sim/src/path.rs: the paths of the walk, and what their renderings tell.
use rustdv.Base.{
  ◌≡◌, refl, ap, Bool, true, false, not, List, [], ◌∷◌, ◌++◌, ◌==◌, ◌&&◌, if◌then◌else◌, arith,
  Bool-cases, inl, inr, length, leb,
}
use rustdv.RustdvPath.{
  Str, is_empty_str, RustdvPath, root, child, follows, segments_eq, up_to, is_under, split_dots,
  str_is_under,
}

abbrev pub has_dot : Str → Bool
has_dot [] = false
has_dot (b ∷ bs) = if b == b'.' then true else has_dot bs

-- A name that may stand in a path: it has no dot and is not empty.
abbrev pub is_name : Str → Bool
is_name s = not (has_dot s) && not (is_empty_str s)

abbrev pub all_names : List Str → Bool
all_names [] = true
all_names (s ∷ ss) = is_name s && all_names ss

-- The path that the walk makes: the root, and a child for each name below
abbrev pub descend : RustdvPath → List Str → RustdvPath
descend p [] = p
descend p (s ∷ ss) = descend (child p s) ss

split_dots_name : (s : Str) → has_dot s ≡ false → split_dots s ≡ s ∷ []
unfolding split_dots
split_dots_name [] h = refl
split_dots_name (b ∷ bs) h = ground (arith, split_dots_name bs)

-- The text splits into one piece at least.
split_dots_cons : (r : Str) → (s : Str) × (ss : List Str) × (split_dots r ≡ s ∷ ss)
unfolding split_dots
split_dots_cons [] = ([], [], refl)
split_dots_cons (b ∷ bs) = elim (Bool-cases (b == b'.')) [
  | inl e ↦ ([], split_dots bs, rw e refl)
  | inr e ↦ let (s, ss, d) = split_dots_cons bs in (b ∷ s, ss, rw (e, d) refl)
]

split_dots-append :
    (r s : Str) → has_dot s ≡ false → split_dots (r ++ b'.' ∷ s) ≡ split_dots r ++ s ∷ []
unfolding split_dots
split_dots-append [] s h = ap (λ l. [] ∷ l) (split_dots_name s h)
split_dots-append (b ∷ bs) s h =
    let (t, ts, e) = split_dots_cons bs in ground (arith, e, split_dots-append bs s h)

-- A path whose rendering splits into its segments
pub record IsRendered (p : RustdvPath) : Type 0 where
  pub splits : split_dots p.rendered ≡ p.segments
  pub inhabited : is_empty_str p.rendered ≡ false

is_empty_str-append : (r s : Str) → is_empty_str r ≡ false → is_empty_str (r ++ s) ≡ false
is_empty_str-append [] s h = ground arith
is_empty_str-append (b ∷ r) s h = refl

root-IsRendered : (s : Str) → is_name s ≡ true → IsRendered (root s)
unfolding root
root-IsRendered s h = ground (arith, split_dots_name s)

child-IsRendered :
    (p : RustdvPath) (s : Str) → is_name s ≡ true → IsRendered p → IsRendered (child p s)
unfolding child
child-IsRendered p s h v =
    ground (arith, v, split_dots-append p.rendered s, is_empty_str-append p.rendered (b'.' ∷ s))

descend-IsRendered :
    (p : RustdvPath) (ss : List Str)
    → all_names ss ≡ true
    → IsRendered p
    → IsRendered (descend p ss)
descend-IsRendered p [] h v = v
descend-IsRendered p (s ∷ ss) h v =
    descend-IsRendered (child p s) ss (ground arith) (child-IsRendered p s (ground arith) v)

follows-segments_eq :
    (have wants : List Str)
    → follows have wants
      ≡ (leb (length wants) (length have) && segments_eq (up_to (length wants) have) wants)
unfolding follows
follows-segments_eq have [] = ground arith
follows-segments_eq [] (w ∷ ws) = ground arith
follows-segments_eq (s ∷ have) (w ∷ ws) = ground (arith, follows-segments_eq have ws)

-- For two paths that the walk makes, each a root and children with names that are not empty and have no
-- dot, the test on the renderings answers as the test on the segments does.
pub str_is_under-is_under :
    (r s : Str) (rs ss : List Str)
    → is_name r ≡ true
    → is_name s ≡ true
    → all_names rs ≡ true
    → all_names ss ≡ true
    → let p = descend (root r) rs in
      let q = descend (root s) ss in str_is_under p.rendered q.rendered ≡ is_under p q
unfolding str_is_under is_under
str_is_under-is_under r s rs ss h k hs ks =
    let p = descend (root r) rs in
    let q = descend (root s) ss in
    let v = descend-IsRendered (root r) rs hs (root-IsRendered r h) in
    let w = descend-IsRendered (root s) ss ks (root-IsRendered s k) in
    rw (w.inhabited, v.splits, w.splits) (follows-segments_eq p.segments q.segments)
