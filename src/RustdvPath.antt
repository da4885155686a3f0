-- ===== src/RustdvPath.antt =====
-- `RustdvPath` of rustdv/rustdv-sim/src/path.rs: a component's place in the tree, as segments beside
-- their dotted rendering, and `str_is_under` on renderings. A string is its list of bytes.
pub mod Split
pub mod Strings
mod Tests
use rustdv.Base.{
  ℕ, zero, suc, leb, Bool, true, false, List, [], ◌∷◌, ◌++◌, ◌==◌, ◌&&◌, if◌then◌else◌, length,
}

abbrev pub Str : Type 0
Str = List ℕ

-- `==` of two strings
abbrev pub str_eq : Str → Str → Bool
str_eq [] [] = true
str_eq [] (b ∷ bs) = false
str_eq (a ∷ s) [] = false
str_eq (a ∷ s) (b ∷ t) = a == b && str_eq s t

abbrev pub is_empty_str : Str → Bool
is_empty_str [] = true
is_empty_str (b ∷ bs) = false

pub record RustdvPath : Type 0 where
  pub segments : List Str
  pub rendered : Str

unfoldable pub root : Str → RustdvPath
root name = record { segments = name ∷ []; rendered = name }

unfoldable pub empty : RustdvPath
empty = record { segments = []; rendered = [] }

unfoldable pub child : RustdvPath → Str → RustdvPath
child p name = record {
  segments = p.segments ++ name ∷ [];
  rendered = if is_empty_str p.rendered then name else p.rendered ++ b'.' ∷ name;
}

unfoldable pub depth : RustdvPath → ℕ
depth p = length p.segments

-- `==` of two slices of segments
abbrev pub segments_eq : List Str → List Str → Bool
segments_eq [] [] = true
segments_eq [] (t ∷ ts) = false
segments_eq (s ∷ ss) [] = false
segments_eq (s ∷ ss) (t ∷ ts) = str_eq s t && segments_eq ss ts

-- `[..n]`, for `n` up to the length
abbrev pub up_to : ℕ → List Str → List Str
up_to zero ss = []
up_to (suc n) [] = []
up_to (suc n) (s ∷ ss) = s ∷ up_to n ss

unfoldable pub is_under : RustdvPath → RustdvPath → Bool
is_under p prefix =
    leb (length prefix.segments) (length p.segments)
    && segments_eq (up_to (length prefix.segments) p.segments) prefix.segments

-- A byte in front of the first piece
abbrev pub onto_first : ℕ → List Str → List Str
onto_first b [] = (b ∷ []) ∷ []
onto_first b (s ∷ ss) = (b ∷ s) ∷ ss

-- `s.split('.')`
unfoldable pub split_dots : Str → List Str
split_dots [] = [] ∷ []
split_dots (b ∷ bs) = let rest = split_dots bs in if b == b'.' then [] ∷ rest else onto_first b rest

-- The loop of `str_is_under`
unfoldable pub follows : List Str → List Str → Bool
follows have [] = true
follows [] (want ∷ wants) = false
follows (seg ∷ have) (want ∷ wants) = if str_eq seg want then follows have wants else false

unfoldable pub str_is_under : Str → Str → Bool
unfolding follows split_dots
str_is_under path prefix =
    if is_empty_str prefix then true else follows (split_dots path) (split_dots prefix)
