-- ===== src/Config/Tests.antt =====
-- Runs of rustdv/rustdv-methodology/src/config.rs.
use rustdv.Base.{ℕ, ◌≡◌, ◌↔◌, refl, true, false, none, List, [], ◌∷◌, some}
use rustdv.RustdvPath.{Str}
use rustdv.Config.{glob_match, resolve, depth_of, count_dots}
use rustdv.Config.Glob.{Matches, glob_match_iff}
use rustdv.Config.Store.{Entry}
use rustdv.Config.Lookups.{Write, sets, builds}

-- `a.b` and `a.*`
abbrev leaf : Str
leaf = b'a' ∷ b'.' ∷ b'b' ∷ []

abbrev below : Str
below = b'a' ∷ b'.' ∷ b'*' ∷ []

glob_match_iff_example : (glob_match leaf below ≡ true) ↔ Matches leaf below
glob_match_iff_example = glob_match_iff leaf below

resolved : resolve (some (b'a' ∷ [])) (b'b' ∷ []) ≡ leaf
unfolding resolve
resolved = refl

one_deep : depth_of leaf ≡ 1
unfolding depth_of count_dots
one_deep = refl

abbrev value : Entry ℕ
value = record { value = 3; type_name = b'u' ∷ []; type_id = 1; rendered = b'3' ∷ [] }

-- A write in the build phase, and one after it
abbrev writes : List (Write ℕ)
writes =
    builds true
    ∷ sets (some (b'a' ∷ [])) (b'*' ∷ []) (b'k' ∷ []) value
    ∷ builds false
    ∷ sets none leaf (b'k' ∷ []) value
    ∷ []
