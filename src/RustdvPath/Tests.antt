-- ===== src/RustdvPath/Tests.antt =====
-- Runs of rustdv/rustdv-sim/src/path.rs.
use rustdv.Base.{◌≡◌, refl, false, [], ◌∷◌}
use rustdv.RustdvPath
use rustdv.RustdvPath.{Str, root, child, is_under, split_dots, str_is_under}

abbrev top : Str
top = b'a' ∷ []

abbrev longer : Str
longer = b'a' ∷ b'b' ∷ []

-- `ab` is not under `a`.
not_under : str_is_under longer top ≡ false
unfolding str_is_under split_dots RustdvPath.follows
not_under = refl
