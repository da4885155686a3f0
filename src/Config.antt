-- ===== src/Config.antt =====
-- The addresses of `ConfigDb`, rustdv/rustdv-methodology/src/config.rs: matching a path against a stored
-- glob, the path that a context and an offset address, and the precedence of a write. A string is its
-- list of bytes.
pub mod Glob
pub mod Store
pub mod Lookups
mod Tests
use rustdv.Base.{
  ℕ, ◌+◌, ◌-◌, Bool, true, false, List, [], ◌∷◌, ◌++◌, Option, none, some, ◌==◌, ◌&&◌, ◌||◌,
  if◌then◌else◌,
}
use rustdv.RustdvPath.{Str, is_empty_str}

-- `glob_match`
unfoldable pub glob_match : Str → Str → Bool
glob_match [] [] = true
glob_match (a ∷ p) [] = false
glob_match [] (b ∷ g) = if b == b'*' then glob_match [] g else false
glob_match (a ∷ p) (b ∷ g) =
    let here = glob_match (a ∷ p) g in
    let further = glob_match p (b ∷ g) in
    let next = glob_match p g in if b == b'*' then here || further else a == b && next

unfoldable pub more_specific : Str → Str → Bool
unfolding glob_match
more_specific a b = glob_match a b

-- `resolve`; a context is its component's path.
unfoldable pub resolve : Option Str → Str → Str
resolve none offset = offset
resolve (some c) offset =
    if is_empty_str offset then c else if is_empty_str c then offset else c ++ b'.' ∷ offset

-- `path.matches('.').count()`
unfoldable pub count_dots : Str → ℕ
count_dots [] = 0
count_dots (b ∷ bs) = (if b == b'.' then 1 else 0) + count_dots bs

unfoldable pub depth_of : Str → ℕ
unfolding count_dots
depth_of path = if is_empty_str path then 0 else count_dots path
