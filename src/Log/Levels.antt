-- ===== src/Log/Levels.antt =====
-- rustdv/rustdv-sim/src/log.rs: which setting of a subtree holds for a path.
use rustdv.Base.{ℕ, leb, Bool, true, false, List, ◌&&◌, Option, none, some, length}
use rustdv.RustdvPath.{Str, str_is_under}
use rustdv.Log.{Log, retain, longest}

module _ {A : Type 0} where
  -- The length of the prefix that wins, 0 if none does
  abbrev pub reach : Option (Str × A) → ℕ
  reach none = 0
  reach (some m) = length m.0

  abbrev pub is_some : Option (Str × A) → Bool
  is_some none = false
  is_some (some m) = true

-- Does the path stand under the prefix, and under no longer prefix of the list?
abbrev pub holds_for : {A : Type 0} → Str → Str → List (Str × A) → Bool
holds_for path p v = str_is_under path p && leb (reach (longest path (retain p v))) (length p)
