-- ===== src/Runner/Filter.antt =====
-- `RUSTDV_TESTCASE`: `apply_testcase_filter` of rustdv/rustdv-runner/src/rustdv_runner.rs. Texts are bytes, so `trim` takes
-- off the white space of ASCII.
use rustdv.Base.{
  ℕ, ◌+◌, Bool, true, false, ◌&&◌, ◌||◌, List, [], ◌∷◌, map, Option, none, some, Result, ok, err,
  if◌then◌else◌, ◌==◌, leb,
}
use mathlib.Core.List.{reverse}
use rustdv.RustdvPath.{Str}
use rustdv.Runner.{TestRegistration}

-- `split(',')`
unfoldable pub split_commas : Str → List Str
split_commas [] = [] ∷ []
split_commas (c ∷ cs) = elim (split_commas cs) [
  | [] ↦ []
  | s ∷ ss ↦ if c == b',' then [] ∷ s ∷ ss else (c ∷ s) ∷ ss
]

unfoldable pub is_space : ℕ → Bool
is_space c = c == 32 || (leb 9 c && leb c 13)

unfoldable pub trim_start : Str → Str
unfolding is_space
trim_start [] = []
trim_start (c ∷ cs) = if is_space c then trim_start cs else c ∷ cs

unfoldable pub trim : Str → Str
unfolding trim_start
trim s = reverse (trim_start (reverse (trim_start s)))

abbrev pub lower : ℕ → ℕ
lower c = if leb b'A' c && leb c b'Z' then c + 32 else c

unfoldable pub to_ascii_lowercase : Str → Str
to_ascii_lowercase s = map lower s

unfoldable pub starts_with : Str → Str → Bool
starts_with s [] = true
starts_with [] (p ∷ ps) = false
starts_with (c ∷ cs) (p ∷ ps) = (c == p) && starts_with cs ps

unfoldable pub contains : Str → Str → Bool
unfolding starts_with
contains [] p = starts_with [] p
contains (c ∷ cs) p = starts_with (c ∷ cs) p || contains cs p

unfoldable pub drop_empty : List Str → List Str
drop_empty [] = []
drop_empty ([] ∷ ss) = drop_empty ss
drop_empty ((c ∷ cs) ∷ ss) = (c ∷ cs) ∷ drop_empty ss

unfoldable pub patterns : Str → List Str
unfolding split_commas trim to_ascii_lowercase drop_empty
patterns raw = drop_empty (map (λ s. to_ascii_lowercase (trim s)) (split_commas raw))

unfoldable pub any_in : Str → List Str → Bool
unfolding contains
any_in name [] = false
any_in name (p ∷ ps) = contains name p || any_in name ps

unfoldable pub matches : List Str → TestRegistration → Bool
unfolding any_in to_ascii_lowercase
matches pats t = any_in (to_ascii_lowercase t.name) pats

unfoldable pub keep_matching : List Str → List TestRegistration → List TestRegistration
unfolding matches
keep_matching pats [] = []
keep_matching pats (t ∷ ts) =
    if matches pats t then t ∷ keep_matching pats ts else keep_matching pats ts

abbrev pub is_empty {ℓ} : {A : Type ℓ} → List A → Bool
is_empty [] = true
is_empty (x ∷ xs) = false

-- The error holds the variable's value.
unfoldable pub apply_testcase_filter :
    Option Str → List TestRegistration → Result (List TestRegistration) Str
unfolding patterns keep_matching
apply_testcase_filter none tests = ok tests
apply_testcase_filter (some raw) tests =
    let pats = patterns raw in
    let kept = keep_matching pats tests in
    if is_empty pats then ok tests else if is_empty kept then err raw else ok kept
