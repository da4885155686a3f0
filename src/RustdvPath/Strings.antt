-- ===== src/RustdvPath/Strings.antt =====
-- The test for equal strings decides equality.
use rustdv.Base.{◌≡◌, refl, true, [], ◌∷◌, arith}
use rustdv.RustdvPath.{Str, str_eq}

pub str_eq_sound : (s t : Str) → str_eq s t ≡ true → s ≡ t
str_eq_sound [] [] h = refl
str_eq_sound (a ∷ s) (b ∷ t) h = ground (arith, str_eq_sound s t)
str_eq_sound [] (b ∷ t) h = ground arith
str_eq_sound (a ∷ s) [] h = ground arith

pub str_eq_refl : (s : Str) → str_eq s s ≡ true
str_eq_refl [] = refl
str_eq_refl (a ∷ s) = ground (arith, str_eq_refl s)
