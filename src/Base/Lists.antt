-- ===== src/Base/Lists.antt =====
-- Lists measured and indexed by native numbers, under the library's names.
use Prim.Native.Nat.{ℕ, zero, suc, ◌+◌}
use mathlib.Core.Path.{◌≡◌}
use mathlib.Core.List.{List, [], ◌∷◌, ◌++◌}
use mathlib.Core.Logic.{◌⊎◌, inl, inr}
use mathlib.Core.Option.{Option, none, some}
use native.Mathlib.Omega.{arith}
use rustdv.Base.Booleans.{◌==◌, if◌then◌else◌}

module _ {ℓ} {A : Type ℓ} where
  abbrev pub length : List A → ℕ
  length [] = 0
  length (x ∷ xs) = suc (length xs)

  abbrev pub get_elem? : List A → ℕ → Option A
  get_elem? [] i = none
  get_elem? (x ∷ xs) zero = some x
  get_elem? (x ∷ xs) (suc i) = get_elem? xs i

  pub length-append : (xs ys : List A) → length (xs ++ ys) ≡ length xs + length ys
  length-append [] ys = omega arith
  length-append (x ∷ xs) ys = omega (arith, length-append xs ys)

-- How often a number stands in a list.
abbrev pub count : ℕ → List ℕ → ℕ
count n [] = 0
count n (m ∷ ms) = (if m == n then 1 else 0) + count n ms

pub count-append : (n : ℕ) (ms ks : List ℕ) → count n (ms ++ ks) ≡ count n ms + count n ks
count-append n (m ∷ ms) ks = let rest = count-append n ms ks in omega (arith, rest)
count-append n [] ks = omega arith

-- Membership that says at which place.
abbrev pub In : {A : Type 0} → A → List A → Type 0
In a [] = ⊥
In a (x ∷ xs) = (a ≡ x) ⊎ In a xs

pub In-append_left : {A : Type 0} (a : A) (xs ys : List A) → In a xs → In a (xs ++ ys)
In-append_left a [] ys h = elim h [ ]
In-append_left a (x ∷ xs) ys (inl e) = inl e
In-append_left a (x ∷ xs) ys (inr h) = inr (In-append_left a xs ys h)

pub In-append_right : {A : Type 0} (a : A) (xs ys : List A) → In a ys → In a (xs ++ ys)
In-append_right a [] ys h = h
In-append_right a (x ∷ xs) ys h = inr (In-append_right a xs ys h)

pub In-append : {A : Type 0} (a : A) (xs ys : List A) → In a (xs ++ ys) → In a xs ⊎ In a ys
In-append a [] ys h = inr h
In-append a (x ∷ xs) ys (inl e) = inl (inl e)
In-append a (x ∷ xs) ys (inr h) = elim (In-append a xs ys h) [ inl k ↦ inl (inr k) | inr k ↦ inr k ]

pub In-last : {A : Type 0} (a x : A) (xs : List A) → In a (xs ++ x ∷ []) → In a xs ⊎ (a ≡ x)
In-last a x xs h = elim (In-append a xs (x ∷ []) h) [
  | inl k ↦ inl k
  | inr k ↦ elim k [ inl e ↦ inr e | inr n ↦ elim n [ ] ]
]
