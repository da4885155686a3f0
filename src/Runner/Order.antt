-- ===== src/Runner/Order.antt =====
-- The order of the tests: `collect_tests` of rustdv/rustdv-runner/src/rustdv_runner.rs.
use rustdv.Base.{
  ℕ, Bool, true, false, ◌&&◌, List, [], ◌∷◌, if◌then◌else◌, ◌==◌, ◌≡◌, refl, ◌∙◌, arith, Bool-cases,
  inl, inr,
}
use rustdv.RustdvPath.{Str, str_eq}
use rustdv.RustdvPath.Strings.{str_eq_sound, str_eq_refl}
use rustdv.Runner.{TestRegistration, bytes_leb, key_leb, insert_test, collect_tests}

-- The test may stand before the list.
abbrev pub may_precede : TestRegistration → List TestRegistration → Bool
may_precede r [] = true
may_precede r (s ∷ ss) = key_leb r s

abbrev pub Sorted : List TestRegistration → Type 0
Sorted [] = Unit
Sorted (r ∷ rs) = (may_precede r rs ≡ true) × Sorted rs

abbrev pub has_key : Str → ℕ → TestRegistration → Bool
has_key file line r = str_eq r.file file && (r.line == line)

-- The tests at one place of the source, in their order
abbrev pub at_key : Str → ℕ → List TestRegistration → List TestRegistration
at_key file line [] = []
at_key file line (r ∷ rs) =
    if has_key file line r then r ∷ at_key file line rs else at_key file line rs

bytes_leb_total : (s t : Str) → bytes_leb s t ≡ false → bytes_leb t s ≡ true
unfolding bytes_leb
bytes_leb_total [] t h = ground arith
bytes_leb_total (a ∷ s) [] h = refl
bytes_leb_total (a ∷ s) (b ∷ t) h = ground (arith, bytes_leb_total s t)

str_eq_sym : (s t : Str) → str_eq s t ≡ str_eq t s
str_eq_sym [] [] = refl
str_eq_sym [] (b ∷ t) = refl
str_eq_sym (a ∷ s) [] = refl
str_eq_sym (a ∷ s) (b ∷ t) = ground (arith, str_eq_sym s t)

key_leb_total : (r s : TestRegistration) → key_leb r s ≡ false → key_leb s r ≡ true
unfolding key_leb
key_leb_total r s h = ground (arith, str_eq_sym r.file s.file, bytes_leb_total r.file s.file)

precede-insert :
    (r s : TestRegistration) (ss : List TestRegistration)
    → key_leb s r ≡ true
    → may_precede s ss ≡ true
    → may_precede s (insert_test r ss) ≡ true
unfolding insert_test
precede-insert r s [] h k = h
precede-insert r s (t ∷ ts) h k = ground arith

insert-Sorted :
    (r : TestRegistration) (ss : List TestRegistration) → Sorted ss → Sorted (insert_test r ss)
unfolding insert_test
insert-Sorted r [] h = (refl, tt)
insert-Sorted r (s ∷ ss) (k, h) = elim (Bool-cases (key_leb r s)) [
  | inl e ↦ rw e (e, (k, h))
  | inr e ↦ rw e (precede-insert r s ss (key_leb_total r s e) k, insert-Sorted r ss h)
]

collect-Sorted : (rs : List TestRegistration) → Sorted (collect_tests rs)
unfolding collect_tests
collect-Sorted [] = tt
collect-Sorted (r ∷ rs) = insert-Sorted r (collect_tests rs) (collect-Sorted rs)

-- Tests at one place are in order whichever is inserted.
same_key :
    (file : Str) (line : ℕ) (r s : TestRegistration)
    → has_key file line r ≡ true
    → has_key file line s ≡ true
    → key_leb r s ≡ true
unfolding key_leb
same_key file line r s h k =
    let e = str_eq_sound r.file file (ground arith) in
    let f = str_eq_sound s.file file (ground arith) in ground (arith, str_eq_refl file)

at_key-insert :
    (file : Str) (line : ℕ) (r : TestRegistration) (ss : List TestRegistration)
    → at_key file line (insert_test r ss) ≡ at_key file line (r ∷ ss)
unfolding insert_test
at_key-insert file line r [] = refl
at_key-insert file line r (s ∷ ss) = elim (Bool-cases (key_leb r s)) [
  | inl e ↦ rw e refl
  | inr e ↦ ground (arith, at_key-insert file line r ss, same_key file line r s)
]

at_key-collect :
    (file : Str) (line : ℕ) (rs : List TestRegistration)
    → at_key file line (collect_tests rs) ≡ at_key file line rs
unfolding collect_tests
at_key-collect file line [] = refl
at_key-collect file line (r ∷ rs) =
    at_key-insert file line r (collect_tests rs) ∙ ground (arith, at_key-collect file line rs)

-- The tests run in the order of their files and lines: the collected list is sorted, and at every file and line it has the
-- tests registered there, each as often and in the order in which they were registered.
pub collect_tests-Sorted :
    (rs : List TestRegistration) (file : Str) (line : ℕ)
    → Sorted (collect_tests rs) × (at_key file line (collect_tests rs) ≡ at_key file line rs)
collect_tests-Sorted rs file line = (collect-Sorted rs, at_key-collect file line rs)
