-- ===== src/Lock/Owners.antt =====
-- The owners of the waiters in a lock's queue: rustdv/rustdv-sim/src/sync.rs.
use rustdv.Base.{
  ℕ, ◌≡◌, ◌<◌, refl, ap, List, [], ◌∷◌, ◌++◌, arith, count, update, ◌==◌, if◌then◌else◌,
}
use rustdv.Lock.{LockWaiter, retain_ne}

abbrev pub owners : (ℕ → LockWaiter) → List ℕ → List ℕ
owners cells [] = []
owners cells (a ∷ rest) = (cells a).owner ∷ owners cells rest

pub owners-append :
    (cells : ℕ → LockWaiter) (xs ys : List ℕ)
    → owners cells (xs ++ ys) ≡ owners cells xs ++ owners cells ys
owners-append cells [] ys = refl
owners-append cells (x ∷ xs) ys = ap (λ l. (cells x).owner ∷ l) (owners-append cells xs ys)

pub owners-update_absent :
    (cells : ℕ → LockWaiter) (a : ℕ) (v : LockWaiter) (xs : List ℕ)
    → count a xs ≡ 0
    → owners (update cells a v) xs ≡ owners cells xs
owners-update_absent cells a v [] h = refl
owners-update_absent cells a v (x ∷ xs) h = ground (arith, owners-update_absent cells a v xs)

pub owners-update_same :
    (cells : ℕ → LockWaiter) (a : ℕ) (v : LockWaiter) (xs : List ℕ)
    → v.owner ≡ (cells a).owner
    → owners (update cells a v) xs ≡ owners cells xs
owners-update_same cells a v [] h = refl
owners-update_same cells a v (x ∷ xs) h = ground (arith, owners-update_same cells a v xs)

pub count-retain_ne :
    (j a : ℕ) (xs : List ℕ) → count j (retain_ne a xs) ≡ (if j == a then 0 else count j xs)
unfolding retain_ne
count-retain_ne j a [] = ground arith
count-retain_ne j a (x ∷ xs) = ground (arith, count-retain_ne j a xs)

pub owners-retain_ne :
    (cells : ℕ → LockWaiter) (a c : ℕ) (xs : List ℕ)
    → (cells a).owner ≡ c
    → ((x : ℕ) → 0 < count x xs → (cells x).owner ≡ c → x ≡ a)
    → owners cells (retain_ne a xs) ≡ retain_ne c (owners cells xs)
unfolding retain_ne
owners-retain_ne cells a c [] o u = refl
owners-retain_ne cells a c (x ∷ xs) o u =
    ground (arith, u x, owners-retain_ne cells a c xs o (λ y m. u y (omega arith)))

pub retain_ne_absent : (c : ℕ) (xs : List ℕ) → count c xs ≡ 0 → retain_ne c xs ≡ xs
unfolding retain_ne
retain_ne_absent c [] h = refl
retain_ne_absent c (x ∷ xs) h = ground (arith, retain_ne_absent c xs)
