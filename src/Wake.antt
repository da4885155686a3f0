-- ===== src/Wake.antt =====
-- Wakers and the queue that they push onto: `TaskWaker` and `WokenQueue` of
-- rustdv/rustdv-sim/src/executor.rs. A waker is the id of its task. An object whose methods wake
-- tasks is modelled beside the queue that it pushes the ids onto.
use rustdv.Base.{ℕ, ◌+◌, ◌≡◌, List, [], ◌∷◌, ◌++◌, arith, count, count-append}

abbrev pub TaskId : Type 0
TaskId = ℕ

-- A shared object and the executor's `WokenQueue`, oldest wake first.
pub record World {ℓ} (S : Type ℓ) : Type ℓ where
  pub inner : S
  pub woken : List TaskId

-- `TaskWaker::wake`
abbrev pub wake : List TaskId → TaskId → List TaskId
wake woken id = woken ++ id ∷ []

-- `for w in waiters.drain(..) { w.wake(); }`
unfoldable pub wake_all : List TaskId → List TaskId → List TaskId
wake_all woken [] = woken
wake_all woken (w ∷ ws) = wake_all (wake woken w) ws

-- Each drained waker is pushed once, behind what was there.
pub count-wake_all :
    (a : ℕ) (woken ws : List ℕ) → count a (wake_all woken ws) ≡ count a woken + count a ws
unfolding wake_all
count-wake_all a woken [] = omega arith
count-wake_all a woken (w ∷ ws) =
    omega (arith, count-wake_all a (woken ++ w ∷ []) ws, count-append a woken (w ∷ []))
