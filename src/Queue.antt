-- ===== src/Queue.antt =====
-- `Queue<T>` of rustdv/rustdv-sim/src/queue.rs: the FIFO that tasks put to and get from. The handles
-- share one `QInner` through an `Rc`, so each method takes the shared object and gives it back; a
-- future's `poll` takes the id of the polling task, which is what its waker stands for.
pub mod Bounds
pub mod Wakeups
pub mod Refine
mod Tests
use rustdv.Base.{
  ℕ, Bool, true, List, [], ◌∷◌, ◌++◌, Option, none, some, ltb, if◌then◌else◌, length, Result, ok,
  err, Poll, ready, pending, ◌==◌,
}
use rustdv.Wake.{TaskId, World, wake_all}

-- `QInner<T>`, the front of the buffer first. `cap` is `none` for an unbounded queue.
pub record QInner {ℓ} (A : Type ℓ) : Type ℓ where
  pub buf : List A
  pub cap : Option ℕ
  pub get_waiters : List TaskId
  pub put_waiters : List TaskId

-- `usize` comparison of a length with a bound, as `QInner::has_space` makes it
abbrev pub below_cap : Option ℕ → ℕ → Bool
below_cap none n = true
below_cap (some c) n = ltb n c

module _ {ℓ} {A : Type ℓ} where
  unfoldable pub new : Option ℕ → QInner A
  new cap = record { buf = []; cap = cap; get_waiters = []; put_waiters = [] }

  unfoldable pub unbounded : QInner A
  unfolding new
  unbounded = new none

  unfoldable pub has_space : QInner A → Bool
  has_space q = below_cap q.cap (length q.buf)

  unfoldable pub wake_getters : World (QInner A) → World (QInner A)
  wake_getters w = record {
    inner = record w.inner { get_waiters = [] };
    woken = wake_all w.woken w.inner.get_waiters;
  }

  unfoldable pub wake_putters : World (QInner A) → World (QInner A)
  wake_putters w = record {
    inner = record w.inner { put_waiters = [] };
    woken = wake_all w.woken w.inner.put_waiters;
  }

  unfoldable pub len : QInner A → ℕ
  len q = length q.buf

  unfoldable pub is_empty : QInner A → Bool
  is_empty q = length q.buf == 0

  -- `buf.borrow_mut().push_back(item)`
  abbrev pub push_back : World (QInner A) → A → World (QInner A)
  push_back w item = record w { inner = record w.inner { buf = w.inner.buf ++ item ∷ [] } }

  -- `get_waiters.borrow_mut().push(cx.waker().clone())`
  abbrev pub wait_get : World (QInner A) → TaskId → World (QInner A)
  wait_get w id = record w {
    inner = record w.inner { get_waiters = w.inner.get_waiters ++ id ∷ [] };
  }

  abbrev pub wait_put : World (QInner A) → TaskId → World (QInner A)
  wait_put w id = record w {
    inner = record w.inner { put_waiters = w.inner.put_waiters ++ id ∷ [] };
  }

  unfoldable pub try_put : World (QInner A) → A → World (QInner A) × Result (Unit {0}) A
  unfolding has_space wake_getters
  try_put w item =
      if has_space w.inner then (wake_getters (push_back w item), ok tt) else (w, err item)

  -- `buf.pop_front()`, and what follows it if there was an item
  unfoldable pub try_get : World (QInner A) → World (QInner A) × Option A
  unfolding wake_putters
  try_get w = elim w.inner.buf [
    | [] ↦ (w, none)
    | v ∷ rest ↦ (wake_putters (record w { inner = record w.inner { buf = rest } }), some v)
  ]

  -- `Space::poll`
  unfoldable pub poll_space : World (QInner A) → TaskId → World (QInner A) × Poll (Unit {0})
  unfolding has_space
  poll_space w id = if has_space w.inner then (w, ready tt) else (wait_put w id, pending)

  unfoldable pub try_peek : QInner A → Option A
  try_peek q = elim q.buf [ [] ↦ none | v ∷ _ ↦ some v ]

  -- `Peek::poll`
  unfoldable pub poll_peek : World (QInner A) → TaskId → World (QInner A) × Poll A
  poll_peek w id = elim w.inner.buf [ [] ↦ (wait_get w id, pending) | v ∷ _ ↦ (w, ready v) ]

  -- `Put::poll`: the future's `item` is taken when it completes, and a later poll that finds room
  -- panics, which is the `none` here.
  unfoldable pub poll_put :
      World (QInner A) → Option A → TaskId → Option (World (QInner A) × Option A × Poll (Unit {0}))
  unfolding has_space wake_getters
  poll_put w item id =
      if has_space w.inner
      then elim item [ none ↦ none | some a ↦ some (wake_getters (push_back w a), none, ready tt) ]
      else some (wait_put w id, item, pending)

  -- `Get::poll`
  unfoldable pub poll_get : World (QInner A) → TaskId → World (QInner A) × Poll A
  unfolding wake_putters
  poll_get w id = elim w.inner.buf [
    | [] ↦ (wait_get w id, pending)
    | v ∷ rest ↦ (wake_putters (record w { inner = record w.inner { buf = rest } }), ready v)
  ]

-- A call on the queue by some task, as the executor interleaves them; a put future is polled with
-- the item that it still holds.
pub data Call {ℓ} (A : Type ℓ) : Type ℓ where
  try_puts : A → Call A
  try_gets try_peeks lens : Call A
  puts : A → TaskId → Call A
  gets peeks spaces : TaskId → Call A

-- What the caller sees: an item, that the call went through, a refusal that hands the item back,
-- or that the task has to wait.
pub data Reply {ℓ} (A : Type ℓ) : Type ℓ where
  item : A → Reply A
  done nothing waits : Reply A
  refused : A → Reply A
  size : ℕ → Reply A

module _ {ℓ} {A : Type ℓ} where
  abbrev pub put_reply : Result (Unit {0}) A → Reply A
  put_reply (ok _) = done
  put_reply (err a) = refused a

  abbrev pub get_reply : Option A → Reply A
  get_reply none = nothing
  get_reply (some a) = item a

  abbrev pub item_reply : Poll A → Reply A
  item_reply (ready a) = item a
  item_reply pending = waits

  abbrev pub unit_reply : Poll (Unit {0}) → Reply A
  unit_reply (ready _) = done
  unit_reply pending = waits

  abbrev pub polled_put :
      World (QInner A)
      → Option (World (QInner A) × Option A × Poll (Unit {0}))
      → World (QInner A) × Reply A
  polled_put w none = (w, nothing)
  polled_put w (some (w', _, p)) = (w', unit_reply p)

  unfoldable pub call : World (QInner A) → Call A → World (QInner A) × Reply A
  unfolding try_put try_get try_peek len poll_put poll_get poll_peek poll_space
  call w (try_puts a) = let (w', r) = try_put w a in (w', put_reply r)
  call w try_gets = let (w', r) = try_get w in (w', get_reply r)
  call w try_peeks = (w, get_reply (try_peek w.inner))
  call w lens = (w, size (len w.inner))
  call w (puts a id) = polled_put w (poll_put w (some a) id)
  call w (gets id) = let (w', p) = poll_get w id in (w', item_reply p)
  call w (peeks id) = let (w', p) = poll_peek w id in (w', item_reply p)
  call w (spaces id) = let (w', p) = poll_space w id in (w', unit_reply p)

  unfoldable pub run : World (QInner A) → List (Call A) → World (QInner A) × List (Reply A)
  run w [] = (w, [])
  run w (c ∷ cs) = let (w', r) = call w c in let (w'', rs) = run w' cs in (w'', r ∷ rs)
