-- ===== src/Lock.antt =====
-- `Lock` of rustdv/rustdv-sim/src/sync.rs: the FIFO-fair mutex. A `LockWaiter` is shared between the
-- lock's queue and the `Acquire` that made it, so it is an address into a store.
pub mod Turns
pub mod Owners
pub mod Release
pub mod Refine
pub mod Steps
pub mod Clients
mod Tests
use rustdv.Base.{
  ℕ, ◌+◌, Bool, true, false, not, List, [], ◌∷◌, ◌++◌, Option, none, some, ◌==◌, if◌then◌else◌,
  Poll, ready, pending, update,
}
use rustdv.Wake.{TaskId, World, wake}

-- `owner` is no field of the source: it names the client whose `Acquire` made the waiter, and no
-- operation reads it.
pub record LockWaiter : Type 0 where
  pub granted : Bool
  pub waker : Option TaskId
  pub owner : ℕ

-- `LockInner`, with the store of waiters and its next free address. The front of the queue is first.
pub record LockInner : Type 0 where
  pub locked : Bool
  pub waiters : List ℕ
  pub cells : ℕ → LockWaiter
  pub next : ℕ

-- `Acquire`, beside the lock that it refers to
pub record Acquire : Type 0 where
  pub waiter : Option ℕ
  pub acquired : Bool

unfoldable pub new : LockInner
new = record {
  locked = false;
  waiters = [];
  cells = λ _. record { granted = false; waker = none; owner = 0 };
  next = 0;
}

unfoldable pub acquire : Acquire
acquire = record { waiter = none; acquired = false }

abbrev pub wake_taken : List TaskId → Option TaskId → List TaskId
wake_taken woken none = woken
wake_taken woken (some t) = wake woken t

-- `LockInner::release`, which is also `LockGuard`'s `Drop`
unfoldable pub release : World LockInner → World LockInner
release w = elim w.inner.waiters [
  | [] ↦ record w { inner = record w.inner { locked = false } }
  | a ∷ rest ↦ record {
    inner = record w.inner {
      waiters = rest;
      cells = update w.inner.cells a (record (w.inner.cells a) { granted = true; waker = none });
    };
    woken = wake_taken w.woken (w.inner.cells a).waker;
  }
]

-- `Acquire::poll`, by the client `me` on the task `id`. `ready` hands out the guard.
unfoldable pub poll_acquire :
    ℕ → World LockInner → Acquire → TaskId → World LockInner × Acquire × Poll (Unit {0})
poll_acquire me w f id = elim f.waiter [
  | none ↦
      if not w.inner.locked
      then (
        record w { inner = record w.inner { locked = true } },
        record f { acquired = true },
        ready tt,
      )
      else (
        record w {
          inner = record w.inner {
            waiters = w.inner.waiters ++ w.inner.next ∷ [];
            cells =
                update w.inner.cells w.inner.next
                  (record { granted = false; waker = some id; owner = me });
            next = w.inner.next + 1;
          };
        },
        record f { waiter = some w.inner.next },
        pending,
      )
  | some a ↦ if (w.inner.cells a).granted then (w, record f { acquired = true }, ready tt) else (
    record w {
      inner = record w.inner {
        cells = update w.inner.cells a (record (w.inner.cells a) { waker = some id });
      };
    },
    f,
    pending,
  )
]

-- `waiters.retain(|x| !Rc::ptr_eq(x, w))`
unfoldable pub retain_ne : ℕ → List ℕ → List ℕ
retain_ne a [] = []
retain_ne a (x ∷ xs) = if x == a then retain_ne a xs else x ∷ retain_ne a xs

-- `Acquire`'s `Drop`
unfoldable pub drop_acquire : World LockInner → Acquire → World LockInner
unfolding release retain_ne
drop_acquire w f = if f.acquired then w else elim f.waiter [
  | none ↦ w
  | some a ↦
      if (w.inner.cells a).granted
      then release w
      else record w { inner = record w.inner { waiters = retain_ne a w.inner.waiters } }
]
