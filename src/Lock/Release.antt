-- ===== src/Lock/Release.antt =====
-- Handing the lock on: `LockInner::release` of rustdv/rustdv-sim/src/sync.rs against the turns.
use rustdv.Base.{
  ℕ, ◌≡◌, ◌<◌, refl, Bool, true, false, not, List, [], ◌∷◌, Option, none, some, arith, count,
}
use rustdv.Lock.{LockInner, release}
use rustdv.Lock.Clients.{Client, idle, trying, holding, Clients, become}
use rustdv.Lock.Turns.{Turn, holds, is_free, pass_on}
use rustdv.Lock.Owners.{owners, owners-update_same}

-- How a client's state agrees with the turns: a guard and a granted waiter are the holder, a waiter in
-- the queue is in line once, and nobody else is either.
abbrev pub WaiterOk : LockInner → Turn → ℕ → ℕ → Bool → Type 0
WaiterOk l t c a true = (holds t.holder c ≡ true) × (count c t.line ≡ 0) × (count a l.waiters ≡ 0)
WaiterOk l t c a false = (holds t.holder c ≡ false) × (count c t.line ≡ 1) × (count a l.waiters ≡ 1)

abbrev pub AcquireOk : LockInner → Turn → ℕ → Option ℕ → Type 0
AcquireOk l t c none = (holds t.holder c ≡ false) × (count c t.line ≡ 0)
AcquireOk l t c (some a) =
    (a < l.next) × ((l.cells a).owner ≡ c) × WaiterOk l t c a (l.cells a).granted

abbrev pub ClientOk : LockInner → Turn → ℕ → Client → Type 0
ClientOk l t c idle = (holds t.holder c ≡ false) × (count c t.line ≡ 0)
ClientOk l t c (trying f) = (f.acquired ≡ false) × AcquireOk l t c f.waiter
ClientOk l t c holding = (holds t.holder c ≡ true) × (count c t.line ≡ 0)

-- A waiter in the queue is there once, is not granted, and its owner still waits on it.
pub record Queued (s : Clients) (a : ℕ) : Type 0 where
  pub once : count a s.lock.inner.waiters ≡ 1
  pub made : a < s.lock.inner.next
  pub ungranted : (s.lock.inner.cells a).granted ≡ false
  pub waits :
      s.client (s.lock.inner.cells a).owner ≡ trying (record { waiter = some a; acquired = false })

pub record Agrees (s : Clients) (t : Turn) : Type 0 where
  pub locked : s.lock.inner.locked ≡ not (is_free t.holder)
  pub line : owners s.lock.inner.cells s.lock.inner.waiters ≡ t.line
  pub free_line : is_free t.holder ≡ true → s.lock.inner.waiters ≡ []
  pub clients : (c : ℕ) → ClientOk s.lock.inner t c (s.client c)
  pub queue : (a : ℕ) → 0 < count a s.lock.inner.waiters → Queued s a

module _ (s : Clients) (t : Turn) (c : ℕ) (h : Agrees s t) (k : Client) (e : s.client c ≡ k)
    (mine : holds t.holder c ≡ true) where
  abbrev pub l : LockInner
  l = s.lock.inner

  abbrev pub s' : Clients
  s' = become s (release s.lock) c idle

  release-clients :
      (xs : List ℕ)
      → l.waiters ≡ xs
      → (d : ℕ) → ClientOk s'.lock.inner (pass_on t.line) d (s'.client d)
  unfolding release
  release-clients [] q d = ground (arith, h.line, h.clients d)
  release-clients (a ∷ rest) q d = ground (arith, h.line, h.clients d, h.queue a, h.clients c)

  release-queue :
      (xs : List ℕ) → l.waiters ≡ xs → (b : ℕ) → 0 < count b s'.lock.inner.waiters → Queued s' b
  unfolding release
  release-queue [] q b m = ground (arith)
  release-queue (a ∷ rest) q b m = ground (arith, h.queue a, h.queue b, h.clients c)

  pub release-Agrees : (xs : List ℕ) → l.waiters ≡ xs → Agrees s' (pass_on t.line)
  unfolding release
  release-Agrees [] q = record {
    locked = ground (arith, h.line);
    line = ground (arith, h.line);
    free_line = ground (arith, h.line);
    clients = release-clients [] q;
    queue = release-queue [] q;
  }
  release-Agrees (a ∷ rest) q = record {
    locked = ground (arith, h.line, h.locked);
    line = ground (
      arith,
      h.line,
      owners-update_same l.cells a (record (l.cells a) { granted = true; waker = none }) rest refl,
    );
    free_line = ground (arith, h.line);
    clients = release-clients (a ∷ rest) q;
    queue = release-queue (a ∷ rest) q;
  }
