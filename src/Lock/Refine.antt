-- ===== src/Lock/Refine.antt =====
-- `Lock` of rustdv/rustdv-sim/src/sync.rs takes its clients in turn.
use rustdv.Base.{
  ℕ, ◌+◌, ◌≡◌, refl, ◌∙◌, true, false, [], ◌∷◌, ◌++◌, Option, none, some, arith, count,
  count-append, update,
}
use rustdv.Wake.{TaskId, World}
use rustdv.Lock.{LockInner, Acquire, acquire, retain_ne}
use rustdv.Lock.Clients.{Client, idle, trying, holding, Clients, become}
use rustdv.Lock.Turns.{Turn}
use rustdv.Lock.Owners.{
  owners-append, owners-update_absent, owners-update_same, count-retain_ne, owners-retain_ne,
  retain_ne_absent,
}
use rustdv.Lock.Release.{Agrees, ClientOk}

-- The waiter that a client's future has
abbrev waiter_of : Client → Option ℕ
waiter_of idle = none
waiter_of (trying f) = f.waiter
waiter_of holding = none

module _ (s : Clients) (t : Turn) (c : ℕ) (h : Agrees s t) where
  abbrev pub l : LockInner
  l = s.lock.inner

  -- The lock was free.
  pub take-Agrees :
      (f : Acquire)
      → s.client c ≡ trying f
      → f.waiter ≡ none
      → l.locked ≡ false
      → Agrees
          (become s (record s.lock { inner = record l { locked = true } }) c holding)
          (record t { holder = some c })
  take-Agrees f e w free = record {
    locked = refl;
    line = h.line;
    free_line = λ p. cc;
    clients = λ d. ground (arith, h.clients d, h.clients c, h.locked);
    queue = λ a m. ground (arith, h.queue a m, h.clients c, h.free_line);
  }

  -- The lock was held: the client gets a waiter at the end of the queue.
  abbrev pub joined : TaskId → World LockInner
  joined id = record s.lock {
    inner = record l {
      waiters = l.waiters ++ l.next ∷ [];
      cells = update l.cells l.next (record { granted = false; waker = some id; owner = c });
      next = l.next + 1;
    };
  }

  fresh : count l.next l.waiters ≡ 0
  fresh = ground (arith, h.queue l.next)

  join-client :
      (f : Acquire) (id : TaskId)
      → s.client c ≡ trying f
      → f.waiter ≡ none
      → l.locked ≡ true
      → (d : ℕ) (o : Option ℕ) → waiter_of (s.client d) ≡ o
      → let s' = become s (joined id) c (trying (record f { waiter = some l.next })) in
        ClientOk s'.lock.inner (record t { line = t.line ++ c ∷ [] }) d (s'.client d)
  join-client f id e w held d none q = ground (
    arith,
    h.clients d,
    h.clients c,
    fresh,
    count-append d t.line (c ∷ []),
    count-append l.next l.waiters (l.next ∷ []),
    h.locked,
  )
  join-client f id e w held d (some a) q = ground (
    arith,
    h.clients d,
    h.clients c,
    count-append d t.line (c ∷ []),
    count-append a l.waiters (l.next ∷ []),
  )

  pub join-Agrees :
      (f : Acquire) (id : TaskId)
      → s.client c ≡ trying f
      → f.waiter ≡ none
      → l.locked ≡ true
      → Agrees
          (become s (joined id) c (trying (record f { waiter = some l.next })))
          (record t { line = t.line ++ c ∷ [] })
  join-Agrees f id e w held = record {
    locked = h.locked;
    line = ground (
      arith,
      h.line,
      fresh,
      owners-append (joined id).inner.cells l.waiters (l.next ∷ []),
      owners-update_absent l.cells l.next (record { granted = false; waker = some id; owner = c })
          l.waiters,
    );
    free_line = ground (arith, h.locked);
    clients = λ d. join-client f id e w held d (waiter_of (s.client d)) refl;
    queue = λ a m.
        ground (arith, h.queue a, h.clients c, fresh, count-append a l.waiters (l.next ∷ []));
  }

  abbrev pub rearmed : ℕ → TaskId → World LockInner
  rearmed a id = record s.lock {
    inner = record l { cells = update l.cells a (record (l.cells a) { waker = some id }) };
  }

  -- Still in line: only the waker changes.
  pub wait-Agrees :
      (f : Acquire) (a : ℕ) (id : TaskId)
      → s.client c ≡ trying f
      → f.waiter ≡ some a
      → (l.cells a).granted ≡ false
      → Agrees (become s (rearmed a id) c (trying f)) t
  wait-Agrees f a id e w g = record {
    locked = h.locked;
    line =
        owners-update_same l.cells a (record (l.cells a) { waker = some id }) l.waiters refl
        ∙ h.line;
    free_line = h.free_line;
    clients = λ d. ground (arith, h.clients d, h.clients c);
    queue = λ b m. ground (arith, h.queue b, h.clients c);
  }

  -- The lock was handed over since the last poll.
  pub granted-Agrees :
      (f : Acquire) (a : ℕ)
      → s.client c ≡ trying f
      → f.waiter ≡ some a
      → (l.cells a).granted ≡ true
      → Agrees (become s s.lock c holding) t
  granted-Agrees f a e w g = record {
    locked = h.locked;
    line = h.line;
    free_line = h.free_line;
    clients = λ d. ground (arith, h.clients d, h.clients c);
    queue = λ b m. ground (arith, h.queue b, h.clients c);
  }

  abbrev pub withdrawn : ℕ → World LockInner
  withdrawn a = record s.lock { inner = record l { waiters = retain_ne a l.waiters } }

  withdraw-client :
      (f : Acquire) (a : ℕ)
      → s.client c ≡ trying f
      → f.waiter ≡ some a
      → (l.cells a).granted ≡ false
      → (d : ℕ) (o : Option ℕ) → waiter_of (s.client d) ≡ o
      → let s' = become s (withdrawn a) c idle in
        ClientOk s'.lock.inner (record t { line = retain_ne c t.line }) d (s'.client d)
  withdraw-client f a e w g d none q =
      ground (arith, h.clients d, h.clients c, count-retain_ne d c t.line)
  withdraw-client f a e w g d (some b) q =
      ground
        (arith, h.clients d, h.clients c, count-retain_ne d c t.line, count-retain_ne b a l.waiters)

  -- A cancelled client leaves the queue.
  pub withdraw-Agrees :
      (f : Acquire) (a : ℕ)
      → s.client c ≡ trying f
      → f.waiter ≡ some a
      → (l.cells a).granted ≡ false
      → Agrees (become s (withdrawn a) c idle) (record t { line = retain_ne c t.line })
  withdraw-Agrees f a e w g = record {
    locked = h.locked;
    line = ground (
      arith,
      h.line,
      h.clients c,
      owners-retain_ne l.cells a c l.waiters (ground (arith, h.clients c))
          (λ x m o. ground (arith, h.queue x m, h.clients c)),
    );
    free_line = ground (arith, h.free_line, h.clients c, retain_ne_absent a l.waiters);
    clients = λ d. withdraw-client f a e w g d (waiter_of (s.client d)) refl;
    queue = λ b m. ground (arith, h.queue b, h.clients c, count-retain_ne b a l.waiters);
  }

  pub idle-Agrees :
      (f : Acquire)
      → s.client c ≡ trying f
      → f.waiter ≡ none
      → Agrees (become s s.lock c idle) (record t { line = retain_ne c t.line })
  idle-Agrees f e w = record {
    locked = h.locked;
    line = ground (arith, h.line, retain_ne_absent c t.line, h.clients c);
    free_line = h.free_line;
    clients = λ d. ground (arith, h.clients d, h.clients c, count-retain_ne d c t.line);
    queue = λ b m. ground (arith, h.queue b, h.clients c);
  }

  pub start-Agrees : s.client c ≡ idle → Agrees (become s s.lock c (trying acquire)) t
  unfolding acquire
  start-Agrees e = record {
    locked = h.locked;
    line = h.line;
    free_line = h.free_line;
    clients = λ d. ground (arith, h.clients d, h.clients c);
    queue = λ b m. ground (arith, h.queue b, h.clients c);
  }
