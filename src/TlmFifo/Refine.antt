-- ===== src/TlmFifo/Refine.antt =====
-- rustdv/rustdv-methodology/src/fifo.rs: seen without its taps, the FIFO is the queue that it holds.
use rustdv.Base.{
  ℕ, suc, zero, ◌≡◌, ◌<◌, refl, ap, ap₂, ◌∙◌, false, List, [], ◌∷◌, arith, map, length, some,
  if◌then◌else◌,
}
use rustdv.Wake.{World}
use rustdv.Queue
use rustdv.Queue.{QInner, Reply, below_cap, done, refused, wake_putters}
use rustdv.Queue.Refine.{try_get-nil, try_get-cons}
use rustdv.TlmFifo.{
  FifoInner, Call, try_puts, puts, try_gets, try_peeks, useds, gets, peeks, call, run, queue, flush,
  flush_loop, can_put, put_back, new, unbounded,
}

module _ {ℓ} {A : Type ℓ} where
  abbrev pub to_queue : Call A → Queue.Call A
  to_queue (try_puts a) = Queue.try_puts a
  to_queue (puts a id) = Queue.puts a id
  to_queue try_gets = Queue.try_gets
  to_queue try_peeks = Queue.try_peeks
  to_queue useds = Queue.lens
  to_queue (gets id) = Queue.gets id
  to_queue (peeks id) = Queue.peeks id

  call-queue :
      (w : World (FifoInner A)) (c : Call A)
      → let (w', r) = call w c in
        let (v, s) = Queue.call (queue w) (to_queue c) in (queue w' ≡ v) × (r ≡ s)
  unfolding call Queue.call
  call-queue w (try_puts a) = ground arith
  call-queue w (puts a id) = ground arith
  call-queue w try_gets = ground arith
  call-queue w try_peeks = ground arith
  call-queue w useds = ground arith
  call-queue w (gets id) = ground arith
  call-queue w (peeks id) = ground arith

  -- Whatever is connected to its taps, a FIFO answers every sequence of calls as the queue inside it
  -- would alone, ends with that queue's contents and waiters, and wakes the same tasks.
  pub run-queue :
      (w : World (FifoInner A)) (cs : List (Call A))
      → let (w', rs) = run w cs in
        let (v, ss) = Queue.run (queue w) (map to_queue cs) in (queue w' ≡ v) × (rs ≡ ss)
  unfolding run Queue.run
  run-queue w [] = (refl, refl)
  run-queue w (c ∷ cs) =
      let (same, replied) = call-queue w c in
      let (later, replies) = run-queue (call w c).0 cs in
      (
        later ∙ ap (λ v. (Queue.run v (map to_queue cs)).0) same,
        ap₂ ◌∷◌ replied (replies ∙ ap (λ v. (Queue.run v (map to_queue cs)).1) same),
      )

  flush_loop-empties :
      (fuel : ℕ) (v : World (QInner A)) (xs : List A)
      → v.inner.buf ≡ xs
      → length xs < fuel
      → (v' : World (QInner A)) × (flush_loop fuel v ≡ some v')
        × (v'.inner.buf ≡ [])
        × (v'.inner.cap ≡ v.inner.cap)
        × (v'.inner.get_waiters ≡ v.inner.get_waiters)
  unfolding flush_loop wake_putters
  flush_loop-empties zero v xs e h = absurd (omega arith)
  flush_loop-empties (suc n) v [] e h = (v, ground (arith, try_get-nil v e), e, refl, refl)
  flush_loop-empties (suc n) v (x ∷ xs) e h =
      let v1 = wake_putters (record v { inner = record v.inner { buf = xs } }) in
      let (v', ran, empty, cap, getters) = flush_loop-empties n v1 xs refl (omega arith) in
      (v', ground (arith, try_get-cons v x xs e, ran), empty, cap, getters)

  -- `flush` ends, given one step more than there are items, and leaves the FIFO empty with its depth,
  -- its taps and the tasks that wait for an item as they were; the taps see nothing of what it drops.
  pub flush-empties :
      (fuel : ℕ) (w : World (FifoInner A))
      → length w.inner.q.buf < fuel
      → (w' : World (FifoInner A)) × (flush fuel w ≡ some w')
        × (w'.inner.q.buf ≡ [])
        × (w'.inner.q.cap ≡ w.inner.q.cap)
        × (w'.inner.q.get_waiters ≡ w.inner.q.get_waiters)
        × (w'.inner.put_taps ≡ w.inner.put_taps)
        × (w'.inner.get_taps ≡ w.inner.get_taps)
        × (w'.inner.log ≡ w.inner.log)
  unfolding flush
  flush-empties fuel w h =
      let (v, ran, empty, cap, getters) = flush_loop-empties fuel (queue w) w.inner.q.buf refl h in
      (put_back w v, rw (ran, flush), empty, cap, getters, refl, refl, refl)

  -- The depth that a FIFO declares is the bound of the queue inside it.
  abbrev pub IsDepth : FifoInner A → Type 0
  IsDepth f = f.depth ≡ f.q.cap

  -- For a FIFO that declares its queue's bound, which `new` and `unbounded` do, `can_put` says
  -- exactly whether a `try_put` now would go through: it is refused, and hands the item back with the
  -- FIFO and the woken queue untouched, if `can_put` is false, and accepted otherwise.
  pub can_put-try_put :
      (w : World (FifoInner A)) (a : A)
      → IsDepth w.inner
      → ((call w (try_puts a)).1 ≡ (if can_put w.inner then done else refused a))
        × (can_put w.inner ≡ false → (call w (try_puts a)).0 ≡ w)
  unfolding can_put call
  can_put-try_put w a h = ground arith

pub new-IsDepth {ℓ} : (A : Type ℓ) (n : ℕ) → IsDepth (new {A = A} n) × IsDepth (unbounded {A = A})
unfolding new unbounded
new-IsDepth A n = (refl, refl)
