-- ===== src/TlmFifo.antt =====
-- `TlmFifo<T>` of rustdv/rustdv-methodology/src/fifo.rs: a queue with analysis taps on the way in and
-- on the way out. The handles and the exports share one `FifoInner`. A subscriber is a number, and
-- what it does with an item is its own affair: the model records each `deliver` in order.
pub mod Taps
pub mod Refine
mod Tests
use rustdv.Base.{
  ℕ, Bool, true, false, not, List, [], ◌∷◌, ◌++◌, Option, none, some, leb, if◌then◌else◌, length,
  Result, ok, err, Poll, ready, pending, zero, suc,
}
use rustdv.Wake.{TaskId, World}
use rustdv.Queue
use rustdv.Queue.{
  QInner, Reply, item, done, waits, put_reply, get_reply, item_reply, unit_reply, size,
}

abbrev pub Sink : Type 0
Sink = ℕ

-- `log` is every delivery so far, oldest first.
pub record FifoInner {ℓ} (A : Type ℓ) : Type ℓ where
  pub q : QInner A
  pub depth : Option ℕ
  pub put_taps : List Sink
  pub get_taps : List Sink
  pub log : List (Sink × A)

module _ {ℓ} {A : Type ℓ} where
  -- `FifoInner::new`
  unfoldable pub with_depth : Option ℕ → FifoInner A
  unfolding Queue.new Queue.unbounded
  with_depth o = record {
    q = elim o [ none ↦ Queue.unbounded | some n ↦ Queue.new (some n) ];
    depth = o;
    put_taps = [];
    get_taps = [];
    log = [];
  }

  unfoldable pub new : ℕ → FifoInner A
  unfolding with_depth
  new n = with_depth (some n)

  unfoldable pub unbounded : FifoInner A
  unfolding with_depth
  unbounded = with_depth none

  unfoldable pub default_fifo : FifoInner A
  unfolding new
  default_fifo = new 1

  unfoldable pub used : FifoInner A → ℕ
  unfolding Queue.len
  used f = Queue.len f.q

  unfoldable pub is_empty : FifoInner A → Bool
  unfolding Queue.is_empty
  is_empty f = Queue.is_empty f.q

  unfoldable pub is_full : FifoInner A → Bool
  unfolding Queue.len
  is_full f = elim f.depth [ none ↦ false | some s ↦ leb s (Queue.len f.q) ]

  -- `PutIf::can_put` and `GetIf::can_get`
  unfoldable pub can_put : FifoInner A → Bool
  unfolding is_full
  can_put f = not (is_full f)

  unfoldable pub can_get : FifoInner A → Bool
  unfolding is_empty
  can_get f = not (is_empty f)

  -- `FifoInner::tap`: each subscriber of the list gets the item, in order.
  unfoldable pub tap : List (Sink × A) → List Sink → A → List (Sink × A)
  tap log [] a = log
  tap log (s ∷ ss) a = tap (log ++ (s, a) ∷ []) ss a

  abbrev pub tap_put : World (FifoInner A) → A → World (FifoInner A)
  tap_put w a = record w { inner = record w.inner { log = tap w.inner.log w.inner.put_taps a } }

  abbrev pub tap_got : World (FifoInner A) → A → World (FifoInner A)
  tap_got w a = record w { inner = record w.inner { log = tap w.inner.log w.inner.get_taps a } }

  -- The queue inside, with the same woken queue, and a changed one put back.
  abbrev pub queue : World (FifoInner A) → World (QInner A)
  queue w = record { inner = w.inner.q; woken = w.woken }

  abbrev pub put_back : World (FifoInner A) → World (QInner A) → World (FifoInner A)
  put_back w v = record { inner = record w.inner { q = v.inner }; woken = v.woken }

  -- `put_tapped`, as one poll of its future: the wait and the handover fall in the same poll, and the
  -- result of `try_put` is thrown away.
  unfoldable pub poll_put_tapped :
      World (FifoInner A) → A → TaskId → World (FifoInner A) × Poll (Unit {0})
  unfolding tap Queue.poll_space Queue.try_put
  poll_put_tapped w a id =
      let (v, p) = Queue.poll_space (queue w) id in
      elim p [
        | ready _ ↦
            let t = tap_put (put_back w v) a in (put_back t (Queue.try_put (queue t) a).0, ready tt)
        | pending ↦ (put_back w v, pending)
      ]

  unfoldable pub try_put_tapped :
      World (FifoInner A) → A → World (FifoInner A) × Result (Unit {0}) A
  unfolding tap Queue.has_space Queue.try_put
  try_put_tapped w a =
      if Queue.has_space w.inner.q
      then (let t = tap_put w a in let (v, r) = Queue.try_put (queue t) a in (put_back t v, r))
      else (w, err a)

  unfoldable pub tap_get : World (FifoInner A) → Option A → World (FifoInner A) × Option A
  unfolding tap
  tap_get w none = (w, none)
  tap_get w (some a) = (tap_got w a, some a)

  unfoldable pub try_get : World (FifoInner A) → World (FifoInner A) × Option A
  unfolding tap_get Queue.try_get
  try_get w = let (v, o) = Queue.try_get (queue w) in tap_get (put_back w v) o

  -- `get`, as one poll of its future
  unfoldable pub poll_get : World (FifoInner A) → TaskId → World (FifoInner A) × Poll A
  unfolding tap Queue.poll_get
  poll_get w id =
      let (v, p) = Queue.poll_get (queue w) id in
      elim p [ ready a ↦ (tap_got (put_back w v) a, ready a) | pending ↦ (put_back w v, pending) ]

  unfoldable pub try_peek : FifoInner A → Option A
  unfolding Queue.try_peek
  try_peek f = Queue.try_peek f.q

  unfoldable pub poll_peek : World (FifoInner A) → TaskId → World (FifoInner A) × Poll A
  unfolding Queue.poll_peek
  poll_peek w id = let (v, p) = Queue.poll_peek (queue w) id in (put_back w v, p)

  -- `while q.try_get().is_some() {}`, with fuel; `none` means that it ran out.
  unfoldable pub flush_loop : ℕ → World (QInner A) → Option (World (QInner A))
  unfolding Queue.try_get
  flush_loop zero v = none
  flush_loop (suc n) v =
      let (v', o) = Queue.try_get v in elim o [ none ↦ some v' | some _ ↦ flush_loop n v' ]

  unfoldable pub flush : ℕ → World (FifoInner A) → Option (World (FifoInner A))
  unfolding flush_loop
  flush fuel w = elim (flush_loop fuel (queue w)) [ none ↦ none | some v ↦ some (put_back w v) ]

  -- `TapExport::connect`, once the owner's port has yielded its sink
  unfoldable pub connect_tap : Bool → FifoInner A → Sink → FifoInner A
  connect_tap on_put f s =
      if on_put
      then record f { put_taps = f.put_taps ++ s ∷ [] }
      else record f { get_taps = f.get_taps ++ s ∷ [] }

-- A call on the FIFO by some task, as the executor interleaves them.
pub data Call {ℓ} (A : Type ℓ) : Type ℓ where
  try_puts : A → Call A
  puts : A → TaskId → Call A
  try_gets try_peeks useds : Call A
  gets peeks : TaskId → Call A

module _ {ℓ} {A : Type ℓ} where
  unfoldable pub call : World (FifoInner A) → Call A → World (FifoInner A) × Reply A
  unfolding try_put_tapped poll_put_tapped try_get poll_get try_peek poll_peek used
  call w (try_puts a) = let (w', r) = try_put_tapped w a in (w', put_reply r)
  call w (puts a id) = let (w', p) = poll_put_tapped w a id in (w', unit_reply p)
  call w try_gets = let (w', o) = try_get w in (w', get_reply o)
  call w try_peeks = (w, get_reply (try_peek w.inner))
  call w useds = (w, size (used w.inner))
  call w (gets id) = let (w', p) = poll_get w id in (w', item_reply p)
  call w (peeks id) = let (w', p) = poll_peek w id in (w', item_reply p)

  unfoldable pub run : World (FifoInner A) → List (Call A) → World (FifoInner A) × List (Reply A)
  run w [] = (w, [])
  run w (c ∷ cs) = let (w', r) = call w c in let (w'', rs) = run w' cs in (w'', r ∷ rs)
