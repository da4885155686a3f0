-- ===== src/Channel.antt =====
-- The bounded channel of rustdv/rustdv-methodology/src/channel.rs. Senders and receivers share one
-- `ChanInner`; the handles themselves are counted, not modelled one by one. `none` is the panic of an
-- underflowing counter, which needs a handle dropped that was never made, or of a completed `Send_`
-- polled again.
pub mod Refine
pub mod Wakeups
mod Tests
use rustdv.Base.{
  ℕ, ◌+◌, ◌-◌, ◌≡◌, max, Bool, List, [], ◌∷◌, ◌++◌, Option, none, some, ltb, ◌==◌, ◌&&◌,
  if◌then◌else◌, length, Result, ok, err, Poll, ready, pending,
}
use rustdv.Wake.{TaskId, World, wake_all}

pub data TlmError : Type 0 where
  disconnected : TlmError

-- `TlmFull(item)` is written as the item alone; `TlmEmpty` has no content.
pub data TlmEmpty : Type 0 where
  tlm_empty : TlmEmpty

pub record ChanInner {ℓ} (A : Type ℓ) : Type ℓ where
  pub buf : List A
  pub cap : ℕ
  pub senders : ℕ
  pub receivers : ℕ
  pub send_waiters : List TaskId
  pub recv_waiters : List TaskId

module _ {ℓ} {A : Type ℓ} where
  unfoldable pub has_space : ChanInner A → Bool
  has_space c = ltb (length c.buf) c.cap

  unfoldable pub wake_senders : World (ChanInner A) → World (ChanInner A)
  wake_senders w = record {
    inner = record w.inner { send_waiters = [] };
    woken = wake_all w.woken w.inner.send_waiters;
  }

  unfoldable pub wake_receivers : World (ChanInner A) → World (ChanInner A)
  wake_receivers w = record {
    inner = record w.inner { recv_waiters = [] };
    woken = wake_all w.woken w.inner.recv_waiters;
  }

  unfoldable pub channel : ℕ → ChanInner A
  channel capacity = record {
    buf = [];
    cap = max capacity 1;
    senders = 1;
    receivers = 1;
    send_waiters = [];
    recv_waiters = [];
  }

  -- `impl Clone for Sender<T>`
  unfoldable pub clone_sender : World (ChanInner A) → World (ChanInner A)
  clone_sender w = record w { inner = record w.inner { senders = w.inner.senders + 1 } }

  -- `impl Drop for Sender<T>`
  unfoldable pub drop_sender : World (ChanInner A) → Option (World (ChanInner A))
  unfolding wake_receivers
  drop_sender w =
      let n = w.inner.senders - 1 in
      let w' : World (ChanInner A) = record w { inner = record w.inner { senders = n } } in
      if w.inner.senders == 0 then none else some (if n == 0 then wake_receivers w' else w')

  unfoldable pub clone_receiver : World (ChanInner A) → World (ChanInner A)
  clone_receiver w = record w { inner = record w.inner { receivers = w.inner.receivers + 1 } }

  unfoldable pub drop_receiver : World (ChanInner A) → Option (World (ChanInner A))
  unfolding wake_senders
  drop_receiver w =
      let n = w.inner.receivers - 1 in
      let w' : World (ChanInner A) = record w { inner = record w.inner { receivers = n } } in
      if w.inner.receivers == 0 then none else some (if n == 0 then wake_senders w' else w')

  abbrev pub push_back : World (ChanInner A) → A → World (ChanInner A)
  push_back w item = record w { inner = record w.inner { buf = w.inner.buf ++ item ∷ [] } }

  abbrev pub wait_send : World (ChanInner A) → TaskId → World (ChanInner A)
  wait_send w id = record w {
    inner = record w.inner { send_waiters = w.inner.send_waiters ++ id ∷ [] };
  }

  abbrev pub wait_recv : World (ChanInner A) → TaskId → World (ChanInner A)
  wait_recv w id = record w {
    inner = record w.inner { recv_waiters = w.inner.recv_waiters ++ id ∷ [] };
  }

  unfoldable pub try_send : World (ChanInner A) → A → World (ChanInner A) × Result (Unit {0}) A
  unfolding has_space wake_receivers
  try_send w item =
      if w.inner.receivers == 0
      then (w, err item)
      else if has_space w.inner
      then (wake_receivers (push_back w item), ok tt)
      else (w, err item)

  unfoldable pub can_send : ChanInner A → Bool
  unfolding has_space
  can_send c = has_space c && ltb 0 c.receivers

  -- `Send_::poll`, over the item that the future still holds
  unfoldable pub poll_send :
      World (ChanInner A)
      → Option A
      → TaskId
      → Option (World (ChanInner A) × Option A × Poll (Result (Unit {0}) TlmError))
  unfolding has_space wake_receivers
  poll_send w item id =
      if w.inner.receivers == 0
      then some (w, item, ready (err disconnected))
      else if has_space w.inner
      then elim item [
        | none ↦ none
        | some a ↦ some (wake_receivers (push_back w a), none, ready (ok tt))
      ]
      else some (wait_send w id, item, pending)

  unfoldable pub try_recv : World (ChanInner A) → World (ChanInner A) × Result A TlmEmpty
  unfolding wake_senders
  try_recv w = elim w.inner.buf [
    | [] ↦ (w, err tlm_empty)
    | v ∷ rest ↦ (wake_senders (record w { inner = record w.inner { buf = rest } }), ok v)
  ]

  unfoldable pub len : ChanInner A → ℕ
  len c = length c.buf

  unfoldable pub is_empty : ChanInner A → Bool
  is_empty c = length c.buf == 0

  unfoldable pub try_peek : ChanInner A → Result A TlmEmpty
  try_peek c = elim c.buf [ [] ↦ err tlm_empty | v ∷ _ ↦ ok v ]

  -- `Recv::poll`
  unfoldable pub poll_recv :
      World (ChanInner A) → TaskId → World (ChanInner A) × Poll (Result A TlmError)
  unfolding wake_senders
  poll_recv w id = elim w.inner.buf [
    | [] ↦ if w.inner.senders == 0 then (w, ready (err disconnected)) else (wait_recv w id, pending)
    | v ∷ rest ↦ (wake_senders (record w { inner = record w.inner { buf = rest } }), ready (ok v))
  ]

  -- `Peek::poll`
  unfoldable pub poll_peek :
      World (ChanInner A) → TaskId → World (ChanInner A) × Poll (Result A TlmError)
  poll_peek w id = elim w.inner.buf [
    | [] ↦ if w.inner.senders == 0 then (w, ready (err disconnected)) else (wait_recv w id, pending)
    | v ∷ _ ↦ (w, ready (ok v))
  ]

-- A use of the channel through some handle, as the executor interleaves them.
pub data Call {ℓ} (A : Type ℓ) : Type ℓ where
  try_sends : A → Call A
  sends : A → TaskId → Call A
  try_recvs try_peeks : Call A
  recvs peeks : TaskId → Call A
  clones_sender drops_sender clones_receiver drops_receiver : Call A

-- What the caller sees: an item, that the call went through, a refusal that hands the item back, an
-- empty channel, a disconnected one, or that the task has to wait.
pub data Reply {ℓ} (A : Type ℓ) : Type ℓ where
  item : A → Reply A
  done nothing closed waits : Reply A
  refused : A → Reply A

module _ {ℓ} {A : Type ℓ} where
  abbrev pub try_send_reply : Result (Unit {0}) A → Reply A
  try_send_reply (ok _) = done
  try_send_reply (err a) = refused a

  abbrev pub send_reply : Poll (Result (Unit {0}) TlmError) → Reply A
  send_reply (ready (ok _)) = done
  send_reply (ready (err _)) = closed
  send_reply pending = waits

  abbrev pub try_recv_reply : Result A TlmEmpty → Reply A
  try_recv_reply (ok a) = item a
  try_recv_reply (err _) = nothing

  abbrev pub recv_reply : Poll (Result A TlmError) → Reply A
  recv_reply (ready (ok a)) = item a
  recv_reply (ready (err _)) = closed
  recv_reply pending = waits

  abbrev pub with_reply :
      Reply A → Option (World (ChanInner A)) → Option (World (ChanInner A) × Reply A)
  with_reply r none = none
  with_reply r (some w) = some (w, r)

  abbrev pub polled_send :
      Option (World (ChanInner A) × Option A × Poll (Result (Unit {0}) TlmError))
      → Option (World (ChanInner A) × Reply A)
  polled_send none = none
  polled_send (some (w, _, p)) = some (w, send_reply p)

  unfoldable pub call : World (ChanInner A) → Call A → Option (World (ChanInner A) × Reply A)
  unfolding try_send poll_send try_recv try_peek poll_recv poll_peek clone_sender drop_sender
      clone_receiver drop_receiver
  call w (try_sends a) = let (w', r) = try_send w a in some (w', try_send_reply r)
  call w (sends a id) = polled_send (poll_send w (some a) id)
  call w try_recvs = let (w', r) = try_recv w in some (w', try_recv_reply r)
  call w try_peeks = some (w, try_recv_reply (try_peek w.inner))
  call w (recvs id) = let (w', p) = poll_recv w id in some (w', recv_reply p)
  call w (peeks id) = let (w', p) = poll_peek w id in some (w', recv_reply p)
  call w clones_sender = some (clone_sender w, done)
  call w drops_sender = with_reply done (drop_sender w)
  call w clones_receiver = some (clone_receiver w, done)
  call w drops_receiver = with_reply done (drop_receiver w)

  -- A history of calls with what each replies: one that would panic is not part of any.
  pub data Ran
      : World (ChanInner A) → List (Call A) → List (Reply A) → World (ChanInner A) → Type ℓ where
    finish : {w : World (ChanInner A)} → Ran w [] [] w
    after :
        {w w' w'' : World (ChanInner A)} {c : Call A} {r : Reply A} {cs : List (Call A)}
        {rs : List (Reply A)}
        → call w c ≡ some (w', r)
        → Ran w' cs rs w''
        → Ran w (c ∷ cs) (r ∷ rs) w''
