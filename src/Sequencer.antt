-- ===== src/Sequencer.antt =====
-- The sequencer of rustdv/rustdv-methodology/src/sequence.rs: the handshake between sequences, which send
-- items, and a driver, which takes them. A slot (`Rc<ItemSlot>`) is known by its ticket, since each
-- `start_item` makes one of each.
pub mod Responses
pub mod Driver
pub mod Bench
pub mod Order
pub mod Steps
pub mod Handshake
pub mod Answers
pub mod Context
mod Tests
use rustdv.Base.{
  ℕ, ◌+◌, Bool, true, false, List, [], ◌∷◌, ◌++◌, Option, none, some, if◌then◌else◌, Result, ok,
  err, Poll, ready, pending, update,
}
use rustdv.Wake.{TaskId, World}
use rustdv.Event
use rustdv.Event.{EventInner}
use rustdv.Queue
use rustdv.Queue.{QInner}
use Responses.{TxnId, RespInner, push}

-- `ItemSlot`
pub record ItemSlot (REQ : Type 0) : Type 0 where
  pub granted : EventInner
  pub filled : EventInner
  pub done : EventInner
  pub payload : Option REQ

-- `SeqrInner`, with every slot ever made
pub record SeqrInner (REQ RSP : Type 0) : Type 0 where
  pub queue : QInner TxnId
  pub next_id : TxnId
  pub responses : RespInner RSP
  pub current : Option TxnId
  pub slots : TxnId → ItemSlot REQ

-- The three events of a slot; the source calls the second one `ready`.
pub data Moment : Type 0 where
  at_granted at_ready at_done : Moment

-- What goes wrong in a sequence, by the source's three messages
pub data SeqError : Type 0 where
  started_twice no_sequencer not_started : SeqError

-- What of `SeqCtx` the handshake uses; a virtual sequence has no sequencer.
pub record SeqCtx : Type 0 where
  pub has_sequencer : Bool
  pub current : Option TxnId

-- How far the future of a `get_next_item` has come
pub data GetNext : Type 0 where
  not_begun waits_item : GetNext
  waits_ready : TxnId → GetNext

abbrev pub proceeds : Poll (Unit {0}) → Poll (Result (Unit {0}) SeqError)
proceeds (ready t) = ready (ok t)
proceeds pending = pending

-- The rest of `finish_item`, once the slot is released
abbrev pub with_ticket : TxnId → Poll (Unit {0}) → Poll (Result TxnId SeqError)
with_ticket id (ready t) = ready (ok id)
with_ticket id pending = pending

module _ {REQ : Type 0} where
  unfoldable pub fresh_slot : ItemSlot REQ
  unfolding Event.new
  fresh_slot = record { granted = Event.new; filled = Event.new; done = Event.new; payload = none }

  abbrev pub event_of : Moment → ItemSlot REQ → EventInner
  event_of at_granted s = s.granted
  event_of at_ready s = s.filled
  event_of at_done s = s.done

  abbrev pub with_event : Moment → ItemSlot REQ → EventInner → ItemSlot REQ
  with_event at_granted s e = record s { granted = e }
  with_event at_ready s e = record s { filled = e }
  with_event at_done s e = record s { done = e }

module _ {REQ RSP : Type 0} where
  -- `Sequencer::new`
  unfoldable pub new : SeqrInner REQ RSP
  unfolding Queue.new Queue.unbounded Responses.new fresh_slot
  new = record {
    queue = Queue.unbounded;
    next_id = 1;
    responses = Responses.new;
    current = none;
    slots = λ _. fresh_slot;
  }

  abbrev pub with_slot :
      World (SeqrInner REQ RSP) → TxnId → ItemSlot REQ → World (SeqrInner REQ RSP)
  with_slot w id s = record w { inner = record w.inner { slots = update w.inner.slots id s } }

  abbrev pub slot_event : World (SeqrInner REQ RSP) → Moment → TxnId → World EventInner
  slot_event w m id = record { inner = event_of m (w.inner.slots id); woken = w.woken }

  abbrev pub put_event :
      World (SeqrInner REQ RSP) → Moment → TxnId → World EventInner → World (SeqrInner REQ RSP)
  put_event w m id e =
      with_slot (record w { woken = e.woken }) id (with_event m (w.inner.slots id) e.inner)

  abbrev pub item_queue : World (SeqrInner REQ RSP) → World (QInner TxnId)
  item_queue w = record { inner = w.inner.queue; woken = w.woken }

  abbrev pub put_queue :
      World (SeqrInner REQ RSP) → World (QInner TxnId) → World (SeqrInner REQ RSP)
  put_queue w q = record { inner = record w.inner { queue = q.inner }; woken = q.woken }

  -- `slot.granted.set()`, and the same for the other events
  unfoldable pub set_event : World (SeqrInner REQ RSP) → Moment → TxnId → World (SeqrInner REQ RSP)
  unfolding Event.set
  set_event w m id = put_event w m id (Event.set (slot_event w m id))

  -- A poll of `slot.granted.wait()`, and the same for the other events
  unfoldable pub poll_event :
      World (SeqrInner REQ RSP)
      → Moment
      → TxnId
      → TaskId
      → World (SeqrInner REQ RSP) × Poll (Unit {0})
  unfolding Event.poll_wait
  poll_event w m id task =
      let (e, p) = Event.poll_wait (slot_event w m id) task in (put_event w m id e, p)

  -- The slot of a new ticket, in the context and in the queue. The queue is unbounded, so that the
  -- future of its `put` is done at its first poll.
  unfoldable pub enqueue : World (SeqrInner REQ RSP) → World (SeqrInner REQ RSP)
  unfolding fresh_slot Queue.try_put
  enqueue w =
      let id = w.inner.next_id in
      let w' = with_slot (record w { inner = record w.inner { next_id = id + 1 } }) id fresh_slot in
      put_queue w' (Queue.try_put (item_queue w') id).0

  -- The first poll of `start_item`. The later ones poll `granted` again.
  unfoldable pub start_item :
      World (SeqrInner REQ RSP)
      → SeqCtx
      → TaskId
      → World (SeqrInner REQ RSP) × SeqCtx × Poll (Result (Unit {0}) SeqError)
  unfolding enqueue poll_event
  start_item w ctx task = elim ctx.current [
    | some id ↦ (w, ctx, ready (err started_twice))
    | none ↦
        if ctx.has_sequencer
        then (let (w', p) = poll_event (enqueue w) at_granted w.inner.next_id task in
            (w', record ctx { current = some w.inner.next_id }, proceeds p))
        else (w, ctx, ready (err no_sequencer))
  ]

  -- `*slot.payload.borrow_mut() = Some(item)`
  abbrev pub fill : World (SeqrInner REQ RSP) → TxnId → REQ → World (SeqrInner REQ RSP)
  fill w id item = with_slot w id (record (w.inner.slots id) { payload = some item })

  -- The first poll of `finish_item`. The later ones poll `done` again.
  unfoldable pub finish_item :
      World (SeqrInner REQ RSP)
      → SeqCtx
      → REQ
      → TaskId
      → World (SeqrInner REQ RSP) × SeqCtx × Poll (Result TxnId SeqError)
  unfolding set_event poll_event
  finish_item w ctx item task = elim ctx.current [
    | none ↦ (w, ctx, ready (err not_started))
    | some id ↦
        let (w', p) = poll_event (set_event (fill w id item) at_ready id) at_done id task in
        (w', record ctx { current = none }, with_ticket id p)
  ]
