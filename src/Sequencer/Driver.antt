-- ===== src/Sequencer/Driver.antt =====
-- The driver's side of the sequencer of rustdv/rustdv-methodology/src/sequence.rs: `SeqItemIf` as
-- `SeqrInner` implements it.
use rustdv.Base.{Option, none, some, Poll, ready, pending}
use rustdv.Wake.{TaskId, World}
use rustdv.Queue
use rustdv.Sequencer.{
  SeqrInner, GetNext, not_begun, waits_item, waits_ready, at_granted, at_ready, at_done, with_slot,
  item_queue, put_queue, set_event, poll_event,
}
use rustdv.Sequencer.Responses.{TxnId, RespInner, push}

module _ {REQ RSP : Type 0} where
  -- `slot.payload.borrow_mut().take()`, with the slot as the driver's current one
  abbrev pub take_payload : World (SeqrInner REQ RSP) → TxnId → REQ → World (SeqrInner REQ RSP)
  take_payload w id p =
      let w' = with_slot w id (record (w.inner.slots id) { payload = none }) in
      record w' { inner = record w'.inner { current = some id } }

  -- `get_next_item` from `slot.ready.wait()` on; `none` is the panic of the `expect`.
  unfoldable pub poll_payload :
      World (SeqrInner REQ RSP)
      → TxnId
      → TaskId
      → Option (World (SeqrInner REQ RSP) × GetNext × Poll (TxnId × REQ))
  unfolding poll_event
  poll_payload w id task =
      let (w', p) = poll_event w at_ready id task in
      elim p [
        | pending ↦ some (w', waits_ready id, pending)
        | ready t ↦ elim (w'.inner.slots id).payload [
          | none ↦ none
          | some item ↦ some (take_payload w' id item, not_begun, ready (id, item))
        ]
      ]

  -- `get_next_item` from `self.queue.get()` on
  unfoldable pub poll_item :
      World (SeqrInner REQ RSP)
      → TaskId
      → Option (World (SeqrInner REQ RSP) × GetNext × Poll (TxnId × REQ))
  unfolding Queue.poll_get set_event poll_payload
  poll_item w task =
      let (q, p) = Queue.poll_get (item_queue w) task in
      elim p [
        | pending ↦ some (put_queue w q, waits_item, pending)
        | ready id ↦ poll_payload (set_event (put_queue w q) at_granted id) id task
      ]

  -- A poll of `get_next_item`; `none` is a panic.
  unfoldable pub poll_get_next_item :
      World (SeqrInner REQ RSP)
      → GetNext
      → TaskId
      → Option (World (SeqrInner REQ RSP) × GetNext × Poll (TxnId × REQ))
  unfolding poll_item poll_payload
  poll_get_next_item w not_begun task = elim w.inner.current [
    | some id ↦ none
    | none ↦ poll_item w task
  ]
  poll_get_next_item w waits_item task = poll_item w task
  poll_get_next_item w (waits_ready id) task = poll_payload w id task

  -- `try_next_item`; the outer `none` is its assertion.
  unfoldable pub try_next_item :
      World (SeqrInner REQ RSP) → Option (World (SeqrInner REQ RSP) × Option (TxnId × REQ))
  unfolding Queue.try_get Queue.try_put set_event
  try_next_item w = elim w.inner.current [
    | some id ↦ none
    | none ↦
        let (q, hit) = Queue.try_get (item_queue w) in
        elim hit [
          | none ↦ some (put_queue w q, none)
          | some id ↦
              let w' = set_event (put_queue w q) at_granted id in
              elim (w'.inner.slots id).payload [
                | none ↦ some (put_queue w' (Queue.try_put (item_queue w') id).0, none)
                | some item ↦ some (take_payload w' id item, some (id, item))
              ]
        ]
  ]

  abbrev pub put_responses :
      World (SeqrInner REQ RSP) → World (RespInner RSP) → World (SeqrInner REQ RSP)
  put_responses w v = record { inner = record w.inner { responses = v.inner }; woken = v.woken }

  unfoldable pub put_response : World (SeqrInner REQ RSP) → TxnId → RSP → World (SeqrInner REQ RSP)
  unfolding push
  put_response w id rsp =
      put_responses w (push (record { inner = w.inner.responses; woken = w.woken }) id rsp)

  abbrev pub answer : World (SeqrInner REQ RSP) → TxnId → Option RSP → World (SeqrInner REQ RSP)
  unfolding put_response
  answer w id none = w
  answer w id (some rsp) = put_response w id rsp

  -- `none` is the panic of the `expect`.
  unfoldable pub item_done :
      World (SeqrInner REQ RSP) → Option RSP → Option (World (SeqrInner REQ RSP))
  unfolding set_event put_response
  item_done w rsp = elim w.inner.current [
    | none ↦ none
    | some id ↦ some (
        set_event (answer (record w { inner = record w.inner { current = none } }) id rsp) at_done
          id)
  ]
