-- ===== src/Sequencer/Context.antt =====
-- The responses that a sequence asks for through its `SeqCtx`,
-- rustdv/rustdv-methodology/src/sequence.rs.
use rustdv.Base.{Option, none, some, if◌then◌else◌, Poll}
use rustdv.Wake.{TaskId, World}
use rustdv.Sequencer.{SeqrInner, SeqCtx}
use rustdv.Sequencer.Driver.{put_responses}
use rustdv.Sequencer.Responses
use rustdv.Sequencer.Responses.{TxnId, RespInner}

module _ {REQ RSP : Type 0} where
  abbrev pub responses : World (SeqrInner REQ RSP) → World (RespInner RSP)
  responses w = record { inner = w.inner.responses; woken = w.woken }

  -- `SeqCtx::try_get_response`; a virtual sequence has no responses.
  unfoldable pub try_get_response :
      World (SeqrInner REQ RSP)
      → SeqCtx
      → Option TxnId
      → World (SeqrInner REQ RSP) × Option (TxnId × RSP)
  unfolding Responses.try_get_response
  try_get_response w ctx txn_id =
      if ctx.has_sequencer
      then (let (v, hit) = Responses.try_get_response (responses w) txn_id in
          (put_responses w v, hit))
      else (w, none)

  -- A poll of `SeqCtx::get_response`; `none` is its panic in a virtual sequence.
  unfoldable pub poll_get_response :
      World (SeqrInner REQ RSP)
      → SeqCtx
      → Option TxnId
      → TaskId
      → Option (World (SeqrInner REQ RSP) × Poll (TxnId × RSP))
  unfolding Responses.poll_get_response
  poll_get_response w ctx txn_id task =
      if ctx.has_sequencer
      then (let (v, p) = Responses.poll_get_response (responses w) txn_id task in
          some (put_responses w v, p))
      else none
