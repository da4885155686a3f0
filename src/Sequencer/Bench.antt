-- ===== src/Sequencer/Bench.antt =====
-- The users of a sequencer of rustdv/rustdv-methodology/src/sequence.rs: sequences, each with its context,
-- and one driver, whose `get_next_item` may be under way. What they do comes in any order.
use rustdv.Base.{
  ◌≡◌, ℕ, Bool, false, List, [], ◌∷◌, Option, none, some, Result, ok, err, Poll, ready, pending,
  update,
}
use rustdv.Wake.{TaskId, World}
use rustdv.Sequencer.{
  SeqrInner, SeqError, SeqCtx, GetNext, not_begun, at_granted, at_done, new, poll_event, start_item,
  finish_item,
}
use rustdv.Sequencer.Driver.{poll_get_next_item, try_next_item, item_done, put_response}
use rustdv.Sequencer.Responses.{TxnId}

pub record Bench (REQ RSP : Type 0) : Type 0 where
  pub seqr : World (SeqrInner REQ RSP)
  pub ctx : ℕ → SeqCtx
  pub driver : GetNext

-- A first or a later poll of `start_item` and of `finish_item` by a sequence, a poll of `get_next_item`,
-- the driver's other calls, and the start of a sequence with a new context, with a sequencer or without;
-- the context that it had before may be dropped at any point.
pub data Call (REQ RSP : Type 0) : Type 0 where
  starts : ℕ → TaskId → Call REQ RSP
  finishes : ℕ → REQ → TaskId → Call REQ RSP
  waits_granted waits_done : TxnId → TaskId → Call REQ RSP
  gets : TaskId → Call REQ RSP
  tries : Call REQ RSP
  dones : Option RSP → Call REQ RSP
  answers : TxnId → RSP → Call REQ RSP
  opens : ℕ → Bool → Call REQ RSP

pub data Reply (REQ : Type 0) : Type 0 where
  waits done nothing : Reply REQ
  fails : SeqError → Reply REQ
  ticket : TxnId → Reply REQ
  item : TxnId → REQ → Reply REQ

module _ {REQ : Type 0} where
  abbrev pub started : Poll (Result (Unit {0}) SeqError) → Reply REQ
  started (ready (ok t)) = done
  started (ready (err e)) = fails e
  started pending = waits

  abbrev pub finished : Poll (Result TxnId SeqError) → Reply REQ
  finished (ready (ok id)) = ticket id
  finished (ready (err e)) = fails e
  finished pending = waits

  abbrev pub passed : Reply REQ → Poll (Unit {0}) → Reply REQ
  passed r (ready t) = r
  passed r pending = waits

  abbrev pub got : Poll (TxnId × REQ) → Reply REQ
  got (ready (id, p)) = item id p
  got pending = waits

  abbrev pub tried : Option (TxnId × REQ) → Reply REQ
  tried none = nothing
  tried (some (id, p)) = item id p

module _ {REQ RSP : Type 0} where
  abbrev pub with_seqr : Bench REQ RSP → World (SeqrInner REQ RSP) → Bench REQ RSP
  with_seqr b w = record b { seqr = w }

  abbrev pub with_ctx : Bench REQ RSP → ℕ → SeqCtx → Bench REQ RSP
  with_ctx b s c = record b { ctx = update b.ctx s c }

  -- `none` is a panic.
  unfoldable pub call : Bench REQ RSP → Call REQ RSP → Option (Bench REQ RSP × Reply REQ)
  unfolding start_item finish_item poll_event poll_get_next_item try_next_item item_done
      put_response
  call b (starts s task) =
      let (w, c, p) = start_item b.seqr (b.ctx s) task in
      some (with_ctx (with_seqr b w) s c, started p)
  call b (finishes s p task) =
      let (w, c, r) = finish_item b.seqr (b.ctx s) p task in
      some (with_ctx (with_seqr b w) s c, finished r)
  call b (waits_granted id task) =
      let (w, p) = poll_event b.seqr at_granted id task in some (with_seqr b w, passed done p)
  call b (waits_done id task) =
      let (w, p) = poll_event b.seqr at_done id task in some (with_seqr b w, passed (ticket id) p)
  call b (gets task) = elim (poll_get_next_item b.seqr b.driver task) [
    | none ↦ none
    | some r ↦ let (w, d, p) = r in some (record (with_seqr b w) { driver = d }, got p)
  ]
  call b tries = elim (try_next_item b.seqr) [
    | none ↦ none
    | some r ↦ let (w, hit) = r in some (with_seqr b w, tried hit)
  ]
  call b (dones rsp) = elim (item_done b.seqr rsp) [
    | none ↦ none
    | some w ↦ some (with_seqr b w, done)
  ]
  call b (answers id rsp) = some (with_seqr b (put_response b.seqr id rsp), done)
  call b (opens s real) =
      some (with_ctx b s (record { has_sequencer = real; current = none }), done)

  -- A new sequencer, and no sequence yet
  unfoldable pub at_rest : Bench REQ RSP
  unfolding new
  at_rest = record {
    seqr = record { inner = new; woken = [] };
    ctx = λ _. record { has_sequencer = false; current = none };
    driver = not_begun;
  }

  -- A history of calls, with what each replies
  pub data Ran
      : Bench REQ RSP → List (Call REQ RSP) → List (Reply REQ) → Bench REQ RSP → Type 0 where
    finish : {b : Bench REQ RSP} → Ran b [] [] b
    after :
        {b b' b'' : Bench REQ RSP} {c : Call REQ RSP} {r : Reply REQ} {cs : List (Call REQ RSP)}
        {rs : List (Reply REQ)}
        → call b c ≡ some (b', r)
        → Ran b' cs rs b''
        → Ran b (c ∷ cs) (r ∷ rs) b''
