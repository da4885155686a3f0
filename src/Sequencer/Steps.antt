-- ===== src/Sequencer/Steps.antt =====
-- rustdv/rustdv-methodology/src/sequence.rs: what one call does to the slots, and to what was given and
-- released.
use rustdv.Base.{◌≡◌, true, List, [], ◌∷◌, ◌++◌, none, some, arith, ◌⊎◌, In}
use rustdv.Sequencer.Responses.{TxnId}
use rustdv.Sequencer.Bench.{
  Bench, Call, starts, finishes, waits_granted, waits_done, gets, tries, dones, answers, opens,
  Reply, item, ticket, call, Ran, finish, after,
}

module _ {REQ RSP : Type 0} where
  -- The item that a call fills in, with the ticket that it is for
  abbrev pub given : Bench REQ RSP → Call REQ RSP → List (TxnId × REQ)
  given b (finishes s p task) = elim (b.ctx s).current [ none ↦ [] | some id ↦ (id, p) ∷ [] ]
  given b _ = []

  -- The ticket that a call releases
  abbrev pub released : Bench REQ RSP → Call REQ RSP → List TxnId
  released b (dones rsp) = elim b.seqr.inner.current [ none ↦ [] | some id ↦ id ∷ [] ]
  released b _ = []

  abbrev pub all_given :
      {b b' : Bench REQ RSP} {cs : List (Call REQ RSP)} {rs : List (Reply REQ)}
      → Ran b cs rs b'
      → List (TxnId × REQ)
  all_given finish = []
  all_given (after {b = b} {c = c} e ran) = given b c ++ all_given ran

  abbrev pub all_released :
      {b b' : Bench REQ RSP} {cs : List (Call REQ RSP)} {rs : List (Reply REQ)}
      → Ran b cs rs b'
      → List TxnId
  all_released finish = []
  all_released (after {b = b} {c = c} e ran) = released b c ++ all_released ran

  module _ (b : Bench REQ RSP) {b' : Bench REQ RSP} {r : Reply REQ} where
    pub payload_step :
        (c : Call REQ RSP) (id : TxnId) (p : REQ)
        → call b c ≡ some (b', r)
        → (b'.seqr.inner.slots id).payload ≡ some p
        → ((b.seqr.inner.slots id).payload ≡ some p) ⊎ In (id, p) (given b c)
    unfolding call
    payload_step (starts s task) id p e h = ground arith
    payload_step (finishes s q task) id p e h = ground arith
    payload_step (waits_granted i task) id p e h = ground arith
    payload_step (waits_done i task) id p e h = ground arith
    payload_step (gets task) id p e h = ground arith
    payload_step tries id p e h = ground arith
    payload_step (dones rsp) id p e h = ground arith
    payload_step (answers i rsp) id p e h = ground arith
    payload_step (opens s real) id p e h = ground arith

    pub item_step :
        (c : Call REQ RSP) (id : TxnId) (p : REQ)
        → call b c ≡ some (b', r)
        → r ≡ item id p
        → (b.seqr.inner.slots id).payload ≡ some p
    unfolding call
    item_step (starts s task) id p e h = ground arith
    item_step (finishes s q task) id p e h = ground arith
    item_step (waits_granted i task) id p e h = ground arith
    item_step (waits_done i task) id p e h = ground arith
    item_step (gets task) id p e h = ground arith
    item_step tries id p e h = ground arith
    item_step (dones rsp) id p e h = ground arith
    item_step (answers i rsp) id p e h = ground arith
    item_step (opens s real) id p e h = ground arith

    pub current_step :
        (c : Call REQ RSP) (id : TxnId)
        → call b c ≡ some (b', r)
        → b'.seqr.inner.current ≡ some id
        → (b.seqr.inner.current ≡ some id) ⊎ ((p : REQ) × (r ≡ item id p))
    unfolding call
    current_step (starts s task) id e h = ground arith
    current_step (finishes s q task) id e h = ground arith
    current_step (waits_granted i task) id e h = ground arith
    current_step (waits_done i task) id e h = ground arith
    current_step (gets task) id e h = ground arith
    current_step tries id e h = ground arith
    current_step (dones rsp) id e h = ground arith
    current_step (answers i rsp) id e h = ground arith
    current_step (opens s real) id e h = ground arith

    pub done_step :
        (c : Call REQ RSP) (id : TxnId)
        → call b c ≡ some (b', r)
        → (b'.seqr.inner.slots id).done.is_set ≡ true
        → ((b.seqr.inner.slots id).done.is_set ≡ true) ⊎ In id (released b c)
    unfolding call
    done_step (starts s task) id e h = ground arith
    done_step (finishes s q task) id e h = ground arith
    done_step (waits_granted i task) id e h = ground arith
    done_step (waits_done i task) id e h = ground arith
    done_step (gets task) id e h = ground arith
    done_step tries id e h = ground arith
    done_step (dones rsp) id e h = ground arith
    done_step (answers i rsp) id e h = ground arith
    done_step (opens s real) id e h = ground arith

    pub ticket_step :
        (c : Call REQ RSP) (id : TxnId)
        → call b c ≡ some (b', r)
        → r ≡ ticket id
        → (b'.seqr.inner.slots id).done.is_set ≡ true
    unfolding call
    ticket_step (starts s task) id e h = ground arith
    ticket_step (finishes s q task) id e h = ground arith
    ticket_step (waits_granted i task) id e h = ground arith
    ticket_step (waits_done i task) id e h = ground arith
    ticket_step (gets task) id e h = ground arith
    ticket_step tries id e h = ground arith
    ticket_step (dones rsp) id e h = ground arith
    ticket_step (answers i rsp) id e h = ground arith
    ticket_step (opens s real) id e h = ground arith

  pub released_step :
      (b : Bench REQ RSP) (c : Call REQ RSP) (id : TxnId)
      → In id (released b c)
      → b.seqr.inner.current ≡ some id
  released_step b (starts s task) id h = elim h [ ]
  released_step b (finishes s q task) id h = elim h [ ]
  released_step b (waits_granted i task) id h = elim h [ ]
  released_step b (waits_done i task) id h = elim h [ ]
  released_step b (gets task) id h = elim h [ ]
  released_step b tries id h = elim h [ ]
  released_step b (dones rsp) id h = ground arith
  released_step b (answers i rsp) id h = elim h [ ]
  released_step b (opens s real) id h = elim h [ ]
