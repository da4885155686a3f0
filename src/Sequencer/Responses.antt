-- ===== src/Sequencer/Responses.antt =====
-- `ResponseQueue` of rustdv/rustdv-methodology/src/sequence.rs: the driver's answers, handed out in order
-- or by ticket. Clones share one `RespInner`. An answer is kept with its ticket.
use rustdv.Base.{
  ℕ, List, [], ◌∷◌, ◌++◌, Option, none, some, ◌==◌, if◌then◌else◌, Poll, ready, pending,
}
use rustdv.Wake.{TaskId, World, wake_all}

-- A ticket
abbrev pub TxnId : Type 0
TxnId = ℕ

pub record RespInner {ℓ} (RSP : Type ℓ) : Type ℓ where
  pub items : List (TxnId × RSP)
  pub waiters : List TaskId

module _ {ℓ} {RSP : Type ℓ} where
  unfoldable pub new : RespInner RSP
  new = record { items = []; waiters = [] }

  unfoldable pub push : World (RespInner RSP) → TxnId → RSP → World (RespInner RSP)
  push w id rsp = record {
    inner = record { items = w.inner.items ++ (id, rsp) ∷ []; waiters = [] };
    woken = wake_all w.woken w.inner.waiters;
  }

  -- `items.iter().position(|(i, _)| *i == id)`, and the removal there
  unfoldable pub remove_ticket :
      TxnId → List (TxnId × RSP) → Option ((TxnId × RSP) × List (TxnId × RSP))
  remove_ticket id [] = none
  remove_ticket id ((i, r) ∷ m) =
      let later = remove_ticket id m in
      if i == id
      then some ((i, r), m)
      else elim later [ none ↦ none | some hit ↦ let (a, m') = hit in some (a, (i, r) ∷ m') ]

  -- The index that a request comes to, and the removal there
  unfoldable pub remove_answer :
      Option TxnId → List (TxnId × RSP) → Option ((TxnId × RSP) × List (TxnId × RSP))
  unfolding remove_ticket
  remove_answer none [] = none
  remove_answer none (a ∷ m) = some (a, m)
  remove_answer (some id) m = remove_ticket id m

  -- The answer comes with its ticket here, which the source drops.
  unfoldable pub try_get_response :
      World (RespInner RSP) → Option TxnId → World (RespInner RSP) × Option (TxnId × RSP)
  unfolding remove_answer
  try_get_response w txn_id = elim (remove_answer txn_id w.inner.items) [
    | none ↦ (w, none)
    | some hit ↦ let (a, m) = hit in (record w { inner = record w.inner { items = m } }, some a)
  ]

  -- `GetResponse::poll`
  unfoldable pub poll_get_response :
      World (RespInner RSP) → Option TxnId → TaskId → World (RespInner RSP) × Poll (TxnId × RSP)
  unfolding remove_answer
  poll_get_response w txn_id id = elim (remove_answer txn_id w.inner.items) [
    | none ↦ (record w { inner = record w.inner { waiters = w.inner.waiters ++ id ∷ [] } }, pending)
    | some hit ↦ let (a, m) = hit in (record w { inner = record w.inner { items = m } }, ready a)
  ]
