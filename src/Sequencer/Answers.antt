-- ===== src/Sequencer/Answers.antt =====
-- rustdv/rustdv-methodology/src/sequence.rs: which answer a `get_response` gets.
use rustdv.Base.{
  ◌≡◌, refl, ap, sym, ◌∙◌, Bool, true, List, [], ◌∷◌, ◌++◌, Option, none, some, arith, append_assoc,
  append-nil, ◌==◌, ◌&&◌, if◌then◌else◌, Poll, ready, pending, Option-cases, inl, inr,
}
use rustdv.Wake.{TaskId, World}
use rustdv.Sequencer.Responses.{
  TxnId, RespInner, push, remove_ticket, remove_answer, try_get_response, poll_get_response,
}

pub data Call {ℓ} (RSP : Type ℓ) : Type ℓ where
  pushes : TxnId → RSP → Call RSP
  tries : Option TxnId → Call RSP
  polls : Option TxnId → TaskId → Call RSP

abbrev pub polled {ℓ} : {A : Type ℓ} → Poll A → Option A
polled (ready a) = some a
polled pending = none

module _ {ℓ} {RSP : Type ℓ} where
  unfoldable pub call :
      World (RespInner RSP) → Call RSP → World (RespInner RSP) × Option (TxnId × RSP)
  unfolding push try_get_response poll_get_response
  call w (pushes id rsp) = (push w id rsp, none)
  call w (tries txn_id) = try_get_response w txn_id
  call w (polls txn_id task) = let (w', p) = poll_get_response w txn_id task in (w', polled p)

  unfoldable pub run :
      World (RespInner RSP) → List (Call RSP) → World (RespInner RSP) × List (Option (TxnId × RSP))
  run w [] = (w, [])
  run w (c ∷ cs) = let (w', a) = call w c in let (w'', rs) = run w' cs in (w'', a ∷ rs)

  -- The answers under one ticket
  abbrev pub under : TxnId → List (TxnId × RSP) → List RSP
  under id [] = []
  under id ((i, r) ∷ m) = if i == id then r ∷ under id m else under id m

  abbrev pub sent : Call RSP → List (TxnId × RSP)
  sent (pushes id rsp) = (id, rsp) ∷ []
  sent _ = []

  abbrev pub pushed : List (Call RSP) → List (TxnId × RSP)
  pushed [] = []
  pushed (c ∷ cs) = sent c ++ pushed cs

  abbrev pub given : Option (TxnId × RSP) → List (TxnId × RSP)
  given none = []
  given (some a) = a ∷ []

  abbrev pub collected : List (Option (TxnId × RSP)) → List (TxnId × RSP)
  collected [] = []
  collected (a ∷ hits) = given a ++ collected hits

  -- Is the answer of the ticket that was asked for?
  abbrev pub fits : Call RSP → Option (TxnId × RSP) → Bool
  fits (tries (some id)) (some (i, r)) = i == id
  fits (polls (some id) task) (some (i, r)) = i == id
  fits _ _ = true

  abbrev pub all_fit : List (Call RSP) → List (Option (TxnId × RSP)) → Bool
  all_fit [] hits = true
  all_fit (c ∷ cs) [] = true
  all_fit (c ∷ cs) (a ∷ hits) = fits c a && all_fit cs hits

  under-append :
      (id : TxnId) (xs ys : List (TxnId × RSP)) → under id (xs ++ ys) ≡ under id xs ++ under id ys
  under-append id [] ys = refl
  under-append id ((i, r) ∷ xs) ys = ground (arith, under-append id xs ys)

  -- What a removal leaves of a ticket, and whose answer it takes
  remove_ticket_lem :
      (want id : TxnId) (m : List (TxnId × RSP)) {i : TxnId} {r : RSP} {m' : List (TxnId × RSP)}
      → remove_ticket want m ≡ some ((i, r), m')
      → (under id m ≡ (if i == id then r ∷ under id m' else under id m')) × (i ≡ want)
  unfolding remove_ticket
  remove_ticket_lem want id [] e = ground arith
  remove_ticket_lem want id ((j, q) ∷ m) e = elim (Option-cases (remove_ticket want m)) [
    | inl n ↦ ground (arith, n)
    | inr (((i', r'), m''), h) ↦ ground (arith, h, remove_ticket_lem want id m h)
  ]

  call-under :
      (w : World (RespInner RSP)) (c : Call RSP) (id : TxnId)
      → let (w', a) = call w c in
        (under id (w.inner.items ++ sent c) ≡ under id (given a) ++ under id w'.inner.items)
        × (fits c a ≡ true)
  unfolding call remove_answer
  call-under w (pushes i rsp) id =
      ground (arith, append-nil (under id (w.inner.items ++ (i, rsp) ∷ [])))
  call-under w (tries none) id = ground (arith, append-nil w.inner.items)
  call-under w (tries (some i)) id = elim (Option-cases (remove_ticket i w.inner.items)) [
    | inl n ↦ ground (arith, n, append-nil w.inner.items)
    | inr (((j, r), m), h) ↦
        ground (arith, h, append-nil w.inner.items, remove_ticket_lem i id w.inner.items h)
  ]
  call-under w (polls none task) id = ground (arith, append-nil w.inner.items)
  call-under w (polls (some i) task) id = elim (Option-cases (remove_ticket i w.inner.items)) [
    | inl n ↦ ground (arith, n, append-nil w.inner.items)
    | inr (((j, r), m), h) ↦
        ground (arith, h, append-nil w.inner.items, remove_ticket_lem i id w.inner.items h)
  ]

  -- Over any history, the answers under each ticket are collected in the order in which they were pushed,
  -- each once, with the rest still there, whatever tickets others ask for; and whoever asks by ticket gets
  -- an answer under that ticket.
  pub run_per_ticket :
      (w : World (RespInner RSP)) (cs : List (Call RSP)) (id : TxnId)
      → let (w', hits) = run w cs in
        (under id (w.inner.items ++ pushed cs)
          ≡ under id (collected hits) ++ under id w'.inner.items)
        × (all_fit cs hits ≡ true)
  unfolding run
  run_per_ticket w [] id = (ap (under id) (append-nil w.inner.items), refl)
  run_per_ticket w (c ∷ cs) id =
      let (w', a) = call w c in
      let (order, fit) = call-under w c id in
      let (later, all) = run_per_ticket w' cs id in
      let (w'', hits) = run w' cs in
      (
        ap (under id) (sym (append_assoc w.inner.items (sent c) (pushed cs)))
            ∙ under-append id (w.inner.items ++ sent c) (pushed cs)
            ∙ ap (λ l. l ++ under id (pushed cs)) order
            ∙ append_assoc (under id (given a)) (under id w'.inner.items) (under id (pushed cs))
            ∙ ap (λ l. under id (given a) ++ l)
                (sym (under-append id w'.inner.items (pushed cs)) ∙ later)
            ∙ sym (
                append_assoc (under id (given a)) (under id (collected hits))
                  (under id w''.inner.items))
            ∙ ap (λ l. l ++ under id w''.inner.items)
                (sym (under-append id (given a) (collected hits))),
        ground (arith, fit, all),
      )
