-- ===== src/Sequencer/Order.antt =====
-- rustdv/rustdv-methodology/src/sequence.rs: in which order the driver is served.
use rustdv.Base.{
  ℕ, zero, suc, ◌+◌, ◌≡◌, ◌<◌, refl, ap, sym, ◌∙◌, Bool, true, false, List, [], ◌∷◌, ◌++◌, none,
  some, arith, append_assoc, append-nil, ◌==◌, if◌then◌else◌, ◌⊎◌,
}
use rustdv.Sequencer.{GetNext, not_begun, waits_item, waits_ready}
use rustdv.Sequencer.Responses.{TxnId}
use rustdv.Sequencer.Bench.{
  Bench, Call, starts, finishes, waits_granted, waits_done, gets, tries, dones, answers, opens,
  Reply, item, call, at_rest, Ran, finish, after,
}

-- The slot that the driver took out of the queue and waits for
abbrev pub held : GetNext → List TxnId
held not_begun = []
held waits_item = []
held (waits_ready id) = id ∷ []

module _ {REQ : Type 0} where
  abbrev pub taken : Reply REQ → List TxnId
  taken (item id p) = id ∷ []
  taken _ = []

  abbrev pub all_taken : List (Reply REQ) → List TxnId
  all_taken [] = []
  all_taken (r ∷ rs) = taken r ++ all_taken rs

-- The tickets 1, 2, … below a number
abbrev pub tickets : ℕ → List TxnId
tickets zero = []
tickets (suc zero) = []
tickets (suc (suc n)) = tickets (suc n) ++ suc n ∷ []

tickets_suc : (n : ℕ) → 0 < n → tickets (n + 1) ≡ tickets n ++ n ∷ []
tickets_suc zero h = absurd (omega arith)
tickets_suc (suc m) h = let e : suc m + 1 ≡ suc (suc m) = omega arith in ap tickets e

module _ {REQ RSP : Type 0} where
  abbrev pub is_blocking : Call REQ RSP → Bool
  is_blocking tries = false
  is_blocking _ = true

  abbrev pub all_blocking : List (Call REQ RSP) → Bool
  all_blocking [] = true
  all_blocking (c ∷ cs) = if is_blocking c then all_blocking cs else false

  -- The slots that are still to be handed over, first come first
  abbrev pub line : Bench REQ RSP → List TxnId
  line b = held b.driver ++ b.seqr.inner.queue.buf

  abbrev issued : Bench REQ RSP → Bench REQ RSP → List TxnId
  issued b b' =
      if b.seqr.inner.next_id == b'.seqr.inner.next_id then [] else b.seqr.inner.next_id ∷ []

  record Step (b b' : Bench REQ RSP) (r : Reply REQ) : Type 0 where
    order : line b ++ issued b b' ≡ taken r ++ line b'
    counter :
        (b'.seqr.inner.next_id ≡ b.seqr.inner.next_id)
        ⊎ (b'.seqr.inner.next_id ≡ b.seqr.inner.next_id + 1)
    unbounded : b'.seqr.inner.queue.cap ≡ none

  call-Step :
      (b : Bench REQ RSP) (c : Call REQ RSP) {b' : Bench REQ RSP} {r : Reply REQ}
      → is_blocking c ≡ true
      → b.seqr.inner.queue.cap ≡ none
      → call b c ≡ some (b', r)
      → Step b b' r
  unfolding call
  call-Step b (starts s task) k h e = ground (
    arith,
    append-nil (line b),
    append_assoc (held b.driver) b.seqr.inner.queue.buf (b.seqr.inner.next_id ∷ []),
  )
  call-Step b (finishes s p task) k h e = ground (arith, append-nil (line b))
  call-Step b (waits_granted id task) k h e = ground (arith, append-nil (line b))
  call-Step b (waits_done id task) k h e = ground (arith, append-nil (line b))
  call-Step b (gets task) k h e = ground (arith, append-nil (line b))
  call-Step b tries k h e = ground arith
  call-Step b (dones rsp) k h e = ground (arith, append-nil (line b))
  call-Step b (answers id rsp) k h e = ground (arith, append-nil (line b))
  call-Step b (opens s real) k h e = ground (arith, append-nil (line b))

  record Served (b : Bench REQ RSP) (before : List TxnId) : Type 0 where
    order : before ++ line b ≡ tickets b.seqr.inner.next_id
    positive : 0 < b.seqr.inner.next_id
    unbounded : b.seqr.inner.queue.cap ≡ none

  tickets_issued :
      (b b' : Bench REQ RSP)
      → (b'.seqr.inner.next_id ≡ b.seqr.inner.next_id)
        ⊎ (b'.seqr.inner.next_id ≡ b.seqr.inner.next_id + 1)
      → 0 < b.seqr.inner.next_id
      → tickets b.seqr.inner.next_id ++ issued b b' ≡ tickets b'.seqr.inner.next_id
  tickets_issued b b' c h =
      ground (arith, append-nil (tickets b.seqr.inner.next_id), tickets_suc b.seqr.inner.next_id)

  call-Served :
      (b : Bench REQ RSP) (before : List TxnId) (c : Call REQ RSP) {b' : Bench REQ RSP}
      {r : Reply REQ}
      → is_blocking c ≡ true
      → call b c ≡ some (b', r)
      → Served b before
      → Served b' (before ++ taken r)
  call-Served b before c {b' = b'} {r = r} k e h =
      let s : Step b b' r = call-Step b c k h.unbounded e in
      record {
        order =
            append_assoc before (taken r) (line b')
            ∙ ap (λ l. before ++ l) (sym s.order)
            ∙ sym (append_assoc before (line b) (issued b b'))
            ∙ ap (λ l. l ++ issued b b') h.order
            ∙ tickets_issued b b' s.counter h.positive;
        positive = ground (arith, s.counter, h.positive);
        unbounded = s.unbounded;
      }

  Ran-Served :
      (before : List TxnId) {b b' : Bench REQ RSP} {cs : List (Call REQ RSP)}
      {rs : List (Reply REQ)}
      → Ran b cs rs b'
      → all_blocking cs ≡ true
      → Served b before
      → Served b' (before ++ all_taken rs)
  Ran-Served before (finish {b = b}) k h = rw (append-nil before) h
  Ran-Served before (after {b = b} {b' = b'} {c = c} {r = r} {rs = rs} e ran) k h =
      rw (← append_assoc before (taken r) (all_taken rs)) (
        Ran-Served (before ++ taken r) ran (ground arith)
          (call-Served b before c (ground arith) e h))

  -- The driver is served first come, first served: after any history of starts, finishes, waits and
  -- answers by any sequences, and of blocking requests by one driver, the tickets of the items that it
  -- got, in order, then the one whose item it waits for, then the ones in the queue, are 1, 2, … up to the
  -- last ticket given out, each once.
  pub Ran_order :
      {b : Bench REQ RSP} {cs : List (Call REQ RSP)} {rs : List (Reply REQ)}
      → Ran at_rest cs rs b
      → all_blocking cs ≡ true
      → all_taken rs ++ line b ≡ tickets b.seqr.inner.next_id
  unfolding at_rest
  Ran_order ran k =
      (Ran-Served [] ran k
        (record { order = refl; positive = omega arith; unbounded = refl })).order
