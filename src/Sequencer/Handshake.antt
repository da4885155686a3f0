-- ===== src/Sequencer/Handshake.antt =====
-- rustdv/rustdv-methodology/src/sequence.rs: what the end of a `finish_item` says.
use rustdv.Base.{
  ◌≡◌, true, List, [], ◌∷◌, ◌++◌, some, arith, append_assoc, append-nil, inl, inr, In, In-append,
  In-append_left, In-append_right, In-last, sym,
}
use rustdv.Sequencer.Responses.{TxnId}
use rustdv.Sequencer.Bench.{Bench, Call, Reply, item, ticket, call, at_rest, Ran, finish, after}
use rustdv.Sequencer.Steps.{
  given, released, all_given, all_released, payload_step, item_step, current_step, done_step,
  ticket_step, released_step,
}

module _ {REQ RSP : Type 0} where
  -- How the slots stand to what was given, replied and released before
  record Kept (b : Bench REQ RSP) (gs : List (TxnId × REQ)) (rs : List (Reply REQ))
      (ds : List TxnId) : Type 0 where
    payload : (id : TxnId) (p : REQ) → (b.seqr.inner.slots id).payload ≡ some p → In (id, p) gs
    items : (id : TxnId) (p : REQ) → In (item id p) rs → In (id, p) gs
    current : (id : TxnId) → b.seqr.inner.current ≡ some id → (p : REQ) × In (item id p) rs
    done : (id : TxnId) → (b.seqr.inner.slots id).done.is_set ≡ true → In id ds
    released : (id : TxnId) → In id ds → (p : REQ) × In (item id p) rs
    tickets : (id : TxnId) → In (ticket id) rs → In id ds

  call-Kept :
      (b : Bench REQ RSP) (c : Call REQ RSP) {b' : Bench REQ RSP} {r : Reply REQ}
      (gs : List (TxnId × REQ)) (rs : List (Reply REQ)) (ds : List TxnId)
      → call b c ≡ some (b', r)
      → Kept b gs rs ds
      → Kept b' (gs ++ given b c) (rs ++ r ∷ []) (ds ++ released b c)
  call-Kept b c {b' = b'} {r = r} gs rs ds e h = record {
    payload = λ id p k. elim (payload_step b c id p e k) [
      | inl old ↦ In-append_left (id, p) gs (given b c) (h.payload id p old)
      | inr new ↦ In-append_right (id, p) gs (given b c) new
    ];
    items = λ id p k.
        In-append_left (id, p) gs (given b c)
          (elim (In-last (item id p) r rs k) [
            | inl old ↦ h.items id p old
            | inr new ↦ h.payload id p (item_step b c id p e (sym new))
          ]);
    current = λ id k. elim (current_step b c id e k) [
      | inl old ↦ let (p, m) = h.current id old in (p, In-append_left (item id p) rs (r ∷ []) m)
      | inr new ↦ let (p, m) = new in (p, In-append_right (item id p) rs (r ∷ []) (inl (sym m)))
    ];
    done = λ id k. elim (done_step b c id e k) [
      | inl old ↦ In-append_left id ds (released b c) (h.done id old)
      | inr new ↦ In-append_right id ds (released b c) new
    ];
    released = λ id k. elim (In-append id ds (released b c) k) [
      | inl old ↦ let (p, m) = h.released id old in (p, In-append_left (item id p) rs (r ∷ []) m)
      | inr new ↦
          let (p, m) = h.current id (released_step b c id new) in
          (p, In-append_left (item id p) rs (r ∷ []) m)
    ];
    tickets = λ id k. elim (In-last (ticket id) r rs k) [
      | inl old ↦ In-append_left id ds (released b c) (h.tickets id old)
      | inr new ↦ elim (done_step b c id e (ticket_step b c id e (sym new))) [
        | inl old ↦ In-append_left id ds (released b c) (h.done id old)
        | inr now ↦ In-append_right id ds (released b c) now
      ]
    ];
  }

  Ran-Kept :
      (gs : List (TxnId × REQ)) (rs : List (Reply REQ)) (ds : List TxnId) {b b' : Bench REQ RSP}
      {cs : List (Call REQ RSP)} {qs : List (Reply REQ)} (ran : Ran b cs qs b')
      → Kept b gs rs ds
      → Kept b' (gs ++ all_given ran) (rs ++ qs) (ds ++ all_released ran)
  Ran-Kept gs rs ds finish h = rw (append-nil gs, append-nil rs, append-nil ds) h
  Ran-Kept gs rs ds (after {b = b} {c = c} {r = r} {rs = qs} e ran) h =
      let later =
        Ran-Kept (gs ++ given b c) (rs ++ r ∷ []) (ds ++ released b c) ran
          (call-Kept b c gs rs ds e h) in
      rw
        (
          ← append_assoc gs (given b c) (all_given ran),
          ← append_assoc rs (r ∷ []) qs,
          ← append_assoc ds (released b c) (all_released ran),
        )
        later

  at_rest-Kept : Kept at_rest [] [] []
  unfolding at_rest
  at_rest-Kept = record {
    payload = λ id p h. ground arith;
    items = λ id p h. h;
    current = λ id h. ground arith;
    done = λ id h. ground arith;
    released = λ id h. elim h [ ];
    tickets = λ id h. h;
  }

  -- When a `finish_item` returns with a ticket, in any history, the driver has called `item_done` for that
  -- ticket, had got its item, and the item was the one that some `finish_item` handed over under it.
  pub finish_item-delivered :
      {b : Bench REQ RSP} {cs : List (Call REQ RSP)} {rs : List (Reply REQ)}
      (ran : Ran at_rest cs rs b) (id : TxnId)
      → In (ticket id) rs
      → In id (all_released ran) × ((p : REQ) × In (item id p) rs × In (id, p) (all_given ran))
  finish_item-delivered ran id h =
      let v = Ran-Kept [] [] [] ran at_rest-Kept in
      let d = v.tickets id h in let (p, m) = v.released id d in (d, (p, m, v.items id p m))
