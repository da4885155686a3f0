-- ===== src/Queue/Refine.antt =====
-- rustdv/rustdv-sim/src/queue.rs: items leave a queue in the order in which they were accepted.
use rustdv.Base.{
  ◌≡◌, ap, sym, ◌∙◌, List, [], ◌∷◌, ◌++◌, none, some, arith, append_assoc, append-nil,
}
use rustdv.Wake.{World}
use rustdv.Queue.{
  QInner, Call, try_puts, try_gets, try_peeks, lens, puts, gets, peeks, spaces, call, run, Reply,
  item, done, try_get, wake_putters,
}

module _ {ℓ} {A : Type ℓ} where
  -- The item that a call handed over, by its reply.
  abbrev pub accepted : Call A → Reply A → List A
  accepted (try_puts a) done = a ∷ []
  accepted (puts a id) done = a ∷ []
  accepted _ _ = []

  -- The item that a call took out, by its reply.
  abbrev pub delivered : Call A → Reply A → List A
  delivered try_gets (item a) = a ∷ []
  delivered (gets id) (item a) = a ∷ []
  delivered _ _ = []

  abbrev pub all_accepted : List (Call A) → List (Reply A) → List A
  all_accepted [] rs = []
  all_accepted (c ∷ cs) [] = []
  all_accepted (c ∷ cs) (r ∷ rs) = accepted c r ++ all_accepted cs rs

  abbrev pub all_delivered : List (Call A) → List (Reply A) → List A
  all_delivered [] rs = []
  all_delivered (c ∷ cs) [] = []
  all_delivered (c ∷ cs) (r ∷ rs) = delivered c r ++ all_delivered cs rs

  pub try_get-nil : (w : World (QInner A)) → w.inner.buf ≡ [] → try_get w ≡ (w, none)
  unfolding try_get
  try_get-nil w e = ground arith

  pub try_get-cons :
      (w : World (QInner A)) (x : A) (xs : List A)
      → w.inner.buf ≡ x ∷ xs
      → try_get w ≡ (wake_putters (record w { inner = record w.inner { buf = xs } }), some x)
  unfolding try_get
  try_get-cons w x xs e = ground arith

  call_fifo :
      (w : World (QInner A)) (c : Call A)
      → let (w', r) = call w c in w.inner.buf ++ accepted c r ≡ delivered c r ++ w'.inner.buf
  unfolding call
  call_fifo w (try_puts a) = ground (arith, append-nil w.inner.buf)
  call_fifo w try_gets = ground (arith, append-nil w.inner.buf)
  call_fifo w try_peeks = append-nil w.inner.buf
  call_fifo w lens = append-nil w.inner.buf
  call_fifo w (puts a id) = ground (arith, append-nil w.inner.buf)
  call_fifo w (gets id) = ground (arith, append-nil w.inner.buf)
  call_fifo w (peeks id) = ground (arith, append-nil w.inner.buf)
  call_fifo w (spaces id) = ground (arith, append-nil w.inner.buf)

  -- Over any sequence of calls, by any tasks, what was in the queue followed by what it accepted is
  -- what it delivered followed by what is left in it, in that order.
  pub run_fifo :
      (w : World (QInner A)) (cs : List (Call A))
      → let (w', rs) = run w cs in
        w.inner.buf ++ all_accepted cs rs ≡ all_delivered cs rs ++ w'.inner.buf
  unfolding run
  run_fifo w [] = append-nil w.inner.buf
  run_fifo w (c ∷ cs) =
      let (w', r) = call w c in
      let (w'', rs) = run w' cs in
      let before : List A = w.inner.buf in
      let first : List A = delivered c r in
      sym (append_assoc before (accepted c r) (all_accepted cs rs))
      ∙ ap (λ l. l ++ all_accepted cs rs) (call_fifo w c)
      ∙ append_assoc first w'.inner.buf (all_accepted cs rs)
      ∙ ap (λ l. first ++ l) (run_fifo w' cs)
      ∙ sym (append_assoc first (all_delivered cs rs) w''.inner.buf)
