-- ===== src/TlmFifo/Taps.antt =====
-- rustdv/rustdv-methodology/src/fifo.rs: what the analysis taps see.
use rustdv.Base.{ℕ, ◌≡◌, refl, sym, ◌∙◌, List, [], ◌∷◌, ◌++◌, arith, map, append_assoc, append-nil}
use rustdv.Wake.{World}
use rustdv.Queue.{Reply, item, done}
use rustdv.TlmFifo.{
  FifoInner, Sink, Call, try_puts, puts, try_gets, try_peeks, useds, gets, peeks, call, run, tap,
}

module _ {ℓ} {A : Type ℓ} where
  -- One delivery of the item to each sink.
  abbrev pub to_each : List Sink → A → List (Sink × A)
  to_each ss a = map (λ s. (s, a)) ss

  -- What the taps should see of a call, by its reply.
  abbrev pub observed : List Sink → List Sink → Call A → Reply A → List (Sink × A)
  observed ps gs (try_puts a) done = to_each ps a
  observed ps gs (puts a id) done = to_each ps a
  observed ps gs try_gets (item a) = to_each gs a
  observed ps gs (gets id) (item a) = to_each gs a
  observed ps gs _ _ = []

  abbrev pub all_observed : List Sink → List Sink → List (Call A) → List (Reply A) → List (Sink × A)
  all_observed ps gs [] rs = []
  all_observed ps gs (c ∷ cs) [] = []
  all_observed ps gs (c ∷ cs) (r ∷ rs) = observed ps gs c r ++ all_observed ps gs cs rs

  tap-to_each :
      (log : List (Sink × A)) (ss : List Sink) (a : A) → tap log ss a ≡ log ++ to_each ss a
  unfolding tap
  tap-to_each log [] a = rw append-nil
  tap-to_each log (s ∷ ss) a =
      tap-to_each (log ++ (s, a) ∷ []) ss a ∙ append_assoc log ((s, a) ∷ []) (to_each ss a)

  record Step (w w' : World (FifoInner A)) (c : Call A) (r : Reply A) : Type ℓ where
    logged : w'.inner.log ≡ w.inner.log ++ observed w.inner.put_taps w.inner.get_taps c r
    puts_kept : w'.inner.put_taps ≡ w.inner.put_taps
    gets_kept : w'.inner.get_taps ≡ w.inner.get_taps

  try_get-Step :
      (w : World (FifoInner A)) (xs : List A)
      → w.inner.q.buf ≡ xs
      → let (w', r) = call w try_gets in Step w w' try_gets r
  unfolding call
  try_get-Step w [] e = ground (arith, append-nil w.inner.log)
  try_get-Step w (a ∷ xs) e = ground (arith, tap-to_each w.inner.log w.inner.get_taps a)

  poll_get-Step :
      (w : World (FifoInner A)) (id : ℕ) (xs : List A)
      → w.inner.q.buf ≡ xs
      → let (w', r) = call w (gets id) in Step w w' (gets id) r
  unfolding call
  poll_get-Step w id [] e = ground (arith, append-nil w.inner.log)
  poll_get-Step w id (a ∷ xs) e = ground (arith, tap-to_each w.inner.log w.inner.get_taps a)

  call-Step : (w : World (FifoInner A)) (c : Call A) → let (w', r) = call w c in Step w w' c r
  unfolding call
  call-Step w (try_puts a) =
      ground (arith, append-nil w.inner.log, tap-to_each w.inner.log w.inner.put_taps a)
  call-Step w (puts a id) =
      ground (arith, append-nil w.inner.log, tap-to_each w.inner.log w.inner.put_taps a)
  call-Step w try_gets = try_get-Step w w.inner.q.buf refl
  call-Step w try_peeks = ground (arith, append-nil w.inner.log)
  call-Step w useds = ground (arith, append-nil w.inner.log)
  call-Step w (gets id) = poll_get-Step w id w.inner.q.buf refl
  call-Step w (peeks id) = ground (arith, append-nil w.inner.log)

  -- Over any sequence of calls, the put taps see each accepted item and the get taps each delivered
  -- item, once for each time that they are connected, in the order of the calls, and nothing else is
  -- delivered; a refused put and a peek are not seen.
  pub run_observed :
      (w : World (FifoInner A)) (cs : List (Call A))
      → let (w', rs) = run w cs in
        w'.inner.log ≡ w.inner.log ++ all_observed w.inner.put_taps w.inner.get_taps cs rs
  unfolding run
  run_observed w [] = sym (append-nil w.inner.log)
  run_observed w (c ∷ cs) =
      let (w', r) = call w c in
      let s : Step w w' c r = call-Step w c in
      run_observed w' cs ∙ rw (s.puts_kept, s.gets_kept, s.logged) (append_assoc w.inner.log _ _)
