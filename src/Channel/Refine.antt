-- ===== src/Channel/Refine.antt =====
-- rustdv/rustdv-methodology/src/channel.rs: order and bound of what goes through a channel.
use rustdv.Base.{
  ◌≡◌, ◌≤◌, refl, ap, sym, ◌∙◌, List, [], ◌∷◌, ◌++◌, some, arith, length, append_assoc, append-nil,
  length-append,
}
use rustdv.Wake.{World}
use rustdv.Channel.{
  ChanInner, Call, try_sends, sends, try_recvs, try_peeks, recvs, peeks, clones_sender,
  drops_sender, clones_receiver, drops_receiver, call, Reply, item, done, Ran, finish, after,
}

module _ {ℓ} {A : Type ℓ} where
  abbrev pub accepted : Call A → Reply A → List A
  accepted (try_sends a) done = a ∷ []
  accepted (sends a id) done = a ∷ []
  accepted _ _ = []

  abbrev pub delivered : Call A → Reply A → List A
  delivered try_recvs (item a) = a ∷ []
  delivered (recvs id) (item a) = a ∷ []
  delivered _ _ = []

  abbrev pub all_accepted : List (Call A) → List (Reply A) → List A
  all_accepted [] rs = []
  all_accepted (c ∷ cs) [] = []
  all_accepted (c ∷ cs) (r ∷ rs) = accepted c r ++ all_accepted cs rs

  abbrev pub all_delivered : List (Call A) → List (Reply A) → List A
  all_delivered [] rs = []
  all_delivered (c ∷ cs) [] = []
  all_delivered (c ∷ cs) (r ∷ rs) = delivered c r ++ all_delivered cs rs

  -- One call, on the buffer, its bound and what goes in and out.
  record Step (w w' : World (ChanInner A)) (c : Call A) (r : Reply A) : Type ℓ where
    order : w.inner.buf ++ accepted c r ≡ delivered c r ++ w'.inner.buf
    bound : length w.inner.buf ≤ w.inner.cap → length w'.inner.buf ≤ w.inner.cap
    cap : w'.inner.cap ≡ w.inner.cap

  call-Step :
      (w : World (ChanInner A)) (c : Call A) {w' : World (ChanInner A)} {r : Reply A}
      → call w c ≡ some (w', r)
      → Step w w' c r
  unfolding call
  call-Step w (try_sends a) e =
      ground (arith, append-nil w.inner.buf, length-append w.inner.buf (a ∷ []))
  call-Step w (sends a id) e =
      ground (arith, append-nil w.inner.buf, length-append w.inner.buf (a ∷ []))
  call-Step w try_recvs e = ground (arith, append-nil w.inner.buf)
  call-Step w try_peeks e = ground (arith, append-nil w.inner.buf)
  call-Step w (recvs id) e = ground (arith, append-nil w.inner.buf)
  call-Step w (peeks id) e = ground (arith, append-nil w.inner.buf)
  call-Step w clones_sender e = ground (arith, append-nil w.inner.buf)
  call-Step w drops_sender e = ground (arith, append-nil w.inner.buf)
  call-Step w clones_receiver e = ground (arith, append-nil w.inner.buf)
  call-Step w drops_receiver e = ground (arith, append-nil w.inner.buf)

  -- Over any history, what was in the channel followed by what it accepted is what it delivered
  -- followed by what is left in it, in that order; and a channel within its capacity stays within it.
  pub Ran_fifo :
      {w w' : World (ChanInner A)} {cs : List (Call A)} {rs : List (Reply A)}
      → Ran w cs rs w'
      → (w.inner.buf ++ all_accepted cs rs ≡ all_delivered cs rs ++ w'.inner.buf)
        × (length w.inner.buf ≤ w.inner.cap → length w'.inner.buf ≤ w.inner.cap)
        × (w'.inner.cap ≡ w.inner.cap)
  Ran_fifo (finish {w = w}) = (append-nil w.inner.buf, λ h. h, refl)
  Ran_fifo (after {w = w} {w' = w'} {w'' = w''} {c = c} {r = r} {cs = cs} {rs = rs} e rest) =
      let s : Step w w' c r = call-Step w c e in
      let (later, fits, same) = Ran_fifo rest in
      let first : List A = delivered c r in
      (
        sym (append_assoc w.inner.buf (accepted c r) (all_accepted cs rs))
            ∙ ap (λ l. l ++ all_accepted cs rs) s.order
            ∙ append_assoc first w'.inner.buf (all_accepted cs rs)
            ∙ ap (λ l. first ++ l) later
            ∙ sym (append_assoc first (all_delivered cs rs) w''.inner.buf),
        ground (arith, s),
        same ∙ s.cap,
      )
