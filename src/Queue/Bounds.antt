-- ===== src/Queue/Bounds.antt =====
-- rustdv/rustdv-sim/src/queue.rs: a bounded queue stays within its bound.
use rustdv.Base.{
  ℕ, ◌≤◌, ◌≡◌, refl, ◌∙◌, List, [], ◌∷◌, Option, none, some, arith, length, length-append,
}
use rustdv.Wake.{World}
use rustdv.Queue.{
  QInner, Call, try_puts, try_gets, try_peeks, lens, puts, gets, peeks, spaces, call, run,
}

module _ {ℓ} {A : Type ℓ} where
  abbrev pub WithinCap : Option ℕ → List A → Type 0
  WithinCap none xs = Unit
  WithinCap (some c) xs = length xs ≤ c

  abbrev pub Fits : World (QInner A) → Type 0
  Fits w = WithinCap w.inner.cap w.inner.buf

  pub cap-call : (w : World (QInner A)) (c : Call A) → (call w c).0.inner.cap ≡ w.inner.cap
  unfolding call
  cap-call w (try_puts a) = ground arith
  cap-call w try_gets = ground arith
  cap-call w try_peeks = refl
  cap-call w lens = refl
  cap-call w (puts a id) = ground arith
  cap-call w (gets id) = ground arith
  cap-call w (peeks id) = ground arith
  cap-call w (spaces id) = ground arith

  call-Fits : (w : World (QInner A)) (c : Call A) → Fits w → Fits (call w c).0
  unfolding call
  call-Fits w (try_puts a) h = ground (arith, length-append w.inner.buf (a ∷ []))
  call-Fits w try_gets h = ground arith
  call-Fits w try_peeks h = h
  call-Fits w lens h = h
  call-Fits w (puts a id) h = ground (arith, length-append w.inner.buf (a ∷ []))
  call-Fits w (gets id) h = ground arith
  call-Fits w (peeks id) h = ground arith
  call-Fits w (spaces id) h = ground arith

  -- A queue that starts within its bound never holds more than `cap` items, whatever calls are made
  -- on it by whatever tasks, and its bound never changes.
  pub run-Fits :
      (w : World (QInner A)) (cs : List (Call A))
      → Fits w
      → Fits (run w cs).0 × ((run w cs).0.inner.cap ≡ w.inner.cap)
  unfolding run
  run-Fits w [] h = (h, refl)
  run-Fits w (c ∷ cs) h =
      let (fits, same) = run-Fits (call w c).0 cs (call-Fits w c h) in (fits, same ∙ cap-call w c)
