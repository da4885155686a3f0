-- ===== src/Combinators/Races.antt =====
-- rustdv/rustdv-sim/src/combinators.rs: a pair of futures that run on their own, awaited together, and
-- a future under a timeout.
use rustdv.Base.{
  ℕ, zero, suc, ◌≡◌, refl, none, some, Poll, ready, pending, ok, err, arith, inl, inr, ◌⊎◌,
}
use rustdv.Combinators.{
  Step, completes, suspends, timeout_error, Join2, first2, join2, poll_first2, poll_join2,
  poll_timeout, poll_left, poll_right, take_both, drive,
}
use rustdv.Combinators.Joins.{after, quietly}

abbrev pub both : {F G A B : Type 0} → Step F A → Step G B → Poll (A × B)
both (completes u) (completes v) = ready (u, v)
both (completes u) (suspends g) = pending
both (suspends f) t = pending

Step-cases :
    {F A : Type 0} (s : Step F A) → ((v : A) × (s ≡ completes v)) ⊎ ((g : F) × (s ≡ suspends g))
Step-cases (completes v) = inl (v, refl)
Step-cases (suspends g) = inr (g, refl)

module _ {F A : Type 0} (step : F → Step F A) where
  -- The first poll, and the rest
  after_front :
      (n : ℕ) (f : F)
      → after step (suc n) f
        ≡ elim (step f) [ completes v ↦ completes v | suspends g ↦ after step n g ]
  unfolding after
  after_front zero f = ground arith
  after_front (suc n) f = ground (arith, after_front n f)

module _ {W F G A B : Type 0} (step_a : F → Step F A) (step_b : G → Step G B) where
  drive_right :
      (w : W) (n : ℕ) (f : F) (g : G) (u : A)
      → drive
          (poll_join2 (quietly step_a) (quietly step_b))
          (suc n)
          w
          (record { a = f; b = g; ra = some u; rb = none })
        ≡ (w, both {F = F} (completes u) (after step_b (suc n) g))
  unfolding drive poll_join2 poll_left poll_right take_both after
  drive_right w zero f g u = ground arith
  drive_right w (suc n) f g u = elim (Step-cases (step_b g)) [
    | inl (v, e) ↦ ground (arith, e, after_front step_b (suc n) g)
    | inr (h, e) ↦ ground (arith, e, after_front step_b (suc n) g, drive_right w n f h u)
  ]

  drive_left :
      (w : W) (n : ℕ) (f : F) (g : G) (v : B)
      → drive
          (poll_join2 (quietly step_a) (quietly step_b))
          (suc n)
          w
          (record { a = f; b = g; ra = none; rb = some v })
        ≡ (w, both {G = G} (after step_a (suc n) f) (completes v))
  unfolding drive poll_join2 poll_left poll_right take_both after
  drive_left w zero f g v = ground arith
  drive_left w (suc n) f g v = elim (Step-cases (step_a f)) [
    | inl (u, e) ↦ ground (arith, e, after_front step_a (suc n) f)
    | inr (h, e) ↦ ground (arith, e, after_front step_a (suc n) f, drive_left w n h g v)
  ]

  paired : W → F → G → Step F A → Step G B → W × Join2 F G A B × Poll (A × B)
  paired w f g (completes u) (completes v) =
      (w, record { a = f; b = g; ra = none; rb = none }, ready (u, v))
  paired w f g (completes u) (suspends h) =
      (w, record { a = f; b = h; ra = some u; rb = none }, pending)
  paired w f g (suspends k) (completes v) =
      (w, record { a = k; b = g; ra = none; rb = some v }, pending)
  paired w f g (suspends k) (suspends h) =
      (w, record { a = k; b = h; ra = none; rb = none }, pending)

  poll_join2-paired :
      (w : W) (f : F) (g : G)
      → poll_join2
          (quietly step_a)
          (quietly step_b)
          w
          (record { a = f; b = g; ra = none; rb = none })
        ≡ paired w f g (step_a f) (step_b g)
  unfolding paired poll_join2 poll_left poll_right take_both
  poll_join2-paired w f g = ground arith

  drive_pair :
      (w : W) (n : ℕ) (f : F) (g : G)
      → drive
          (poll_join2 (quietly step_a) (quietly step_b))
          (suc n)
          w
          (record { a = f; b = g; ra = none; rb = none })
        ≡ (w, both (after step_a (suc n) f) (after step_b (suc n) g))
  unfolding drive paired after
  drive_pair w zero f g =
      ground (arith, poll_join2-paired w f g, after_front step_a 0 f, after_front step_b 0 g)
  drive_pair w (suc n) f g =
      let p = after_front step_a (suc n) f in
      let q = after_front step_b (suc n) g in
      let r = poll_join2-paired w f g in
      elim (Step-cases (step_a f)) [
        | inl (u, e) ↦ elim (Step-cases (step_b g)) [
          | inl (v, d) ↦ ground (arith, p, q, r, e, d)
          | inr (h, d) ↦ ground (arith, p, q, r, e, d, drive_right w n f h u)
        ]
        | inr (k, e) ↦ elim (Step-cases (step_b g)) [
          | inl (v, d) ↦ ground (arith, p, q, r, e, d, drive_left w n k g v)
          | inr (h, d) ↦ ground (arith, p, q, r, e, d, drive_pair w n k h)
        ]
      ]

  -- Two futures that run on their own, joined: as soon as both have ended the join ends, with both
  -- outputs; before, it is pending.
  pub drive-join2 :
      (w : W) (n : ℕ) (f : F) (g : G)
      → drive (poll_join2 (quietly step_a) (quietly step_b)) (suc n) w (join2 f g)
        ≡ (w, both (after step_a (suc n) f) (after step_b (suc n) g))
  unfolding join2
  drive-join2 w n f g = drive_pair w n f g

module _ {W F G A : Type 0} (step_a : F → Step F A) (step_t : G → Step G (Unit {0})) where
  -- A future under a timeout that ends, at the latest, by the first poll at which the timer does ends with
  -- its own output.
  pub drive_in_time :
      (w : W) (n : ℕ) (f : F) (t t' : G) (v : A)
      → after step_a (suc n) f ≡ completes v
      → after step_t n t ≡ suspends t'
      → drive (poll_timeout (quietly step_a) (quietly step_t)) (suc n) w (first2 f t)
        ≡ (w, ready (ok v))
  unfolding drive poll_timeout poll_first2 first2 after
  drive_in_time w zero f t t' v h k = ground arith
  drive_in_time w (suc n) f t t' v h k = elim (Step-cases (step_a f)) [
    | inl (u, e) ↦ ground (arith, e, after_front step_a (suc n) f)
    | inr (g, e) ↦ elim (Step-cases (step_t t)) [
      | inl (u, d) ↦ ground (arith, d, after_front step_t n t)
      | inr (s, d) ↦ ground (
        arith,
        e,
        d,
        after_front step_a (suc n) f,
        after_front step_t n t,
        drive_in_time w n g s t' v,
      )
    ]
  ]

  -- A future that is still running at a poll by which the timer has ended is ended with the timeout.
  pub drive_too_late :
      (w : W) (n : ℕ) (f f' : F) (t : G)
      → after step_a (suc n) f ≡ suspends f'
      → after step_t (suc n) t ≡ completes tt
      → drive (poll_timeout (quietly step_a) (quietly step_t)) (suc n) w (first2 f t)
        ≡ (w, ready (err timeout_error))
  unfolding drive poll_timeout poll_first2 first2 after
  drive_too_late w zero f f' t h k = ground arith
  drive_too_late w (suc n) f f' t h k = elim (Step-cases (step_a f)) [
    | inl (u, e) ↦ ground (arith, e, after_front step_a (suc n) f)
    | inr (g, e) ↦ elim (Step-cases (step_t t)) [
      | inl (u, d) ↦ ground (arith, e, d)
      | inr (s, d) ↦ ground (
        arith,
        e,
        d,
        after_front step_a (suc n) f,
        after_front step_t (suc n) t,
        drive_too_late w n g f' s,
      )
    ]
  ]
