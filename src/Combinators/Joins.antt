-- ===== src/Combinators/Joins.antt =====
-- rustdv/rustdv-sim/src/combinators.rs: futures that run on their own, joined, raced and timed. A
-- future is here a step that leaves the state of the simulation alone.
use rustdv.Base.{
  ℕ, zero, suc, ◌+◌, ◌≡◌, refl, ap, ◌∙◌, Bool, true, false, List, [], ◌∷◌, map, Option, none, some,
  Poll, ready, pending, arith, Option-cases, inl, inr,
}
use rustdv.Combinators.{
  Step, completes, suspends, join_all, fresh_slot, take_all, poll_slots, poll_join_all, drive,
}

-- A future after `n` polls, of which none follows its completion
unfoldable pub after : {F A : Type 0} → (F → Step F A) → ℕ → F → Step F A
after step zero f = suspends f
after step (suc n) f = elim (after step n f) [ completes v ↦ completes v | suspends g ↦ step g ]

-- The output of each future after `n` polls, if each has one
unfoldable pub outputs : {F A : Type 0} → (F → Step F A) → ℕ → List F → Option (List A)
unfolding after
outputs step n [] = some []
outputs step n (f ∷ fs) = elim (after step n f) [
  | suspends g ↦ none
  | completes v ↦ elim (outputs step n fs) [ none ↦ none | some vs ↦ some (v ∷ vs) ]
]

abbrev pub quietly : {W F A : Type 0} → (F → Step F A) → W → F → W × Step F A
quietly step w f = (w, step f)

abbrev pub joined : {A : Type 0} → Option (List A) → Poll (Option (List A))
joined none = pending
joined (some vs) = ready (some vs)

later : ℕ → ℕ → ℕ
later zero m = m
later (suc k) m = later k (suc m)

later_lem : (k m : ℕ) → later k m ≡ k + m
unfolding later
later_lem zero m = omega arith
later_lem (suc k) m = omega (arith, later_lem k (suc m))

is_some : {A : Type 0} → Option A → Bool
is_some none = false
is_some (some a) = true

slot_of : {F A : Type 0} → Step F A → Option F × Option A
slot_of (completes v) = (none, some v)
slot_of (suspends g) = (some g, none)

module _ {F A : Type 0} (step : F → Step F A) where
  slots_at : ℕ → List F → List (Option F × Option A)
  slots_at n [] = []
  slots_at n (f ∷ fs) = slot_of (after step n f) ∷ slots_at n fs

  slots_at-zero : (fs : List F) → map fresh_slot fs ≡ slots_at 0 fs
  unfolding slots_at after slot_of
  slots_at-zero [] = refl
  slots_at-zero (f ∷ fs) = ap (λ l. (some f, none) ∷ l) (slots_at-zero fs)

  take_all-slots_at :
      (n : ℕ) (fs : List F)
      → is_some (outputs step n fs) ≡ true
      → take_all (slots_at n fs) ≡ outputs step n fs
  unfolding take_all slots_at outputs slot_of is_some
  take_all-slots_at n [] h = refl
  take_all-slots_at n (f ∷ fs) h = ground (arith, take_all-slots_at n fs)

  -- One round of polls
  poll_slots-slots_at :
      {W : Type 0} (w : W) (n : ℕ) (fs : List F)
      → poll_slots (quietly step) w (slots_at n fs) ≡ record {
        world = w;
        left = slots_at (suc n) fs;
        all_done = is_some (outputs step (suc n) fs);
      }
  unfolding poll_slots slots_at outputs after slot_of is_some
  poll_slots-slots_at w n [] = refl
  poll_slots-slots_at w n (f ∷ fs) = ground (arith, poll_slots-slots_at w n fs)

  outputs-suc :
      (n : ℕ) (fs : List F) (vs : List A)
      → outputs step n fs ≡ some vs
      → outputs step (suc n) fs ≡ some vs
  unfolding outputs after
  outputs-suc n [] vs h = h
  outputs-suc n (f ∷ fs) vs h = elim (Option-cases (outputs step n fs)) [
    | inl e ↦ ground (arith, e)
    | inr (ws, e) ↦ ground (arith, e, outputs-suc n fs ws e)
  ]

  outputs-later :
      (k m : ℕ) (fs : List F) (vs : List A)
      → outputs step m fs ≡ some vs
      → outputs step (later k m) fs ≡ some vs
  unfolding later
  outputs-later zero m fs vs h = h
  outputs-later (suc k) m fs vs h = outputs-later k (suc m) fs vs (outputs-suc m fs vs h)

  drive-slots_at :
      {W : Type 0} (w : W) (k n : ℕ) (fs : List F)
      → drive (poll_join_all (quietly step)) (suc k) w (record { slots = slots_at n fs })
        ≡ (w, joined (outputs step (later k (suc n)) fs))
  unfolding drive poll_join_all later is_some
  drive-slots_at w zero n fs = elim (Option-cases (outputs step (suc n) fs)) [
    | inl e ↦ ground (arith, e, poll_slots-slots_at w n fs)
    | inr (vs, e) ↦ ground (arith, e, poll_slots-slots_at w n fs, take_all-slots_at (suc n) fs)
  ]
  drive-slots_at w (suc k) n fs = elim (Option-cases (outputs step (suc n) fs)) [
    | inl e ↦ ground (arith, e, poll_slots-slots_at w n fs, drive-slots_at w k (suc n) fs)
    | inr (vs, e) ↦ ground (
      arith,
      e,
      poll_slots-slots_at w n fs,
      take_all-slots_at (suc n) fs,
      outputs-later (suc k) (suc n) fs vs e,
    )
  ]

  -- Futures that run on their own, joined: when every one of them has ended within the polls made, the
  -- join ends, with their outputs in the order in which they were given; before, it is pending. No poll
  -- of the join panics.
  pub drive-join_all :
      {W : Type 0} (w : W) (n : ℕ) (fs : List F)
      → drive (poll_join_all (quietly step)) (suc n) w (join_all fs)
        ≡ (w, joined (outputs step (suc n) fs))
  unfolding join_all
  drive-join_all w n fs =
      ap (λ l. drive (poll_join_all (quietly step)) (suc n) w (record { slots = l }))
        (slots_at-zero fs)
      ∙ drive-slots_at w n 0 fs
      ∙ ap (λ m. (w, joined (outputs step m fs))) (later_lem n 1 ∙ omega arith)
