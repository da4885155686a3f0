-- ===== src/Combinators.antt =====
-- `First2`, `Join2`, `with_timeout` and `JoinAll` of rustdv/rustdv-sim/src/combinators.rs. What polling
-- one of the futures does is a parameter: it changes the state `W` of the simulation, and ends the
-- future or leaves the one to poll next. A future that was dropped, or completed, is not there to poll.
pub mod Joins
pub mod Races
mod Tests
use rustdv.Base.{
  ℕ, zero, suc, Bool, true, false, not, List, [], ◌∷◌, map, Option, none, some, Poll, ready,
  pending, Result, ok, err, if◌then◌else◌, ◌&&◌,
}

-- What a poll leaves of a future
pub data Step (F A : Type 0) : Type 0 where
  completes : A → Step F A
  suspends : F → Step F A

pub data Either (A B : Type 0) : Type 0 where
  first : A → Either A B
  second : B → Either A B

-- `TimeoutError`
pub data TimeoutError : Type 0 where
  timeout_error : TimeoutError

pub record First2 (F G : Type 0) : Type 0 where
  pub a : F
  pub b : G

pub record Join2 (F G A B : Type 0) : Type 0 where
  pub a : F
  pub b : G
  pub ra : Option A
  pub rb : Option B

-- The vectors `futs` and `out`, which have one length, as one list of pairs
pub record JoinAll (F A : Type 0) : Type 0 where
  pub slots : List (Option F × Option A)

-- What all the slots come to: the slots, and `all_done`
pub record Sweep (W F A : Type 0) : Type 0 where
  pub world : W
  pub left : List (Option F × Option A)
  pub all_done : Bool

module _ {F G : Type 0} where
  unfoldable pub first2 : F → G → First2 F G
  first2 f g = record { a = f; b = g }

  unfoldable pub join2 : {A B : Type 0} → F → G → Join2 F G A B
  join2 f g = record { a = f; b = g; ra = none; rb = none }

abbrev pub fresh_slot : {F A : Type 0} → F → Option F × Option A
fresh_slot f = (some f, none)

unfoldable pub join_all : {F A : Type 0} → List F → JoinAll F A
join_all fs = record { slots = map fresh_slot fs }

module _ {W F G A B : Type 0} (poll_a : W → F → W × Step F A) (poll_b : W → G → W × Step G B) where
  -- `First2::poll`
  unfoldable pub poll_first2 : W → First2 F G → W × First2 F G × Poll (Either A B)
  poll_first2 w p =
      let (w', s) = poll_a w p.a in
      elim s [
        | completes v ↦ (w', p, ready (first v))
        | suspends f ↦
            let (w'', t) = poll_b w' p.b in
            elim t [
              | completes v ↦ (w'', record p { a = f }, ready (second v))
              | suspends g ↦ (w'', record { a = f; b = g }, pending)
            ]
      ]

  -- The first `if` of `Join2::poll`
  unfoldable pub poll_left : W → Join2 F G A B → W × Join2 F G A B
  poll_left w p = elim p.ra [
    | some v ↦ (w, p)
    | none ↦
        let (w', s) = poll_a w p.a in
        elim s [
          | completes v ↦ (w', record p { ra = some v })
          | suspends f ↦ (w', record p { a = f })
        ]
  ]

  -- The second
  unfoldable pub poll_right : W × Join2 F G A B → W × Join2 F G A B
  poll_right (w, p) = elim p.rb [
    | some v ↦ (w, p)
    | none ↦
        let (w', s) = poll_b w p.b in
        elim s [
          | completes v ↦ (w', record p { rb = some v })
          | suspends g ↦ (w', record p { b = g })
        ]
  ]

  -- The last: both results are taken, or neither.
  unfoldable pub take_both : W × Join2 F G A B → W × Join2 F G A B × Poll (A × B)
  take_both (w, p) = elim p.ra [
    | none ↦ (w, p, pending)
    | some u ↦ elim p.rb [
      | none ↦ (w, p, pending)
      | some v ↦ (w, record p { ra = none; rb = none }, ready (u, v))
    ]
  ]

  -- `Join2::poll`
  unfoldable pub poll_join2 : W → Join2 F G A B → W × Join2 F G A B × Poll (A × B)
  unfolding poll_left poll_right take_both
  poll_join2 w p = take_both (poll_right (poll_left w p))

abbrev pub timeout_result : {A : Type 0} → Either A (Unit {0}) → Result A TimeoutError
timeout_result (first v) = ok v
timeout_result (second t) = err timeout_error

abbrev pub poll_map : {A B : Type 0} → (A → B) → Poll A → Poll B
poll_map f (ready v) = ready (f v)
poll_map f pending = pending

-- A poll of `with_timeout(fut, d)`, with the timer of `d` as its second future
unfoldable pub poll_timeout :
    {W F G A : Type 0}
    → (W → F → W × Step F A)
    → (W → G → W × Step G (Unit {0}))
    → W
    → First2 F G
    → W × First2 F G × Poll (Result A TimeoutError)
unfolding poll_first2
poll_timeout poll_a poll_timer w p =
    let (w', q, r) = poll_first2 poll_a poll_timer w p in (w', q, poll_map timeout_result r)

-- `this.out.iter_mut().map(|o| o.take().unwrap())`; `none` is the panic.
unfoldable pub take_all : {F A : Type 0} → List (Option F × Option A) → Option (List A)
take_all [] = some []
take_all ((f, none) ∷ ss) = none
take_all ((f, some v) ∷ ss) = elim (take_all ss) [ none ↦ none | some vs ↦ some (v ∷ vs) ]

abbrev pub without_out : {F A : Type 0} → Option F × Option A → Option F × Option A
without_out (f, o) = (f, none)

module _ {W F A : Type 0} (poll : W → F → W × Step F A) where
  -- The loop of `JoinAll::poll`
  unfoldable pub poll_slots : W → List (Option F × Option A) → Sweep W F A
  poll_slots w [] = record { world = w; left = []; all_done = true }
  poll_slots w ((none, o) ∷ ss) = let t = poll_slots w ss in record t { left = (none, o) ∷ t.left }
  poll_slots w ((some f, o) ∷ ss) =
      let (w', s) = poll w f in
      elim s [
        | completes v ↦ let t = poll_slots w' ss in record t { left = (none, some v) ∷ t.left }
        | suspends g ↦
            let t = poll_slots w' ss in record t { left = (some g, o) ∷ t.left; all_done = false }
      ]

  -- `JoinAll::poll`; `ready none` is the panic of an `unwrap`.
  unfoldable pub poll_join_all : W → JoinAll F A → W × JoinAll F A × Poll (Option (List A))
  unfolding poll_slots take_all
  poll_join_all w j =
      let t = poll_slots w j.slots in
      if t.all_done
      then (t.world, record { slots = map without_out t.left }, ready (take_all t.left))
      else (t.world, record { slots = t.left }, pending)

-- Polls until the first `ready`, `n` at most
unfoldable pub drive : {W P R : Type 0} → (W → P → W × P × Poll R) → ℕ → W → P → W × Poll R
drive poll zero w p = (w, pending)
drive poll (suc n) w p =
    let (w', q, a) = poll w p in elim a [ ready r ↦ (w', ready r) | pending ↦ drive poll n w' q ]
