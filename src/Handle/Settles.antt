-- ===== src/Handle/Settles.antt =====
-- A value that a task sets, from rustdv/rustdv-sim/src/handle/logic.rs through the buffer of phase.rs to the words of the simulator, and back.
use rustdv.Base.{
  ℕ, ◌+◌, ◌%◌, ◌^◌, ◌<◌, ◌≤◌, List, [], ◌∷◌, ◌++◌, map, Option, none, some, ok, ◌≡◌, ap, ◌∙◌, arith,
  if◌then◌else◌, ◌==◌, Bool-cases, inl, inr,
}
use rustdv.Wake.{World}
use rustdv.LogicArray.Big.{BigUint, AllWords}
use rustdv.LogicArray.Codec.{word_count, first_of, second_of}
use rustdv.Gpi.Signals.{Vecval, Signal, slice, get_u64}
use rustdv.Gpi.RoundTrip.{get_u64-set_u64}
use rustdv.Phase.{Hub, normal, for_read_write, enter, run, buffer}
use rustdv.Phase.Writes.{scheduled, scheduled-enter, coalesce, coalesce-last, remove}
use rustdv.Handle.{WriteVal, u64_val, apply_words, words_of}

-- The value that a list of writes has for a signal
abbrev pub value_in : {V : Type 0} → ℕ → List (ℕ × V) → Option V
value_in t [] = none
value_in t ((u, v) ∷ ws) = if u == t then some v else value_in t ws

value_in-buffer :
    {V : Type 0} (t : ℕ) (v : V) (ws : List (ℕ × V)) → value_in t (buffer t v ws) ≡ some v
unfolding buffer
value_in-buffer t v [] = ground arith
value_in-buffer t v ((u, x) ∷ ws) = let rest = value_in-buffer t v ws in ground arith

-- How many writes a list has for a signal
abbrev pub writes_to : {V : Type 0} → ℕ → List (ℕ × V) → ℕ
writes_to t [] = 0
writes_to t ((u, v) ∷ ws) = (if u == t then 1 else 0) + writes_to t ws

writes_to-value_in :
    {V : Type 0} (t : ℕ) (v : V) (ws : List (ℕ × V)) → value_in t ws ≡ some v → 1 ≤ writes_to t ws
writes_to-value_in t v [] h = absurd (none-some h)
  where
    none-some : {A : Type 0} {x : A} → none ≡ some x → ⊥
    none-some e = ground arith
writes_to-value_in t v ((u, x) ∷ ws) h = elim (Bool-cases (u == t)) [
  | inl e ↦ rw e (omega arith)
  | inr e ↦ rw e (more (writes_to t ws) (writes_to-value_in t v ws (rw e at h)))
]
  where
    more : (n : ℕ) → 1 ≤ n → 1 ≤ 0 + n
    more n l = omega (arith, l)

writes_to-remove :
    {V : Type 0} (t u : ℕ) (ws : List (ℕ × V))
    → writes_to t (remove u ws) ≡ (if u == t then 0 else writes_to t ws)
writes_to-remove t u [] = ground arith
writes_to-remove t u ((k, x) ∷ ws) = let rest = writes_to-remove t u ws in ground arith

writes_to-coalesce : {V : Type 0} (t : ℕ) (ws : List (ℕ × V)) → writes_to t (coalesce ws) ≤ 1
writes_to-coalesce t [] = omega arith
writes_to-coalesce t ((u, x) ∷ ws) =
    ground (arith, writes_to-remove t u (coalesce ws), writes_to-coalesce t ws)

both_bounds : (n : ℕ) → n ≤ 1 → 1 ≤ n → n ≡ 1
both_bounds n h k = omega arith

-- A task sets a 64-bit value, in the Normal phase and after any other writes to any signals since the buffer was empty. No write
-- panics; the ReadWrite phase then writes the signal once, with that value; and once the simulator holds the words that this
-- write makes, `get_u64` gives the value, cut to the signal's width.
pub set-get_u64 :
    (N : BigUint) (w : World (Hub (WriteVal N))) (before : List (ℕ × WriteVal N)) (t v : ℕ)
    (s : Signal) (p : ℕ → Vecval)
    → w.inner.phase ≡ normal
    → w.inner.writes ≡ []
    → v < 2 ^ 64
    → s.width ≤ 64
    → s.vector ≡ some p
    → AllWords (map first_of (slice p 0 (word_count s.width)))
    → AllWords (map second_of (slice p 0 (word_count s.width)))
    → apply_words N s.width (u64_val v) ≡ some (slice p 0 (word_count s.width))
    → (w' : World (Hub (WriteVal N))) × (written : List (ℕ × WriteVal N)) × (run w
          (scheduled (before ++ (t, u64_val v) ∷ []))
        ≡ some w')
      × ((enter w' for_read_write).inner.applied ≡ w.inner.applied ++ written)
      × (value_in t written ≡ some (u64_val v))
      × (writes_to t written ≡ 1)
      × (get_u64 N s ≡ some (ok (v % 2 ^ s.width)))
unfolding apply_words words_of
set-get_u64 N w before t v s p ph e l h vec a b put =
    let ws = before ++ (t, u64_val v) ∷ [] in
    let (w', ran, same, applied) = scheduled-enter w ws ph e in
    let last =
      ap (value_in t) (coalesce-last t (u64_val v) before)
      ∙ value_in-buffer t (u64_val v) (coalesce before) in
    let once =
      both_bounds (writes_to t (coalesce ws)) (writes_to-coalesce t ws)
        (writes_to-value_in t (u64_val v) (coalesce ws) last) in
    (w', coalesce ws, ran, applied, last, once, get_u64-set_u64 N s p v l h vec a b put)
