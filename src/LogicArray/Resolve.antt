-- ===== src/LogicArray/Resolve.antt =====
-- Which texts give a two-state value: `from_binstr` and `is_resolvable` of
-- rustdv/rustdv-gpi/src/value.rs.
use mathlib.Core.List.{reverse, reverse-cons}
use rustdv.Base.{
  ℕ, ◌≡◌, refl, Bool, true, false, List, [], ◌∷◌, ◌++◌, arith, ◌&&◌, Bool-cases, inl, inr,
}
use rustdv.LogicArray.Big.{BigUint}
use rustdv.LogicArray.Codec.{
  from_char, is_known, LogicArray, push_char, push_chars, from_binstr, is_resolvable, empty_array,
}

-- All characters stand for a 0 or a 1.
abbrev pub all_known : List ℕ → Bool
all_known [] = true
all_known (c ∷ cs) = is_known (from_char c) && all_known cs

all_known-append : (cs ds : List ℕ) → all_known (cs ++ ds) ≡ (all_known cs && all_known ds)
all_known-append [] ds = refl
all_known-append (c ∷ cs) ds = ground (arith, all_known-append cs ds)

all_known-reverse : (cs : List ℕ) → all_known (reverse cs) ≡ all_known cs
all_known-reverse [] = refl
all_known-reverse (c ∷ cs) =
    rw (reverse-cons c cs)
      (ground (arith, all_known-append (reverse cs) (c ∷ []), all_known-reverse cs))

module _ (N : BigUint) where
  open N use {bit, bit_set, bit_zero, zero_bits, bits_zero, is_zero, zero_big}

  push_char-known :
      (v : LogicArray N) (c : ℕ) → is_known (from_char c) ≡ true → (push_char N v c).b_val ≡ v.b_val
  unfolding push_char is_known
  push_char-known v c h = ground arith

  push_char-unknown :
      (v : LogicArray N) (c : ℕ)
      → is_known (from_char c) ≡ false
      → bit (push_char N v c).b_val v.width ≡ true
  unfolding push_char is_known
  push_char-unknown v c h = ground (arith, bit_set v.b_val v.width v.width)

  push_char-keeps :
      (v : LogicArray N) (c j : ℕ) → bit v.b_val j ≡ true → bit (push_char N v c).b_val j ≡ true
  unfolding push_char
  push_char-keeps v c j h = ground (arith, bit_set v.b_val v.width j)

  push_chars-known :
      (v : LogicArray N) (cs : List ℕ) → all_known cs ≡ true → (push_chars N v cs).b_val ≡ v.b_val
  unfolding push_chars
  push_chars-known v [] h = refl
  push_chars-known v (c ∷ cs) h =
      ground (arith, push_char-known v c, push_chars-known (push_char N v c) cs)

  push_chars-keeps :
      (v : LogicArray N) (cs : List ℕ) (j : ℕ)
      → bit v.b_val j ≡ true
      → bit (push_chars N v cs).b_val j ≡ true
  unfolding push_chars
  push_chars-keeps v [] j h = h
  push_chars-keeps v (c ∷ cs) j h =
      push_chars-keeps (push_char N v c) cs j (push_char-keeps v c j h)

  push_chars-unknown :
      (v : LogicArray N) (cs : List ℕ)
      → all_known cs ≡ false
      → (j : ℕ) × (bit (push_chars N v cs).b_val j ≡ true)
  unfolding push_chars
  push_chars-unknown v [] h = absurd (ground arith)
  push_chars-unknown v (c ∷ cs) h = elim (Bool-cases (is_known (from_char c))) [
    | inl k ↦ push_chars-unknown (push_char N v c) cs (ground arith)
    | inr u ↦ (v.width, push_chars-keeps (push_char N v c) cs v.width (push_char-unknown v c u))
  ]

  -- A parsed text is resolvable exactly if each of its characters is a 0 or a 1.
  pub is_resolvable-from_binstr : (s : List ℕ) → is_resolvable N (from_binstr N s) ≡ all_known s
  unfolding is_resolvable from_binstr
  is_resolvable-from_binstr s = elim (Bool-cases (all_known (reverse s))) [
    | inl k ↦ ground (
      arith,
      push_chars-known (empty_array N) (reverse s) k,
      bits_zero zero_big bit_zero,
      all_known-reverse s,
    )
    | inr u ↦
        let (j, set) = push_chars-unknown (empty_array N) (reverse s) u in
        ground (
          arith,
          all_known-reverse s,
          λ (z : is_zero (push_chars N (empty_array N) (reverse s)).b_val ≡ true). zero_bits _ z j,
        )
  ]
