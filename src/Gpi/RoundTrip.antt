-- ===== src/Gpi/RoundTrip.antt =====
-- A value written to a signal and read back.
use native.Mathlib.Nat.{mod-mod, zero-mod}
use rustdv.Base.{
  ℕ, ◌%◌, ◌^◌, ◌≡◌, ◌≤◌, ◌<◌, refl, ap, sym, ◌∙◌, false, List, map, none, some, ltb, arith, ok,
  ==_iff,
}
use rustdv.LogicArray.Big.{BigUint, AllWords}
use rustdv.LogicArray.Codec.{word_count, first_of, second_of}
use rustdv.Gpi.Signals.{
  Vecval, Signal, get_wide, get_u64, slice, set_vector_words, two_words, four_words,
}
use rustdv.Gpi.Words.{num}
use rustdv.Gpi.Writes.{set_vector_words_cut}
use rustdv.Gpi.Reads.{plane_of, get_wide_reads}

num-two_words : (v : ℕ) → v < 2 ^ 64 → num (map first_of (two_words v)) ≡ v
unfolding num
num-two_words v h = omega (arith, h)

num-four_words : (v : ℕ) → v < 2 ^ 128 → num (map first_of (four_words v)) ≡ v
unfolding num
num-four_words v h = omega (arith, h)

some_inj : {A : Type 0} {x y : A} → some x ≡ some y → x ≡ y
some_inj {x = x} e = ap (λ o. elim o [ none ↦ x | some y ↦ y ]) e

ltb_le : (a b : ℕ) → b ≤ a → ltb a b ≡ false
ltb_le a b h = ground arith

-- Two-state words, written and read back by a read that is wide enough
pub get_wide-set_vector_words :
    (N : BigUint) (s : Signal) (want : ℕ) (p : ℕ → Vecval) (ws : List Vecval)
    → AllWords (map first_of ws)
    → AllWords (map second_of ws)
    → num (map second_of ws) ≡ 0
    → s.vector ≡ some p
    → AllWords (map first_of (slice p 0 (word_count s.width)))
    → AllWords (map second_of (slice p 0 (word_count s.width)))
    → s.width ≤ want
    → set_vector_words s.width ws ≡ some (slice p 0 (word_count s.width))
    → get_wide N s want ≡ some (ok (num (map first_of ws) % 2 ^ s.width))
get_wide-set_vector_words N s want p ws a b z e ka kb h t =
    let m = 2 ^ s.width in
    let (out, put, long, low, high) = set_vector_words_cut s.width ws a b in
    let same = some_inj (sym put ∙ t) in
    let first : plane_of first_of p s.width ≡ num (map first_of ws) % m =
      ap (λ l. num (map first_of l)) (sym same) ∙ low in
    let second : plane_of second_of p s.width ≡ num (map second_of ws) % m =
      ap (λ l. num (map second_of l)) (sym same) ∙ high in
    let (v, g, r) = get_wide_reads N s want p e ka kb in
    let zeros : plane_of second_of p s.width % m ≡ 0 =
      ap (λ k. k % m) (second ∙ ap (λ k. k % m) z) ∙ mod-mod 0 m ∙ zero-mod m in
    let value : plane_of first_of p s.width % m ≡ num (map first_of ws) % m =
      ap (λ k. k % m) first ∙ mod-mod (num (map first_of ws)) m in
    r ∙ rw (ltb_le want s.width h, (==_iff _ 0).1 zeros, value) refl

-- A 64-bit value that `set_u64` writes to a signal, of any width that `get_u64` reads, comes back cut to the
-- width, if the simulator then gives the words that it was given.
pub get_u64-set_u64 :
    (N : BigUint) (s : Signal) (p : ℕ → Vecval) (v : ℕ)
    → v < 2 ^ 64
    → s.width ≤ 64
    → s.vector ≡ some p
    → AllWords (map first_of (slice p 0 (word_count s.width)))
    → AllWords (map second_of (slice p 0 (word_count s.width)))
    → set_vector_words s.width (two_words v) ≡ some (slice p 0 (word_count s.width))
    → get_u64 N s ≡ some (ok (v % 2 ^ s.width))
unfolding num
get_u64-set_u64 N s p v b h e ka kb t =
    get_wide-set_vector_words N s 64 p (two_words v) (omega arith, (omega arith, tt))
      (omega arith, (omega arith, tt)) (omega arith) e ka kb h t
    ∙ ap (λ k. some (ok (k % 2 ^ s.width))) (num-two_words v b)
