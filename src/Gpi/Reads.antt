-- ===== src/Gpi/Reads.antt =====
-- What the typed reads of a signal give.

use native.Mathlib.Nat.{mod-lt, one-le-pow}
use rustdv.Base.{
  ℕ, zero, suc, ◌+◌, ◌*◌, ◌%◌, ◌^◌, ◌≡◌, ◌≢◌, ◌≤◌, ◌<◌, refl, ap, sym, subst, ◌∙◌, Bool, true,
  false, List, [], ◌∷◌, map, none, some, ◌==◌, ltb, if◌then◌else◌, length, arith, Bool-cases,
  ==_iff, inl, inr, ok, err,
}
use rustdv.LogicArray.Big.{BigUint, AllWords}
use rustdv.LogicArray.Codec.{
  word_count, first_of, second_of, four_state, width_error, mask_words, from_vpi_words, to_binstr,
  LogicArray,
}
use rustdv.Gpi.Signals.{
  Vecval, Signal, used_bits, is_last, get_vpi_word, get_logic, as_array, get_vpi_words, or_words,
  get_wide, slice, check_size,
}
use rustdv.Gpi.Words.{num, used, num-used}
use rustdv.Gpi.Writes.{take_words_all}
use rustdv.Gpi.Shifts.{or_word, or_word_below, above_words, used_fits, used_below, sum_zero}

module _ (N : BigUint) where
  get_vpi_word_known :
      (s : Signal) (w : Vecval) (last : Bool)
      → second_of w % 2 ^ used_bits s.width last ≡ 0
      → get_vpi_word N s w last ≡ some (ok (first_of w % 2 ^ used_bits s.width last))
  unfolding get_vpi_word
  get_vpi_word_known s (a, b) last e = rw e refl

length-slice : (p : ℕ → Vecval) (i n : ℕ) → length (slice p i n) ≡ n
unfolding slice
length-slice p i zero = refl
length-slice p i (suc n) = ap suc (length-slice p (suc i) n)

from_vpi_words-some :
    (N : BigUint) (ws : List Vecval) (width : ℕ)
    → length ws ≡ word_count width
    → (v : LogicArray N) × (from_vpi_words N ws width ≡ some v)
unfolding from_vpi_words
from_vpi_words-some N ws width e =
    let v : LogicArray N = record {
      a_val = N.from_slice (mask_words width (map first_of ws));
      b_val = N.from_slice (mask_words width (map second_of ws));
      width = width;
    } in
    (v, ap (λ (b : Bool). if b then some v else none) ((==_iff (length ws) (word_count width)).1 e))

module _ (N : BigUint) (s : Signal) where
  or_words_known :
      (want index : ℕ) (ws : List Vecval) (result : ℕ)
      → num (used second_of s.width ws) ≡ 0
      → index + length ws ≡ word_count s.width
      → s.width ≤ want
      → result < 2 ^ (index * 32)
      → or_words N s want index ws result
        ≡ some (ok (result + num (used first_of s.width ws) * 2 ^ (index * 32)))
  unfolding or_words num used
  or_words_known want index [] result z e h r =
      ap (λ k. some (ok k)) (none_left result (2 ^ (index * 32)))
    where
      none_left : (r p : ℕ) → r ≡ r + 0 * p
      none_left r p = omega arith
  or_words_known want index (w ∷ ws) result z e h r =
      let u = used_bits s.width (is_last ws) in
      let n = first_of w % 2 ^ u in
      let k = index * 32 in
      let zs = sum_zero (second_of w % 2 ^ u) (num (used second_of s.width ws)) z in
      let l : n < 2 ^ u = mod-lt (first_of w) (one-le-pow u 2 (omega arith)) in
      let fits : u + k ≤ want = omega (arith, used_fits s.width index ws e, h) in
      let turn = or_word result n u k want r l fits in
      let grow = or_word_below result n k r (used_below (first_of w) s.width (is_last ws)) in
      let rest =
        or_words_known want (suc index) ws (result + n * 2 ^ k) zs.1 (omega (arith, e)) h
          (subst (λ j. result + n * 2 ^ k < 2 ^ j) (next index) grow) in
      rw (get_vpi_word_known N s w (is_last ws) zs.0, turn)
        (rest
          ∙ ap (λ j. some (ok (result + n * 2 ^ k + num (used first_of s.width ws) * 2 ^ j)))
              (sym (next index))
          ∙ ap (λ j. some (ok j)) (above_words result n (num (used first_of s.width ws)) k))
    where
      next : (index : ℕ) → 32 + index * 32 ≡ suc index * 32
      next index = omega arith

  or_words_unknown :
      (want index : ℕ) (ws : List Vecval) (result : ℕ) (v : LogicArray N)
      → get_logic N s ≡ some (ok v)
      → num (used second_of s.width ws) ≢ 0
      → or_words N s want index ws result ≡ some (err (four_state (to_binstr N v)))
  unfolding or_words num used
  or_words_unknown want index [] result v g n = absurd (n refl)
  or_words_unknown want index ((a, b) ∷ ws) result v g n =
      elim (Bool-cases (b % 2 ^ used_bits s.width (is_last ws) == 0)) [
        | inl e ↦
            rw (get_vpi_word_known N s (a, b) (is_last ws) (ground arith))
              (or_words_unknown want (suc index) ws _ v g (λ z. n (ground arith)))
        | inr e ↦ rw (get_vpi_word, e, g) refl
      ]

  get_logic-some :
      (p : ℕ → Vecval) → s.vector ≡ some p → (v : LogicArray N) × (get_logic N s ≡ some (ok v))
  unfolding get_logic get_vpi_words
  get_logic-some p e =
      let (v, t) =
        from_vpi_words-some N (slice p 0 (word_count s.width)) s.width
          (length-slice p 0 (word_count s.width)) in
      (v, rw (get_logic, get_vpi_words, e, as_array, t) refl)

  get_wide_words :
      (want : ℕ) (p : ℕ → Vecval)
      → s.vector ≡ some p
      → ltb want s.width ≡ false
      → get_wide N s want ≡ or_words N s want 0 (slice p 0 (word_count s.width)) 0
  unfolding get_wide check_size get_vpi_words
  get_wide_words want p e h = rw (get_vpi_words, h, e) refl

  get_wide_refused :
      (want : ℕ)
      → ltb want s.width ≡ true
      → get_wide N s want ≡ some (err (width_error want s.width))
  unfolding get_wide check_size
  get_wide_refused want h = rw h refl

  or_words_all :
      (want : ℕ) (ws : List Vecval)
      → num (used second_of s.width ws) ≡ 0
      → length ws ≡ word_count s.width
      → s.width ≤ want
      → or_words N s want 0 ws 0 ≡ some (ok (num (used first_of s.width ws)))
  or_words_all want ws z e h =
      or_words_known want 0 ws 0 z (none_more (length ws) ∙ e) h (omega arith)
      ∙ ap (λ k. some (ok k)) (alone (num (used first_of s.width ws)))
    where
      none_more : (n : ℕ) → 0 + n ≡ n
      none_more n = omega arith

      alone : (n : ℕ) → 0 + n * 2 ^ (0 * 32) ≡ n
      alone n = omega arith

-- The plane `f` of the words that `p` points to, as a number
abbrev pub plane_of : (Vecval → ℕ) → (ℕ → Vecval) → ℕ → ℕ
plane_of f p width = num (map f (slice p 0 (word_count width)))

num-used_all :
    (f : Vecval → ℕ) (p : ℕ → Vecval) (width : ℕ)
    → AllWords (map f (slice p 0 (word_count width)))
    → num (used f width (slice p 0 (word_count width))) ≡ plane_of f p width % 2 ^ width
num-used_all f p width a =
    let ws = slice p 0 (word_count width) in
    let n = length-slice p 0 (word_count width) in
    ap (λ us. num (used f width us)) (sym (take_words_all ws))
    ∙ num-used f (length ws) width ws (sym n) (omega arith) a

module _ (N : BigUint) where
  -- A read of 64 or of 128 bits of a signal whose words the simulator gives, by `get_u64` or `get_u128`: a signal
  -- that is wider is refused, with both widths; one with an x or a z in a bit that it has is refused, with the text of its
  -- whole value; and any other read gives the words as one number, of which only the bits of the signal count.
  pub get_wide_reads :
      (s : Signal) (want : ℕ) (p : ℕ → Vecval)
      → s.vector ≡ some p
      → AllWords (map first_of (slice p 0 (word_count s.width)))
      → AllWords (map second_of (slice p 0 (word_count s.width)))
      → (v : LogicArray N) × (get_logic N s ≡ some (ok v))
        × (get_wide N s want
            ≡ some (
                if ltb want s.width
                then err (width_error want s.width)
                else if plane_of second_of p s.width % 2 ^ s.width == 0
                then ok (plane_of first_of p s.width % 2 ^ s.width)
                else err (four_state (to_binstr N v))))
  get_wide_reads s want p e a b =
      let (v, g) = get_logic-some N s p e in
      let x = num-used_all first_of p s.width a in
      let y = num-used_all second_of p s.width b in
      let ws = slice p 0 (word_count s.width) in
      (
        v,
        g,
        elim (Bool-cases (ltb want s.width)) [
          | inl h ↦ rw (h, get_wide_refused N s want h) refl
          | inr h ↦ elim (Bool-cases (plane_of second_of p s.width % 2 ^ s.width == 0)) [
            | inl z ↦
                rw (h, z, get_wide_words N s want p e h)
                  (or_words_all N s want ws (y ∙ (==_iff _ 0).0 z)
                      (length-slice p 0 (word_count s.width)) (ground arith)
                    ∙ ap (λ k. some (ok k)) x)
            | inr z ↦
                rw (h, z, get_wide_words N s want p e h)
                  (or_words_unknown N s want 0 ws 0 v g (λ q. ground (arith, y, q, z)))
          ]
        ],
      )
