-- ===== src/Gpi/Words.antt =====
-- The words of a signal as one number: what a write puts, and what a read gives.
use native.Mathlib.Nat.{mod-eq_of_lt}
use rustdv.Base.{
  ℕ, zero, suc, ◌+◌, ◌-◌, ◌*◌, ◌/◌, ◌%◌, ◌^◌, ◌≡◌, ◌≤◌, ◌<◌, refl, ap, sym, subst, ◌∙◌, Bool, true,
  List, [], ◌∷◌, map, length, arith, low_bits, word_bits,
}
use rustdv.LogicArray.Big.{AllWords}
use rustdv.LogicArray.Codec.{word_count}
use rustdv.Gpi.Signals.{Vecval, used_bits, is_last, take_words}

-- The number that the words stand for, least significant first
unfoldable pub num : List ℕ → ℕ
num [] = 0
num (w ∷ ws) = w + 2 ^ 32 * num ws

-- A plane of the words, each cut to the bits that the signal uses
unfoldable pub used : (Vecval → ℕ) → ℕ → List Vecval → List ℕ
used f width [] = []
used f width (w ∷ ws) = f w % 2 ^ used_bits width (is_last ws) ∷ used f width ws

used_bits_low : (m : ℕ) → 0 < m → m ≤ 32 → used_bits m true ≡ m
unfolding used_bits
used_bits_low m l h = ground arith

used_bits_more : (m : ℕ) (last : Bool) → used_bits (32 + m) last ≡ used_bits m last
unfolding used_bits
used_bits_more m last = ground arith

used_more : (f : Vecval → ℕ) (m : ℕ) (ws : List Vecval) → used f (32 + m) ws ≡ used f m ws
unfolding used
used_more f m [] = refl
used_more f m (w ∷ ws) = rw (used_bits_more m (is_last ws), used_more f m ws)

used_zero :
    (f : Vecval → ℕ) (m : ℕ) (ws : List Vecval) → m ≡ 0 → num (used f m []) ≡ num (map f ws) % 2 ^ m
unfolding num used
used_zero f m ws e = ap (λ k. 0) e ∙ omega arith ∙ ap (λ k. num (map f ws) % 2 ^ k) (sym e)

used_one :
    (f : Vecval → ℕ) (m : ℕ) (w : Vecval) (ws : List Vecval)
    → 0 < m
    → m ≤ 32
    → num (used f m (w ∷ [])) ≡ num (map f (w ∷ ws)) % 2 ^ m
unfolding num used
used_one f m w ws l h =
    alone (f w % 2 ^ used_bits m true)
    ∙ ap (λ k. f w % 2 ^ k) (used_bits_low m l h)
    ∙ sym (low_bits m (f w) (num (map f ws)) h)
  where
    alone : (x : ℕ) → x + 2 ^ 32 * 0 ≡ x
    alone x = omega arith

used_step :
    (f : Vecval → ℕ) (m : ℕ) (w v : Vecval) (ws : List Vecval) (r : ℕ)
    → f w < 2 ^ 32
    → num (used f m (v ∷ ws)) ≡ r % 2 ^ m
    → num (used f (32 + m) (w ∷ v ∷ ws)) ≡ (f w + 2 ^ 32 * r) % 2 ^ (32 + m)
unfolding num used used_bits
used_step f m w v ws r l e =
    ap (λ us. f w % 2 ^ 32 + 2 ^ 32 * num us) (used_more f m (v ∷ ws))
    ∙ ap (λ k. f w % 2 ^ 32 + 2 ^ 32 * k) e
    ∙ ap (λ k. k + 2 ^ 32 * (r % 2 ^ m)) (mod-eq_of_lt l)
    ∙ sym (word_bits m (f w) r l)

-- The words that the width needs, cut to it, are the number cut to it.
pub num-used :
    (f : Vecval → ℕ) (n m : ℕ) (ws : List Vecval)
    → word_count m ≡ n
    → n ≤ length ws
    → AllWords (map f ws)
    → num (used f m (take_words n ws)) ≡ num (map f ws) % 2 ^ m
unfolding take_words word_count num
num-used f zero m ws e h a = used_zero f m ws (omega (arith, e))
num-used f (suc n) m [] e h a = absurd (omega (arith, h))
num-used f (suc zero) m (w ∷ ws) e h a = used_one f m w ws (omega (arith, e)) (omega (arith, e))
num-used f (suc (suc n)) m (w ∷ []) e h a = absurd (omega (arith, h))
num-used f (suc (suc n)) m (w ∷ v ∷ ws) e h a =
    let rest = num-used f (suc n) (m - 32) (v ∷ ws) (omega (arith, e)) (omega (arith, h)) a.1 in
    subst (λ k. num (used f k (w ∷ v ∷ take_words n ws)) ≡ num (map f (w ∷ v ∷ ws)) % 2 ^ k)
      (above m n e) (used_step f (m - 32) w v (take_words n ws) (num (map f (v ∷ ws))) a.0 rest)
  where
    above : (m n : ℕ) → (m + 31) / 32 ≡ suc (suc n) → 32 + (m - 32) ≡ m
    above m n e = omega arith
