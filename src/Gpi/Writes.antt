-- ===== src/Gpi/Writes.antt =====
-- What `set_vector_words` puts: as many words as the signal has, and the value cut to its width.
use native.Mathlib.Nat.{mod-eq_of_lt, pow-le-pow_right}
use rustdv.Base.{
  ℕ, zero, suc, ◌+◌, ◌-◌, ◌*◌, ◌%◌, ◌^◌, ◌≡◌, ◌≤◌, ◌<◌, refl, ap, sym, subst, ◌∙◌, true, false,
  List, [], ◌∷◌, ◌++◌, map, some, ◌==◌, ltb, leb, if◌then◌else◌, length, arith, Bool-cases, inl,
  inr, two_pow_add, length-append,
}
use rustdv.LogicArray.Big.{AllWords}
use rustdv.LogicArray.Codec.{word_count, first_of, second_of}
use rustdv.LogicArray.Words.{cut_last}
use rustdv.Gpi.Signals.{
  Vecval, used_bits, is_last, mask_vector_words, take_words, zero_words, set_vector_words,
}
use rustdv.Gpi.Words.{num, used, num-used}

-- A projection of the words that a cut of both planes cuts
pub Plane : (Vecval → ℕ) → Type 0
Plane f = (a b bits : ℕ) → f (a % 2 ^ bits, b % 2 ^ bits) ≡ f (a, b) % 2 ^ bits

abbrev pub masked : ℕ → List Vecval → List Vecval
masked width ws = if width % 32 == 0 then ws else cut_last (width % 32) ws

used_whole :
    (f : Vecval → ℕ) (width : ℕ) (ws : List Vecval)
    → AllWords (map f ws)
    → (width % 32 == 0) ≡ true
    → map f ws ≡ used f width ws
unfolding used used_bits
used_whole f width [] a e = refl
used_whole f width (w ∷ ws) a e =
    let rest = used_whole f width ws a.1 e in
    let low = mod-eq_of_lt a.0 in
    elim (Bool-cases (is_last ws)) [ inl l ↦ rw (l, e, low, rest) | inr l ↦ rw (l, low, rest) ]

used_cut :
    (f : Vecval → ℕ)
    → Plane f
    → (width : ℕ) (ws : List Vecval) → AllWords (map f ws)
    → (width % 32 == 0) ≡ false
    → map f (cut_last (width % 32) ws) ≡ used f width ws
unfolding used used_bits Plane
used_cut f p width [] a e = refl
used_cut f p width ((x, y) ∷ []) a e = rw (e, p x y (width % 32))
used_cut f p width (w ∷ v ∷ ws) a e = rw (mod-eq_of_lt a.0, used_cut f p width (v ∷ ws) a.1 e)

masked-used :
    (f : Vecval → ℕ)
    → Plane f
    → (width : ℕ) (ws : List Vecval) → AllWords (map f ws)
    → map f (masked width ws) ≡ used f width ws
masked-used f p width ws a = elim (Bool-cases (width % 32 == 0)) [
  | inl e ↦ rw e (used_whole f width ws a e)
  | inr e ↦ rw e (used_cut f p width ws a e)
]

pub take_words_all : (ws : List Vecval) → take_words (length ws) ws ≡ ws
unfolding take_words
take_words_all [] = refl
take_words_all (w ∷ ws) = ap (λ l. w ∷ l) (take_words_all ws)

length-take_words : (n : ℕ) (ws : List Vecval) → n ≤ length ws → length (take_words n ws) ≡ n
unfolding take_words
length-take_words zero ws h = refl
length-take_words (suc n) [] h = absurd (omega (arith, h))
length-take_words (suc n) (w ∷ ws) h = ap suc (length-take_words n ws (omega (arith, h)))

AllWords-take_words :
    (f : Vecval → ℕ) (n : ℕ) (ws : List Vecval)
    → AllWords (map f ws)
    → AllWords (map f (take_words n ws))
unfolding take_words
AllWords-take_words f zero ws a = tt
AllWords-take_words f (suc n) [] a = tt
AllWords-take_words f (suc n) (w ∷ ws) a = (a.0, AllWords-take_words f n ws a.1)

length-masked : (width : ℕ) (ws : List Vecval) → length (masked width ws) ≡ length ws
length-masked width ws = elim (Bool-cases (width % 32 == 0)) [
  | inl e ↦ rw e refl
  | inr e ↦ rw e (cut (width % 32) ws)
]
  where
    cut : (bits : ℕ) (ws : List Vecval) → length (cut_last bits ws) ≡ length ws
    cut bits [] = refl
    cut bits (w ∷ []) = refl
    cut bits (w ∷ v ∷ ws) = ap suc (cut bits (v ∷ ws))

mask_masked :
    (width : ℕ) (ws : List Vecval)
    → word_count width ≡ length ws
    → mask_vector_words width ws ≡ some (masked width ws)
unfolding mask_vector_words word_count
mask_masked width [] e = ground arith
mask_masked width (w ∷ ws) e = refl

-- The words put, where no write panics
abbrev pub fitted : ℕ → List Vecval → List Vecval
fitted width ws =
    if leb (word_count width) (length ws)
    then masked width (take_words (word_count width) ws)
    else ws ++ zero_words (word_count width - length ws)

set_fitted : (width : ℕ) (ws : List Vecval) → set_vector_words width ws ≡ some (fitted width ws)
unfolding set_vector_words
set_fitted width ws = elim (Bool-cases (length ws == word_count width)) [
  | inl e ↦
      let n : word_count width ≡ length ws = ground arith in
      let t : take_words (word_count width) ws ≡ ws =
        ap (λ k. take_words k ws) n ∙ take_words_all ws in
      ground (arith, t, mask_masked width ws n)
  | inr e ↦ elim (Bool-cases (ltb (word_count width) (length ws))) [
    | inl l ↦
        let n = length-take_words (word_count width) ws (ground arith) in
        ground (arith, mask_masked width (take_words (word_count width) ws) (sym n))
    | inr l ↦ ground arith
  ]
]

length-map : (f : Vecval → ℕ) (ws : List Vecval) → length (map f ws) ≡ length ws
length-map f [] = refl
length-map f (w ∷ ws) = ap suc (length-map f ws)

leb_false→lt : (a b : ℕ) → leb a b ≡ false → b < a
leb_false→lt a b e = ground arith

length-zero_words : (n : ℕ) → length (zero_words n) ≡ n
unfolding zero_words
length-zero_words zero = refl
length-zero_words (suc n) = ap suc (length-zero_words n)

length-fitted : (width : ℕ) (ws : List Vecval) → length (fitted width ws) ≡ word_count width
length-fitted width ws = elim (Bool-cases (leb (word_count width) (length ws))) [
  | inl e ↦ rw e (
      length-masked width (take_words (word_count width) ws)
      ∙ length-take_words (word_count width) ws (ground arith))
  | inr e ↦
      let n = word_count width - length ws in
      rw e (
        length-append ws (zero_words n)
        ∙ ap (λ k. length ws + k) (length-zero_words n)
        ∙ ground arith)
]

-- A plane in which a word of zeros is zero
num-zero_words :
    (f : Vecval → ℕ)
    → f (0, 0) ≡ 0
    → (n : ℕ) (ws : List Vecval) → num (map f (ws ++ zero_words n)) ≡ num (map f ws)
unfolding num zero_words
num-zero_words f z zero [] = refl
num-zero_words f z (suc n) [] = let rest = num-zero_words f z n [] in omega (arith, rest, z)
num-zero_words f z n (w ∷ ws) = ap (λ k. f w + 2 ^ 32 * k) (num-zero_words f z n ws)

num_below : (ws : List ℕ) → AllWords ws → num ws < 2 ^ (32 * length ws)
unfolding num
num_below [] a = omega arith
num_below (w ∷ ws) a =
    let next : 2 ^ (32 + 32 * length ws) ≡ 2 ^ 32 * 2 ^ (32 * length ws) =
      two_pow_add 32 (32 * length ws) in
    subst (λ k. w + 2 ^ 32 * num ws < 2 ^ k) (count (length ws))
      (omega (arith, next, num_below ws a.1, a.0))
  where
    count : (n : ℕ) → 32 + 32 * n ≡ 32 * suc n
    count n = omega arith

few :
    (f : Vecval → ℕ) (width : ℕ) (ws : List Vecval)
    → leb (word_count width) (length ws) ≡ false
    → 32 * length (map f ws) ≤ width
unfolding word_count
few f width ws e = omega (arith, length-map f ws, leb_false→lt (word_count width) (length ws) e)

num-fitted :
    (f : Vecval → ℕ)
    → Plane f
    → f (0, 0) ≡ 0
    → (width : ℕ) (ws : List Vecval) → AllWords (map f ws)
    → num (map f (fitted width ws)) ≡ num (map f ws) % 2 ^ width
num-fitted f p z width ws a = elim (Bool-cases (leb (word_count width) (length ws))) [
  | inl e ↦
      let n = word_count width in
      rw e (
        ap num (masked-used f p width (take_words n ws) (AllWords-take_words f n ws a))
        ∙ num-used f n width ws refl (ground arith) a)
  | inr e ↦ rw e (
      num-zero_words f z (word_count width - length ws) ws
      ∙ sym (mod-eq_of_lt (short (map f ws) width a (few f width ws e))))
]
  where
    short : (us : List ℕ) (width : ℕ) → AllWords us → 32 * length us ≤ width → num us < 2 ^ width
    short us width a l = omega (arith, num_below us a, pow-le-pow_right {n = 2} (omega arith) l)

-- Whatever words a write is given, of any number of them and to a signal of any width, it puts as
-- many words as the width needs, and no write panics: each plane is the plane of the words given, as a number,
-- cut to the width, which is a zero extension where the words are too few.
pub set_vector_words_cut :
    (width : ℕ) (ws : List Vecval)
    → AllWords (map first_of ws)
    → AllWords (map second_of ws)
    → (out : List Vecval) × (set_vector_words width ws ≡ some out)
      × (length out ≡ word_count width)
      × (num (map first_of out) ≡ num (map first_of ws) % 2 ^ width)
      × (num (map second_of out) ≡ num (map second_of ws) % 2 ^ width)
unfolding Plane
set_vector_words_cut width ws a b = (
  fitted width ws,
  set_fitted width ws,
  length-fitted width ws,
  num-fitted first_of (λ a b bits. refl) refl width ws a,
  num-fitted second_of (λ a b bits. refl) refl width ws b,
)
