-- ===== src/LogicArray/Words.antt =====
-- VPI words in and out of a `LogicArray`: `from_vpi_words` and `to_vpi_words` of
-- rustdv/rustdv-gpi/src/value.rs.
use rustdv.Base.{
  ℕ, zero, suc, ◌%◌, ◌^◌, ◌≡◌, ◌≤◌, refl, ap, ap₂, sym, ◌∙◌, Bool, List, [], ◌∷◌, map, none, some,
  arith, ◌==◌, if◌then◌else◌, length, Bool-cases, inl, inr, ==_iff,
}
use rustdv.LogicArray.Big.{BigUint, get_or, AllWords}
use rustdv.LogicArray.Codec.{
  LogicArray, word_count, mask_last, mask_words, pad_words, first_of, second_of, from_vpi_words,
  to_vpi_words,
}

-- The words with the bits above the width cleared in the last one
abbrev pub cut_last : ℕ → List (ℕ × ℕ) → List (ℕ × ℕ)
cut_last bits [] = []
cut_last bits ((a, b) ∷ []) = (a % 2 ^ bits, b % 2 ^ bits) ∷ []
cut_last bits (p ∷ q ∷ ps) = p ∷ cut_last bits (q ∷ ps)

abbrev pub cut_words : ℕ → List (ℕ × ℕ) → List (ℕ × ℕ)
cut_words width ps = if width % 32 == 0 then ps else cut_last (width % 32) ps

mod-le : (n m : ℕ) → n % m ≤ n
mod-le n m = omega arith

AllWords-mask_last : (bits : ℕ) (ws : List ℕ) → AllWords ws → AllWords (mask_last bits ws)
unfolding mask_last
AllWords-mask_last bits [] h = tt
AllWords-mask_last bits (w ∷ []) h = (omega (arith, mod-le w (2 ^ bits), h.0), tt)
AllWords-mask_last bits (w ∷ v ∷ ws) h = (h.0, AllWords-mask_last bits (v ∷ ws) h.1)

AllWords-mask_words : (width : ℕ) (ws : List ℕ) → AllWords ws → AllWords (mask_words width ws)
unfolding mask_words
AllWords-mask_words width ws h = elim (Bool-cases (width % 32 == 0)) [
  | inl e ↦ rw e h
  | inr e ↦ rw e (AllWords-mask_last (width % 32) ws h)
]

tail_of : List ℕ → List ℕ
tail_of [] = []
tail_of (x ∷ xs) = xs

get_or-tail_of : (xs : List ℕ) (i : ℕ) → get_or (tail_of xs) i 0 ≡ get_or xs (suc i) 0
unfolding tail_of
get_or-tail_of [] i = refl
get_or-tail_of (x ∷ xs) i = refl

pad_words-suc :
    (n : ℕ) (xs ys : List ℕ)
    → pad_words (suc n) xs ys
      ≡ (get_or xs 0 0, get_or ys 0 0) ∷ pad_words n (tail_of xs) (tail_of ys)
unfolding pad_words tail_of
pad_words-suc n [] [] = refl
pad_words-suc n (a ∷ xs) [] = refl
pad_words-suc n [] (b ∷ ys) = refl
pad_words-suc n (a ∷ xs) (b ∷ ys) = refl

SameDigits : List ℕ → List ℕ → Type 0
SameDigits xs ys = (i : ℕ) → get_or xs i 0 ≡ get_or ys i 0

SameDigits-tail_of : (xs ys : List ℕ) → SameDigits xs ys → SameDigits (tail_of xs) (tail_of ys)
unfolding SameDigits
SameDigits-tail_of xs ys p i = get_or-tail_of xs i ∙ p (suc i) ∙ sym (get_or-tail_of ys i)

-- `pad_words` sees its lists only through their digits.
pad_words-cong :
    (n : ℕ) (xs xs' ys ys' : List ℕ)
    → SameDigits xs xs'
    → SameDigits ys ys'
    → pad_words n xs ys ≡ pad_words n xs' ys'
unfolding pad_words SameDigits
pad_words-cong zero xs xs' ys ys' p q = refl
pad_words-cong (suc n) xs xs' ys ys' p q =
    let rest =
      pad_words-cong n (tail_of xs) (tail_of xs') (tail_of ys) (tail_of ys')
        (SameDigits-tail_of xs xs' p) (SameDigits-tail_of ys ys' q) in
    pad_words-suc n xs ys
    ∙ ap₂ (λ h t. h ∷ t) (ap₂ (λ a b. (a, b)) (p 0) (q 0)) rest
    ∙ sym (pad_words-suc n xs' ys')

pad_words-pairs :
    (ps : List (ℕ × ℕ)) → pad_words (length ps) (map first_of ps) (map second_of ps) ≡ ps
unfolding pad_words
pad_words-pairs [] = refl
pad_words-pairs ((a, b) ∷ ps) = ap (λ l. (a, b) ∷ l) (pad_words-pairs ps)

pad_words-cut_last :
    (bits : ℕ) (ps : List (ℕ × ℕ))
    → pad_words (length ps) (mask_last bits (map first_of ps)) (mask_last bits (map second_of ps))
      ≡ cut_last bits ps
unfolding pad_words mask_last
pad_words-cut_last bits [] = refl
pad_words-cut_last bits ((a, b) ∷ []) = refl
pad_words-cut_last bits ((a, b) ∷ (c, d) ∷ ps) =
    ap (λ l. (a, b) ∷ l) (pad_words-cut_last bits ((c, d) ∷ ps))

pad_words-mask_words :
    (width : ℕ) (ps : List (ℕ × ℕ))
    → pad_words
        (length ps)
        (mask_words width (map first_of ps))
        (mask_words width (map second_of ps))
      ≡ cut_words width ps
unfolding mask_words
pad_words-mask_words width ps = elim (Bool-cases (width % 32 == 0)) [
  | inl e ↦ rw e (pad_words-pairs ps)
  | inr e ↦ rw e (pad_words-cut_last (width % 32) ps)
]

-- Words from the simulator, as many as the width needs, are taken, and come back as they were, with
-- the bits above the width cleared in the last one.
pub to_vpi_words-from_vpi_words :
    (N : BigUint) (words : List (ℕ × ℕ)) (width : ℕ)
    → AllWords (map first_of words)
    → AllWords (map second_of words)
    → length words ≡ word_count width
    → (v : LogicArray N) × (from_vpi_words N words width ≡ some v)
      × (to_vpi_words N v ≡ cut_words width words)
unfolding to_vpi_words from_vpi_words SameDigits
to_vpi_words-from_vpi_words N words width h k e =
    let xs = mask_words width (map first_of words) in
    let ys = mask_words width (map second_of words) in
    let p : SameDigits (N.u32_digits (N.from_slice xs)) xs =
      λ i. N.slice_digits xs i (AllWords-mask_words width (map first_of words) h) in
    let q : SameDigits (N.u32_digits (N.from_slice ys)) ys =
      λ i. N.slice_digits ys i (AllWords-mask_words width (map second_of words) k) in
    let same =
      pad_words-cong (length words) (N.u32_digits (N.from_slice xs)) xs
        (N.u32_digits (N.from_slice ys)) ys p q in
    let all = same ∙ pad_words-mask_words width words in
    let v : LogicArray N = record {
      a_val = N.from_slice xs;
      b_val = N.from_slice ys;
      width = width;
    } in
    (
      v,
      ap (λ (b : Bool). if b then some v else none)
          ((==_iff (length words) (word_count width)).1 e),
      ap (λ n. pad_words n (N.u32_digits v.a_val) (N.u32_digits v.b_val)) (sym e) ∙ all,
    )
