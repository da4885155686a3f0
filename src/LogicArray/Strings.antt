-- ===== src/LogicArray/Strings.antt =====
-- `from_binstr`, `to_binstr` and `is_resolvable` of rustdv/rustdv-gpi/src/value.rs.
use mathlib.Core.List.{reverse, reverse-cons, reverse-reverse, map-append}
use native.Mathlib.Numerals.{add-one}
use rustdv.Base.{
  ℕ, zero, suc, ◌+◌, ◌≡◌, ◌≤◌, ◌<◌, refl, ap, sym, ◌∙◌, false, List, [], ◌∷◌, ◌++◌, arith, map,
  append_assoc, append-nil, length, length-append, some,
}
use rustdv.LogicArray.Big.{BigUint}
use rustdv.LogicArray.Codec.{
  from_char, to_char, LogicArray, push_char, push_chars, from_binstr, index, binstr_below,
  to_binstr, empty_array,
}

-- How `to_binstr` writes a character that `from_binstr` read
abbrev pub canonical : ℕ → ℕ
canonical c = to_char (from_char c)

map-reverse : (f : ℕ → ℕ) (xs : List ℕ) → map f (reverse xs) ≡ reverse (map f xs)
map-reverse f [] = refl
map-reverse f (x ∷ xs) =
    rw (reverse-cons x xs, reverse-cons (f x) (map f xs), map-append, map-reverse f xs)

length-reverse : (xs : List ℕ) → length (reverse xs) ≡ length xs
length-reverse [] = refl
length-reverse (x ∷ xs) =
    rw (reverse-cons x xs) (omega (arith, length-append (reverse xs) (x ∷ []), length-reverse xs))

module _ (N : BigUint) where
  open N use {bit, set_bit, bit_set, bit_zero, zero_bits, bits_zero, is_zero}

  -- No bit is set at the width or above.
  abbrev IsClear : LogicArray N → Type 0
  IsClear v = (j : ℕ) → v.width ≤ j → (bit v.a_val j ≡ false) × (bit v.b_val j ≡ false)

  push_char-IsClear : (v : LogicArray N) (c : ℕ) → IsClear v → IsClear (push_char N v c)
  unfolding push_char
  push_char-IsClear v c h j m =
      ground (arith, h j, bit_set v.a_val v.width j, bit_set v.b_val v.width j)

  width-push_char : (v : LogicArray N) (c : ℕ) → (push_char N v c).width ≡ v.width + 1
  unfolding push_char
  width-push_char v c = ground arith

  index-push_char :
      (v : LogicArray N) (c j : ℕ) → j < v.width → index N (push_char N v c) j ≡ index N v j
  unfolding push_char index
  index-push_char v c j m = ground (arith, bit_set v.a_val v.width j, bit_set v.b_val v.width j)

  index-push_char_last :
      (v : LogicArray N) (c : ℕ)
      → IsClear v
      → index N (push_char N v c) v.width ≡ some (from_char c)
  unfolding push_char index
  index-push_char_last v c h =
      ground (arith, h v.width, bit_set v.a_val v.width v.width, bit_set v.b_val v.width v.width)

  binstr_below-push_char :
      (v : LogicArray N) (c n : ℕ)
      → n ≤ v.width
      → binstr_below N (push_char N v c) n ≡ binstr_below N v n
  unfolding binstr_below
  binstr_below-push_char v c zero m = refl
  binstr_below-push_char v c (suc n) m =
      rw (index-push_char v c n m, binstr_below-push_char v c n (omega arith))

  to_binstr-push_char :
      (v : LogicArray N) (c : ℕ)
      → IsClear v
      → to_binstr N (push_char N v c) ≡ canonical c ∷ to_binstr N v
  unfolding to_binstr binstr_below
  to_binstr-push_char v c h = rw (
    width-push_char v c,
    add-one,
    binstr_below,
    index-push_char_last v c h,
    binstr_below-push_char v c v.width (omega arith),
  )

  to_binstr-push_chars :
      (v : LogicArray N) (cs : List ℕ)
      → IsClear v
      → (to_binstr N (push_chars N v cs) ≡ reverse (map canonical cs) ++ to_binstr N v)
        × ((push_chars N v cs).width ≡ v.width + length cs)
  unfolding push_chars
  to_binstr-push_chars v [] h = (refl, omega arith)
  to_binstr-push_chars v (c ∷ cs) h =
      let (str, width) = to_binstr-push_chars (push_char N v c) cs (push_char-IsClear v c h) in
      let done : List ℕ = reverse (map canonical cs) in
      (
        str
            ∙ ap (λ l. done ++ l) (to_binstr-push_char v c h)
            ∙ sym (append_assoc done (canonical c ∷ []) (to_binstr N v))
            ∙ ap (λ l. l ++ to_binstr N v) (sym (reverse-cons (canonical c) (map canonical cs))),
        omega (arith, width, width-push_char v c),
      )

  empty-IsClear : IsClear (empty_array N)
  empty-IsClear j m = (bit_zero j, bit_zero j)

  -- Whatever the implementation of the big numbers, printing what was parsed gives the text back in
  -- lower case, with `x` for each character that is none of the digits and `z`; and the width is the
  -- number of characters.
  pub to_binstr-from_binstr :
      (s : List ℕ)
      → (to_binstr N (from_binstr N s) ≡ map canonical s) × ((from_binstr N s).width ≡ length s)
  unfolding from_binstr to_binstr
  to_binstr-from_binstr s =
      let (str, width) = to_binstr-push_chars (empty_array N) (reverse s) empty-IsClear in
      (
        str ∙ simp (append-nil, ← map-reverse, reverse-reverse),
        omega (arith, width, length-reverse s),
      )
