-- ===== src/Runner/Selects.antt =====
-- Which tests `RUSTDV_TESTCASE` selects.
use rustdv.Base.{
  Bool, true, false, List, [], ◌∷◌, ◌++◌, some, Result, ok, err, if◌then◌else◌, ◌≡◌, refl, ap, sym,
  map, ◌⊎◌, subst, ◌∙◌, arith, Bool-cases, inl, inr, In, ◌↔◌,
}
use rustdv.RustdvPath.{Str}
use rustdv.Runner.{TestRegistration}
use rustdv.Runner.Filter.{
  starts_with, contains, any_in, matches, keep_matching, patterns, apply_testcase_filter,
  to_ascii_lowercase, is_empty, drop_empty, trim, split_commas,
}

-- The text `p` stands somewhere in `s`.
abbrev pub Within : Str → Str → Type 0
Within p s = (a : Str) × (b : Str) × (s ≡ a ++ p ++ b)

starts_with_sound : (s p : Str) → starts_with s p ≡ true → (b : Str) × (s ≡ p ++ b)
unfolding starts_with
starts_with_sound s [] h = (s, refl)
starts_with_sound [] (p ∷ ps) h = ground arith
starts_with_sound (c ∷ cs) (p ∷ ps) h =
    let (b, e) = starts_with_sound cs ps (ground arith) in (b, ground arith)

starts_with-append : (p b : Str) → starts_with (p ++ b) p ≡ true
unfolding starts_with
starts_with-append [] b = refl
starts_with-append (c ∷ p) b = ground (arith, starts_with-append p b)

contains_sound : (s p : Str) → contains s p ≡ true → Within p s
unfolding contains
contains_sound [] p h = let (b, e) = starts_with_sound [] p h in ([], b, e)
contains_sound (c ∷ cs) p h = elim (Bool-cases (starts_with (c ∷ cs) p)) [
  | inl k ↦ let (b, e) = starts_with_sound (c ∷ cs) p k in ([], b, e)
  | inr k ↦ let (a, b, e) = contains_sound cs p (ground arith) in (c ∷ a, b, ap (λ s. c ∷ s) e)
]

contains-append : (a p b : Str) → contains (a ++ p ++ b) p ≡ true
unfolding contains
contains-append [] [] [] = refl
contains-append [] [] (c ∷ b) = refl
contains-append [] (c ∷ p) b = ground (arith, starts_with-append (c ∷ p) b)
contains-append (c ∷ a) p b = ground (arith, contains-append a p b)

-- A piece between the commas that is not blank stands in the test's name, white space at the piece's
-- ends left out and both in lower case.
abbrev pub Selected : Str → TestRegistration → Type 0
Selected raw t =
    (s : Str) × In s (split_commas raw)
    × (is_empty (trim s) ≡ false)
    × Within (to_ascii_lowercase (trim s)) (to_ascii_lowercase t.name)

abbrev lowered : List Str → List Str
lowered pieces = drop_empty (map (λ s. to_ascii_lowercase (trim s)) pieces)

lowered_head :
    (s : Str) (pieces : List Str)
    → ((is_empty (trim s) ≡ true) × (lowered (s ∷ pieces) ≡ lowered pieces))
      ⊎ ((is_empty (trim s) ≡ false)
          × (lowered (s ∷ pieces) ≡ to_ascii_lowercase (trim s) ∷ lowered pieces))
unfolding drop_empty to_ascii_lowercase
lowered_head s pieces = head_of (trim s)
  where
    head_of :
        (u : Str)
        → ((is_empty u ≡ true)
            × (drop_empty (to_ascii_lowercase u ∷ map (λ s. to_ascii_lowercase (trim s)) pieces)
                ≡ lowered pieces))
          ⊎ ((is_empty u ≡ false)
              × (drop_empty (to_ascii_lowercase u ∷ map (λ s. to_ascii_lowercase (trim s)) pieces)
                  ≡ to_ascii_lowercase u ∷ lowered pieces))
    head_of [] = inl (refl, refl)
    head_of (c ∷ u) = inr (refl, refl)

lowered_sound :
    (pieces : List Str) (p : Str)
    → In p (lowered pieces)
    → (s : Str) × In s pieces × (is_empty (trim s) ≡ false) × (p ≡ to_ascii_lowercase (trim s))
unfolding drop_empty
lowered_sound [] p i = elim i [ ]
lowered_sound (s ∷ pieces) p i = elim (lowered_head s pieces) [
  | inl (e, h) ↦
      let (u, j, n, q) = lowered_sound pieces p (subst (λ l. In p l) h i) in (u, inr j, n, q)
  | inr (e, h) ↦ elim (subst (λ l. In p l) h i) [
    | inl q ↦ (s, inl refl, e, q)
    | inr k ↦ let (u, j, n, q) = lowered_sound pieces p k in (u, inr j, n, q)
  ]
]

lowered_complete :
    (pieces : List Str) (s : Str)
    → In s pieces
    → is_empty (trim s) ≡ false
    → In (to_ascii_lowercase (trim s)) (lowered pieces)
lowered_complete [] s i n = elim i [ ]
lowered_complete (u ∷ pieces) s (inl e) n = elim (lowered_head u pieces) [
  | inl (b, h) ↦ elim (true_not_false (sym b ∙ ap (λ x. is_empty (trim x)) (sym e) ∙ n)) [ ]
  | inr (b, h) ↦
      subst (λ l. In (to_ascii_lowercase (trim s)) l) (sym h)
        (inl (ap (λ x. to_ascii_lowercase (trim x)) e))
]
  where
    true_not_false : ¬ (true ≡ false)
    true_not_false q = ground (arith, q)
lowered_complete (u ∷ pieces) s (inr i) n =
    let rest = lowered_complete pieces s i n in
    elim (lowered_head u pieces) [
      | inl (b, h) ↦ subst (λ l. In (to_ascii_lowercase (trim s)) l) (sym h) rest
      | inr (b, h) ↦ subst (λ l. In (to_ascii_lowercase (trim s)) l) (sym h) (inr rest)
    ]

In-is_empty : (p : Str) (l : List Str) → In p l → is_empty l ≡ false
In-is_empty p [] i = elim i [ ]
In-is_empty p (x ∷ l) i = refl

any_in_sound :
    (name : Str) (pats : List Str) → any_in name pats ≡ true → (p : Str) × In p pats × Within p name
unfolding any_in
any_in_sound name [] h = ground arith
any_in_sound name (q ∷ qs) h = elim (Bool-cases (contains name q)) [
  | inl k ↦ (q, inl refl, contains_sound name q k)
  | inr k ↦ let (p, i, w) = any_in_sound name qs (ground arith) in (p, inr i, w)
]

any_in_complete :
    (name : Str) (pats : List Str) (p : Str) → In p pats → Within p name → any_in name pats ≡ true
unfolding any_in
any_in_complete name [] p i w = elim i [ ]
any_in_complete name (q ∷ qs) p (inl e) (a, b, h) =
    let k : contains name q ≡ true =
      subst (λ n. contains n q ≡ true) (sym (h ∙ ap (λ x. a ++ x ++ b) e))
        (contains-append a q b) in
    ground arith
any_in_complete name (q ∷ qs) p (inr i) w = ground (arith, any_in_complete name qs p i w)

kept_yes :
    (pats : List Str) (s : TestRegistration) (ss : List TestRegistration)
    → matches pats s ≡ true
    → keep_matching pats (s ∷ ss) ≡ s ∷ keep_matching pats ss
unfolding keep_matching
kept_yes pats s ss e = rw e refl

kept_no :
    (pats : List Str) (s : TestRegistration) (ss : List TestRegistration)
    → matches pats s ≡ false
    → keep_matching pats (s ∷ ss) ≡ keep_matching pats ss
unfolding keep_matching
kept_no pats s ss e = rw e refl

keep_matching_sound :
    (pats : List Str) (ts : List TestRegistration) (t : TestRegistration)
    → In t (keep_matching pats ts)
    → In t ts × (matches pats t ≡ true)
unfolding keep_matching
keep_matching_sound pats [] t h = elim h [ ]
keep_matching_sound pats (s ∷ ss) t h = elim (Bool-cases (matches pats s)) [
  | inl e ↦ elim (subst (λ l. In t l) (kept_yes pats s ss e) h) [
    | inl k ↦ (inl k, ap (λ x. matches pats x) k ∙ e)
    | inr k ↦ let (i, m) = keep_matching_sound pats ss t k in (inr i, m)
  ]
  | inr e ↦
      let (i, m) = keep_matching_sound pats ss t (subst (λ l. In t l) (kept_no pats s ss e) h) in
      (inr i, m)
]

keep_matching_complete :
    (pats : List Str) (ts : List TestRegistration) (t : TestRegistration)
    → In t ts
    → matches pats t ≡ true
    → In t (keep_matching pats ts)
keep_matching_complete pats [] t i m = elim i [ ]
keep_matching_complete pats (s ∷ ss) t (inl k) m =
    subst (λ l. In t l) (sym (kept_yes pats s ss (ap (λ x. matches pats x) (sym k) ∙ m))) (inl k)
keep_matching_complete pats (s ∷ ss) t (inr i) m = elim (Bool-cases (matches pats s)) [
  | inl e ↦
      subst (λ l. In t l) (sym (kept_yes pats s ss e)) (inr (keep_matching_complete pats ss t i m))
  | inr e ↦ subst (λ l. In t l) (sym (kept_no pats s ss e)) (keep_matching_complete pats ss t i m)
]

-- The tests that the filter lets through, none where it is an error
abbrev pub let_through : Result (List TestRegistration) Str → List TestRegistration
let_through (ok ts) = ts
let_through (err e) = []

abbrev pub is_error : Result (List TestRegistration) Str → Bool
is_error (ok ts) = false
is_error (err e) = true

filtered :
    (raw : Str) (tests : List TestRegistration)
    → is_empty (patterns raw) ≡ false
    → (let_through (apply_testcase_filter (some raw) tests) ≡ keep_matching (patterns raw) tests)
      × (is_error (apply_testcase_filter (some raw) tests)
          ≡ is_empty (keep_matching (patterns raw) tests))
unfolding apply_testcase_filter
filtered raw tests h =
    elim (keep_matching (patterns raw) tests)
      as (λ kept.
        (let_through (
            if is_empty (patterns raw)
            then ok tests
            else if is_empty kept
            then err raw
            else ok kept)
          ≡ kept)
        × (is_error (
              if is_empty (patterns raw)
              then ok tests
              else if is_empty kept
              then err raw
              else ok kept)
            ≡ is_empty kept)) [ [] ↦ rw h (refl, refl) | t ∷ ts ↦ rw h (refl, refl) ]

-- A filter in which some piece between the commas is not blank lets through exactly the tests in
-- whose names one such piece stands, whatever the case of either, and it is an error exactly if that
-- is no test. White space at the ends of a piece does not count.
pub apply_testcase_filter-selects :
    (raw piece : Str) (tests : List TestRegistration) (t : TestRegistration)
    → In piece (split_commas raw)
    → is_empty (trim piece) ≡ false
    → (In t (let_through (apply_testcase_filter (some raw) tests)) ↔ (In t tests × Selected raw t))
      × (is_error (apply_testcase_filter (some raw) tests)
          ≡ is_empty (let_through (apply_testcase_filter (some raw) tests)))
unfolding matches patterns
apply_testcase_filter-selects raw piece tests t i n =
    let pieces = split_commas raw in
    let h =
      In-is_empty (to_ascii_lowercase (trim piece)) (lowered pieces)
        (lowered_complete pieces piece i n) in
    let (e, f) = filtered raw tests h in
    let pats = patterns raw in
    let name = to_ascii_lowercase t.name in
    (
      (
        λ k.
            let (i, m) = keep_matching_sound pats tests t (subst (λ l. In t l) e k) in
            let (p, j, w) = any_in_sound name pats m in
            let (s, j', b, q) = lowered_sound pieces p j in
            (i, (s, j', b, subst (λ x. Within x name) q w)),
        λ (i, (s, j, b, w)).
            subst (λ l. In t l) (sym e)
              (keep_matching_complete pats tests t i (
                any_in_complete name pats (to_ascii_lowercase (trim s))
                  (lowered_complete pieces s j b) w)),
      ),
      f ∙ ap is_empty (sym e),
    )
