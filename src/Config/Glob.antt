-- ===== src/Config/Glob.antt =====
-- rustdv/rustdv-methodology/src/config.rs: which paths a glob matches.
use rustdv.Base.{
  ℕ, ◌≡◌, ◌↔◌, refl, ap, sym, ◌∙◌, Bool, true, false, [], ◌∷◌, ◌++◌, ◌==◌, ◌||◌, arith, Bool-cases,
  inl, inr, ◌⊎◌, append_assoc,
}
use rustdv.RustdvPath.{Str}
use rustdv.Config.{glob_match, more_specific}

-- A glob read as a pattern: each byte that is not a star stands for itself, and a star for any text.
pub data Matches : Str → Str → Type 0 where
  ends : Matches [] []
  same : {a b : ℕ} {p g : Str} → (b == b'*') ≡ false → a ≡ b → Matches p g → Matches (a ∷ p) (b ∷ g)
  star :
      {b : ℕ} {p g q : Str} (s : Str)
      → (b == b'*') ≡ true
      → q ≡ s ++ p
      → Matches p g
      → Matches q (b ∷ g)

-- A star takes one byte more.
Matches-cons :
    (a b : ℕ) (p g : Str) → (b == b'*') ≡ true → Matches p (b ∷ g) → Matches (a ∷ p) (b ∷ g)
Matches-cons a b p g e (same d h m) = ground arith
Matches-cons a b p g e (star s d h m) = star (a ∷ s) e (ap (λ l. a ∷ l) h) m

or_true : (a b : Bool) → (a || b) ≡ true → (a ≡ true) ⊎ (b ≡ true)
or_true true b h = inl refl
or_true false b h = inr h

glob_match-Matches : (p g : Str) → glob_match p g ≡ true → Matches p g
unfolding glob_match
glob_match-Matches [] [] h = ends
glob_match-Matches (a ∷ p) [] h = ground arith
glob_match-Matches [] (b ∷ g) h = elim (Bool-cases (b == b'*')) [
  | inl e ↦ star [] e refl (glob_match-Matches [] g (rw e at h))
  | inr e ↦ ground arith
]
glob_match-Matches (a ∷ p) (b ∷ g) h = elim (Bool-cases (b == b'*')) [
  | inl e ↦ elim (or_true (glob_match (a ∷ p) g) (glob_match p (b ∷ g)) (rw e at h)) [
    | inl k ↦ star [] e refl (glob_match-Matches (a ∷ p) g k)
    | inr k ↦ Matches-cons a b p g e (glob_match-Matches p (b ∷ g) k)
  ]
  | inr e ↦ same e (ground arith) (glob_match-Matches p g (ground arith))
]

glob_match_star :
    (b : ℕ) (s p g : Str)
    → (b == b'*') ≡ true
    → glob_match p g ≡ true
    → glob_match (s ++ p) (b ∷ g) ≡ true
unfolding glob_match
glob_match_star b [] [] g e h = ground arith
glob_match_star b [] (a ∷ p) g e h = ground arith
glob_match_star b (c ∷ s) p g e h = ground (arith, glob_match_star b s p g e h)

Matches-glob_match : (p g : Str) → Matches p g → glob_match p g ≡ true
unfolding glob_match
Matches-glob_match p g ends = refl
Matches-glob_match p g (same {a} {b} {p = p'} {g = g'} e d m) =
    ground (arith, Matches-glob_match p' g' m)
Matches-glob_match p g (star {b} {p = p'} {g = g'} s e d m) =
    ap (λ q. glob_match q g) d ∙ glob_match_star b s p' g' e (Matches-glob_match p' g' m)

-- A path matches a glob exactly if it can be read off the glob, each star standing for some text, which
-- may be empty, and each other byte for itself.
pub glob_match_iff : (p g : Str) → (glob_match p g ≡ true) ↔ Matches p g
glob_match_iff p g = (glob_match-Matches p g, Matches-glob_match p g)

-- What matches a glob that starts with `s` starts with something that `s` stands for.
Matches-append :
    (s p g : Str) → Matches p (s ++ g) → (q : Str) × (r : Str) × (p ≡ q ++ r) × Matches r g
Matches-append [] p g m = ([], p, refl, m)
Matches-append (c ∷ s) p g (same {a} {p = p'} e d m) =
    let (q, r, h, n) = Matches-append s p' g m in (a ∷ q, r, ap (λ l. a ∷ l) h, n)
Matches-append (c ∷ s) p g (star {p = p'} t e d m) =
    let (q, r, h, n) = Matches-append s p' g m in
    (t ++ q, r, d ∙ ap (λ l. t ++ l) h ∙ sym (append_assoc t q r), n)

trans : (p a b : Str) → Matches p a → Matches a b → Matches p b
trans p a b m ends = m
trans p a b (same e d m) (same e' d' n) = same e' (d ∙ d') (trans _ _ _ m n)
trans p a b (star s e d m) (same e' d' n) = ground arith
trans p a b m (star {p = a'} {g = b'} s e d n) =
    let (q, r, h, k) = Matches-append s p a' (rw d at m) in star q e h (trans r a' b' k n)

-- A glob that counts as more specific than another matches no path that the other does not.
pub more_specific-glob_match :
    (p a b : Str) → more_specific a b ≡ true → glob_match p a ≡ true → glob_match p b ≡ true
unfolding more_specific
more_specific-glob_match p a b h k =
    Matches-glob_match p b (trans p a b (glob_match-Matches p a k) (glob_match-Matches a b h))
