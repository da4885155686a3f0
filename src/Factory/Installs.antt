-- ===== src/Factory/Installs.antt =====
-- The overrides that rustdv/rustdv-methodology/src/factory.rs keeps in the configuration database: which
-- of them a look-up finds, after any history of them.
use rustdv.Base.{
  ℕ, ◌≡◌, refl, ap, Bool, false, List, [], ◌∷◌, ◌&&◌, ◌||◌, ◌==◌, ltb, arith, Bool-cases, inl, inr,
}
use rustdv.RustdvPath.{Str, str_eq}
use rustdv.RustdvPath.Strings.{str_eq_sound}
use rustdv.Config.{glob_match, resolve}
use rustdv.Config.Store.{
  BTreeMap, str_lt, insert, lookup, Entry, Fields, ConfigDb, or_default, set_in_build, precedence,
  set, has_key, any_match,
}
use rustdv.Config.Lookups.{Write, sets, builds, written}

module _ {V : Type 0} (path key : Str) where
  has_key-insert :
      (k : Str) (u : BTreeMap ℕ (Entry V)) (m : Fields V)
      → has_key key (insert str_eq str_lt k u m) ≡ (str_eq key k || has_key key m)
  unfolding insert
  has_key-insert k u [] = refl
  has_key-insert k u ((j, v) ∷ m) = elim (Bool-cases (str_eq k j)) [
    | inl e ↦ rw (e, str_eq_sound k j e) (ground arith)
    | inr e ↦ ground (arith, e, has_key-insert k u m)
  ]

  -- Does this address with these fields match?
  abbrev hit : Str → Fields V → Bool
  hit j u = glob_match path j && has_key key u

  lookup-any_match :
      (k : Str) (m : BTreeMap Str (Fields V))
      → (hit k (or_default (lookup str_eq str_lt k m)) || any_match path key m)
        ≡ any_match path key m
  unfolding lookup any_match
  lookup-any_match k [] = ground arith
  lookup-any_match k ((j, u) ∷ m) = elim (Bool-cases (str_eq k j)) [
    | inl e ↦ rw (e, str_eq_sound k j e) (ground arith)
    | inr e ↦ rw e (ground (arith, lookup-any_match k m))
  ]

  any_match-insert :
      (k : Str) (b : Bool) (u : Fields V) (m : BTreeMap Str (Fields V))
      → has_key key u ≡ (b || has_key key (or_default (lookup str_eq str_lt k m)))
      → any_match path key (insert str_eq str_lt k u m)
        ≡ ((glob_match path k && b) || any_match path key m)
  unfolding insert lookup any_match
  any_match-insert k b u [] h = ground (arith, h)
  any_match-insert k b u ((j, v) ∷ m) h = elim (Bool-cases (str_eq k j)) [
    | inl e ↦ let g = ap (glob_match path) (str_eq_sound k j e) in ground (arith, e, h, g)
    | inr e ↦ ground (arith, e, h, lookup-any_match k m, any_match-insert k b u m)
  ]

  -- A write that a look-up under the key, of the path, finds
  abbrev pub write_hits : Write V → Bool
  write_hits (sets ctx offset field entry) =
      glob_match path (resolve ctx offset) && str_eq key field
  write_hits (builds active) = false

  abbrev pub any_hit : List (Write V) → Bool
  any_hit [] = false
  any_hit (c ∷ cs) = write_hits c || any_hit cs

  pub any_match-written :
      (db : ConfigDb V) (cs : List (Write V))
      → any_match path key (written db cs).store ≡ (any_hit cs || any_match path key db.store)
  unfolding set set_in_build
  any_match-written db [] = refl
  any_match-written db (builds active ∷ cs) = any_match-written (set_in_build db active) cs
  any_match-written db (sets ctx offset field entry ∷ cs) =
      let path' = resolve ctx offset in
      let fields = or_default (lookup str_eq str_lt path' db.store) in
      let by_prec = or_default (lookup str_eq str_lt field fields) in
      let by_prec' = insert (λ a b. a == b) ltb (precedence db ctx) entry by_prec in
      let now =
        any_match-insert path' (str_eq key field) (insert str_eq str_lt field by_prec' fields)
          db.store (has_key-insert field by_prec' fields) in
      let rest = any_match-written (set db ctx offset field entry) cs in ground (arith, now, rest)
