-- ===== src/Config/Lookups.antt =====
-- rustdv/rustdv-methodology/src/config.rs: `get` against `exists`, over any history of writes.
use rustdv.Base.{
  ℕ, ◌≡◌, refl, sym, Bool, true, false, not, List, [], ◌∷◌, Option, none, some, ltb, ◌==◌, Result,
  ok, err, arith, Option-cases, Bool-cases, inl, inr,
}
use rustdv.RustdvPath.{Str, str_eq}
use rustdv.Config.{glob_match, resolve}
use rustdv.Config.Store.{
  BTreeMap, str_lt, insert, lookup, Entry, ConfigError, not_found, type_mismatch, Fields, ConfigDb,
  or_default, last_value, clear, set_in_build, precedence, set, winner, matches, has_key, any_match,
  exists, get,
}

-- What writes to the database
pub data Write (V : Type 0) : Type 0 where
  sets : Option Str → Str → Str → Entry V → Write V
  builds : Bool → Write V

abbrev pub is_nil : {A : Type 0} → List A → Bool
is_nil [] = true
is_nil (x ∷ xs) = false

abbrev pub is_not_found : {V : Type 0} → Result V ConfigError → Bool
is_not_found (err (not_found path field)) = true
is_not_found (err (type_mismatch path field stored wanted)) = false
is_not_found (ok v) = false

module _ {V : Type 0} where
  abbrev pub write : ConfigDb V → Write V → ConfigDb V
  write db (sets ctx offset field entry) = set db ctx offset field entry
  write db (builds active) = set_in_build db active

  abbrev pub written : ConfigDb V → List (Write V) → ConfigDb V
  written db [] = db
  written db (c ∷ cs) = written (write db c) cs

  -- No field without an entry
  abbrev AllHeld : Fields V → Type 0
  AllHeld [] = Unit
  AllHeld ((j, u) ∷ m) = (is_nil u ≡ false) × AllHeld m

  abbrev StoreHeld : BTreeMap Str (Fields V) → Type 0
  StoreHeld [] = Unit
  StoreHeld ((j, u) ∷ m) = AllHeld u × StoreHeld m

  insert-is_nil :
      {K : Type 0} (eq lt : K → K → Bool) (k : K) (v : Entry V) (m : BTreeMap K (Entry V))
      → is_nil (insert eq lt k v m) ≡ false
  unfolding insert
  insert-is_nil eq lt k v [] = refl
  insert-is_nil eq lt k v ((j, u) ∷ m) = ground arith

  insert-AllHeld :
      (k : Str) (u : BTreeMap ℕ (Entry V)) (m : Fields V)
      → is_nil u ≡ false
      → AllHeld m
      → AllHeld (insert str_eq str_lt k u m)
  unfolding insert
  insert-AllHeld k u [] h v = (h, tt)
  insert-AllHeld k u ((j, t) ∷ m) h v = elim (Bool-cases (str_eq k j)) [
    | inl e ↦ rw e (h, v.1)
    | inr e ↦ elim (Bool-cases (str_lt k j)) [
      | inl d ↦ rw (e, d) (h, v)
      | inr d ↦ rw (e, d) (v.0, insert-AllHeld k u m h v.1)
    ]
  ]

  insert-StoreHeld :
      (k : Str) (u : Fields V) (m : BTreeMap Str (Fields V))
      → AllHeld u
      → StoreHeld m
      → StoreHeld (insert str_eq str_lt k u m)
  unfolding insert
  insert-StoreHeld k u [] h v = (h, tt)
  insert-StoreHeld k u ((j, t) ∷ m) h v = elim (Bool-cases (str_eq k j)) [
    | inl e ↦ rw e (h, v.1)
    | inr e ↦ elim (Bool-cases (str_lt k j)) [
      | inl d ↦ rw (e, d) (h, v)
      | inr d ↦ rw (e, d) (v.0, insert-StoreHeld k u m h v.1)
    ]
  ]

  lookup-AllHeld :
      (k : Str) (m : BTreeMap Str (Fields V))
      → StoreHeld m
      → AllHeld (or_default (lookup str_eq str_lt k m))
  unfolding lookup
  lookup-AllHeld k [] v = tt
  lookup-AllHeld k ((j, u) ∷ m) v = elim (Bool-cases (str_eq k j)) [
    | inl e ↦ rw e v.0
    | inr e ↦ rw e (lookup-AllHeld k m v.1)
  ]

  written-StoreHeld :
      (db : ConfigDb V) (cs : List (Write V)) → StoreHeld db.store → StoreHeld (written db cs).store
  unfolding set set_in_build
  written-StoreHeld db [] v = v
  written-StoreHeld db (builds active ∷ cs) v = written-StoreHeld (set_in_build db active) cs v
  written-StoreHeld db (sets ctx offset field entry ∷ cs) v =
      let path = resolve ctx offset in
      let fields = or_default (lookup str_eq str_lt path db.store) in
      let by_prec = or_default (lookup str_eq str_lt field fields) in
      let by_prec' = insert (λ a b. a == b) ltb (precedence db ctx) entry by_prec in
      written-StoreHeld (set db ctx offset field entry) cs (
        insert-StoreHeld path (insert str_eq str_lt field by_prec' fields) db.store
          (insert-AllHeld field by_prec' fields
            (insert-is_nil (λ a b. a == b) ltb (precedence db ctx) entry by_prec)
            (lookup-AllHeld path db.store v))
          v)

  is_there : Option (Entry V) → Bool
  is_there none = false
  is_there (some e) = true

  last_value_held :
      {K : Type 0} (m : BTreeMap K (Entry V)) → is_nil m ≡ false → is_there (last_value m) ≡ true
  unfolding is_there
  last_value_held [] h = sym h
  last_value_held ((k, v) ∷ []) h = refl
  last_value_held ((k, v) ∷ q ∷ m) h = last_value_held (q ∷ m) refl

  winner-has_key :
      (field : Str) (m : Fields V) → AllHeld m → is_there (winner field m) ≡ has_key field m
  unfolding lookup is_there
  winner-has_key field [] v = refl
  winner-has_key field ((j, u) ∷ m) v = elim (Bool-cases (str_eq field j)) [
    | inl e ↦ ground (arith, e, last_value_held u v.0)
    | inr e ↦ ground (arith, e, winner-has_key field m v.1)
  ]

  matches-any_match :
      (path field : Str) (m : BTreeMap Str (Fields V))
      → StoreHeld m
      → is_nil (matches path field m) ≡ not (any_match path field m)
  unfolding matches any_match is_there
  matches-any_match path field [] v = refl
  matches-any_match path field ((j, u) ∷ m) v = elim (Bool-cases (glob_match path j)) [
    | inl e ↦ elim (Option-cases (winner field u)) [
      | inl d ↦ ground (arith, e, d, winner-has_key field u v.0, matches-any_match path field m v.1)
      | inr (w, d) ↦ ground (arith, e, d, winner-has_key field u v.0)
    ]
    | inr e ↦ ground (arith, e, matches-any_match path field m v.1)
  ]

  -- After any history of writes to a cleared database, a `get` of whatever type reports that there is no
  -- value exactly if `exists` denies one, provided that sorting the matches loses none and makes none.
  pub get-exists :
      (sort : List (Str × Entry V) → List (Str × Entry V)) (cs : List (Write V)) (ctx : Option Str)
      (offset field : Str) (want : ℕ) (wanted : Str)
      → ((l : List (Str × Entry V)) → is_nil (sort l) ≡ is_nil l)
      → let db = written clear cs in
        is_not_found (get sort db ctx offset field want wanted) ≡ not (exists db ctx offset field)
  unfolding get exists clear
  get-exists sort cs ctx offset field want wanted keeps =
      let path = resolve ctx offset in
      let store = (written clear cs).store in
      let same = matches-any_match path field store (written-StoreHeld clear cs tt) in
      let kept = keeps (matches path field store) in ground (arith, same, kept)
