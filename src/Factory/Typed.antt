-- ===== src/Factory/Typed.antt =====
-- The configuration database of rustdv/rustdv-methodology/src/config.rs with one field whose entries, at
-- the addresses that match a path, all pass a test: every hit of a look-up of that field and path does.
use rustdv.Base.{
  ℕ, ◌≡◌, refl, Bool, true, List, [], ◌∷◌, ◌&&◌, ◌==◌, if◌then◌else◌, some, ltb, arith, Bool-cases,
  Option-cases, inl, inr,
}
use rustdv.RustdvPath.{Str, str_eq}
use rustdv.RustdvPath.Strings.{str_eq_sound}
use rustdv.Config.{glob_match, resolve}
use rustdv.Config.Store.{
  BTreeMap, str_lt, insert, lookup, Entry, Fields, ConfigDb, or_default, last_value, set_in_build,
  precedence, set, winner, matches,
}
use rustdv.Config.Lookups.{Write, sets, builds, written}

module _ {V : Type 0} (test : Entry V → Bool) where
  abbrev pub all_entries : {K : Type 0} → List (K × Entry V) → Bool
  all_entries [] = true
  all_entries ((k, e) ∷ m) = test e && all_entries m

module _ {V : Type 0} (path key : Str) (test : Entry V → Bool) where
  -- What stands under the key passes the test.
  abbrev pub at_key : Str → BTreeMap ℕ (Entry V) → Bool
  at_key field u = if str_eq key field then all_entries test u else true

  abbrev pub fields_pass : Fields V → Bool
  fields_pass [] = true
  fields_pass ((j, u) ∷ m) = at_key j u && fields_pass m

  -- It does at the addresses that match the path.
  abbrev pub at_path : Str → Fields V → Bool
  at_path j u = if glob_match path j then fields_pass u else true

  abbrev pub store_passes : BTreeMap Str (Fields V) → Bool
  store_passes [] = true
  store_passes ((j, u) ∷ m) = at_path j u && store_passes m

  -- A write under the key at an address that matches the path writes an entry that passes.
  abbrev pub write_passes : Write V → Bool
  write_passes (sets ctx offset field entry) =
      if str_eq key field && glob_match path (resolve ctx offset) then test entry else true
  write_passes (builds active) = true

  abbrev pub writes_pass : List (Write V) → Bool
  writes_pass [] = true
  writes_pass (c ∷ cs) = write_passes c && writes_pass cs

  insert-all_entries :
      (k : ℕ) (e : Entry V) (m : BTreeMap ℕ (Entry V))
      → test e ≡ true
      → all_entries test m ≡ true
      → all_entries test (insert (λ a b. a == b) ltb k e m) ≡ true
  unfolding insert
  insert-all_entries k e [] t h = ground arith
  insert-all_entries k e ((j, u) ∷ m) t h = ground (arith, insert-all_entries k e m)

  insert-fields_pass :
      (k : Str) (u : BTreeMap ℕ (Entry V)) (m : Fields V)
      → at_key k u ≡ true
      → fields_pass m ≡ true
      → fields_pass (insert str_eq str_lt k u m) ≡ true
  unfolding insert
  insert-fields_pass k u [] t h = ground arith
  insert-fields_pass k u ((j, v) ∷ m) t h = ground (arith, insert-fields_pass k u m)

  insert-store_passes :
      (k : Str) (u : Fields V) (m : BTreeMap Str (Fields V))
      → at_path k u ≡ true
      → store_passes m ≡ true
      → store_passes (insert str_eq str_lt k u m) ≡ true
  unfolding insert
  insert-store_passes k u [] t h = ground arith
  insert-store_passes k u ((j, v) ∷ m) t h = ground (arith, insert-store_passes k u m)

  lookup-fields_pass :
      (k : Str) (m : BTreeMap Str (Fields V))
      → store_passes m ≡ true
      → at_path k (or_default (lookup str_eq str_lt k m)) ≡ true
  unfolding lookup
  lookup-fields_pass k [] h = ground arith
  lookup-fields_pass k ((j, u) ∷ m) h = elim (Bool-cases (str_eq k j)) [
    | inl e ↦ rw (e, str_eq_sound k j e) (ground arith)
    | inr e ↦ rw e (lookup-fields_pass k m (ground arith))
  ]

  lookup-at_key :
      (k : Str) (m : Fields V)
      → fields_pass m ≡ true
      → at_key k (or_default (lookup str_eq str_lt k m)) ≡ true
  unfolding lookup
  lookup-at_key k [] h = ground arith
  lookup-at_key k ((j, u) ∷ m) h = elim (Bool-cases (str_eq k j)) [
    | inl e ↦ rw (e, str_eq_sound k j e) (ground arith)
    | inr e ↦ rw e (lookup-at_key k m (ground arith))
  ]

  set-fields_pass :
      (p : ℕ) (field : Str) (entry : Entry V) (fields : Fields V)
      → (str_eq key field ≡ true → test entry ≡ true)
      → fields_pass fields ≡ true
      → (let by_prec = or_default (lookup str_eq str_lt field fields) in
          fields_pass
            (insert str_eq str_lt field (insert (λ a b. a == b) ltb p entry by_prec) fields)
          ≡ true)
  set-fields_pass p field entry fields t h =
      let by_prec = or_default (lookup str_eq str_lt field fields) in
      let by_prec' = insert (λ a b. a == b) ltb p entry by_prec in
      let kept = lookup-at_key field fields h in
      let here = insert-all_entries p entry by_prec in
      insert-fields_pass field by_prec' fields (ground (arith, kept, here, t)) h

  pub written-store_passes :
      (db : ConfigDb V) (cs : List (Write V))
      → writes_pass cs ≡ true
      → store_passes db.store ≡ true
      → store_passes (written db cs).store ≡ true
  unfolding set set_in_build
  written-store_passes db [] w h = h
  written-store_passes db (builds active ∷ cs) w h =
      written-store_passes (set_in_build db active) cs (ground arith) h
  written-store_passes db (sets ctx offset field entry ∷ cs) w h =
      let path' = resolve ctx offset in
      let fields = or_default (lookup str_eq str_lt path' db.store) in
      let by_prec = or_default (lookup str_eq str_lt field fields) in
      let by_prec' = insert (λ a b. a == b) ltb (precedence db ctx) entry by_prec in
      let old = lookup-fields_pass path' db.store h in
      let new = set-fields_pass (precedence db ctx) field entry fields in
      written-store_passes (set db ctx offset field entry) cs (ground arith) (
        insert-store_passes path' (insert str_eq str_lt field by_prec' fields) db.store
          (elim (Bool-cases (glob_match path path')) [
            | inl g ↦ rw g (new (λ k. ground (arith, w, g, k)) (rw g at old))
            | inr g ↦ rw g refl
          ])
          h)

  last_value_passes :
      {K : Type 0} (m : List (K × Entry V)) {e : Entry V}
      → all_entries test m ≡ true
      → last_value m ≡ some e
      → test e ≡ true
  last_value_passes [] h l = ground arith
  last_value_passes ((k, v) ∷ []) h l = ground arith
  last_value_passes ((k, v) ∷ q ∷ m) h l = last_value_passes (q ∷ m) (ground arith) l

  winner_passes :
      (m : Fields V) {e : Entry V} → fields_pass m ≡ true → winner key m ≡ some e → test e ≡ true
  unfolding lookup
  winner_passes [] h l = ground arith
  winner_passes ((j, u) ∷ m) h l = elim (Bool-cases (str_eq key j)) [
    | inl e ↦ last_value_passes u (ground (arith, e)) (rw (winner, lookup, e) at l)
    | inr e ↦ winner_passes m (ground arith) (rw (winner, lookup, e) at l)
  ]

  pub matches-pass :
      (m : BTreeMap Str (Fields V))
      → store_passes m ≡ true
      → all_entries test (matches path key m) ≡ true
  unfolding matches
  matches-pass [] h = refl
  matches-pass ((j, u) ∷ m) h = elim (Bool-cases (glob_match path j)) [
    | inl g ↦ elim (Option-cases (winner key u)) [
      | inl n ↦ ground (arith, n, g, matches-pass m)
      | inr (e, w) ↦
          ground (arith, w, g, winner_passes u {e = e} (ground (arith, g)) w, matches-pass m)
    ]
    | inr g ↦ ground (arith, g, matches-pass m)
  ]
