-- ===== src/Config/Store.antt =====
-- `ConfigDb` of rustdv/rustdv-methodology/src/config.rs: its store, `set`, `get`, `exists` and `clear`. A
-- `BTreeMap` is the list of its pairs in the order of the keys. A value is of a type `V`, with the number
-- of its own type beside it. An `i32` is kept with 2^31 added.
use rustdv.Base.{
  ℕ, ◌+◌, ◌-◌, ◌^◌, Bool, true, false, List, [], ◌∷◌, Option, none, some, ltb, ◌==◌, ◌&&◌, ◌||◌,
  if◌then◌else◌, Result, ok, err,
}
use rustdv.RustdvPath.{Str, str_eq}
use rustdv.Config.{glob_match, resolve, depth_of}

abbrev pub BTreeMap : Type 0 → Type 0 → Type 0
BTreeMap K V = List (K × V)

-- The order of two strings
abbrev pub str_lt : Str → Str → Bool
str_lt s [] = false
str_lt [] (b ∷ t) = true
str_lt (a ∷ s) (b ∷ t) = ltb a b || a == b && str_lt s t

module _ {K V : Type 0} (eq lt : K → K → Bool) where
  unfoldable pub insert : K → V → BTreeMap K V → BTreeMap K V
  insert k v [] = (k, v) ∷ []
  insert k v ((j, u) ∷ m) =
      let rest = insert k v m in
      if eq k j then (k, v) ∷ m else if lt k j then (k, v) ∷ (j, u) ∷ m else (j, u) ∷ rest

  -- `entry(k).or_default()`, read
  unfoldable pub lookup : K → BTreeMap K V → Option V
  lookup k [] = none
  lookup k ((j, u) ∷ m) = if eq k j then some u else lookup k m

pub record Entry (V : Type 0) : Type 0 where
  pub value : V
  pub type_name : Str
  pub type_id : ℕ
  pub rendered : Str

pub data ConfigError : Type 0 where
  not_found : Str → Str → ConfigError
  type_mismatch : Str → Str → Str → Str → ConfigError

abbrev pub Fields : Type 0 → Type 0
Fields V = BTreeMap Str (BTreeMap ℕ (Entry V))

-- The store, and the flags `IN_BUILD` and `TRACING`
pub record ConfigDb (V : Type 0) : Type 0 where
  pub store : BTreeMap Str (Fields V)
  pub in_build : Bool
  pub tracing : Bool

abbrev pub default_precedence : ℕ
default_precedence = 2 ^ 31 + 1000

abbrev pub depth_of_setter : Option Str → ℕ
depth_of_setter none = 0
depth_of_setter (some c) = depth_of c

abbrev pub or_default : {A : Type 0} → Option (List A) → List A
or_default none = []
or_default (some l) = l

-- `iter().next_back()`, without the key
abbrev pub last_value : {K V : Type 0} → BTreeMap K V → Option V
last_value [] = none
last_value ((k, v) ∷ []) = some v
last_value (p ∷ q ∷ m) = last_value (q ∷ m)

module _ {V : Type 0} where
  unfoldable pub clear : ConfigDb V
  clear = record { store = []; in_build = false; tracing = false }

  unfoldable pub set_in_build : ConfigDb V → Bool → ConfigDb V
  set_in_build db active = record db { in_build = active }

  unfoldable pub precedence : ConfigDb V → Option Str → ℕ
  precedence db ctx =
      if db.in_build then default_precedence - depth_of_setter ctx else default_precedence

  -- `ConfigDb::set`
  unfoldable pub set : ConfigDb V → Option Str → Str → Str → Entry V → ConfigDb V
  unfolding insert lookup precedence
  set db ctx offset field entry =
      let path = resolve ctx offset in
      let fields = or_default (lookup str_eq str_lt path db.store) in
      let by_prec = or_default (lookup str_eq str_lt field fields) in
      let by_prec' = insert (λ a b. a == b) ltb (precedence db ctx) entry by_prec in
      record db {
        store = insert str_eq str_lt path (insert str_eq str_lt field by_prec' fields) db.store;
      }

  -- The entry of highest precedence for a field
  abbrev pub winner : Str → Fields V → Option (Entry V)
  winner field fields = elim (lookup str_eq str_lt field fields) [
    | none ↦ none
    | some by_prec ↦ last_value by_prec
  ]

  -- `store.iter().filter(..).filter_map(..).collect()`
  unfoldable pub matches : Str → Str → BTreeMap Str (Fields V) → List (Str × Entry V)
  unfolding lookup
  matches path field [] = []
  matches path field ((pattern, fields) ∷ m) =
      let rest = matches path field m in
      if glob_match path pattern
      then elim (winner field fields) [ none ↦ rest | some e ↦ (pattern, e) ∷ rest ]
      else rest

  abbrev pub has_key : Str → Fields V → Bool
  has_key field [] = false
  has_key field ((j, u) ∷ m) = str_eq field j || has_key field m

  unfoldable pub any_match : Str → Str → BTreeMap Str (Fields V) → Bool
  any_match path field [] = false
  any_match path field ((pattern, fields) ∷ m) =
      glob_match path pattern && has_key field fields || any_match path field m

  unfoldable pub exists : ConfigDb V → Option Str → Str → Str → Bool
  unfolding any_match
  exists db ctx offset field = any_match (resolve ctx offset) field db.store

  -- `sort` is `sort_by` with the comparison by `more_specific`, which need not be a total order: then
  -- the library does not say what it does beyond reordering.
  module _ (sort : List (Str × Entry V) → List (Str × Entry V)) where
    -- `ConfigDb::get`, of the type with the id `want` and the name `wanted`
    unfoldable pub get : ConfigDb V → Option Str → Str → Str → ℕ → Str → Result V ConfigError
    unfolding matches
    get db ctx offset field want wanted =
        let path = resolve ctx offset in
        elim (sort (matches path field db.store)) [
          | [] ↦ err (not_found path field)
          | hit ∷ _ ↦
              let (pattern, e) = hit in
              if e.type_id == want
              then ok e.value
              else err (type_mismatch path field e.type_name wanted)
        ]
