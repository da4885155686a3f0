-- ===== src/Factory/Resolve.antt =====
-- rustdv/rustdv-methodology/src/factory.rs: which node a child slot gets.
use rustdv.Base.{
  ℕ, ◌≡◌, refl, ap, sym, ◌∙◌, Bool, true, false, not, List, [], ◌∷◌, ◌++◌, map, ◌&&◌, ◌||◌, ◌==◌,
  ◌⊎◌, inl, inr, Option, none, some, arith, Option-cases, if◌then◌else◌,
}
use rustdv.RustdvPath.{Str, str_eq}
use rustdv.Config.{glob_match, resolve as resolve_path}
use rustdv.Config.Store.{Entry, ConfigDb, clear, set_in_build, get, exists, matches, any_match}
use rustdv.Config.Lookups.{Write, sets, builds, written, is_nil, is_not_found, get-exists}
use rustdv.Factory.{
  Override, Stored, an_override, override_key, overridable, as_override, lookup_override, path_of,
  resolve, set_type_override, set_inst_override, store_override,
}
use rustdv.Factory.Typed.{
  all_entries, write_passes, writes_pass, store_passes, written-store_passes, matches-pass,
}
use rustdv.Factory.Installs.{write_hits, any_hit, any_match-written}

-- What a test bench installs: an override of every slot of a type, or of one type at the paths below a
-- context; and the build phase begins and ends.
pub data Install (N : Type 0) : Type 0 where
  on_type : Str → Str → N → Install N
  on_inst : Str → Str → Str → Str → N → Install N
  building : Bool → Install N

-- A slot's path: its name below that of its parent, unless that is the root
abbrev pub slot_path : Str → Str → Str
slot_path [] name = name
slot_path (c ∷ cs) name = (c ∷ cs) ++ b'.' ∷ name

path_of-slot_path : (ctx name : Str) → path_of ctx name ≡ slot_path ctx name
path_of-slot_path [] name = refl
path_of-slot_path (c ∷ cs) name = refl

str_eq-override_key : (s t : Str) → str_eq (override_key s) (override_key t) ≡ str_eq s t
unfolding override_key
str_eq-override_key s t = refl

glob_match-star : (path : Str) → glob_match path (b'*' ∷ []) ≡ true
unfolding glob_match
glob_match-star [] = refl
glob_match-star (a ∷ p) = ground (arith, glob_match-star p)

module _ {N : Type 0} where
  -- Is it an override of that type which applies to the path?
  abbrev pub applies : Str → Str → Install N → Bool
  applies req path (on_type from to make) = str_eq req from
  applies req path (on_inst ctx p from to make) =
      glob_match path (resolve_path (some ctx) p) && str_eq req from
  applies req path (building active) = false

  abbrev pub any_applies : Str → Str → List (Install N) → Bool
  any_applies req path [] = false
  any_applies req path (c ∷ cs) = applies req path c || any_applies req path cs

  -- The override that it installs passes the test.
  abbrev pub is_fit : (Override N → Bool) → Install N → Bool
  is_fit good (on_type from to make) = good (record { make = make; to = to })
  is_fit good (on_inst ctx p from to make) = good (record { make = make; to = to })
  is_fit good (building active) = true

  -- Those that apply pass the test.
  abbrev pub all_fit : (Override N → Bool) → Str → Str → List (Install N) → Bool
  all_fit good req path [] = true
  all_fit good req path (c ∷ cs) =
      (if applies req path c then is_fit good c else true) && all_fit good req path cs

module _ {N : Type 0} (override_id : ℕ) (override_name : Str) where
  abbrev pub install : ConfigDb (Stored N) → Install N → ConfigDb (Stored N)
  install db (on_type from to make) = set_type_override override_id override_name db from to make
  install db (on_inst ctx p from to make) =
      set_inst_override override_id override_name db ctx p from to make
  install db (building active) = set_in_build db active

  abbrev pub installed : ConfigDb (Stored N) → List (Install N) → ConfigDb (Stored N)
  installed db [] = db
  installed db (c ∷ cs) = installed (install db c) cs

  abbrev entry_of : N → Str → Entry (Stored N)
  entry_of make to = record {
    value = an_override (record { make = make; to = to });
    type_name = override_name;
    type_id = override_id;
    rendered = b'-' ∷ b'>' ∷ b' ' ∷ to;
  }

  abbrev as_write : Install N → Write (Stored N)
  as_write (on_type from to make) = sets none (b'*' ∷ []) (override_key from) (entry_of make to)
  as_write (on_inst ctx p from to make) = sets (some ctx) p (override_key from) (entry_of make to)
  as_write (building active) = builds active

  installed-written :
      (db : ConfigDb (Stored N)) (cs : List (Install N))
      → installed db cs ≡ written db (map as_write cs)
  unfolding set_type_override set_inst_override store_override
  installed-written db [] = refl
  installed-written db (on_type from to make ∷ cs) =
      installed-written (install db (on_type from to make)) cs
  installed-written db (on_inst ctx p from to make ∷ cs) =
      installed-written (install db (on_inst ctx p from to make)) cs
  installed-written db (building active ∷ cs) = installed-written (set_in_build db active) cs

  module _ (req path : Str) where
    as_write-applies :
        (c : Install N) → write_hits path (override_key req) (as_write c) ≡ applies req path c
    unfolding resolve_path
    as_write-applies (on_type from to make) =
        ground (arith, glob_match-star path, str_eq-override_key req from)
    as_write-applies (on_inst ctx p from to make) = ground (arith, str_eq-override_key req from)
    as_write-applies (building active) = refl

    any_hit-any_applies :
        (cs : List (Install N))
        → any_hit path (override_key req) (map as_write cs) ≡ any_applies req path cs
    any_hit-any_applies [] = refl
    any_hit-any_applies (c ∷ cs) = ground (arith, as_write-applies c, any_hit-any_applies cs)

  module _ (good : Override N → Bool) where
    -- The entry is an override that passes the test `good`.
    abbrev is_good : Entry (Stored N) → Bool
    is_good e = elim (as_override e.value) [
      | none ↦ false
      | some ov ↦ e.type_id == override_id && good ov
    ]

    as_write-fit :
        (req path : Str) (c : Install N)
        → (if applies req path c then is_fit good c else true) ≡ true
        → write_passes path (override_key req) is_good (as_write c) ≡ true
    unfolding resolve_path
    as_write-fit req path (on_type from to make) h =
        ground (arith, h, glob_match-star path, str_eq-override_key req from)
    as_write-fit req path (on_inst ctx p from to make) h =
        ground (arith, h, str_eq-override_key req from)
    as_write-fit req path (building active) h = refl

    writes_fit :
        (req path : Str) (cs : List (Install N))
        → all_fit good req path cs ≡ true
        → writes_pass path (override_key req) is_good (map as_write cs) ≡ true
    writes_fit req path [] h = refl
    writes_fit req path (c ∷ cs) h =
        ground (arith, h, as_write-fit req path c, writes_fit req path cs)

    abbrev passes : Option (Override N) → Bool
    passes none = false
    passes (some ov) = good ov

    clear-store_passes :
        (path key : Str) → store_passes path key is_good (clear {V = Stored N}).store ≡ true
    unfolding clear
    clear-store_passes path key = refl

    not_inj : {p q r : Bool} → p ≡ not q → q ≡ not r → r ≡ p
    not_inj {p = p} {q = q} {r = r} e f = ground arith

    good_hit : {p q r : Bool} → p ≡ q → p ≡ not r → r ≡ false → q ≡ true
    good_hit {p = p} {q = q} {r = r} e f g = ground arith

    module _ (sort : List (Str × Entry (Stored N)) → List (Str × Entry (Stored N))) where
      lookup_override-good :
          (db : ConfigDb (Stored N)) (req path : Str)
          → ((l : List (Str × Entry (Stored N)))
              → all_entries is_good (sort l) ≡ all_entries is_good l)
          → store_passes path (override_key req) is_good db.store ≡ true
          → passes (lookup_override override_id override_name sort db req path)
            ≡ not
                (is_not_found (get sort db none path (override_key req) override_id override_name))
      unfolding lookup_override get resolve_path
      lookup_override-good db req path keeps h =
          let hits = matches path (override_key req) db.store in
          ground (arith, keeps hits, matches-pass path (override_key req) is_good db.store h)

      lookup_override-some :
          (db : ConfigDb (Stored N)) (req path : Str) {ov : Override N}
          → lookup_override override_id override_name sort db req path ≡ some ov
          → is_not_found (get sort db none path (override_key req) override_id override_name)
            ≡ false
      unfolding lookup_override
      lookup_override-some db req path e = ground arith

      exists-applies :
          (cs : List (Install N)) (req path : Str)
          → exists (written clear (map as_write cs)) none path (override_key req)
            ≡ any_applies req path cs
      unfolding exists resolve_path clear any_match
      exists-applies cs req path = ground (
        arith,
        any_match-written path (override_key req) clear (map as_write cs),
        any_hit-any_applies req path cs,
      )

      -- What a slot that asks for `req` becomes in the build phase, after any history of type and
      -- instance overrides in a cleared database, of which those for `req` that apply to the slot's path
      -- pass a test: if there is such an override, the node of one that passes the test, and else the
      -- node that it was made with. It is resolved once: whatever the database and the path, a second
      -- time changes nothing. Sorting is to lose no match and make none.
      pub resolve_once :
          (cs : List (Install N)) (n : N) (req ctx name : Str) (again : ConfigDb (Stored N))
          (ctx' name' : Str)
          → ((l : List (Str × Entry (Stored N)))
              → all_entries is_good (sort l) ≡ all_entries is_good l)
          → ((l : List (Str × Entry (Stored N))) → is_nil (sort l) ≡ is_nil l)
          → all_fit good req (slot_path ctx name) cs ≡ true
          → let db = installed clear cs in
            let slot = resolve override_id override_name sort (overridable n req) db ctx name in
            let applied = any_applies req (slot_path ctx name) cs in
            (resolve override_id override_name sort slot again ctx' name' ≡ slot)
            × (((applied ≡ false) × (slot.inner ≡ some n))
                ⊎ ((ov : Override N) × (applied ≡ true)
                    × (good ov ≡ true)
                    × (slot.inner ≡ some ov.make)))
      unfolding resolve overridable
      resolve_once cs n req ctx name again ctx' name' keeps nils h =
          rw (installed-written clear cs, path_of-slot_path ctx name)
            (let db = written clear (map as_write cs) in
              let path = slot_path ctx name in
              let typed =
                written-store_passes path (override_key req) is_good clear (map as_write cs)
                  (writes_fit req path cs h) (clear-store_passes path (override_key req)) in
              let found = lookup_override-good db req path keeps typed in
              let there =
                get-exists sort (map as_write cs) none path (override_key req) override_id
                  override_name nils in
              let same = sym (exists-applies cs req path) ∙ not_inj found there in
              elim (Option-cases (lookup_override override_id override_name sort db req path)) [
                | inl e ↦ (ground (arith, e), inl (same ∙ ap passes e, ground (arith, e)))
                | inr (ov, e) ↦
                    let g = good_hit (ap passes e) found (lookup_override-some db req path e) in
                    (ground (arith, e), inr (ov, same ∙ ap passes e ∙ g, g, ground (arith, e)))
              ])
