-- ===== src/Gpi/Lookup.antt =====
-- Objects by name and by kind, in rustdv/rustdv-gpi/src/rustdv_gpi.rs: the lookups of `HierarchyHandle` and `AggregateHandle`, the
-- top-level modules, and the values of string variables. `none` is the panic of a NUL in a name.
use rustdv.Base.{
  ◌||◌, List, [], ◌∷◌, ◌++◌, map, Option, none, some, Result, ok, err, if◌then◌else◌, ◌==◌, ◌≡◌,
  arith,
}
use rustdv.RustdvPath.{Str}
use rustdv.LogicArray.Codec.{ValueError, unavailable, interior_nul}
use rustdv.Gpi.Handles.{
  Obj, Vpi, LogicHandle, AnyHandle, HandleError, not_found, no_top_module, wrong_kind_of, Expected,
  signal, module_scope, a_real, a_string, struct_or_union, is_logic_type, text_or_empty,
  size_or_zero, list_or_empty, has_nul, classify, object, wrong_kind, as_logic, as_hierarchy,
  as_real, as_string, as_aggregate,
}

-- `?`
abbrev pub and_then {ℓ} :
    {A B : Type ℓ}
    → Option (Result A HandleError)
    → (A → Result B HandleError)
    → Option (Result B HandleError)
and_then none f = none
and_then (some (err e)) f = some (err e)
and_then (some (ok a)) f = some (f a)

abbrev pub first_or : List Obj → Result Obj HandleError
first_or [] = err no_top_module
first_or (h ∷ hs) = ok h

module _ (V : Vpi) where
  open V use {vpi_type, vpi_size, vpi_name, vpi_full_name, handle_by_name, iterate, get_string}

  -- The handle that a name leads to, or the error with the name asked for and the scope
  unfoldable pub found : Option Obj → Str → Str → Result AnyHandle HandleError
  unfolding classify
  found none name scope = err (not_found name scope)
  found (some h) name scope = ok (classify V h)

  abbrev pub full_name : Obj → Str
  full_name h = text_or_empty (vpi_full_name h)

  -- `HierarchyHandle::child`
  unfoldable pub child : Obj → Str → Option (Result AnyHandle HandleError)
  unfolding has_nul found
  child scope name =
      if has_nul name
      then none
      else some (found (handle_by_name name (some scope)) name (full_name scope))

  unfoldable pub child_signal : Obj → Str → Option (Result LogicHandle HandleError)
  unfolding child as_logic
  child_signal scope name = and_then (child scope name) (as_logic V)

  unfoldable pub child_real : Obj → Str → Option (Result Obj HandleError)
  unfolding child as_real
  child_real scope name = and_then (child scope name) (as_real V)

  unfoldable pub child_string : Obj → Str → Option (Result Obj HandleError)
  unfolding child as_string
  child_string scope name = and_then (child scope name) (as_string V)

  unfoldable pub child_aggregate : Obj → Str → Option (Result Obj HandleError)
  unfolding child as_aggregate
  child_aggregate scope name = and_then (child scope name) (as_aggregate V)

  -- `HierarchyHandle::children`: the modules, then the nets, then the registers
  unfoldable pub children : Obj → List AnyHandle
  unfolding classify
  children h =
      map (classify V) (list_or_empty (iterate 32 (some h)))
      ++ map (classify V) (list_or_empty (iterate 36 (some h)))
      ++ map (classify V) (list_or_empty (iterate 48 (some h)))

  -- `AggregateHandle::child`, whose path is absolute
  unfoldable pub member : Obj → Str → Option (Result AnyHandle HandleError)
  unfolding has_nul found
  member h name =
      let path = full_name h ++ b'.' ∷ name in
      if has_nul path then none else some (found (handle_by_name path none) name (full_name h))

  -- `AggregateHandle::children`
  unfoldable pub members : Obj → List AnyHandle
  unfolding classify
  members h = map (classify V) (list_or_empty (iterate 742 (some h)))

  unfoldable pub top_modules : List Obj
  top_modules = list_or_empty (iterate 32 none)

  abbrev pub top_level : Str
  top_level = b'<' ∷ b't' ∷ b'o' ∷ b'p' ∷ b'-' ∷ b'l' ∷ b'e' ∷ b'v' ∷ b'e' ∷ b'l' ∷ b'>' ∷ []

  unfoldable pub select_top_module : Option Str → Option (Result Obj HandleError)
  unfolding has_nul found as_hierarchy top_modules
  select_top_module (some name) =
      if has_nul name
      then none
      else and_then (some (found (handle_by_name name none) name top_level)) (as_hierarchy V)
  select_top_module none = some (first_or top_modules)

  -- `StringHandle::get`
  unfoldable pub get_text : Obj → Result Str ValueError
  get_text h = elim (get_string h) [
    | none ↦ err unavailable
    | some none ↦ err unavailable
    | some (some s) ↦ ok s
  ]

  -- `StringHandle::set_now`: the text that `vpi_put_value` gets
  unfoldable pub set_text : Str → Result Str ValueError
  unfolding has_nul
  set_text s = if has_nul s then err interior_nul else ok s

  -- What a lookup of the kind refuses an object with
  abbrev pub refused {ℓ} : {A : Type ℓ} → Obj → Expected → Result A HandleError
  refused h e = err (wrong_kind_of (full_name h) e (vpi_type h))

  -- Each typed view of an object that the simulator names is given exactly to the objects of its `vpiType`s, a signal with the
  -- simulator's size or 0 where that is negative; every other object is refused with its full name, what was expected and its type.
  pub classify_views :
      (h : Obj)
      → (let t = vpi_type h in
          (as_logic V (classify V h) ≡ (
            if is_logic_type t
            then ok (record { h = h; width = size_or_zero (vpi_size h) })
            else refused h signal))
          × (as_hierarchy V (classify V h) ≡ (if t == 32 then ok h else refused h module_scope))
          × (as_real V (classify V h) ≡ (if t == 47 then ok h else refused h a_real))
          × (as_string V (classify V h) ≡ (if t == 616 then ok h else refused h a_string))
          × (as_aggregate V (classify V h)
              ≡ (if t == 618 || t == 619 then ok h else refused h struct_or_union)))
  unfolding classify as_logic as_hierarchy as_real as_string as_aggregate wrong_kind object
  classify_views h = (ground arith, ground arith, ground arith, ground arith, ground arith)
