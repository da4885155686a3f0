-- ===== src/Gpi/Handles.antt =====
-- Handles to the simulator's objects, and how they are found: `AnyHandle`, `HierarchyHandle`, `AggregateHandle`,
-- `RealHandle`, `StringHandle`, `top_modules` and `select_top_module` of rustdv/rustdv-gpi/src/rustdv_gpi.rs. What the simulator
-- answers is a parameter; a text is its bytes, and those that it hands out are UTF-8 already.
use rustdv.Base.{
  ℕ, Bool, false, ◌||◌, List, [], ◌∷◌, Option, none, some, Result, ok, err, if◌then◌else◌, ◌==◌,
}
use rustdv.RustdvPath.{Str}

-- An `ObjHandle`, which is not null
abbrev pub Obj : Type 0
Obj = ℕ

pub record Vpi : Type 0 where
  -- `vpi_get` of `vpiType`
  pub vpi_type : Obj → ℕ
  -- `vpi_get` of `vpiSize`, negative sizes as `none`
  pub vpi_size : Obj → Option ℕ
  -- `vpi_get_str` of `vpiName` and of `vpiFullName`; null as `none`
  pub vpi_name : Obj → Option Str
  pub vpi_full_name : Obj → Option Str
  -- `vpi_handle_by_name` in a scope, or in none
  pub handle_by_name : Str → Option Obj → Option Obj
  -- `vpi_iterate` and every `vpi_scan` until null; `none` where `vpi_iterate` gives null
  pub iterate : ℕ → Option Obj → Option (List Obj)
  -- `vpi_get_value` in the format of a string: `none` for another format, and null as `some none`
  pub get_string : Obj → Option (Option Str)

pub record LogicHandle : Type 0 where
  pub h : Obj
  pub width : ℕ

pub data AnyHandle : Type 0 where
  hierarchy : Obj → AnyHandle
  logic : LogicHandle → AnyHandle
  real : Obj → AnyHandle
  string : Obj → AnyHandle
  struct : Obj → AnyHandle
  union : Obj → AnyHandle
  other : Obj → AnyHandle

pub data Expected : Type 0 where
  signal module_scope a_real a_string struct_or_union : Expected

pub data HandleError : Type 0 where
  -- the name and the scope
  not_found : Str → Str → HandleError
  -- the name, what was expected, and the `vpiType` that there is
  wrong_kind_of : Str → Expected → ℕ → HandleError
  no_top_module : HandleError

-- The types of the values that have vector access
abbrev pub is_logic_type : ℕ → Bool
is_logic_type t =
    t == 36
    || t == 48
    || t == 25
    || t == 44
    || t == 29
    || t == 610
    || t == 611
    || t == 612
    || t == 614
    || t == 617
    || t == 620

abbrev pub text_or_empty : Option Str → Str
text_or_empty none = []
text_or_empty (some s) = s

abbrev pub size_or_zero : Option ℕ → ℕ
size_or_zero none = 0
size_or_zero (some n) = n

abbrev pub list_or_empty : Option (List Obj) → List Obj
list_or_empty none = []
list_or_empty (some os) = os

unfoldable pub has_nul : Str → Bool
has_nul [] = false
has_nul (c ∷ cs) = c == 0 || has_nul cs

module _ (V : Vpi) where
  open V use {vpi_type, vpi_size, vpi_name, vpi_full_name, handle_by_name, iterate, get_string}

  unfoldable pub classify : Obj → AnyHandle
  classify h =
      let t = vpi_type h in
      if t == 32
      then hierarchy h
      else if t == 47
      then real h
      else if t == 616
      then string h
      else if t == 618
      then struct h
      else if t == 619
      then union h
      else if is_logic_type t
      then logic (record { h = h; width = size_or_zero (vpi_size h) })
      else other h

  unfoldable pub object : AnyHandle → Obj
  object (hierarchy h) = h
  object (logic l) = l.h
  object (real h) = h
  object (string h) = h
  object (struct h) = h
  object (union h) = h
  object (other h) = h

  unfoldable pub wrong_kind {ℓ} : {A : Type ℓ} → AnyHandle → Expected → Result A HandleError
  unfolding object
  wrong_kind a e =
      err (wrong_kind_of (text_or_empty (vpi_full_name (object a))) e (vpi_type (object a)))

  unfoldable pub as_logic : AnyHandle → Result LogicHandle HandleError
  unfolding wrong_kind
  as_logic (logic l) = ok l
  as_logic (hierarchy h) = wrong_kind (hierarchy h) signal
  as_logic (real h) = wrong_kind (real h) signal
  as_logic (string h) = wrong_kind (string h) signal
  as_logic (struct h) = wrong_kind (struct h) signal
  as_logic (union h) = wrong_kind (union h) signal
  as_logic (other h) = wrong_kind (other h) signal

  unfoldable pub as_hierarchy : AnyHandle → Result Obj HandleError
  unfolding wrong_kind
  as_hierarchy (hierarchy h) = ok h
  as_hierarchy (logic l) = wrong_kind (logic l) module_scope
  as_hierarchy (real h) = wrong_kind (real h) module_scope
  as_hierarchy (string h) = wrong_kind (string h) module_scope
  as_hierarchy (struct h) = wrong_kind (struct h) module_scope
  as_hierarchy (union h) = wrong_kind (union h) module_scope
  as_hierarchy (other h) = wrong_kind (other h) module_scope

  unfoldable pub as_real : AnyHandle → Result Obj HandleError
  unfolding wrong_kind
  as_real (real h) = ok h
  as_real (hierarchy h) = wrong_kind (hierarchy h) a_real
  as_real (logic l) = wrong_kind (logic l) a_real
  as_real (string h) = wrong_kind (string h) a_real
  as_real (struct h) = wrong_kind (struct h) a_real
  as_real (union h) = wrong_kind (union h) a_real
  as_real (other h) = wrong_kind (other h) a_real

  unfoldable pub as_string : AnyHandle → Result Obj HandleError
  unfolding wrong_kind
  as_string (string h) = ok h
  as_string (hierarchy h) = wrong_kind (hierarchy h) a_string
  as_string (logic l) = wrong_kind (logic l) a_string
  as_string (real h) = wrong_kind (real h) a_string
  as_string (struct h) = wrong_kind (struct h) a_string
  as_string (union h) = wrong_kind (union h) a_string
  as_string (other h) = wrong_kind (other h) a_string

  unfoldable pub as_aggregate : AnyHandle → Result Obj HandleError
  unfolding wrong_kind
  as_aggregate (struct h) = ok h
  as_aggregate (union h) = ok h
  as_aggregate (hierarchy h) = wrong_kind (hierarchy h) struct_or_union
  as_aggregate (logic l) = wrong_kind (logic l) struct_or_union
  as_aggregate (real h) = wrong_kind (real h) struct_or_union
  as_aggregate (string h) = wrong_kind (string h) struct_or_union
  as_aggregate (other h) = wrong_kind (other h) struct_or_union
