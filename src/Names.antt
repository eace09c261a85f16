-- ===== src/Names.antt =====
-- src/ClangPrinter.cpp: the names of types, values, fields and parameters. A name is modelled by the
-- declarations around it, and by what clang answers for each. Texts that clang mangles are given.
pub mod Mangled
pub mod Level
use bri_ck.Prelude.{
  ℕ, zero, suc, ◌-◌, Bool, true, false, not, ◌&&◌, ◌||◌, Option, none, some, List, [], ◌∷◌, Text,
  String, codes, ltb, ◌==◌, length, take, drop, if◌then◌else◌,
}
use bri_ck.CoqPrinter.{
  Print, ◌>>=◌, ◌>>◌, pure, aborts, out, digits, space, ctor_inline, end_ctor, str,
}
use bri_ck.PrintExpr.Parts.{assert}

-- How a record, or an enumeration, is named.
pub data RecordName : Type 0 where
  identifier : Text → RecordName
  typedef_name : Text → RecordName
  first_field : Text → RecordName
  no_field : RecordName

pub data EnumName : Type 0 where
  enum_identifier : Text → EnumName
  first_enumerator : Text → EnumName
  no_enumerator : EnumName

-- The declarations around a name, the innermost first. A null pointer is the translation unit too.
pub data Scope : Type 0 where
  unit : Scope
  -- the mangled name of the destructor, whether it stands in the unit, and the qualified name
  specialization : Option Text → Bool → Text → Scope
  -- the name, and whether it is empty
  namespace : Option Text → Bool → Scope → Scope
  record_ : RecordName → Scope → Scope
  enum : EnumName → Scope → Scope
  -- the mangled name, and whether it stands in the unit
  function : Text → Bool → Scope
  linkage : Scope → Scope
  unknown : Scope

-- `decimal` is the digits that a stream writes for a number.
module _ (decimal : ℕ → Text) where
  unfoldable pub print_identifier : Text → Print (Unit {0})
  print_identifier name = do digits (decimal (length name)); digits name

  unfoldable pub print_record_name : RecordName → Print (Unit {0})
  unfolding print_identifier
  print_record_name (identifier name) = print_identifier name
  print_record_name (typedef_name name) = print_identifier name
  print_record_name (first_field name) = do out "."; digits name
  print_record_name no_field = out "~<empty>"

  unfoldable pub print_enum_name : EnumName → Print (Unit {0})
  unfolding print_identifier
  print_enum_name (enum_identifier name) = print_identifier name
  print_enum_name (first_enumerator name) = do out "~"; digits name
  print_enum_name no_enumerator = out "~<empty-enum>"

  unfoldable pub print_namespace_name : Option Text → Bool → Print (Unit {0})
  unfolding print_identifier
  print_namespace_name (some name) is_empty = print_identifier name
  print_namespace_name none false = out "~<TODO>"
  print_namespace_name none true = out "~<empty>"

  -- A text that is empty otherwise
  unfoldable pub print_if : Bool → String → Print (Unit {0})
  print_if true w = out w
  print_if false w = out ""

  -- The end of a nested name
  unfoldable pub print_end : ℕ → ℕ → Print (Unit {0})
  print_end remaining compound = if remaining == 0 && ltb 0 compound then out "E" else pure tt

  unfoldable pub print_specialization : Bool → Text → ℕ → Print ℕ
  unfolding print_if
  print_specialization in_unit sout remaining =
      if not in_unit || ltb 0 remaining
      then (do digits sout; print_if (remaining == 0) "E"; pure 2)
      else if ltb (length sout) 3
      then aborts
      else (do out "_Z"; digits (drop 3 sout); pure 1)

  unfoldable pub print_function : Bool → Text → ℕ → Print ℕ
  unfolding print_if
  print_function true sout remaining = do digits sout; pure 1
  print_function false sout remaining = do digits sout; print_if (remaining == 0) "E"; pure 2

  -- `printSimpleContext`: how many components it printed.
  unfoldable pub print_context : Scope → ℕ → Print ℕ
  unfolding print_namespace_name print_record_name print_enum_name print_if print_end
      print_specialization print_function assert
  print_context unit remaining = do out "_Z"; print_if (ltb 1 remaining) "N"; pure 0
  print_context (specialization none in_unit qualified) remaining = do digits qualified; pure 1
  print_context (specialization (some mangled) in_unit qualified) remaining = do
    assert (ltb 3 (length mangled))
    print_specialization in_unit (take (length mangled - 4) mangled) remaining
  print_context (namespace name is_empty parent) remaining = do
    compound ← print_context parent (suc remaining)
    print_namespace_name name is_empty
    print_end remaining compound
    pure (suc compound)
  print_context (record_ name parent) remaining = do
    compound ← print_context parent (suc remaining)
    print_record_name name
    print_end remaining compound
    pure (suc compound)
  print_context (enum name parent) remaining = do
    compound ← print_context parent (suc remaining)
    print_enum_name name
    print_end remaining compound
    pure (suc compound)
  print_context (function mangled in_unit) remaining = do
    assert (ltb 3 (length mangled))
    print_function in_unit mangled remaining
  print_context (linkage parent) remaining = print_context parent remaining
  print_context unknown remaining = aborts

-- A declaration of a type
pub data TypeDecl : Type 0 where
  scoped : Scope → TypeDecl
  c_record : Text → TypeDecl
  other_type : TypeDecl

-- A declaration of a value
pub data ValueDecl : Type 0 where
  enumerator : TypeDecl → Text → ValueDecl
  destructor : TypeDecl → ValueDecl
  mangled : Text → ValueDecl
  plain : Text → ValueDecl

-- A member: a field without a name may have a type that is a record.
pub data Member : Type 0 where
  field : TypeDecl → Text → Member
  unnamed_field : TypeDecl → Option TypeDecl → Member
  method : TypeDecl → Text → Member
  variable : Member
  other_member : Member

-- A parameter with its number, and the parameters of its function
pub data Param : Type 0 where
  named_param : Text → Param
  unnamed_param : ℕ → Option (List ℕ) → Param

-- `getParameterNumber`
unfoldable pub parameter_number : ℕ → ℕ → List ℕ → Option ℕ
parameter_number i d [] = none
parameter_number i d (p ∷ ps) = if p == d then some i else parameter_number (suc i) d ps

module _ (decimal : ℕ → Text) where
  unfoldable pub print_type_name : TypeDecl → Print (Unit {0})
  unfolding print_context
  print_type_name (scoped s) = do out "\""; compound ← print_context decimal s 0; out "\""
  print_type_name (c_record qualified) = do out "\""; digits qualified; out "\""
  print_type_name other_type = aborts

  unfoldable pub print_obj_name : ValueDecl → Print (Unit {0})
  unfolding print_type_name
  print_obj_name (enumerator type name) = do
    ctor_inline "Cenum_const"
    print_type_name type
    out " \""
    digits name
    out "\""
    end_ctor
  print_obj_name (destructor type) = do ctor_inline "DTOR"; print_type_name type; end_ctor
  print_obj_name (mangled name) = do out "\""; digits name; out "\""
  print_obj_name (plain name) = do out "\""; digits name; out "\""

  unfoldable pub print_field : Member → Print (Unit {0})
  unfolding print_type_name
  print_field (field parent name) = do
    ctor_inline "Build_field"
    print_type_name parent
    space
    str name
    end_ctor
  print_field (unnamed_field parent none) = aborts
  print_field (unnamed_field parent (some type)) = do
    ctor_inline "Build_field"
    print_type_name parent
    space
    ctor_inline "Nanon"
    print_type_name type
    end_ctor
    end_ctor
  print_field (method parent name) = do
    ctor_inline "Build_field"
    print_type_name parent
    space
    out "\""
    digits name
    out "\""
    end_ctor
  print_field variable = pure tt
  print_field other_member = aborts

  unfoldable pub print_number : Option ℕ → Print (Unit {0})
  print_number none = aborts
  print_number (some i) = do out "#"; digits (decimal i)

  unfoldable pub print_param_name : Param → Print (Unit {0})
  unfolding parameter_number print_number
  print_param_name (named_param name) = do out "\""; digits name; out "\""
  print_param_name (unnamed_param d none) = aborts
  print_param_name (unnamed_param d (some ps)) = do
    out "\""
    print_number (parameter_number 0 d ps)
    out "\""
