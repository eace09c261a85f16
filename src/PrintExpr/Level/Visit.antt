-- ===== src/PrintExpr/Level/Visit.antt =====
-- The methods from unsupported expressions to subscripts restore the depth.
use bri_ck.Prelude.{ℕ, suc, Bool, true, false, ◌&&◌, if◌then◌else◌, Option, none, some, List, Text}
use bri_ck.PrintExpr.{Info, t, vt, Var, Operator, Sequencing, UnaryOp, Printers}
use bri_ck.PrintExpr.Units.{units}
use bri_ck.PrintExpr.Parts.{
  sequencing_name, Cast, NamedCast, OperatorMethod, IntegerValue, open_ref, close_ref,
  type_or_option, print_unit,
}
use bri_ck.PrintExpr.Visit.{
  P, visit_unsupported, visit_sequencing, visit_binary, visit_addr_of, visit_unary, visit_enum_ref,
  visit_decl_ref, visit_unresolved_lookup, visit_call, visit_operator_method,
  visit_constructor_conversion, visit_user_cast, visit_cast, visit_builtin, visit_named_cast,
  visit_integer, visit_character, visit_string, visit_predefined, visit_bool, visit_floating,
  visit_static_data, visit_static_method, visit_member, visit_subscript, print_object,
}
use bri_ck.CoqPrinter.Moves.{
  ◌then◌, Moves->>=, Moves-pure, Moves-str, Moves-ctor, Moves-ctor_inline, Moves-end,
  Moves-begin_list, Moves-end_list, Moves-out, Moves-space, Moves-newline, Moves-digits, Moves-if,
  items-IsLevel,
}
use bri_ck.PrintExpr.PartLevel.{
  AreLevel, assert-IsLevel, Moves-operator, Moves-unary, Moves-done, var_ref-IsLevel, cast-IsLevel,
  named_cast-IsLevel, operator_method-IsLevel, string_type-IsLevel, unit-IsLevel,
}
use bri_ck.PrintExpr.Level.{Level, alone-IsLevel}

module _ {T N : Type 0} (pr : Printers T N) (h : AreLevel pr) where
  pub unsupported-Level : (i : Info T) → Level (visit_unsupported pr i)
  unfolding visit_unsupported
  unsupported-Level i = record {
    level = λ s j.
        Moves-ctor "Eunsupported"
        then Moves-str i.class_name
        then Moves-done pr h i vt
        then Moves-pure;
  }

  pub sequencing-Level :
      (op : Sequencing) (fits : Bool) {l r : P}
      → Level l
      → Level r
      → Level (visit_sequencing pr op fits l r)
  unfolding visit_sequencing
  sequencing-Level op fits a b = record {
    level = λ s j.
        Moves-ctor (sequencing_name op)
        then alone-IsLevel a (suc j)
        then Moves-space
        then alone-IsLevel b (suc j)
        then assert-IsLevel fits (suc j)
        then Moves-end
        then Moves-pure;
  }

  pub binary-Level :
      (i : Info T) (op : Operator) {l r : P} → Level l → Level r → Level (visit_binary pr i op l r)
  unfolding visit_binary
  binary-Level i op a b = record {
    level = λ s j.
        Moves-operator op
        then Moves->>= (a.level s (suc j)) λ s₁.
          Moves-space
          then Moves->>= (b.level s₁ (suc j))
              λ s₂. Moves-done pr h i (type_or_option pr) then Moves-pure;
  }

  pub addr_of-Level : {e : P} → Level e → Level (visit_addr_of pr e)
  unfolding visit_addr_of
  addr_of-Level a = record {
    level = λ s j.
        Moves-ctor "Eaddrof" then Moves->>= (a.level s (suc j)) λ s₁. Moves-end then Moves-pure;
  }

  pub unary-Level : (i : Info T) (op : UnaryOp) {e : P} → Level e → Level (visit_unary pr i op e)
  unfolding visit_unary
  unary-Level i op a = record {
    level = λ s j.
        Moves-unary op
        then Moves->>= (a.level s (suc j))
            λ s₁. Moves-done pr h i (type_or_option pr) then Moves-pure;
  }

  pub enum_ref-Level : (i : Info T) (d : N) (type : Option T) → Level (visit_enum_ref pr i d type)
  unfolding visit_enum_ref
  enum_ref-Level i d none = record {
    level = λ s j.
        Moves-ctor_inline "Econst_ref"
        then Moves-ctor_inline "Gname"
        then h.obj_level d (suc (suc j))
        then Moves-end
        then Moves-done pr h i t
        then Moves-pure;
  }
  enum_ref-Level i d (some type) = record {
    level = λ s j.
        Moves-ctor_inline "Eenum_const_at"
        then h.obj_level d (suc j)
        then Moves-space
        then h.type_level type (suc j)
        then Moves-done pr h i t
        then Moves-pure;
  }

  pub decl_ref-Level :
      (i : Info T) (x : Var N) (is_reference : Bool) → Level (visit_decl_ref pr i x is_reference)
  unfolding visit_decl_ref open_ref close_ref
  decl_ref-Level i x true = record {
    level = λ s j.
        Moves-ctor "Eread_ref"
        then Moves-ctor_inline "Evar"
        then var_ref-IsLevel pr h x s (suc (suc j))
        then Moves-done pr h i t
        then Moves-end
        then Moves-pure;
  }
  decl_ref-Level i x false = record {
    level = λ s j.
        Moves-pure
        then Moves-ctor_inline "Evar"
        then var_ref-IsLevel pr h x s (suc j)
        then Moves-done pr h i t
        then Moves-pure
        then Moves-pure;
  }

  pub operator_method-Level :
      (i : Info T) (m : OperatorMethod T N) {object arguments : P}
      → Level object
      → Level arguments
      → Level (visit_operator_method pr i m object arguments)
  unfolding visit_operator_method
  operator_method-Level i m a b = record {
    level = λ s j.
        Moves-ctor "Emember_call"
        then operator_method-IsLevel pr h m (suc j)
        then Moves-space
        then Moves->>= (a.level s (suc j)) λ s₁.
          Moves-space then Moves->>= (b.level s₁ (suc j)) λ s₂. Moves-done pr h i t then Moves-pure;
  }

  pub constructor_conversion-Level : {e : P} → Level e → Level (visit_constructor_conversion pr e)
  unfolding visit_constructor_conversion
  constructor_conversion-Level a = record { level = λ s j. alone-IsLevel a j then Moves-pure }

  pub user_cast-Level : (i : Info T) (d : N) {e : P} → Level e → Level (visit_user_cast pr i d e)
  unfolding visit_user_cast
  user_cast-Level i d a = record {
    level = λ s j.
        Moves-ctor "Ecast"
        then Moves-ctor "Cuser"
        then h.obj_level d (suc (suc j))
        then Moves-end
        then Moves-space
        then Moves->>= (a.level s (suc j)) λ s₁. Moves-done pr h i vt then Moves-pure;
  }

  pub cast-Level : (i : Info T) (c : Cast N) {e : P} → Level e → Level (visit_cast pr i c e)
  unfolding visit_cast
  cast-Level i c a = record {
    level = λ s j.
        Moves-ctor "Ecast"
        then cast-IsLevel pr h c (suc j)
        then Moves-space
        then Moves->>= (a.level s (suc j)) λ s₁. Moves-done pr h i vt then Moves-pure;
  }

  pub builtin-Level : (i : Info T) (d : N) → Level (visit_builtin pr i d)
  unfolding visit_builtin
  builtin-Level i d = record {
    level = λ s j.
        Moves-ctor_inline "Evar"
        then Moves-ctor_inline "Gname"
        then h.obj_level d (suc (suc j))
        then Moves-end
        then Moves-done pr h i t
        then Moves-pure;
  }

  pub named_cast-Level :
      (i : Info T) (c : NamedCast T N) {e : P} → Level e → Level (visit_named_cast pr i c e)
  unfolding visit_named_cast
  named_cast-Level i c a = record {
    level = λ s j.
        Moves-ctor "Ecast"
        then named_cast-IsLevel pr h i c (suc j)
        then Moves-space
        then Moves->>= (a.level s (suc j)) λ s₁. Moves-done pr h i vt then Moves-pure;
  }

  pub integer-Level : (i : Info T) (value : IntegerValue) → Level (visit_integer pr i value)
  unfolding visit_integer
  integer-Level i value = record {
    level = λ s j.
        Moves-ctor_inline "Eint"
        then Moves-digits (if value.is_signed then value.signed_digits else value.unsigned_digits)
        then Moves-out "%Z"
        then Moves-done pr h i t
        then Moves-pure;
  }

  pub character-Level : (i : Info T) (value : Text) → Level (visit_character pr i value)
  unfolding visit_character
  character-Level i value = record {
    level = λ s j.
        Moves-ctor_inline "Echar"
        then Moves-digits value
        then Moves-out "%N"
        then Moves-done pr h i t
        then Moves-pure;
  }

  pub predefined-Level :
      (name : Text) (element : Option T) → Level (visit_predefined pr name element)
  unfolding visit_predefined
  predefined-Level name element = record {
    level = λ s j.
        Moves-ctor "Estring"
        then Moves-ctor "string_to_bytes"
        then Moves-str name
        then Moves-end
        then string_type-IsLevel pr h element (suc j)
        then Moves-end
        then Moves-pure;
  }

  pub bool-Level : (b : Bool) → Level (visit_bool pr b)
  unfolding visit_bool
  bool-Level true = record { level = λ s j. Moves-out "(Ebool true)" then Moves-pure }
  bool-Level false = record { level = λ s j. Moves-out "(Ebool false)" then Moves-pure }

  pub floating-Level : (i : Info T) (value : Text) → Level (visit_floating pr i value)
  unfolding visit_floating
  floating-Level i value = record {
    level = λ s j.
        Moves-ctor "Eunsupported"
        then Moves-space
        then Moves-out "float: \""
        then Moves-digits value
        then Moves-out "\""
        then Moves-done pr h i vt
        then Moves-pure;
  }

  pub static_data-Level :
      (i : Info T) (x : Var N) (is_reference : Bool) {base : P}
      → Level base
      → Level (visit_static_data pr i x is_reference base)
  unfolding visit_static_data open_ref close_ref
  static_data-Level i x true a = record {
    level = λ s j.
        Moves-ctor "Ecomma"
        then Moves->>= (a.level s (suc j)) λ s₁.
          Moves-space
          then Moves-ctor "Eread_ref"
          then Moves-ctor_inline "Evar"
          then var_ref-IsLevel pr h x s₁ (suc (suc (suc j)))
          then Moves-space
          then Moves-done pr h i t
          then Moves-end
          then Moves-end
          then Moves-pure;
  }
  static_data-Level i x false a = record {
    level = λ s j.
        Moves-ctor "Ecomma"
        then Moves->>= (a.level s (suc j)) λ s₁.
          Moves-space
          then Moves-pure
          then Moves-ctor_inline "Evar"
          then var_ref-IsLevel pr h x s₁ (suc (suc j))
          then Moves-space
          then Moves-done pr h i t
          then Moves-pure
          then Moves-end
          then Moves-pure;
  }

  pub static_method-Level :
      (x : Var N) (type : T) {base : P} → Level base → Level (visit_static_method pr x type base)
  unfolding visit_static_method
  static_method-Level x type a = record {
    level = λ s j.
        Moves-ctor "Ecomma"
        then Moves->>= (a.level s (suc j)) λ s₁.
          Moves-space
          then Moves-ctor_inline "Evar"
          then var_ref-IsLevel pr h x s₁ (suc (suc j))
          then Moves-space
          then h.type_level type (suc (suc j))
          then Moves-end
          then Moves-end
          then Moves-pure;
  }

  pub object-Level : (type : Option T) {e : P} → Level e → Level (print_object pr type e)
  unfolding print_object
  object-Level none a = record { level = λ s j. a.level s j }
  object-Level (some pointee) a = record {
    level = λ s j.
        Moves-ctor "Ederef"
        then Moves->>= (a.level s (suc j))
            λ s₁. Moves-space then h.type_level pointee (suc j) then Moves-end then Moves-pure;
  }

  pub member-Level :
      (i : Info T) (d : N) (is_reference : Bool) (arrow : Option T) (fits : Bool) {base : P}
      → Level base
      → Level (visit_member pr i d is_reference arrow fits base)
  unfolding visit_member open_ref close_ref
  member-Level i d true arrow fits a = record {
    level = λ s j.
        Moves-ctor "Eread_ref"
        then Moves-ctor "Emember"
        then Moves->>= ((object-Level arrow a).level s (suc (suc j))) λ s₁.
          assert-IsLevel fits (suc (suc j))
          then Moves-space
          then h.field_level d (suc (suc j))
          then Moves-done pr h i t
          then Moves-end
          then Moves-pure;
  }
  member-Level i d false arrow fits a = record {
    level = λ s j.
        Moves-pure
        then Moves-ctor "Emember"
        then Moves->>= ((object-Level arrow a).level s (suc j)) λ s₁.
          assert-IsLevel fits (suc j)
          then Moves-space
          then h.field_level d (suc j)
          then Moves-done pr h i t
          then Moves-pure
          then Moves-pure;
  }

  pub subscript-Level :
      (i : Info T) {l r : P} → Level l → Level r → Level (visit_subscript pr i l r)
  unfolding visit_subscript
  subscript-Level i a b = record {
    level = λ s j.
        Moves-ctor "Esubscript"
        then Moves->>= (a.level s (suc j)) λ s₁.
          Moves-space
          then Moves->>= (b.level s₁ (suc j))
              λ s₂. Moves-done pr h i (type_or_option pr) then Moves-pure;
  }

  pub unresolved_lookup-Level :
      (i : Info T) (name : Option Text) → Level (visit_unresolved_lookup pr i name)
  unfolding visit_unresolved_lookup
  unresolved_lookup-Level i none = unsupported-Level i
  unresolved_lookup-Level i (some name) = record {
    level = λ s j.
        Moves-if pr.templates (Moves-str name then Moves-pure) ((unsupported-Level i).level s j);
  }

  pub call-Level :
      (i : Info T) (is_dependent : Bool) {callee arguments : P}
      → Level callee
      → Level arguments
      → Level (visit_call pr i is_dependent callee arguments)
  unfolding visit_call
  call-Level i is_dependent a b = record {
    level = λ s j.
        Moves-if (pr.templates && is_dependent)
          (Moves-ctor "Eunresolved_call"
            then Moves->>= (a.level s (suc j)) λ s₁.
              Moves-newline then Moves->>= (b.level s₁ (suc j)) λ s₂. Moves-end then Moves-pure)
          (Moves-ctor "Ecall"
            then Moves->>= (a.level s (suc j)) λ s₁.
              Moves-newline
              then Moves->>= (b.level s₁ (suc j)) λ s₂. Moves-done pr h i t then Moves-pure);
  }

  pub string-Level :
      (width : ℕ) (bytes : List ℕ) (element : Option T)
      → Level (visit_string pr width bytes element)
  unfolding visit_string
  string-Level width bytes element = record {
    level = λ s j.
        Moves-ctor_inline "Estring"
        then Moves-begin_list
        then items-IsLevel (print_unit pr) (unit-IsLevel pr h) (units pr.big_endian width bytes)
            (suc (suc j))
        then Moves-end_list
        then string_type-IsLevel pr h element (suc j)
        then Moves-end
        then Moves-pure;
  }
