-- ===== src/PrintExpr/Visit.antt =====
-- src/PrintExpr.cpp: the `Visit…` methods, over the printers of the operands. A printer of an operand is
-- given the opaque names and returns them as it leaves them.
use bri_ck.Prelude.{ℕ, Bool, true, false, Option, none, some, List, Text, if◌then◌else◌, ◌&&◌}
use bri_ck.OpaqueNames.{OpaqueNames, no_names}
use bri_ck.CoqPrinter.{
  Print, ◌>>=◌, ◌>>◌, pure, out, digits, space, newline, ctor, ctor_inline, end_ctor, str,
  begin_list, end_list, items,
}
use bri_ck.PrintExpr.{Info, t, vt, Var, Operator, Sequencing, UnaryOp, Printers}
use bri_ck.PrintExpr.Parts.{
  assert, print_operator, sequencing_name, print_unary_operator, Cast, NamedCast, OperatorMethod,
  IntegerValue, print_done, type_or_option, print_var_ref, open_ref, close_ref, print_cast,
  print_named_cast, print_operator_method, print_string_type, print_unit,
}
use bri_ck.PrintExpr.Units.{units}

abbrev pub P : Type 0
P = OpaqueNames → Print OpaqueNames

-- `printExpr` without names, which begins with none.
unfoldable pub alone : P → Print (Unit {0})
alone p = p no_names >>= λ s. pure tt

-- A call through a pointer to a member.
pub data Pointer (T : Type 0) : Type 0 where
  indirect : T → Pointer T
  immediate : Pointer T
  other_pointer : Pointer T

module _ {T N : Type 0} (pr : Printers T N) where
  unfoldable pub visit_unsupported : Info T → P
  visit_unsupported i s = do ctor "Eunsupported"; str i.class_name; print_done pr i vt; pure s

  -- `,`, `&&` and `||`: the operands are printed without the opaque names, and the type must fit.
  unfoldable pub visit_sequencing : Sequencing → Bool → P → P → P
  unfolding alone assert
  visit_sequencing op fits l r s = do
    ctor (sequencing_name op)
    alone l
    space
    alone r
    assert fits
    end_ctor
    pure s

  unfoldable pub visit_binary : Info T → Operator → P → P → P
  visit_binary i op l r s = do
    print_operator op
    s₁ ← l s
    space
    s₂ ← r s₁
    print_done pr i (type_or_option pr)
    pure s₂

  unfoldable pub visit_addr_of : P → P
  visit_addr_of e s = do ctor "Eaddrof"; s₁ ← e s; end_ctor; pure s₁

  unfoldable pub visit_unary : Info T → UnaryOp → P → P
  visit_unary i op e s = do
    print_unary_operator op
    s₁ ← e s
    print_done pr i (type_or_option pr)
    pure s₁

  -- A reference to an enumerator, at the type of the enumeration or at another type.
  unfoldable pub visit_enum_ref : Info T → N → Option T → P
  visit_enum_ref i d none s = do
    ctor_inline "Econst_ref"
    ctor_inline "Gname"
    pr.print_obj_name d
    end_ctor
    print_done pr i t
    pure s
  visit_enum_ref i d (some type) s = do
    ctor_inline "Eenum_const_at"
    pr.print_obj_name d
    space
    pr.print_type type
    print_done pr i t
    pure s

  unfoldable pub visit_decl_ref : Info T → Var N → Bool → P
  visit_decl_ref i x is_reference s = do
    open_ref pr is_reference
    ctor_inline "Evar"
    print_var_ref pr x s
    print_done pr i t
    close_ref pr is_reference
    pure s

  unfoldable pub visit_unresolved_lookup : Info T → Option Text → P
  unfolding visit_unsupported
  visit_unresolved_lookup i none s = visit_unsupported i s
  visit_unresolved_lookup i (some name) s =
      if pr.templates then (do str name; pure s) else visit_unsupported i s

  -- A call whose type depends on a template's parameter has none.
  unfoldable pub visit_call : Info T → Bool → P → P → P
  visit_call i is_dependent callee arguments s =
      if pr.templates && is_dependent
      then (do
        ctor "Eunresolved_call"
        s₁ ← callee s
        newline
        s₂ ← arguments s₁
        end_ctor
        pure s₂)
      else (do ctor "Ecall"; s₁ ← callee s; newline; s₂ ← arguments s₁; print_done pr i t; pure s₂)

  unfoldable pub visit_operator_method : Info T → OperatorMethod T N → P → P → P
  visit_operator_method i m object arguments s = do
    ctor "Emember_call"
    print_operator_method pr m
    space
    s₁ ← object s
    space
    s₂ ← arguments s₁
    print_done pr i t
    pure s₂

  unfoldable pub visit_constructor_conversion : P → P
  unfolding alone
  visit_constructor_conversion e s = do alone e; pure s

  unfoldable pub visit_user_cast : Info T → N → P → P
  visit_user_cast i d e s = do
    ctor "Ecast"
    ctor "Cuser"
    pr.print_obj_name d
    end_ctor
    space
    s₁ ← e s
    print_done pr i vt
    pure s₁

  unfoldable pub visit_cast : Info T → Cast N → P → P
  visit_cast i c e s = do
    ctor "Ecast"
    print_cast pr c
    space
    s₁ ← e s
    print_done pr i vt
    pure s₁

  -- An implicit cast of a builtin function
  unfoldable pub visit_builtin : Info T → N → P
  visit_builtin i d s = do
    ctor_inline "Evar"
    ctor_inline "Gname"
    pr.print_obj_name d
    end_ctor
    print_done pr i t
    pure s

  unfoldable pub visit_named_cast : Info T → NamedCast T N → P → P
  visit_named_cast i c e s = do
    ctor "Ecast"
    print_named_cast pr i c
    space
    s₁ ← e s
    print_done pr i vt
    pure s₁

  unfoldable pub visit_integer : Info T → IntegerValue → P
  visit_integer i value s = do
    ctor_inline "Eint"
    digits (if value.is_signed then value.signed_digits else value.unsigned_digits)
    out "%Z"
    print_done pr i t
    pure s

  unfoldable pub visit_character : Info T → Text → P
  visit_character i value s = do
    ctor_inline "Echar"
    digits value
    out "%N"
    print_done pr i t
    pure s

  unfoldable pub visit_string : ℕ → List ℕ → Option T → P
  unfolding units
  visit_string width bytes element s = do
    ctor_inline "Estring"
    begin_list
    items (print_unit pr) (units pr.big_endian width bytes)
    end_list
    print_string_type pr element
    end_ctor
    pure s

  unfoldable pub visit_predefined : Text → Option T → P
  visit_predefined name element s = do
    ctor "Estring"
    ctor "string_to_bytes"
    str name
    end_ctor
    print_string_type pr element
    end_ctor
    pure s

  unfoldable pub visit_bool : Bool → P
  visit_bool true s = do out "(Ebool true)"; pure s
  visit_bool false s = do out "(Ebool false)"; pure s

  unfoldable pub visit_floating : Info T → Text → P
  visit_floating i value s = do
    ctor "Eunsupported"
    space
    out "float: \""
    digits value
    out "\""
    print_done pr i vt
    pure s

  -- A static member of an object: the object is evaluated first.
  unfoldable pub visit_static_data : Info T → Var N → Bool → P → P
  visit_static_data i x is_reference base s = do
    ctor "Ecomma"
    s₁ ← base s
    space
    open_ref pr is_reference
    ctor_inline "Evar"
    print_var_ref pr x s₁
    space
    print_done pr i t
    close_ref pr is_reference
    end_ctor
    pure s₁

  unfoldable pub visit_static_method : Var N → T → P → P
  visit_static_method x type base s = do
    ctor "Ecomma"
    s₁ ← base s
    space
    ctor_inline "Evar"
    print_var_ref pr x s₁
    space
    pr.print_type type
    end_ctor
    end_ctor
    pure s₁

  -- The object on the left of `.` or, with the type that the pointer points to, of `->`
  unfoldable pub print_object : Option T → P → P
  print_object none e s = e s
  print_object (some pointee) e s = do
    ctor "Ederef"
    s₁ ← e s
    space
    pr.print_type pointee
    end_ctor
    pure s₁

  -- `fits`: the object's class is the one that has the member.
  unfoldable pub visit_member : Info T → N → Bool → Option T → Bool → P → P
  unfolding print_object
  visit_member i d is_reference arrow fits base s = do
    open_ref pr is_reference
    ctor "Emember"
    s₁ ← print_object arrow base s
    assert fits
    space
    pr.print_field d
    print_done pr i t
    close_ref pr is_reference
    pure s₁

  unfoldable pub visit_subscript : Info T → P → P → P
  visit_subscript i l r s = do
    ctor "Esubscript"
    s₁ ← l s
    space
    s₂ ← r s₁
    print_done pr i (type_or_option pr)
    pure s₂
