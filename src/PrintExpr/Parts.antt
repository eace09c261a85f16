-- ===== src/PrintExpr/Parts.antt =====
-- src/PrintExpr.cpp: what is printed for an expression besides its operands.
use bri_ck.Prelude.{
  ℕ, suc, Bool, true, false, not, ◌&&◌, ◌||◌, Option, none, some, List, [], ◌∷◌, Text, String,
  if◌then◌else◌,
}
use bri_ck.OpaqueNames.{ℤ, pos, negsuc, OpaqueNames, find_anon}
use bri_ck.CoqPrinter.{
  Print, ◌>>◌, pure, aborts, out, digits, space, ctor, ctor_inline, end_ctor, str, begin_list,
  end_list, print_cons, list_range,
}
use bri_ck.PrintExpr.{
  Info, Done, v, t, o, vt, Var, BinaryOp, add, and, cmp, div, eq, ge, gt, le, lt, mul, ne, or, rem,
  shl, shr, sub, xor, ptr_mem_d, ptr_mem_i, AssignOp, add_assign, and_assign, div_assign,
  mul_assign, or_assign, rem_assign, shl_assign, shr_assign, sub_assign, xor_assign, Operator,
  assign, compound, simple, unsupported_op, Sequencing, comma, logical_and, logical_or, UnaryOp,
  deref, post_inc, pre_inc, post_dec, pre_dec, plus, minus, bit_not, logical_not, unsupported_unary,
  CastKind, lvalue_to_rvalue, dependent, function_to_pointer, no_op, bit_cast, integral,
  integral_to_boolean, pointer_to_boolean, pointer_to_integral, integral_to_pointer,
  array_to_pointer, constructor, builtin_to_pointer, null_to_pointer, to_void, floating_to_integral,
  unsupported_cast, Dispatch, direct, virtual, Printers,
}

-- For a template, what the expression itself has, and else what `Classify` answers.
unfoldable pub print_val_cat : {T : Type 0} → Bool → Info T → Print (Unit {0})
print_val_cat true i =
    if i.val_cat.is_lvalue
    then out "Lvalue"
    else if i.val_cat.is_prvalue
    then out "Prvalue"
    else if i.val_cat.is_xvalue
    then out "Xvalue"
    else aborts
print_val_cat false i =
    if i.classified.is_lvalue
    then out "Lvalue"
    else if i.classified.is_xvalue
    then out "Xvalue"
    else if i.classified.is_prvalue
    then out "Prvalue"
    else aborts

unfoldable pub assert : Bool → Print (Unit {0})
assert true = pure tt
assert false = aborts

unfoldable pub binary_name : BinaryOp → String
binary_name add = "Badd"
binary_name and = "Band"
binary_name cmp = "Bcmp"
binary_name div = "Bdiv"
binary_name eq = "Beq"
binary_name ge = "Bge"
binary_name gt = "Bgt"
binary_name le = "Ble"
binary_name lt = "Blt"
binary_name mul = "Bmul"
binary_name ne = "Bneq"
binary_name or = "Bor"
binary_name rem = "Bmod"
binary_name shl = "Bshl"
binary_name shr = "Bshr"
binary_name sub = "Bsub"
binary_name xor = "Bxor"
binary_name ptr_mem_d = "Bdotp"
binary_name ptr_mem_i = "Bdotip"

unfoldable pub assign_name : AssignOp → String
assign_name add_assign = "Badd"
assign_name and_assign = "Band"
assign_name div_assign = "Bdiv"
assign_name mul_assign = "Bmul"
assign_name or_assign = "Bor"
assign_name rem_assign = "Bmod"
assign_name shl_assign = "Bshl"
assign_name shr_assign = "Bshr"
assign_name sub_assign = "Bsub"
assign_name xor_assign = "Bxor"

-- What stands before the operands.
unfoldable pub print_operator : Operator → Print (Unit {0})
print_operator assign = ctor "Eassign"
print_operator (compound a) = do ctor "Eassign_op"; out (assign_name a); space
print_operator (simple b) = do ctor "Ebinop"; out (binary_name b); space
print_operator (unsupported_op name) = do
  ctor "Ebinop"
  ctor "Bunsupported"
  str name
  end_ctor
  space

unfoldable pub sequencing_name : Sequencing → String
sequencing_name comma = "Ecomma"
sequencing_name logical_and = "Eseqand"
sequencing_name logical_or = "Eseqor"

unfoldable pub print_unary_operator : UnaryOp → Print (Unit {0})
print_unary_operator deref = ctor "Ederef"
print_unary_operator post_inc = ctor "Epostinc"
print_unary_operator pre_inc = ctor "Epreinc"
print_unary_operator post_dec = ctor "Epostdec"
print_unary_operator pre_dec = ctor "Epredec"
print_unary_operator plus = do ctor "Eunop"; out "Uplus"; space
print_unary_operator minus = do ctor "Eunop"; out "Uminus"; space
print_unary_operator bit_not = do ctor "Eunop"; out "Ubnot"; space
print_unary_operator logical_not = do ctor "Eunop"; out "Unot"; space
print_unary_operator (unsupported_unary name) = do
  ctor "Eunop"
  out "(Uunsupported \""
  digits name
  out "\")"
  space

unfoldable pub cast_name : CastKind → String
cast_name lvalue_to_rvalue = "Cl2r"
cast_name dependent = "Cdependent"
cast_name function_to_pointer = "Cfun2ptr"
cast_name no_op = "Cnoop"
cast_name bit_cast = "Cbitcast"
cast_name integral = "Cintegral"
cast_name integral_to_boolean = "Cint2bool"
cast_name pointer_to_boolean = "Cptr2bool"
cast_name pointer_to_integral = "Cptr2int"
cast_name integral_to_pointer = "Cint2ptr"
cast_name array_to_pointer = "Carray2ptr"
cast_name constructor = "Cctor"
cast_name builtin_to_pointer = "Cbuiltin2fun"
cast_name null_to_pointer = "Cnull2ptr"
cast_name to_void = "C2void"
cast_name floating_to_integral = "Cfloat2int"
cast_name unsupported_cast = "Cunsupported"

-- The arguments of `printCast`: a class on the path has no record declaration if its type is missing.
pub data Cast (N : Type 0) : Type 0 where
  plain : CastKind → Cast N
  derived_to_base : List (Option N) → Cast N
  base_to_derived : List (Option N) → Cast N

-- The arguments of a named cast: the types of the operand and of the result are at hand.
pub data NamedCast (T N : Type 0) : Type 0 where
  reinterpret_cast : NamedCast T N
  const_cast : NamedCast T N
  static_cast : Cast N → NamedCast T N
  dynamic_cast : T → NamedCast T N
  other_cast : NamedCast T N

-- A function that allocates or frees, with its type.
pub record Operation (T N : Type 0) : Type 0 where
  pub named : N
  pub type : T

-- A method that is called as a member, with or without a qualifier; `method_type` is missing if the
-- member is no method.
pub record Method (T N : Type 0) : Type 0 where
  pub named : N
  pub has_qualifier : Bool
  pub is_virtual : Bool
  pub method_type : Option T

-- A method that an operator calls
pub record OperatorMethod (T N : Type 0) : Type 0 where
  pub named : N
  pub is_virtual : Bool
  pub method_type : T

-- The value of an integer literal in digits, by the sign of its type
pub record IntegerValue : Type 0 where
  pub is_signed : Bool  -- isSignedIntegerOrEnumerationType()
  pub signed_digits : Text
  pub unsigned_digits : Text

unfoldable pub dispatch_name : Dispatch → String
dispatch_name direct = "Direct"
dispatch_name virtual = "Virtual"

unfoldable pub member_dispatch : Bool → Bool → Dispatch
member_dispatch has_qualifier is_virtual =
    if has_qualifier || not is_virtual then direct else virtual

unfoldable pub operator_dispatch : Bool → Dispatch
operator_dispatch is_virtual = if is_virtual then virtual else direct

-- A variable that is printed by its own name.
abbrev pub is_local : {N : Type 0} → Var N → Bool
is_local x = x.is_in_function && not (x.is_function || x.is_static_local)

module _ {T N : Type 0} (pr : Printers T N) where
  unfoldable pub print_done : Info T → Done → Print (Unit {0})
  unfolding print_val_cat
  print_done i v = do space; print_val_cat pr.templates i; end_ctor
  print_done i t = do space; pr.print_type i.type; end_ctor
  print_done i o = do space; pr.print_type_option i.type; end_ctor
  print_done i vt = do space; print_val_cat pr.templates i; space; pr.print_type i.type; end_ctor

  -- The type, or for a template the type if it is known.
  abbrev pub type_or_option : Done
  type_or_option = if pr.templates then o else t

  unfoldable pub print_named_ref : Bool → Bool → Var N → Print (Unit {0})
  print_named_ref true true x = do ctor_inline "Lname"; pr.print_param_name x.named; end_ctor
  print_named_ref true false x = do ctor_inline "Lname"; str x.name; end_ctor
  print_named_ref false is_param x = do ctor_inline "Gname"; pr.print_obj_name x.named; end_ctor

  -- `printVarRef`, given the result of `find_anon`.
  unfoldable pub print_ref : ℤ → Var N → Print (Unit {0})
  unfolding print_named_ref
  print_ref (pos n) x = do
    ctor_inline "Lname"
    out "\"$"
    digits (pr.decimal (pos n))
    out "\""
    end_ctor
  print_ref (negsuc n) x = print_named_ref (is_local x) x.is_param x

  unfoldable pub print_var_ref : Var N → OpaqueNames → Print (Unit {0})
  unfolding print_ref find_anon
  print_var_ref x s = print_ref (find_anon x.number s) x

  -- `Eread_ref` around a variable of a reference type
  unfoldable pub open_ref : Bool → Print (Unit {0})
  open_ref true = ctor "Eread_ref"
  open_ref false = pure tt

  unfoldable pub close_ref : Bool → Print (Unit {0})
  close_ref true = end_ctor
  close_ref false = pure tt

  unfoldable pub print_base : Option N → Print (Unit {0})
  print_base (some d) = pr.print_type_name d
  print_base none = aborts

  unfoldable pub print_cast : Cast N → Print (Unit {0})
  unfolding print_base
  print_cast (plain k) = out (cast_name k)
  print_cast (derived_to_base path) = do ctor "Cderived2base"; list_range print_base path; end_ctor
  print_cast (base_to_derived path) = do ctor "Cbase2derived"; list_range print_base path; end_ctor

  unfoldable pub print_named_cast : Info T → NamedCast T N → Print (Unit {0})
  unfolding print_cast
  print_named_cast i reinterpret_cast = do
    ctor_inline "Creinterpret"
    pr.print_type i.type
    end_ctor
  print_named_cast i const_cast = do ctor_inline "Cconst"; pr.print_type i.type; end_ctor
  print_named_cast i (static_cast c) = do ctor_inline "Cstatic"; print_cast c; end_ctor
  print_named_cast i (dynamic_cast type) = do
    ctor_inline "Cdynamic"
    pr.print_type type
    space
    pr.print_type i.type
    end_ctor
  print_named_cast i other_cast = aborts

  unfoldable pub print_type_if : Option T → Print (Unit {0})
  print_type_if none = aborts
  print_type_if (some type) = pr.print_type type

  -- The method that a call names, with its type.
  unfoldable pub print_method : Method T N → Print (Unit {0})
  unfolding print_type_if
  print_method m = do
    ctor "inl"
    begin_list
    pr.print_obj_name m.named
    out ","
    space
    out (dispatch_name (member_dispatch m.has_qualifier m.is_virtual))
    out ","
    space
    print_type_if m.method_type
    end_ctor
    end_ctor

  unfoldable pub print_operator_method : OperatorMethod T N → Print (Unit {0})
  print_operator_method m = do
    ctor "inl"
    begin_list
    pr.print_obj_name m.named
    out ","
    space
    out (dispatch_name (operator_dispatch m.is_virtual))
    out ","
    space
    pr.print_type m.method_type
    end_ctor
    end_ctor

  -- The function that `new` or `delete` calls.
  unfoldable pub print_operation : Option (Operation T N) → Print (Unit {0})
  print_operation none = aborts
  print_operation (some f) = do
    out "("
    pr.print_obj_name f.named
    out ","
    space
    pr.print_type f.type
    out ")"

  -- The element type of a string literal, which must be an array.
  unfoldable pub print_string_type : Option T → Print (Unit {0})
  print_string_type none = aborts
  print_string_type (some type) = do space; pr.print_type type

  unfoldable pub print_unit : ℕ → Print (Unit {0})
  print_unit n = do digits (pr.decimal (pos n)); out "%N"

  -- The arguments that an inherited constructor forwards, from number `n` on.
  unfoldable pub print_forwarded : ℕ → List T → Print (Unit {0})
  print_forwarded n [] = pure tt
  print_forwarded n (type ∷ types) = do
    ctor_inline "Evar"
    ctor_inline "Lname"
    out "\"#"
    digits (pr.decimal (pos n))
    out "\""
    end_ctor
    space
    pr.print_type type
    end_ctor
    print_cons
    print_forwarded (suc n) types

  unfoldable pub print_forwarded_list : List T → Print (Unit {0})
  unfolding print_forwarded
  print_forwarded_list [] = out "nil"
  print_forwarded_list (type ∷ types) = do begin_list; print_forwarded 0 (type ∷ types); end_list
