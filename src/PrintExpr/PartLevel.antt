-- ===== src/PrintExpr/PartLevel.antt =====
-- The parts of an expression besides its operands restore the depth of the formatter, except those that
-- open or close a parenthesis.
use bri_ck.Prelude.{ℕ, suc, Bool, true, false, Option, none, some, List, [], ◌∷◌}
use bri_ck.OpaqueNames.{ℤ, pos, negsuc, OpaqueNames, find_anon}
use bri_ck.CoqPrinter.Moves.{
  Moves, ◌then◌, IsLevel, Moves-pure, Moves-str, Moves-ctor, Moves-ctor_inline, Moves-end,
  Moves-begin_list, Moves-end_list, Moves-out, Moves-if, Moves-space, Moves-digits, Moves-cons,
  stops, list_range-IsLevel,
}
use bri_ck.PrintExpr.{
  Info, Done, v, t, o, vt, Var, Operator, assign, compound, simple, unsupported_op, UnaryOp, deref,
  post_inc, pre_inc, post_dec, pre_dec, plus, minus, bit_not, logical_not, unsupported_unary,
  Printers,
}
use bri_ck.PrintExpr.Parts.{
  print_val_cat, assert, Cast, plain, derived_to_base, base_to_derived, NamedCast, reinterpret_cast,
  const_cast, static_cast, dynamic_cast, other_cast, Operation, Method, OperatorMethod, is_local,
  print_done, print_operator, print_unary_operator, print_named_ref, print_ref, print_var_ref,
  print_base, print_cast, print_named_cast, print_type_if, print_method, print_operator_method,
  print_operation, print_string_type, print_unit, print_forwarded, print_forwarded_list,
  binary_name, assign_name, cast_name, dispatch_name, member_dispatch, operator_dispatch,
}

-- The other printers restore the depth.
pub record AreLevel {T N : Type 0} (pr : Printers T N) : Type 0 where
  pub type_level : (type : T) → IsLevel (pr.print_type type)
  pub option_level : (type : T) → IsLevel (pr.print_type_option type)
  pub obj_level : (d : N) → IsLevel (pr.print_obj_name d)
  pub class_level : (d : N) → IsLevel (pr.print_type_name d)
  pub field_level : (d : N) → IsLevel (pr.print_field d)
  pub param_level : (d : N) → IsLevel (pr.print_param_name d)

val_cat-IsLevel : {T : Type 0} (templates : Bool) (i : Info T) → IsLevel (print_val_cat templates i)
unfolding print_val_cat
val_cat-IsLevel true i j = Moves-if i.val_cat.is_lvalue (Moves-out "Lvalue") (
    Moves-if i.val_cat.is_prvalue (Moves-out "Prvalue")
      (Moves-if i.val_cat.is_xvalue (Moves-out "Xvalue") stops))
val_cat-IsLevel false i j = Moves-if i.classified.is_lvalue (Moves-out "Lvalue") (
    Moves-if i.classified.is_xvalue (Moves-out "Xvalue")
      (Moves-if i.classified.is_prvalue (Moves-out "Prvalue") stops))

pub assert-IsLevel : (b : Bool) → IsLevel (assert b)
unfolding assert
assert-IsLevel true i = Moves-pure
assert-IsLevel false i = stops

pub Moves-operator : {i : ℕ} (op : Operator) → Moves i (suc i) (print_operator op)
unfolding print_operator
Moves-operator assign = Moves-ctor "Eassign"
Moves-operator (compound a) =
    Moves-ctor "Eassign_op" then Moves-out (assign_name a) then Moves-space
Moves-operator (simple b) = Moves-ctor "Ebinop" then Moves-out (binary_name b) then Moves-space
Moves-operator (unsupported_op name) =
    Moves-ctor "Ebinop"
    then Moves-ctor "Bunsupported"
    then Moves-str name
    then Moves-end
    then Moves-space

pub Moves-unary : {i : ℕ} (op : UnaryOp) → Moves i (suc i) (print_unary_operator op)
unfolding print_unary_operator
Moves-unary deref = Moves-ctor "Ederef"
Moves-unary post_inc = Moves-ctor "Epostinc"
Moves-unary pre_inc = Moves-ctor "Epreinc"
Moves-unary post_dec = Moves-ctor "Epostdec"
Moves-unary pre_dec = Moves-ctor "Epredec"
Moves-unary plus = Moves-ctor "Eunop" then Moves-out "Uplus" then Moves-space
Moves-unary minus = Moves-ctor "Eunop" then Moves-out "Uminus" then Moves-space
Moves-unary bit_not = Moves-ctor "Eunop" then Moves-out "Ubnot" then Moves-space
Moves-unary logical_not = Moves-ctor "Eunop" then Moves-out "Unot" then Moves-space
Moves-unary (unsupported_unary name) =
    Moves-ctor "Eunop"
    then Moves-out "(Uunsupported \""
    then Moves-digits name
    then Moves-out "\")"
    then Moves-space

module _ {T N : Type 0} (pr : Printers T N) (h : AreLevel pr) where
  pub Moves-done : {j : ℕ} (i : Info T) (want : Done) → Moves (suc j) j (print_done pr i want)
  unfolding print_done
  Moves-done {j} i v = Moves-space then val_cat-IsLevel pr.templates i (suc j) then Moves-end
  Moves-done {j} i t = Moves-space then h.type_level i.type (suc j) then Moves-end
  Moves-done {j} i o = Moves-space then h.option_level i.type (suc j) then Moves-end
  Moves-done {j} i vt =
      Moves-space
      then val_cat-IsLevel pr.templates i (suc j)
      then Moves-space
      then h.type_level i.type (suc j)
      then Moves-end

  pub named_ref-IsLevel :
      (b : Bool) (is_param : Bool) (x : Var N) → IsLevel (print_named_ref pr b is_param x)
  unfolding print_named_ref
  named_ref-IsLevel true true x j =
      Moves-ctor_inline "Lname" then h.param_level x.named (suc j) then Moves-end
  named_ref-IsLevel true false x j = Moves-ctor_inline "Lname" then Moves-str x.name then Moves-end
  named_ref-IsLevel false is_param x j =
      Moves-ctor_inline "Gname" then h.obj_level x.named (suc j) then Moves-end

  ref-IsLevel : (n : ℤ) (x : Var N) → IsLevel (print_ref pr n x)
  unfolding print_ref
  ref-IsLevel (pos n) x i =
      Moves-ctor_inline "Lname"
      then Moves-out "\"$"
      then Moves-digits (pr.decimal (pos n))
      then Moves-out "\""
      then Moves-end
  ref-IsLevel (negsuc n) x i = named_ref-IsLevel (is_local x) x.is_param x i

  pub var_ref-IsLevel : (x : Var N) (s : OpaqueNames) → IsLevel (print_var_ref pr x s)
  unfolding print_var_ref
  var_ref-IsLevel x s i = ref-IsLevel (find_anon x.number s) x i

  pub base-IsLevel : (d : Option N) → IsLevel (print_base pr d)
  unfolding print_base
  base-IsLevel (some d) j = h.class_level d j
  base-IsLevel none j = stops

  pub cast-IsLevel : (c : Cast N) → IsLevel (print_cast pr c)
  unfolding print_cast
  cast-IsLevel (plain k) j = Moves-out (cast_name k)
  cast-IsLevel (derived_to_base path) j =
      Moves-ctor "Cderived2base"
      then list_range-IsLevel (print_base pr) base-IsLevel path (suc j)
      then Moves-end
  cast-IsLevel (base_to_derived path) j =
      Moves-ctor "Cbase2derived"
      then list_range-IsLevel (print_base pr) base-IsLevel path (suc j)
      then Moves-end

  pub named_cast-IsLevel : (i : Info T) (c : NamedCast T N) → IsLevel (print_named_cast pr i c)
  unfolding print_named_cast
  named_cast-IsLevel i reinterpret_cast j =
      Moves-ctor_inline "Creinterpret" then h.type_level i.type (suc j) then Moves-end
  named_cast-IsLevel i const_cast j =
      Moves-ctor_inline "Cconst" then h.type_level i.type (suc j) then Moves-end
  named_cast-IsLevel i (static_cast c) j =
      Moves-ctor_inline "Cstatic" then cast-IsLevel c (suc j) then Moves-end
  named_cast-IsLevel i (dynamic_cast type) j =
      Moves-ctor_inline "Cdynamic"
      then h.type_level type (suc j)
      then Moves-space
      then h.type_level i.type (suc j)
      then Moves-end
  named_cast-IsLevel i other_cast j = stops

  pub type_if-IsLevel : (type : Option T) → IsLevel (print_type_if pr type)
  unfolding print_type_if
  type_if-IsLevel none j = stops
  type_if-IsLevel (some type) j = h.type_level type j

  pub method-IsLevel : (m : Method T N) → IsLevel (print_method pr m)
  unfolding print_method
  method-IsLevel m j =
      Moves-ctor "inl"
      then Moves-begin_list
      then h.obj_level m.named (suc (suc j))
      then Moves-out ","
      then Moves-space
      then Moves-out (dispatch_name (member_dispatch m.has_qualifier m.is_virtual))
      then Moves-out ","
      then Moves-space
      then type_if-IsLevel m.method_type (suc (suc j))
      then Moves-end
      then Moves-end

  pub operator_method-IsLevel : (m : OperatorMethod T N) → IsLevel (print_operator_method pr m)
  unfolding print_operator_method
  operator_method-IsLevel m j =
      Moves-ctor "inl"
      then Moves-begin_list
      then h.obj_level m.named (suc (suc j))
      then Moves-out ","
      then Moves-space
      then Moves-out (dispatch_name (operator_dispatch m.is_virtual))
      then Moves-out ","
      then Moves-space
      then h.type_level m.method_type (suc (suc j))
      then Moves-end
      then Moves-end

  pub operation-IsLevel : (f : Option (Operation T N)) → IsLevel (print_operation pr f)
  unfolding print_operation
  operation-IsLevel none j = stops
  operation-IsLevel (some f) j =
      Moves-out "("
      then h.obj_level f.named j
      then Moves-out ","
      then Moves-space
      then h.type_level f.type j
      then Moves-out ")"

  pub string_type-IsLevel : (type : Option T) → IsLevel (print_string_type pr type)
  unfolding print_string_type
  string_type-IsLevel none j = stops
  string_type-IsLevel (some type) j = Moves-space then h.type_level type j

  pub unit-IsLevel : (n : ℕ) → IsLevel (print_unit pr n)
  unfolding print_unit
  unit-IsLevel n j = Moves-digits (pr.decimal (pos n)) then Moves-out "%N"

  pub forwarded-IsLevel : (n : ℕ) (types : List T) → IsLevel (print_forwarded pr n types)
  unfolding print_forwarded
  forwarded-IsLevel n [] j = Moves-pure
  forwarded-IsLevel n (type ∷ types) j =
      Moves-ctor_inline "Evar"
      then Moves-ctor_inline "Lname"
      then Moves-out "\"#"
      then Moves-digits (pr.decimal (pos n))
      then Moves-out "\""
      then Moves-end
      then Moves-space
      then h.type_level type (suc j)
      then Moves-end
      then Moves-cons
      then forwarded-IsLevel (suc n) types j

  pub forwarded_list-IsLevel : (types : List T) → IsLevel (print_forwarded_list pr types)
  unfolding print_forwarded_list
  forwarded_list-IsLevel [] j = Moves-out "nil"
  forwarded_list-IsLevel (type ∷ types) j =
      Moves-begin_list then forwarded-IsLevel 0 (type ∷ types) (suc j) then Moves-end_list
