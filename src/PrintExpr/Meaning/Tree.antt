-- ===== src/PrintExpr/Meaning/Tree.antt =====
-- The meaning of an expression.
use bri_ck.Prelude.{[]}
use bri_ck.OpaqueNames.{OpaqueNames}
use bri_ck.CoqPrinter.Terms.{Terms, atom, app, word, one}
use bri_ck.PrintExpr.{Printers}
use bri_ck.PrintExpr.Tables.{trait_ctor, digits_of}
use bri_ck.PrintExpr.Terms.{
  Denotation, method_term, operator_method_term, cast_term, named_cast_term,
}
use bri_ck.PrintExpr.Meaning.{
  Sem, wrapped_sem, sequencing_sem, alone_sem, before_sem, list_sem, unsupported_sem, binary_sem,
  unary_sem, enum_ref_sem, decl_ref_sem, unresolved_sem, call_sem, member_call_sem, cast_sem,
  builtin_sem, literal_sem, string_sem, predefined_sem, bool_sem, floating_sem, static_data_sem,
  static_method_sem, object_sem, member_sem, subscript_sem,
}
use bri_ck.PrintExpr.Meaning.Objects.{
  aborted_sem, missing_sem, present_sem, construct_sem, inherited_sem, pointed_sem,
  pointer_call_sem, conditional_sem, binary_conditional_sem, paren_list_sem, init_list_sem,
  leaf_sem, null_ptr_sem, trait_type_sem, trait_expr_sem, offset_of_sem, new_sem, delete_sem,
  materialize_sem, opaque_sem, atomic_sem, va_arg_sem, pseudo_destructor_sem, answer_sem,
  scalar_value_sem, array_loop_sem, array_index_sem,
}
use bri_ck.PrintExpr.Tree.{
  Expr, Exprs, OptExpr, unsupported, recovery, sequencing, binary, addr_of, unary, enum_ref,
  decl_ref, unresolved_lookup, call, operator_method, operator_other, constructor_conversion,
  user_cast, cast, builtin, named_cast, integer, character, string, predefined, bool, floating,
  static_data, static_method, member, subscript, construct, inherited, member_call, pointer_call,
  other_call, default_arg, conditional, binary_conditional, transparent, paren_list,
  transparent_init, init_list, this, null_ptr, trait_type, trait_expr, offset_of, new, delete,
  cleanups, materialize, opaque, atomic, default_init, va_arg, lambda, implicit_value,
  pseudo_destructor, answer, scalar_value, array_loop, array_index, nil, cons, absent, present,
}
use bri_ck.Prelude.{codes}

module _ {T N : Type 0} (pr : Printers T N) (tm : Denotation T N) where
  unfoldable mutual
    pub meaning : Expr T N → Sem
    meaning (unsupported i) = unsupported_sem pr tm i i.class_name
    meaning (recovery i) = unsupported_sem pr tm i i.class_name
    meaning (sequencing op fits l r) = sequencing_sem op fits (meaning l) (meaning r)
    meaning (binary i op l r) = binary_sem pr tm i op (meaning l) (meaning r)
    meaning (addr_of e) = wrapped_sem "Eaddrof" (meaning e)
    meaning (unary i op e) = unary_sem pr tm i op (meaning e)
    meaning (enum_ref i d type) = enum_ref_sem pr tm i d type
    meaning (decl_ref i x is_reference) = decl_ref_sem pr tm i x is_reference
    meaning (unresolved_lookup i name) = unresolved_sem pr tm i name
    meaning (call i is_dependent f es) = call_sem pr tm i is_dependent (meaning f) (meaning_list es)
    meaning (operator_method i m e es) =
        member_call_sem pr tm i (operator_method_term pr tm m) (meaning e) (meaning_list es)
    meaning operator_other = λ s. (atom [], s)
    meaning (constructor_conversion e) = alone_sem (meaning e)
    meaning (user_cast i d e) = cast_sem pr tm i (app "Cuser" (one (tm.obj_term d))) (meaning e)
    meaning (cast i c e) = cast_sem pr tm i (cast_term pr tm c) (meaning e)
    meaning (builtin i d) = builtin_sem pr tm i d
    meaning (named_cast i c e) = cast_sem pr tm i (named_cast_term pr tm i c) (meaning e)
    meaning (integer i value) =
        literal_sem pr tm "Eint" i
          (digits_of value.is_signed value.signed_digits value.unsigned_digits) "%Z"
    meaning (character i value) = literal_sem pr tm "Echar" i value "%N"
    meaning (string width bytes element) = string_sem pr tm width bytes element
    meaning (predefined name element) = predefined_sem pr tm name element
    meaning (bool b) = bool_sem pr tm b
    meaning (floating i value) = floating_sem pr tm i value
    meaning (static_data i x is_reference e) = static_data_sem pr tm i x is_reference (meaning e)
    meaning (static_method x type e) = static_method_sem pr tm x type (meaning e)
    meaning (member i d is_reference arrow fits e) =
        member_sem pr tm i d is_reference arrow fits (meaning e)
    meaning (subscript i l r) = subscript_sem pr tm i (meaning l) (meaning r)
    meaning (construct i d es) = construct_sem pr tm i d (meaning_list es)
    meaning (inherited i d types) = inherited_sem pr tm i d types
    meaning (member_call i m arrow e es) =
        member_call_sem pr tm i (method_term pr tm m) (object_sem pr tm arrow (meaning e))
          (meaning_list es)
    meaning (pointer_call i kind m e es) =
        pointer_call_sem pr tm i (meaning m) (pointed_sem pr tm kind (meaning e)) (meaning_list es)
    meaning other_call = aborted_sem
    meaning (default_arg e) = wrapped_sem "Eimplicit" (meaning e)
    meaning (conditional i c l r) = conditional_sem pr tm i (meaning c) (meaning l) (meaning r)
    meaning (binary_conditional i d common c l r) =
        binary_conditional_sem pr tm i d (meaning common) (meaning c) (meaning l) (meaning r)
    meaning (transparent e) = meaning e
    meaning (paren_list i is_dependent es) = paren_list_sem pr tm i is_dependent (meaning_list es)
    meaning (transparent_init es) = meaning_only es
    meaning (init_list i es filler) =
        init_list_sem pr tm i (meaning_list es) (meaning_option filler)
    meaning (this i) = leaf_sem pr tm "Ethis" i
    meaning null_ptr = null_ptr_sem pr tm
    meaning (trait_type i k type) = trait_type_sem pr tm i (trait_ctor k) type
    meaning (trait_expr i k e) = trait_expr_sem pr tm i (trait_ctor k) (meaning e)
    meaning (offset_of i is_one d) = offset_of_sem pr tm i is_one d
    meaning (new f type es size init) =
        new_sem pr tm f type (meaning_list es) (meaning_option size) (meaning_option init)
    meaning (delete is_array f type e) = delete_sem pr tm is_array f type (meaning e)
    meaning (cleanups e) = wrapped_sem "Eandclean" (meaning e)
    meaning (materialize i is_extended e) = materialize_sem pr tm i is_extended (meaning e)
    meaning (opaque i d) = opaque_sem pr tm i d
    meaning (atomic i op es) = atomic_sem pr tm i op (list_sem (meanings es))
    meaning (default_init e) = wrapped_sem "Edefault_init_expr" (meaning e)
    meaning (va_arg i e) = va_arg_sem pr tm i (meaning e)
    meaning (lambda i) = unsupported_sem pr tm i (codes "lambda")
    meaning (implicit_value i) = leaf_sem pr tm "Eimplicit_init" i
    meaning (pseudo_destructor type e) = pseudo_destructor_sem pr tm type (meaning e)
    meaning (answer b) = answer_sem pr tm b
    meaning (scalar_value type) = scalar_value_sem pr tm type
    meaning (array_loop i d size source e) =
        array_loop_sem pr tm i d size (meaning source) (meaning e)
    meaning (array_index i) = array_index_sem pr tm i

    pub meaning_list : Exprs T N → Sem
    meaning_list nil = λ s. (word "nil", s)
    meaning_list (cons e es) = list_sem (before_sem (meaning e) (meanings es))

    pub meanings : Exprs T N → OpaqueNames → Terms × OpaqueNames
    meanings nil = λ s. (Terms.nil, s)
    meanings (cons e es) = before_sem (meaning e) (meanings es)

    pub meaning_only : Exprs T N → Sem
    meaning_only nil = aborted_sem
    meaning_only (cons e nil) = meaning e
    meaning_only (cons e (cons f es)) = aborted_sem

    pub meaning_option : OptExpr T N → Sem
    meaning_option absent = missing_sem
    meaning_option (present e) = present_sem (meaning e)
