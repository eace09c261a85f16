-- ===== src/PrintExpr/Scope/Tree.antt =====
-- What becomes of the opaque names in the visitor of src/PrintExpr.cpp.
use bri_ck.Prelude.{◌≡◌, refl, sym, ap, ◌∙◌, Option, none, some, List, Text}
use bri_ck.OpaqueNames.{OpaqueNames}
use bri_ck.CoqPrinter.{Print, done}
use bri_ck.CoqPrinter.View.{view, gives}
use bri_ck.CoqPrinter.Words.{words, words_of}
use bri_ck.Formatter.{Doc}
use bri_ck.CoqPrinter.Terms.{Term, atom, aborted, flatten, Prints}
use mathlib.Core.Path.{subst}
use bri_ck.PrintExpr.{Printers}
use bri_ck.PrintExpr.Tables.{trait_ctor}
use bri_ck.PrintExpr.Tree.{print_expr}
use bri_ck.PrintExpr.Tree.{
  Expr, Exprs, OptExpr, unsupported, recovery, sequencing, binary, addr_of, unary, enum_ref,
  decl_ref, unresolved_lookup, call, operator_method, operator_other, constructor_conversion,
  user_cast, cast, builtin, named_cast, integer, character, string, predefined, bool, floating,
  static_data, static_method, member, subscript, construct, inherited, member_call, pointer_call,
  other_call, default_arg, conditional, binary_conditional, transparent, paren_list,
  transparent_init, init_list, this, null_ptr, trait_type, trait_expr, offset_of, new, delete,
  cleanups, materialize, opaque, atomic, default_init, va_arg, lambda, implicit_value,
  pseudo_destructor, answer, scalar_value, array_loop, array_index, nil, cons, absent, present,
}
use bri_ck.PrintExpr.Terms.{Denotation}
use bri_ck.PrintExpr.Meaning.{
  wrapped_sem, sequencing_sem, alone_sem, before_sem, list_sem, unsupported_sem, binary_sem,
  unary_sem, decl_ref_sem, member_call_sem, cast_sem, builtin_sem, literal_sem, string_sem,
  predefined_sem, floating_sem, static_data_sem, static_method_sem, subscript_sem,
}
use bri_ck.PrintExpr.Meaning.Objects.{
  present_sem, construct_sem, inherited_sem, pointer_call_sem, conditional_sem, init_list_sem,
  leaf_sem, new_sem, delete_sem, opaque_sem, atomic_sem, va_arg_sem, pseudo_destructor_sem,
  answer_sem, scalar_value_sem, array_index_sem,
}
use bri_ck.PrintExpr.Meaning.Tree.{meaning, meaning_list, meanings, meaning_only, meaning_option}
use bri_ck.PrintExpr.PartWords.{IsPrinting}
use bri_ck.PrintExpr.Words.Tree.{print_expr-meaning}
use bri_ck.PrintExpr.Scope.{
  Extends, Keeps, unchanged, two, three, array_loop-Keeps, binary_conditional-Keeps, bool-Keeps,
  call-Keeps, enum_ref-Keeps, materialize-Keeps, member-Keeps, object-Keeps, offset_of-Keeps,
  paren_list-Keeps, pointed-Keeps, trait_expr-Keeps, trait_type-Keeps, unresolved-Keeps,
}

-- The words that a routine prints, as a term.
term_of : Option (List Text) → Term
term_of none = aborted
term_of (some ws) = atom ws

flatten-term_of : (o : Option (List Text)) → flatten (term_of o) ≡ o
unfolding flatten term_of
flatten-term_of none = refl
flatten-term_of (some ws) = refl

as_printed : {A : Type 0} → (A → Print (Unit {0})) → A → Term
as_printed f a = term_of (words_of (f a))

as_printed-words : {A : Type 0} (f : A → Print (Unit {0})) → Prints f (as_printed f)
unfolding as_printed
as_printed-words f a = sym (flatten-term_of (words_of (f a)))

module _ {T N : Type 0} (pr : Printers T N) where
  printed_terms : Denotation T N
  printed_terms = record {
    type_term = as_printed pr.print_type;
    type_option_term = as_printed pr.print_type_option;
    obj_term = as_printed pr.print_obj_name;
    class_term = as_printed pr.print_type_name;
    field_term = as_printed pr.print_field;
    param_term = as_printed pr.print_param_name;
  }

  printed_terms-IsPrinting : IsPrinting pr printed_terms
  unfolding printed_terms
  printed_terms-IsPrinting = record {
    type_words = as_printed-words pr.print_type;
    type_option_words = as_printed-words pr.print_type_option;
    obj_words = as_printed-words pr.print_obj_name;
    class_words = as_printed-words pr.print_type_name;
    field_words = as_printed-words pr.print_field;
    param_words = as_printed-words pr.print_param_name;
  }

module _ {T N : Type 0} (pr : Printers T N) (tm : Denotation T N) where
  mutual
    unfolding meaning wrapped_sem sequencing_sem alone_sem before_sem list_sem unsupported_sem
        binary_sem unary_sem decl_ref_sem member_call_sem cast_sem builtin_sem literal_sem
        string_sem predefined_sem floating_sem static_data_sem static_method_sem subscript_sem
        present_sem construct_sem inherited_sem pointer_call_sem conditional_sem init_list_sem
        leaf_sem new_sem delete_sem opaque_sem atomic_sem va_arg_sem pseudo_destructor_sem
        answer_sem scalar_value_sem array_index_sem

    pub expr-Keeps : (e : Expr T N) → Keeps (λ s. (meaning pr tm e s).1)
    expr-Keeps (unsupported i) = unchanged
    expr-Keeps (recovery i) = unchanged
    expr-Keeps (sequencing op fits l r) = unchanged
    expr-Keeps (binary i op l r) = two (expr-Keeps l) (expr-Keeps r)
    expr-Keeps (addr_of e) = (expr-Keeps e)
    expr-Keeps (unary i op e) = (expr-Keeps e)
    expr-Keeps (enum_ref i d type) = enum_ref-Keeps pr tm i d type
    expr-Keeps (decl_ref i x is_reference) = unchanged
    expr-Keeps (unresolved_lookup i name) = unresolved-Keeps pr tm i name
    expr-Keeps (call i is_dependent f es) =
        call-Keeps pr tm i is_dependent _ _ (expr-Keeps f) (list-Keeps es)
    expr-Keeps (operator_method i m e es) = two (expr-Keeps e) (list-Keeps es)
    expr-Keeps operator_other = unchanged
    expr-Keeps (constructor_conversion e) = unchanged
    expr-Keeps (user_cast i d e) = (expr-Keeps e)
    expr-Keeps (cast i c e) = (expr-Keeps e)
    expr-Keeps (builtin i d) = unchanged
    expr-Keeps (named_cast i c e) = (expr-Keeps e)
    expr-Keeps (integer i value) = unchanged
    expr-Keeps (character i value) = unchanged
    expr-Keeps (string width bytes element) = unchanged
    expr-Keeps (predefined name element) = unchanged
    expr-Keeps (bool b) = bool-Keeps pr tm b
    expr-Keeps (floating i value) = unchanged
    expr-Keeps (static_data i x is_reference e) = (expr-Keeps e)
    expr-Keeps (static_method x type e) = (expr-Keeps e)
    expr-Keeps (member i d is_reference arrow fits e) =
        member-Keeps pr tm i d is_reference arrow fits _ (expr-Keeps e)
    expr-Keeps (subscript i l r) = two (expr-Keeps l) (expr-Keeps r)
    expr-Keeps (construct i d es) = (list-Keeps es)
    expr-Keeps (inherited i d types) = unchanged
    expr-Keeps (member_call i m arrow e es) =
        two (object-Keeps pr tm arrow _ (expr-Keeps e)) (list-Keeps es)
    expr-Keeps (pointer_call i kind m e es) =
        three (expr-Keeps m) (pointed-Keeps pr tm kind _ (expr-Keeps e)) (list-Keeps es)
    expr-Keeps other_call = unchanged
    expr-Keeps (default_arg e) = (expr-Keeps e)
    expr-Keeps (conditional i c l r) = three (expr-Keeps c) (expr-Keeps l) (expr-Keeps r)
    expr-Keeps (binary_conditional i d common c l r) =
        binary_conditional-Keeps pr tm i d _ _ _ _ (expr-Keeps common) (expr-Keeps c) (expr-Keeps l)
          (expr-Keeps r)
    expr-Keeps (transparent e) = expr-Keeps e
    expr-Keeps (paren_list i is_dependent es) =
        paren_list-Keeps pr tm i is_dependent _ (list-Keeps es)
    expr-Keeps (transparent_init es) = only-Keeps es
    expr-Keeps (init_list i es filler) = two (list-Keeps es) (option-Keeps filler)
    expr-Keeps (this i) = unchanged
    expr-Keeps null_ptr = unchanged
    expr-Keeps (trait_type i k type) = trait_type-Keeps pr tm i (trait_ctor k) type
    expr-Keeps (trait_expr i k e) = trait_expr-Keeps pr tm i (trait_ctor k) _ (expr-Keeps e)
    expr-Keeps (offset_of i is_one d) = offset_of-Keeps pr tm i is_one d
    expr-Keeps (new f type es size init) =
        three (list-Keeps es) (option-Keeps size) (option-Keeps init)
    expr-Keeps (delete is_array f type e) = (expr-Keeps e)
    expr-Keeps (cleanups e) = (expr-Keeps e)
    expr-Keeps (materialize i is_extended e) =
        materialize-Keeps pr tm i is_extended _ (expr-Keeps e)
    expr-Keeps (opaque i d) = unchanged
    expr-Keeps (atomic i op es) = (all-Keeps es)
    expr-Keeps (default_init e) = (expr-Keeps e)
    expr-Keeps (va_arg i e) = (expr-Keeps e)
    expr-Keeps (lambda i) = unchanged
    expr-Keeps (implicit_value i) = unchanged
    expr-Keeps (pseudo_destructor type e) = unchanged
    expr-Keeps (answer b) = unchanged
    expr-Keeps (scalar_value type) = unchanged
    expr-Keeps (array_loop i d size source e) =
        array_loop-Keeps pr tm i d size _ _ (expr-Keeps source) (expr-Keeps e)
    expr-Keeps (array_index i) = unchanged

    list-Keeps : (es : Exprs T N) → Keeps (λ s. (meaning_list pr tm es s).1)
    list-Keeps nil = unchanged
    list-Keeps (cons e es) = two (expr-Keeps e) (all-Keeps es)

    all-Keeps : (es : Exprs T N) → Keeps (λ s. (meanings pr tm es s).1)
    all-Keeps nil = unchanged
    all-Keeps (cons e es) = two (expr-Keeps e) (all-Keeps es)

    only-Keeps : (es : Exprs T N) → Keeps (λ s. (meaning_only pr tm es s).1)
    only-Keeps nil = unchanged
    only-Keeps (cons e nil) = expr-Keeps e
    only-Keeps (cons e (cons f es)) = unchanged

    option-Keeps : (e : OptExpr T N) → Keeps (λ s. (meaning_option pr tm e s).1)
    option-Keeps absent = unchanged
    option-Keeps (present e) = expr-Keeps e

gives-some :
    (a u : OpaqueNames) (x : Option (List Text)) (w : List Text) → some (u, w) ≡ gives a x → a ≡ u
unfolding gives
gives-some a u none w h = absurd (cc h)
gives-some a u (some v) w h = cc

-- If the printer of an expression does not abort, the names that it returns extend those that it is
-- given: the anonymous declarations and the depth of loops are as before, and the numbers of the values
-- that were known are the same.
pub print_expr-Extends :
    {T N : Type 0} (pr : Printers T N) (e : Expr T N) (s u : OpaqueNames) (d : Doc)
    → print_expr pr e s ≡ done u d
    → Extends s u
print_expr-Extends pr e s u d h =
    let tm = printed_terms pr in
    subst (Extends s)
      (gives-some (meaning pr tm e s).1 u (flatten (meaning pr tm e s).0) (words d)
        (sym (ap view h) ∙ print_expr-meaning pr tm (printed_terms-IsPrinting pr) e s))
      ((expr-Keeps pr tm e).keeps s)
