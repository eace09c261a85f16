-- ===== src/PrintExpr/Words/Tree.antt =====
-- The visitor of src/PrintExpr.cpp and its loops print the words of the terms.
use bri_ck.Prelude.{◌≡◌, refl, []}
use bri_ck.OpaqueNames.{OpaqueNames}
use bri_ck.CoqPrinter.{pure, aborts}
use bri_ck.CoqPrinter.Words.{wording}
use bri_ck.CoqPrinter.View.{view, gives, viewing}
use bri_ck.CoqPrinter.Terms.{Terms, atom, word, flatten}
use bri_ck.PrintExpr.{Printers}
use bri_ck.PrintExpr.Visit.{P}
use bri_ck.PrintExpr.Objects.{print_before, print_bracketed, print_nil}
use bri_ck.PrintExpr.Tree.{
  Expr, Exprs, OptExpr, unsupported, recovery, sequencing, binary, addr_of, unary, enum_ref,
  decl_ref, unresolved_lookup, call, operator_method, operator_other, constructor_conversion,
  user_cast, cast, builtin, named_cast, integer, character, string, predefined, bool, floating,
  static_data, static_method, member, subscript, construct, inherited, member_call, pointer_call,
  other_call, default_arg, conditional, binary_conditional, transparent, paren_list,
  transparent_init, init_list, this, null_ptr, trait_type, trait_expr, offset_of, new, delete,
  cleanups, materialize, opaque, atomic, default_init, va_arg, lambda, implicit_value,
  pseudo_destructor, answer, scalar_value, array_loop, array_index, nil, cons, absent, present,
}
use bri_ck.PrintExpr.Tree.{print_expr, print_list, print_rest, print_only, print_option}
use bri_ck.PrintExpr.Terms.{Denotation}
use bri_ck.PrintExpr.Meaning.{Sem, before_sem, list_sem}
use bri_ck.PrintExpr.Meaning.Objects.{aborted_sem}
use bri_ck.PrintExpr.Tables.{trait_ctor}
use bri_ck.PrintExpr.TableWords.{trait_name-ctor}
use bri_ck.PrintExpr.Meaning.Tree.{meaning, meaning_list, meanings, meaning_only, meaning_option}
use bri_ck.PrintExpr.PartWords.{IsPrinting}
use bri_ck.PrintExpr.Words.{Shows, operand, ShowsAll, list_items}
use bri_ck.PrintExpr.Words.Visit.{
  addr_of-Shows, binary-Shows, bool-Shows, builtin-Shows, call-Shows, cast-Shows, character-Shows,
  constructor_conversion-Shows, decl_ref-Shows, enum_ref-Shows, floating-Shows, integer-Shows,
  member-Shows, named_cast-Shows, operator_method-Shows, predefined-Shows, sequencing-Shows,
  static_data-Shows, static_method-Shows, string-Shows, subscript-Shows, unary-Shows,
  unresolved-Shows, unsupported-Shows, user_cast-Shows,
}
use bri_ck.PrintExpr.Words.Objects.{
  answer-Shows, array_index-Shows, array_loop-Shows, atomic-Shows, binary_conditional-Shows,
  conditional-Shows, construct-Shows, delete-Shows, implicit_value-Shows, inherited-Shows,
  init_list-Shows, lambda-Shows, materialize-Shows, member_call-Shows, missing-Shows, new-Shows,
  null_ptr-Shows, offset_of-Shows, opaque-Shows, paren_list-Shows, pointer_call-Shows,
  present-Shows, pseudo_destructor-Shows, scalar_value-Shows, this-Shows, trait_expr-Shows,
  trait_type-Shows, va_arg-Shows, wrapped-Shows,
}

before-ShowsAll :
    {p q : P} {m : Sem} {ms : OpaqueNames → Terms × OpaqueNames}
    → Shows p m
    → ShowsAll q ms
    → ShowsAll (print_before p q) (before_sem m ms)
unfolding print_before before_sem flatten
before-ShowsAll a b = record { all_shown = λ s. simp (viewing, wording, operand a, b.all_shown) }

bracketed-Shows :
    {p : P} {ms : OpaqueNames → Terms × OpaqueNames}
    → ShowsAll p ms
    → Shows (print_bracketed p) (list_sem ms)
unfolding print_bracketed list_sem flatten
bracketed-Shows a = record { shown = λ s. simp (viewing, wording, list_items a) }

end-ShowsAll : ShowsAll pure (λ s. (Terms.nil, s))
unfolding gives flatten
end-ShowsAll = record { all_shown = λ s. refl }

nil-Shows : Shows print_nil (λ s. (word "nil", s))
unfolding print_nil flatten
nil-Shows = record { shown = λ s. simp (viewing, wording) }

nothing-Shows : Shows pure (λ s. (atom [], s))
unfolding gives flatten
nothing-Shows = record { shown = λ s. refl }

aborts-Shows : Shows (λ s. aborts) aborted_sem
unfolding gives flatten
aborts-Shows = record { shown = λ s. refl }

module _ {T N : Type 0} (pr : Printers T N) (tm : Denotation T N) (h : IsPrinting pr tm) where
  mutual
    unfolding print_expr meaning

    pub expr-Shows : (e : Expr T N) → Shows (print_expr pr e) (meaning pr tm e)
    expr-Shows (unsupported i) = unsupported-Shows pr tm h i
    expr-Shows (recovery i) = unsupported-Shows pr tm h i
    expr-Shows (sequencing op fits l r) =
        sequencing-Shows pr tm h op fits (expr-Shows l) (expr-Shows r)
    expr-Shows (binary i op l r) = binary-Shows pr tm h i op (expr-Shows l) (expr-Shows r)
    expr-Shows (addr_of e) = addr_of-Shows pr tm h (expr-Shows e)
    expr-Shows (unary i op e) = unary-Shows pr tm h i op (expr-Shows e)
    expr-Shows (enum_ref i d type) = enum_ref-Shows pr tm h i d type
    expr-Shows (decl_ref i x is_reference) = decl_ref-Shows pr tm h i x is_reference
    expr-Shows (unresolved_lookup i name) = unresolved-Shows pr tm h i name
    expr-Shows (call i is_dependent f es) =
        call-Shows pr tm h i is_dependent (expr-Shows f) (list-Shows es)
    expr-Shows (operator_method i m e es) =
        operator_method-Shows pr tm h i m (expr-Shows e) (list-Shows es)
    expr-Shows operator_other = nothing-Shows
    expr-Shows (constructor_conversion e) = constructor_conversion-Shows pr tm h (expr-Shows e)
    expr-Shows (user_cast i d e) = user_cast-Shows pr tm h i d (expr-Shows e)
    expr-Shows (cast i c e) = cast-Shows pr tm h i c (expr-Shows e)
    expr-Shows (builtin i d) = builtin-Shows pr tm h i d
    expr-Shows (named_cast i c e) = named_cast-Shows pr tm h i c (expr-Shows e)
    expr-Shows (integer i value) = integer-Shows pr tm h i value
    expr-Shows (character i value) = character-Shows pr tm h i value
    expr-Shows (string width bytes element) = string-Shows pr tm h width bytes element
    expr-Shows (predefined name element) = predefined-Shows pr tm h name element
    expr-Shows (bool b) = bool-Shows pr tm h b
    expr-Shows (floating i value) = floating-Shows pr tm h i value
    expr-Shows (static_data i x is_reference e) =
        static_data-Shows pr tm h i x is_reference (expr-Shows e)
    expr-Shows (static_method x type e) = static_method-Shows pr tm h x type (expr-Shows e)
    expr-Shows (member i d is_reference arrow fits e) =
        member-Shows pr tm h i d is_reference arrow fits (expr-Shows e)
    expr-Shows (subscript i l r) = subscript-Shows pr tm h i (expr-Shows l) (expr-Shows r)
    expr-Shows (construct i d es) = construct-Shows pr tm h i d (list-Shows es)
    expr-Shows (inherited i d types) = inherited-Shows pr tm h i d types
    expr-Shows (member_call i m arrow e es) =
        member_call-Shows pr tm h i m arrow (expr-Shows e) (list-Shows es)
    expr-Shows (pointer_call i kind m e es) =
        pointer_call-Shows pr tm h i kind (expr-Shows m) (expr-Shows e) (list-Shows es)
    expr-Shows other_call = aborts-Shows
    expr-Shows (default_arg e) = wrapped-Shows pr tm h "Eimplicit" (expr-Shows e)
    expr-Shows (conditional i c l r) =
        conditional-Shows pr tm h i (expr-Shows c) (expr-Shows l) (expr-Shows r)
    expr-Shows (binary_conditional i d common c l r) =
        binary_conditional-Shows pr tm h i d (expr-Shows common) (expr-Shows c) (expr-Shows l)
          (expr-Shows r)
    expr-Shows (transparent e) = expr-Shows e
    expr-Shows (paren_list i is_dependent es) =
        paren_list-Shows pr tm h i is_dependent (list-Shows es)
    expr-Shows (transparent_init es) = only-Shows es
    expr-Shows (init_list i es filler) =
        init_list-Shows pr tm h i (list-Shows es) (option-Shows filler)
    expr-Shows (this i) = this-Shows pr tm h i
    expr-Shows null_ptr = null_ptr-Shows pr tm h
    expr-Shows (trait_type i k type) =
        rw (trait_name-ctor pr k) (trait_type-Shows pr tm h i (trait_ctor k) type)
    expr-Shows (trait_expr i k e) =
        rw (trait_name-ctor pr k) (trait_expr-Shows pr tm h i (trait_ctor k) (expr-Shows e))
    expr-Shows (offset_of i is_one d) = offset_of-Shows pr tm h i is_one d
    expr-Shows (new f type es size init) =
        new-Shows pr tm h f type (list-Shows es) (option-Shows size) (option-Shows init)
    expr-Shows (delete is_array f type e) = delete-Shows pr tm h is_array f type (expr-Shows e)
    expr-Shows (cleanups e) = wrapped-Shows pr tm h "Eandclean" (expr-Shows e)
    expr-Shows (materialize i is_extended e) =
        materialize-Shows pr tm h i is_extended (expr-Shows e)
    expr-Shows (opaque i d) = opaque-Shows pr tm h i d
    expr-Shows (atomic i op es) = atomic-Shows pr tm h i op (bracketed-Shows (rest-ShowsAll es))
    expr-Shows (default_init e) = wrapped-Shows pr tm h "Edefault_init_expr" (expr-Shows e)
    expr-Shows (va_arg i e) = va_arg-Shows pr tm h i (expr-Shows e)
    expr-Shows (lambda i) = lambda-Shows pr tm h i
    expr-Shows (implicit_value i) = implicit_value-Shows pr tm h i
    expr-Shows (pseudo_destructor type e) = pseudo_destructor-Shows pr tm h type (expr-Shows e)
    expr-Shows (answer b) = answer-Shows pr tm h b
    expr-Shows (scalar_value type) = scalar_value-Shows pr tm h type
    expr-Shows (array_loop i d size source e) =
        array_loop-Shows pr tm h i d size (expr-Shows source) (expr-Shows e)
    expr-Shows (array_index i) = array_index-Shows pr tm h i

    list-Shows : (es : Exprs T N) → Shows (print_list pr es) (meaning_list pr tm es)
    list-Shows nil = nil-Shows
    list-Shows (cons e es) = bracketed-Shows (before-ShowsAll (expr-Shows e) (rest-ShowsAll es))

    rest-ShowsAll : (es : Exprs T N) → ShowsAll (print_rest pr es) (meanings pr tm es)
    rest-ShowsAll nil = end-ShowsAll
    rest-ShowsAll (cons e es) = before-ShowsAll (expr-Shows e) (rest-ShowsAll es)

    only-Shows : (es : Exprs T N) → Shows (print_only pr es) (meaning_only pr tm es)
    only-Shows nil = aborts-Shows
    only-Shows (cons e nil) = expr-Shows e
    only-Shows (cons e (cons f es)) = aborts-Shows

    option-Shows : (e : OptExpr T N) → Shows (print_option pr e) (meaning_option pr tm e)
    option-Shows absent = missing-Shows pr tm h
    option-Shows (present e) = present-Shows pr tm h (expr-Shows e)

-- If the other printers print the words of their terms, the printer of an expression prints the words of
-- the expression's meaning at the names it is given, returns the names that the meaning leaves, and aborts
-- just where there is no term. The meaning has its own tables of constructors, its own choice of
-- categories, dispatch and local names, and its own reading of the bytes of strings.
pub print_expr-meaning :
    {T N : Type 0} (pr : Printers T N) (tm : Denotation T N)
    → IsPrinting pr tm
    → (e : Expr T N) (s : OpaqueNames)
    → view (print_expr pr e s) ≡ gives (meaning pr tm e s).1 (flatten (meaning pr tm e s).0)
print_expr-meaning pr tm h e s = (expr-Shows pr tm h e).shown s
