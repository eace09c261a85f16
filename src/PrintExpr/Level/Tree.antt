-- ===== src/PrintExpr/Level/Tree.antt =====
-- The visitor of src/PrintExpr.cpp and its loops restore the depth.
use bri_ck.Prelude.{suc, ◌≡◌}
use bri_ck.OpaqueNames.{OpaqueNames}
use bri_ck.Formatter.{Doc}
use bri_ck.Formatter.Depth.{IsBalanced}
use bri_ck.CoqPrinter.{done, pure, aborts}
use bri_ck.CoqPrinter.Moves.{
  ◌then◌, Moves->>=, Moves-pure, Moves-begin_list, Moves-end_list, Moves-out, Moves-cons, stops,
  IsLevel-IsBalanced,
}
use bri_ck.PrintExpr.{Printers}
use bri_ck.PrintExpr.Visit.{P}
use bri_ck.PrintExpr.Objects.{trait_name, print_before, print_bracketed, print_nil}
use bri_ck.PrintExpr.Tree.{
  Expr, Exprs, OptExpr, unsupported, recovery, sequencing, binary, addr_of, unary, enum_ref,
  decl_ref, unresolved_lookup, call, operator_method, operator_other, constructor_conversion,
  user_cast, cast, builtin, named_cast, integer, character, string, predefined, bool, floating,
  static_data, static_method, member, subscript, construct, inherited, member_call, pointer_call,
  other_call, default_arg, conditional, binary_conditional, transparent, paren_list,
  transparent_init, init_list, this, null_ptr, trait_type, trait_expr, offset_of, new, delete,
  cleanups, materialize, opaque, atomic, default_init, va_arg, lambda, implicit_value,
  pseudo_destructor, answer, scalar_value, array_loop, array_index, nil, cons, absent, present,
}
use bri_ck.PrintExpr.Tree.{print_expr, print_list, print_rest, print_only, print_option}
use bri_ck.PrintExpr.PartLevel.{AreLevel}
use bri_ck.PrintExpr.Level.{Level}
use bri_ck.PrintExpr.Level.Visit.{
  addr_of-Level, binary-Level, bool-Level, builtin-Level, call-Level, cast-Level, character-Level,
  constructor_conversion-Level, decl_ref-Level, enum_ref-Level, floating-Level, integer-Level,
  member-Level, named_cast-Level, operator_method-Level, predefined-Level, sequencing-Level,
  static_data-Level, static_method-Level, string-Level, subscript-Level, unary-Level,
  unresolved_lookup-Level, unsupported-Level, user_cast-Level,
}
use bri_ck.PrintExpr.Level.Objects.{
  answer-Level, array_index-Level, array_loop-Level, atomic-Level, binary_conditional-Level,
  conditional-Level, construct-Level, delete-Level, implicit_value-Level, inherited-Level,
  init_list-Level, lambda-Level, materialize-Level, member_call-Level, missing-Level, new-Level,
  null_ptr-Level, offset_of-Level, opaque-Level, paren_list-Level, pointer_call-Level,
  present-Level, pseudo_destructor-Level, scalar_value-Level, this-Level, trait_expr-Level,
  trait_type-Level, va_arg-Level, wrapped-Level,
}

before-Level : {p q : P} → Level p → Level q → Level (print_before p q)
unfolding print_before
before-Level a b = record {
  level = λ s j. Moves->>= (a.level s j) λ s₁. Moves-cons then b.level s₁ j;
}

bracketed-Level : {p : P} → Level p → Level (print_bracketed p)
unfolding print_bracketed
bracketed-Level a = record {
  level = λ s j.
      Moves-begin_list then Moves->>= (a.level s (suc j)) λ s₁. Moves-end_list then Moves-pure;
}

nil-Level : Level print_nil
unfolding print_nil
nil-Level = record { level = λ s j. Moves-out "nil" then Moves-pure }

nothing-Level : Level pure
nothing-Level = record { level = λ s j. Moves-pure }

aborts-Level : Level (λ s. aborts)
aborts-Level = record { level = λ s j. stops }

module _ {T N : Type 0} (pr : Printers T N) (h : AreLevel pr) where
  mutual
    unfolding print_expr

    pub expr-Level : (e : Expr T N) → Level (print_expr pr e)
    expr-Level (unsupported i) = unsupported-Level pr h i
    expr-Level (recovery i) = unsupported-Level pr h i
    expr-Level (sequencing op fits l r) =
        sequencing-Level pr h op fits (expr-Level l) (expr-Level r)
    expr-Level (binary i op l r) = binary-Level pr h i op (expr-Level l) (expr-Level r)
    expr-Level (addr_of e) = addr_of-Level pr h (expr-Level e)
    expr-Level (unary i op e) = unary-Level pr h i op (expr-Level e)
    expr-Level (enum_ref i d type) = enum_ref-Level pr h i d type
    expr-Level (decl_ref i x is_reference) = decl_ref-Level pr h i x is_reference
    expr-Level (unresolved_lookup i name) = unresolved_lookup-Level pr h i name
    expr-Level (call i is_dependent f es) =
        call-Level pr h i is_dependent (expr-Level f) (list-Level es)
    expr-Level (operator_method i m e es) =
        operator_method-Level pr h i m (expr-Level e) (list-Level es)
    expr-Level operator_other = nothing-Level
    expr-Level (constructor_conversion e) = constructor_conversion-Level pr h (expr-Level e)
    expr-Level (user_cast i d e) = user_cast-Level pr h i d (expr-Level e)
    expr-Level (cast i c e) = cast-Level pr h i c (expr-Level e)
    expr-Level (builtin i d) = builtin-Level pr h i d
    expr-Level (named_cast i c e) = named_cast-Level pr h i c (expr-Level e)
    expr-Level (integer i value) = integer-Level pr h i value
    expr-Level (character i value) = character-Level pr h i value
    expr-Level (string width bytes element) = string-Level pr h width bytes element
    expr-Level (predefined name element) = predefined-Level pr h name element
    expr-Level (bool b) = bool-Level pr h b
    expr-Level (floating i value) = floating-Level pr h i value
    expr-Level (static_data i x is_reference e) =
        static_data-Level pr h i x is_reference (expr-Level e)
    expr-Level (static_method x type e) = static_method-Level pr h x type (expr-Level e)
    expr-Level (member i d is_reference arrow fits e) =
        member-Level pr h i d is_reference arrow fits (expr-Level e)
    expr-Level (subscript i l r) = subscript-Level pr h i (expr-Level l) (expr-Level r)
    expr-Level (construct i d es) = construct-Level pr h i d (list-Level es)
    expr-Level (inherited i d types) = inherited-Level pr h i d types
    expr-Level (member_call i m arrow e es) =
        member_call-Level pr h i m arrow (expr-Level e) (list-Level es)
    expr-Level (pointer_call i kind m e es) =
        pointer_call-Level pr h i kind (expr-Level m) (expr-Level e) (list-Level es)
    expr-Level other_call = aborts-Level
    expr-Level (default_arg e) = wrapped-Level pr h "Eimplicit" (expr-Level e)
    expr-Level (conditional i c l r) =
        conditional-Level pr h i (expr-Level c) (expr-Level l) (expr-Level r)
    expr-Level (binary_conditional i d common c l r) =
        binary_conditional-Level pr h i d (expr-Level common) (expr-Level c) (expr-Level l)
          (expr-Level r)
    expr-Level (transparent e) = expr-Level e
    expr-Level (paren_list i is_dependent es) = paren_list-Level pr h i is_dependent (list-Level es)
    expr-Level (transparent_init es) = only-Level es
    expr-Level (init_list i es filler) =
        init_list-Level pr h i (list-Level es) (option-Level filler)
    expr-Level (this i) = this-Level pr h i
    expr-Level null_ptr = null_ptr-Level pr h
    expr-Level (trait_type i k type) = trait_type-Level pr h i (trait_name pr k) type
    expr-Level (trait_expr i k e) = trait_expr-Level pr h i (trait_name pr k) (expr-Level e)
    expr-Level (offset_of i is_one d) = offset_of-Level pr h i is_one d
    expr-Level (new f type es size init) =
        new-Level pr h f type (list-Level es) (option-Level size) (option-Level init)
    expr-Level (delete is_array f type e) = delete-Level pr h is_array f type (expr-Level e)
    expr-Level (cleanups e) = wrapped-Level pr h "Eandclean" (expr-Level e)
    expr-Level (materialize i is_extended e) = materialize-Level pr h i is_extended (expr-Level e)
    expr-Level (opaque i d) = opaque-Level pr h i d
    expr-Level (atomic i op es) = atomic-Level pr h i op (bracketed-Level (rest-Level es))
    expr-Level (default_init e) = wrapped-Level pr h "Edefault_init_expr" (expr-Level e)
    expr-Level (va_arg i e) = va_arg-Level pr h i (expr-Level e)
    expr-Level (lambda i) = lambda-Level pr h i
    expr-Level (implicit_value i) = implicit_value-Level pr h i
    expr-Level (pseudo_destructor type e) = pseudo_destructor-Level pr h type (expr-Level e)
    expr-Level (answer b) = answer-Level pr h b
    expr-Level (scalar_value type) = scalar_value-Level pr h type
    expr-Level (array_loop i d size source e) =
        array_loop-Level pr h i d size (expr-Level source) (expr-Level e)
    expr-Level (array_index i) = array_index-Level pr h i

    list-Level : (es : Exprs T N) → Level (print_list pr es)
    list-Level nil = nil-Level
    list-Level (cons e es) = bracketed-Level (before-Level (expr-Level e) (rest-Level es))

    rest-Level : (es : Exprs T N) → Level (print_rest pr es)
    rest-Level nil = nothing-Level
    rest-Level (cons e es) = before-Level (expr-Level e) (rest-Level es)

    only-Level : (es : Exprs T N) → Level (print_only pr es)
    only-Level nil = aborts-Level
    only-Level (cons e nil) = expr-Level e
    only-Level (cons e (cons f es)) = aborts-Level

    option-Level : (e : OptExpr T N) → Level (print_option pr e)
    option-Level absent = missing-Level pr h
    option-Level (present e) = present-Level pr h (expr-Level e)

-- If the other printers restore the depth of the formatter, and the printer of an expression does not
-- abort, then what it prints restores the depth, at any depth.
pub print_expr-IsBalanced :
    {T N : Type 0} (pr : Printers T N)
    → AreLevel pr
    → (e : Expr T N) (s u : OpaqueNames) (d : Doc) → print_expr pr e s ≡ done u d
    → IsBalanced d
print_expr-IsBalanced pr h e s u d p =
    IsLevel-IsBalanced (print_expr pr e s) u d ((expr-Level pr h e).level s) p
