-- ===== src/PrintType/Meaning.antt =====
-- The terms of type `type` that the types of clang stand for.
use bri_ck.Prelude.{
  Bool, true, false, none, some, [], ◌∷◌, Text, codes, not, ◌&&◌, ◌||◌, if◌then◌else◌,
}
use bri_ck.CoqPrinter.Terms.{one, two, Term, Terms, atom, app, list, aborted, word, quoted}
use bri_ck.PrintType.{
  CallingConv, cc_c, cc_x86_reg_call, cc_win64, cc_other, Builtin, Qualifiers, ClangType, QualType,
  OptType, QualTypes, other, attributed, enum_underlying, unary_transform, deduced, template_parm,
  enum, record_, paren, known, builtin, lvalue_reference, rvalue_reference, pointer, typedef,
  function_proto, elaborated, constant_array, subst_template_parm, incomplete_array, variable_array,
  decayed, template_specialization, decltype, typeof_expr, injected_class_name, member_pointer,
  macro_qualified, using_type, null, qual, plain, sugar, nil, cons,
}
use bri_ck.PrintType.Kinds.{kind_ctor}

abbrev pub calling_conv_term : CallingConv → Term
calling_conv_term cc_c = word "CC_C"
calling_conv_term cc_x86_reg_call = word "CC_RegCall"
calling_conv_term cc_win64 = word "CC_MsAbi"
calling_conv_term cc_other = aborted

abbrev pub variadic_term : Bool → Term
variadic_term true = word "Ar_Variadic"
variadic_term false = word "Ar_Definite"

abbrev pub unsupported_term : Text → Term
unsupported_term name = app "Tunsupported" (one (quoted name))

abbrev pub arch_term : Text → Term
arch_term name = atom (codes "(" ∷ codes "Tarch None \"" ∷ name ∷ codes "\"" ∷ codes ")" ∷ [])

-- A builtin type without a name of its own has a term only if it is sizeless, or dependent and
-- printed for a template.
unfoldable pub builtin_term : Bool → Builtin → Term
builtin_term templates b =
    if not templates && b.is_dependent_kind
    then aborted
    else if b.is_character || b.is_floating_point || b.is_integer
    then aborted
    else if b.is_sizeless
    then arch_term b.name
    else if templates && b.is_dependent
    then word "Tdependent"
    else unsupported_term (b.class_name)

unfoldable pub qualified_term : Qualifiers → Term → Term
qualified_term q t =
    if q.is_local_const
    then (if q.is_volatile then app "Qconst_volatile" (one t) else app "Qconst" (one t))
    else if q.is_local_volatile
    then app "Qmut_volatile" (one t)
    else t

-- One term or the other.
unfoldable pub choose : Bool → Term → Term → Term
choose true t u = t
choose false t u = u

module _ {E N : Type 0} (templates : Bool) (expr : E → Term) (name_term : N → Term) where
  abbrev pub coq_type_term : Term
  coq_type_term = choose templates (word "Mtype") (word "type")

  unfoldable mutual
    unfolding builtin_term qualified_term choose

    pub type_term : ClangType E N → Term
    type_term (other name) = unsupported_term name
    type_term (attributed t) = qual_term t
    type_term (enum_underlying base underlying) =
        app "@Tunderlying" (Terms.cons coq_type_term (two (qual_term base) (qual_term underlying)))
    type_term (unary_transform name) = unsupported_term name
    type_term (deduced name t) = sugar_term (unsupported_term name) t
    type_term (template_parm name) = app "Tvar" (one (quoted name))
    type_term (enum d) = app "Tenum" (one (name_term d))
    type_term (record_ d) = app "Tnamed" (one (name_term d))
    type_term (paren t) = qual_term t
    type_term (known k) = word (kind_ctor k)
    type_term (builtin b) = builtin_term templates b
    type_term (lvalue_reference t) = app "Tref" (one (qual_term t))
    type_term (rvalue_reference t) = app "Trv_ref" (one (qual_term t))
    type_term (pointer t) = app "Tptr" (one (qual_term t))
    type_term (typedef d t) = qual_term t
    type_term (function_proto cc variadic t ts) = app "@Tfunction" (
        Terms.cons (calling_conv_term cc)
          (Terms.cons (variadic_term variadic) (two (qual_term t) (params_term ts))))
    type_term (elaborated t) = qual_term t
    type_term (constant_array t size) = app "Tarray" (two (qual_term t) (atom (size ∷ [])))
    type_term (subst_template_parm t) = qual_term t
    type_term (incomplete_array t) = app "Tincomplete_array" (one (qual_term t))
    type_term (variable_array t size) = app "Tvariable_array" (two (qual_term t) (expr size))
    type_term (decayed t u) = app "Tdecay_type" (two (qual_term t) (qual_term u))
    type_term (template_specialization name t) = sugar_term (unsupported_term name) t
    type_term (decltype name t underlying) =
        sugar_term (choose templates (qual_term underlying) (unsupported_term name)) t
    type_term (typeof_expr name t underlying) =
        sugar_term (choose templates (qual_term underlying) (unsupported_term name)) t
    type_term (injected_class_name (some d) t) = app "Tnamed" (one (name_term d))
    type_term (injected_class_name none t) = qual_term t
    type_term (member_pointer d class t) =
        app "Tmember_pointer" (two (choose templates (type_term class) (name_term d)) (qual_term t))
    type_term (macro_qualified t) = qual_term t
    type_term (using_type t) = sugar_term aborted t

    pub qual_term : QualType E N → Term
    qual_term null = aborted
    qual_term (qual q t) = qualified_term q (type_term t)

    pub sugar_term : Term → OptType E N → Term
    sugar_term u plain = u
    sugar_term u (sugar t) = qual_term t

    pub params_term : QualTypes E N → Term
    params_term nil = word "nil"
    params_term (cons t ts) = list (Terms.cons (qual_term t) (qual_terms ts))

    pub qual_terms : QualTypes E N → Terms
    qual_terms nil = Terms.nil
    qual_terms (cons t ts) = Terms.cons (qual_term t) (qual_terms ts)
