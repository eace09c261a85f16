-- ===== src/PrintType/Level.antt =====
-- Printing a type restores the depth of the formatter, which `printType` asserts.
use bri_ck.Prelude.{
  suc, ◌≡◌, Bool, true, false, not, ◌&&◌, ◌||◌, if◌then◌else◌, none, some, Text, String,
}
use bri_ck.Formatter.{Doc}
use bri_ck.Formatter.Depth.{IsBalanced}
use bri_ck.CoqPrinter.{Print, ◌>>◌, done, ctor_inline, end_ctor}
use bri_ck.CoqPrinter.Moves.{
  ◌then◌, IsLevel, Moves-pure, Moves-str, Moves-ctor, Moves-ctor_inline, Moves-end,
  Moves-begin_list, Moves-end_list, Moves-out, Moves-space, Moves-digits, Moves-arch, Moves-cons,
  Moves-if, stops, IsLevel-IsBalanced,
}
use bri_ck.PrintType.{
  CallingConv, cc_c, cc_x86_reg_call, cc_win64, cc_other, Builtin, Qualifiers, ClangType, QualType,
  OptType, QualTypes, kind_name, other, attributed, enum_underlying, unary_transform, deduced,
  template_parm, enum, record_, paren, known, builtin, lvalue_reference, rvalue_reference, pointer,
  typedef, function_proto, elaborated, constant_array, subst_template_parm, incomplete_array,
  variable_array, decayed, template_specialization, decltype, typeof_expr, injected_class_name,
  member_pointer, macro_qualified, using_type, null, qual, plain, sugar, nil, cons,
  print_calling_conv, print_variadic, unsupported_type, print_builtin, print_qualified, coq_type,
  print_named, print_type, print_qual_type, print_sugar, print_params, print_rest,
}

conv-IsLevel : (c : CallingConv) → IsLevel (print_calling_conv c)
unfolding print_calling_conv
conv-IsLevel cc_c i = Moves-out "CC_C"
conv-IsLevel cc_x86_reg_call i = Moves-out "CC_RegCall"
conv-IsLevel cc_win64 i = Moves-out "CC_MsAbi"
conv-IsLevel cc_other i = stops

variadic-IsLevel : (b : Bool) → IsLevel (print_variadic b)
unfolding print_variadic
variadic-IsLevel true i = Moves-out "Ar_Variadic"
variadic-IsLevel false i = Moves-out "Ar_Definite"

unsupported-IsLevel : (name : Text) → IsLevel (unsupported_type name)
unfolding unsupported_type
unsupported-IsLevel name i = Moves-ctor_inline "Tunsupported" then Moves-str name then Moves-end

builtin-IsLevel : (templates : Bool) (b : Builtin) → IsLevel (print_builtin templates b)
unfolding print_builtin
builtin-IsLevel templates b i = Moves-if (not templates && b.is_dependent_kind) stops (
    Moves-if (b.is_character || b.is_floating_point || b.is_integer) stops (
      Moves-if b.is_sizeless (Moves-arch b.name) (
        Moves-if (templates && b.is_dependent) (Moves-out "Tdependent")
          (unsupported-IsLevel (b.class_name) i))))

wrapped-IsLevel :
    (c : String) (p : Print (Unit {0})) → IsLevel p → IsLevel (do ctor_inline c; p; end_ctor)
wrapped-IsLevel c p h i = Moves-ctor_inline c then h (suc i) then Moves-end

qualified-IsLevel :
    (q : Qualifiers) (p : Print (Unit {0})) → IsLevel p → IsLevel (print_qualified q p)
unfolding print_qualified
qualified-IsLevel q p h i =
    Moves-if q.is_local_const
      (Moves-if q.is_volatile (wrapped-IsLevel "Qconst_volatile" p h i)
        (wrapped-IsLevel "Qconst" p h i))
      (Moves-if q.is_local_volatile (wrapped-IsLevel "Qmut_volatile" p h i) (h i))

module _ {E N : Type 0} (templates : Bool) (print_expr : E → Print (Unit {0}))
    (print_type_name : N → Print (Unit {0})) (expr_level : (e : E) → IsLevel (print_expr e))
    (name_level : (d : N) → IsLevel (print_type_name d)) where
  coq_type-IsLevel : IsLevel (coq_type templates print_expr print_type_name)
  unfolding coq_type
  coq_type-IsLevel i = Moves-if templates (Moves-out "Mtype") (Moves-out "type")

  named-IsLevel : (d : N) → IsLevel (print_named templates print_expr print_type_name d)
  unfolding print_named
  named-IsLevel d i = Moves-ctor_inline "Tnamed" then name_level d (suc i) then Moves-end

  mutual
    unfolding print_type

    type-IsLevel : (t : ClangType E N) → IsLevel (print_type templates print_expr print_type_name t)
    type-IsLevel (other name) i = unsupported-IsLevel name i
    type-IsLevel (attributed t) i = qual-IsLevel t i
    type-IsLevel (enum_underlying base underlying) i =
        Moves-ctor_inline "@Tunderlying"
        then coq_type-IsLevel (suc i)
        then Moves-space
        then qual-IsLevel base (suc i)
        then Moves-space
        then qual-IsLevel underlying (suc i)
        then Moves-end
    type-IsLevel (unary_transform name) i = unsupported-IsLevel name i
    type-IsLevel (deduced name t) i = sugar-IsLevel t _ (unsupported-IsLevel name) i
    type-IsLevel (template_parm name) i = Moves-ctor "Tvar" then Moves-str name then Moves-end
    type-IsLevel (enum d) i = Moves-ctor_inline "Tenum" then name_level d (suc i) then Moves-end
    type-IsLevel (record_ d) i = named-IsLevel d i
    type-IsLevel (paren t) i = qual-IsLevel t i
    type-IsLevel (known k) i = Moves-out (kind_name k)
    type-IsLevel (builtin b) i = builtin-IsLevel templates b i
    type-IsLevel (lvalue_reference t) i =
        Moves-ctor_inline "Tref" then qual-IsLevel t (suc i) then Moves-end
    type-IsLevel (rvalue_reference t) i =
        Moves-ctor_inline "Trv_ref" then qual-IsLevel t (suc i) then Moves-end
    type-IsLevel (pointer t) i = Moves-ctor_inline "Tptr" then qual-IsLevel t (suc i) then Moves-end
    type-IsLevel (typedef d t) i = qual-IsLevel t i
    type-IsLevel (function_proto conv variadic t ts) i =
        Moves-ctor "@Tfunction"
        then conv-IsLevel conv (suc i)
        then Moves-space
        then variadic-IsLevel variadic (suc i)
        then Moves-space
        then qual-IsLevel t (suc i)
        then Moves-space
        then params-IsLevel ts (suc i)
        then Moves-end
    type-IsLevel (elaborated t) i = qual-IsLevel t i
    type-IsLevel (constant_array t size) i =
        Moves-ctor "Tarray"
        then qual-IsLevel t (suc i)
        then Moves-space
        then Moves-digits size
        then Moves-end
    type-IsLevel (subst_template_parm t) i = qual-IsLevel t i
    type-IsLevel (incomplete_array t) i =
        Moves-ctor "Tincomplete_array" then qual-IsLevel t (suc i) then Moves-end
    type-IsLevel (variable_array t size) i =
        Moves-ctor "Tvariable_array"
        then qual-IsLevel t (suc i)
        then Moves-space
        then expr_level size (suc i)
        then Moves-end
    type-IsLevel (decayed t u) i =
        Moves-ctor "Tdecay_type"
        then qual-IsLevel t (suc i)
        then Moves-space
        then qual-IsLevel u (suc i)
        then Moves-end
    type-IsLevel (template_specialization name t) i = sugar-IsLevel t _ (unsupported-IsLevel name) i
    type-IsLevel (decltype name t underlying) i =
        sugar-IsLevel t _
          (λ k. Moves-if templates (qual-IsLevel underlying k) (unsupported-IsLevel name k)) i
    type-IsLevel (typeof_expr name t underlying) i =
        sugar-IsLevel t _
          (λ k. Moves-if templates (qual-IsLevel underlying k) (unsupported-IsLevel name k)) i
    type-IsLevel (injected_class_name (some d) t) i = named-IsLevel d i
    type-IsLevel (injected_class_name none t) i = qual-IsLevel t i
    type-IsLevel (member_pointer d class t) i =
        Moves-ctor "Tmember_pointer"
        then Moves-if templates (type-IsLevel class (suc i)) (name_level d (suc i))
        then Moves-space
        then qual-IsLevel t (suc i)
        then Moves-end
    type-IsLevel (macro_qualified t) i = qual-IsLevel t i
    type-IsLevel (using_type t) i = sugar-IsLevel t _ (λ k. stops) i

    pub qual-IsLevel :
        (t : QualType E N) → IsLevel (print_qual_type templates print_expr print_type_name t)
    qual-IsLevel null i = stops
    qual-IsLevel (qual q t) i = qualified-IsLevel q _ (type-IsLevel t) i

    sugar-IsLevel :
        (t : OptType E N) (p : Print (Unit {0}))
        → IsLevel p
        → IsLevel (print_sugar templates print_expr print_type_name p t)
    sugar-IsLevel plain p h i = h i
    sugar-IsLevel (sugar t) p h i = qual-IsLevel t i

    params-IsLevel :
        (ts : QualTypes E N) → IsLevel (print_params templates print_expr print_type_name ts)
    params-IsLevel nil i = Moves-out "nil"
    params-IsLevel (cons t ts) i =
        Moves-begin_list
        then qual-IsLevel t (suc i)
        then Moves-cons
        then rest-IsLevel ts (suc i)
        then Moves-end_list

    rest-IsLevel :
        (ts : QualTypes E N) → IsLevel (print_rest templates print_expr print_type_name ts)
    rest-IsLevel nil i = Moves-pure
    rest-IsLevel (cons t ts) i = qual-IsLevel t i then Moves-cons then rest-IsLevel ts i

  -- If the printers of expressions and of names of types end at the depth at which they start, at
  -- every depth or with an abort, then what the printer of types sends, unless it aborts, is balanced.
  pub print_type-IsBalanced :
      (t : ClangType E N) (d : Doc)
      → print_type templates print_expr print_type_name t ≡ done tt d
      → IsBalanced d
  print_type-IsBalanced t d h =
      IsLevel-IsBalanced (print_type templates print_expr print_type_name t) tt d (type-IsLevel t) h
