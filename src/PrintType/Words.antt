-- ===== src/PrintType/Words.antt =====
-- The printer of types implements their meaning: it prints the words of the terms.
use bri_ck.Prelude.{
  ◌≡◌, refl, Bool, true, false, none, some, Text, String, if◌then◌else◌, not, ◌&&◌, ◌||◌,
}
use bri_ck.CoqPrinter.{Print, aborts, ◌>>◌, out, arch, ctor_inline, end_ctor}
use bri_ck.CoqPrinter.Words.{words_of, wording}
use bri_ck.CoqPrinter.Terms.{one, Term, flatten, flatten_list, Prints, aborted, word, app}
use bri_ck.PrintType.{
  CallingConv, cc_c, cc_x86_reg_call, cc_win64, cc_other, Builtin, Qualifiers, ClangType, QualType,
  OptType, QualTypes, other, attributed, enum_underlying, unary_transform, deduced, template_parm,
  enum, record_, paren, known, builtin, lvalue_reference, rvalue_reference, pointer, typedef,
  function_proto, elaborated, constant_array, subst_template_parm, incomplete_array, variable_array,
  decayed, template_specialization, decltype, typeof_expr, injected_class_name, member_pointer,
  macro_qualified, using_type, null, qual, plain, sugar, nil, cons, print_calling_conv,
  print_variadic, unsupported_type, print_builtin, print_qualified, print_named, print_type,
  print_qual_type, print_sugar, print_params, print_rest,
}
use bri_ck.PrintType.Kinds.{kind_name-ctor}
use bri_ck.PrintType.Meaning.{
  calling_conv_term, variadic_term, unsupported_term, arch_term, builtin_term, qualified_term,
  choose, type_term, qual_term, sugar_term, params_term, qual_terms,
}

-- The routine prints the term.
pub record Shows (p : Print (Unit {0})) (t : Term) : Type 0 where
  pub shown : words_of p ≡ flatten t

Shows-calling_conv : (c : CallingConv) → Shows (print_calling_conv c) (calling_conv_term c)
unfolding print_calling_conv flatten
Shows-calling_conv cc_c = record { shown = simp wording }
Shows-calling_conv cc_x86_reg_call = record { shown = simp wording }
Shows-calling_conv cc_win64 = record { shown = simp wording }
Shows-calling_conv cc_other = record { shown = refl }

Shows-variadic : (b : Bool) → Shows (print_variadic b) (variadic_term b)
unfolding print_variadic flatten
Shows-variadic true = record { shown = simp wording }
Shows-variadic false = record { shown = simp wording }

Shows-unsupported_type : (name : Text) → Shows (unsupported_type name) (unsupported_term name)
unfolding unsupported_type flatten
Shows-unsupported_type name = record { shown = simp wording }

Shows-out : (s : String) → Shows (out s) (word s)
unfolding flatten
Shows-out s = record { shown = simp wording }

Shows-arch : (name : Text) → Shows (arch name) (arch_term name)
unfolding flatten
Shows-arch name = record { shown = simp wording }

Shows-aborts : Shows aborts aborted
unfolding flatten
Shows-aborts = record { shown = refl }

Shows-if :
    (b : Bool) {p q : Print (Unit {0})} {t u : Term}
    → Shows p t
    → Shows q u
    → Shows (if b then p else q) (if b then t else u)
Shows-if true h k = h
Shows-if false h k = k

Shows-wrapped :
    (c : String) {p : Print (Unit {0})} {t : Term}
    → Shows p t
    → Shows (do ctor_inline c; p; end_ctor) (app c (one t))
unfolding flatten
Shows-wrapped c h = record { shown = simp (wording, h.shown) }

Shows-builtin :
    (templates : Bool) (b : Builtin) → Shows (print_builtin templates b) (builtin_term templates b)
unfolding print_builtin builtin_term
Shows-builtin templates b = Shows-if (not templates && b.is_dependent_kind) Shows-aborts (
    Shows-if (b.is_character || b.is_floating_point || b.is_integer) Shows-aborts (
      Shows-if b.is_sizeless (Shows-arch b.name) (
        Shows-if (templates && b.is_dependent) (Shows-out "Tdependent")
          (Shows-unsupported_type (b.class_name)))))

Shows-qualified :
    (q : Qualifiers) {p : Print (Unit {0})} {t : Term}
    → Shows p t
    → Shows (print_qualified q p) (qualified_term q t)
unfolding print_qualified qualified_term
Shows-qualified q h =
    Shows-if q.is_local_const
      (Shows-if q.is_volatile (Shows-wrapped "Qconst_volatile" h) (Shows-wrapped "Qconst" h))
      (Shows-if q.is_local_volatile (Shows-wrapped "Qmut_volatile" h) h)

Shows-choose :
    (b : Bool) {p q : Print (Unit {0})} {t u : Term}
    → Shows p t
    → Shows q u
    → Shows (if b then p else q) (choose b t u)
unfolding choose
Shows-choose true h k = h
Shows-choose false h k = k

Shows-coq_type :
    (b : Bool)
    → Shows (if b then out "Mtype" else out "type") (choose b (word "Mtype") (word "type"))
Shows-coq_type b = Shows-choose b (Shows-out "Mtype") (Shows-out "type")

module _ {E N : Type 0} (templates : Bool) (print_expr : E → Print (Unit {0}))
    (print_type_name : N → Print (Unit {0})) (expr : E → Term) (name_term : N → Term)
    (he : Prints print_expr expr) (hn : Prints print_type_name name_term) where
  named-words :
      (d : N)
      → Shows
          (print_named templates print_expr print_type_name d)
          (app "Tnamed" (one (name_term d)))
  unfolding print_named flatten
  named-words d = record { shown = simp (wording, hn) }

  mutual
    unfolding print_type type_term flatten

    type-words :
        (t : ClangType E N)
        → Shows
            (print_type templates print_expr print_type_name t)
            (type_term templates expr name_term t)
    type-words (other name) = Shows-unsupported_type name
    type-words (attributed t) = qual-words t
    type-words (enum_underlying base underlying) = record {
      shown = simp (
        wording,
        (Shows-coq_type templates).shown,
        (qual-words base).shown,
        (qual-words underlying).shown,
      );
    }
    type-words (unary_transform name) = Shows-unsupported_type name
    type-words (deduced name t) = sugar-words t (Shows-unsupported_type name)
    type-words (template_parm name) = record { shown = simp wording }
    type-words (enum d) = record { shown = simp (wording, hn) }
    type-words (record_ d) = named-words d
    type-words (paren t) = qual-words t
    type-words (known k) = record { shown = simp (wording, kind_name-ctor) }
    type-words (builtin b) = Shows-builtin templates b
    type-words (lvalue_reference t) = record { shown = simp (wording, (qual-words t).shown) }
    type-words (rvalue_reference t) = record { shown = simp (wording, (qual-words t).shown) }
    type-words (pointer t) = record { shown = simp (wording, (qual-words t).shown) }
    type-words (typedef d t) = qual-words t
    type-words (function_proto conv variadic t ts) = record {
      shown = simp (
        wording,
        (Shows-calling_conv conv).shown,
        (Shows-variadic variadic).shown,
        (qual-words t).shown,
        (params-words ts).shown,
      );
    }
    type-words (elaborated t) = qual-words t
    type-words (constant_array t size) = record { shown = simp (wording, (qual-words t).shown) }
    type-words (subst_template_parm t) = qual-words t
    type-words (incomplete_array t) = record { shown = simp (wording, (qual-words t).shown) }
    type-words (variable_array t size) = record { shown = simp (wording, (qual-words t).shown, he) }
    type-words (decayed t u) = record {
      shown = simp (wording, (qual-words t).shown, (qual-words u).shown);
    }
    type-words (template_specialization name t) = sugar-words t (Shows-unsupported_type name)
    type-words (decltype name t underlying) =
        sugar-words t (Shows-choose templates (qual-words underlying) (Shows-unsupported_type name))
    type-words (typeof_expr name t underlying) =
        sugar-words t (Shows-choose templates (qual-words underlying) (Shows-unsupported_type name))
    type-words (injected_class_name (some d) t) = named-words d
    type-words (injected_class_name none t) = qual-words t
    type-words (member_pointer d class t) =
        let named : Shows (print_type_name d) (name_term d) = record { shown = hn d } in
        record {
          shown = simp (
            wording,
            (Shows-choose templates (type-words class) named).shown,
            (qual-words t).shown,
          );
        }
    type-words (macro_qualified t) = qual-words t
    type-words (using_type t) = sugar-words t Shows-aborts

    qual-words :
        (t : QualType E N)
        → Shows
            (print_qual_type templates print_expr print_type_name t)
            (qual_term templates expr name_term t)
    qual-words null = Shows-aborts
    qual-words (qual q t) = Shows-qualified q (type-words t)

    sugar-words :
        (t : OptType E N) {p : Print (Unit {0})} {u : Term}
        → Shows p u
        → Shows
            (print_sugar templates print_expr print_type_name p t)
            (sugar_term templates expr name_term u t)
    sugar-words plain h = h
    sugar-words (sugar t) h = qual-words t

    params-words :
        (ts : QualTypes E N)
        → Shows
            (print_params templates print_expr print_type_name ts)
            (params_term templates expr name_term ts)
    params-words nil = Shows-out "nil"
    params-words (cons t ts) = record {
      shown = simp (wording, (qual-words t).shown, rest-words ts);
    }

    rest-words :
        (ts : QualTypes E N)
        → words_of (print_rest templates print_expr print_type_name ts)
          ≡ flatten_list (qual_terms templates expr name_term ts)
    rest-words nil = refl
    rest-words (cons t ts) = simp (wording, (qual-words t).shown, rest-words ts)

  -- If the printers of expressions and of names of types print the words of their terms, then the
  -- printer of types prints the words of the term that the type stands for, and aborts exactly if it
  -- has none, with and without templates. The terms have their own table of the builtin types.
  pub print_qual_type-qual_term :
      (t : QualType E N)
      → words_of (print_qual_type templates print_expr print_type_name t)
        ≡ flatten (qual_term templates expr name_term t)
  print_qual_type-qual_term t = (qual-words t).shown
