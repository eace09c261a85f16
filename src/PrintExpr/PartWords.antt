-- ===== src/PrintExpr/PartWords.antt =====
-- The parts of an expression besides its operands print the words of their terms.
use bri_ck.Prelude.{
  ℕ, suc, ◌≡◌, refl, ap, ◌∙◌, if◌then◌else◌, Bool, true, false, Option, none, some, List, [], ◌∷◌,
  codes,
}
use bri_ck.OpaqueNames.{ℤ, pos, negsuc, OpaqueNames, find_anon}
use bri_ck.CoqPrinter.{Print, out, aborts, begin_list, end_list, ◌>>◌}
use bri_ck.CoqPrinter.Words.{join, join-three, words_of, wording}
use bri_ck.CoqPrinter.Terms.{
  Terms, flatten, flatten_args, flatten_list, Prints, list, list_range-flatten,
}
use bri_ck.PrintExpr.{
  Info, Done, v, t, o, vt, Var, Operator, assign, compound, simple, unsupported_op, UnaryOp, deref,
  post_inc, pre_inc, post_dec, pre_dec, plus, minus, bit_not, logical_not, unsupported_unary,
  Printers,
}
use bri_ck.PrintExpr.Parts.{
  print_val_cat, assert, Cast, plain, derived_to_base, base_to_derived, NamedCast, reinterpret_cast,
  const_cast, static_cast, dynamic_cast, other_cast, Operation, Method, OperatorMethod, print_done,
  print_operator, print_unary_operator, print_named_ref, print_ref, print_var_ref, print_base,
  print_cast, print_named_cast, print_type_if, print_method, print_operator_method, print_operation,
  print_string_type, print_unit, print_forwarded, print_forwarded_list,
}
use bri_ck.PrintExpr.Tables.{is_automatic, category, class_category}
use bri_ck.PrintExpr.TableWords.{
  binary_name-ctor, assign_name-ctor, cast_name-ctor, local-is_automatic, member_dispatch-ctor,
  operator_dispatch-ctor,
}
use bri_ck.PrintExpr.Terms.{
  Denotation, word_if, val_cat_term, operator_app, unary_app, done_terms, named_term, ref_term,
  var_term, base_term, cast_term, named_cast_term, type_if_term, method_term, operator_method_term,
  operation_term, unit_term, forwarded_terms, forwarded_term,
}

-- The other printers print the words of their terms.
pub record IsPrinting {T N : Type 0} (pr : Printers T N) (tm : Denotation T N) : Type 0 where
  pub type_words : Prints pr.print_type tm.type_term
  pub type_option_words : Prints pr.print_type_option tm.type_option_term
  pub obj_words : Prints pr.print_obj_name tm.obj_term
  pub class_words : Prints pr.print_type_name tm.class_term
  pub field_words : Prints pr.print_field tm.field_term
  pub param_words : Prints pr.print_param_name tm.param_term

own-words :
    (l p x : Bool)
    → words_of (
        if l then out "Lvalue" else if p then out "Prvalue" else if x then out "Xvalue" else aborts)
      ≡ flatten (word_if (category l p x))
unfolding category flatten
own-words true p x = simp wording
own-words false true x = simp wording
own-words false false true = simp wording
own-words false false false = refl

found-words :
    (l x p : Bool)
    → words_of (
        if l then out "Lvalue" else if x then out "Xvalue" else if p then out "Prvalue" else aborts)
      ≡ flatten (word_if (class_category l x p))
unfolding class_category flatten
found-words true x p = simp wording
found-words false true p = simp wording
found-words false false true = simp wording
found-words false false false = refl

val_cat-words :
    {T : Type 0} (templates : Bool) (i : Info T)
    → words_of (print_val_cat templates i) ≡ flatten (val_cat_term templates i.val_cat i.classified)
unfolding print_val_cat
val_cat-words true i = own-words i.val_cat.is_lvalue i.val_cat.is_prvalue i.val_cat.is_xvalue
val_cat-words false i =
    found-words i.classified.is_lvalue i.classified.is_xvalue i.classified.is_prvalue

pub operator-words :
    (op : Operator) (us : Terms)
    → flatten (operator_app op us)
      ≡ join (words_of (print_operator op)) (join (flatten_args us) (some (codes ")" ∷ [])))
unfolding print_operator operator_app flatten
operator-words assign us = simp wording
operator-words (compound a) us = simp (wording, assign_name-ctor)
operator-words (simple b) us = simp (wording, binary_name-ctor)
operator-words (unsupported_op name) us = simp wording

pub unary-words :
    (op : UnaryOp) (us : Terms)
    → flatten (unary_app op us)
      ≡ join (words_of (print_unary_operator op)) (join (flatten_args us) (some (codes ")" ∷ [])))
unfolding print_unary_operator unary_app flatten
unary-words deref us = simp wording
unary-words post_inc us = simp wording
unary-words pre_inc us = simp wording
unary-words post_dec us = simp wording
unary-words pre_dec us = simp wording
unary-words plus us = simp wording
unary-words minus us = simp wording
unary-words bit_not us = simp wording
unary-words logical_not us = simp wording
unary-words (unsupported_unary name) us = simp (wording, join-three)

bracketed-words :
    (m : Print (Unit {0})) (ts : Terms)
    → words_of m ≡ flatten_list ts
    → words_of (do begin_list; m; end_list) ≡ flatten (list ts)
unfolding flatten
bracketed-words m ts e = simp (wording, e)

pub assert-true : words_of (assert true) ≡ some []
unfolding assert
assert-true = refl

pub assert-false : words_of (assert false) ≡ none
unfolding assert
assert-false = refl

module _ {T N : Type 0} (pr : Printers T N) (tm : Denotation T N) (h : IsPrinting pr tm) where
  pub done-words :
      (i : Info T) (want : Done)
      → words_of (print_done pr i want)
        ≡ join (flatten_args (done_terms pr tm i want)) (some (codes ")" ∷ []))
  unfolding print_done flatten
  done-words i v = simp (wording, val_cat-words)
  done-words i t = simp (wording, h.type_words)
  done-words i o = simp (wording, h.type_option_words)
  done-words i vt = simp (wording, val_cat-words, h.type_words)

  named_ref-words :
      (local is_param : Bool) (x : Var N)
      → words_of (print_named_ref pr local is_param x) ≡ flatten (named_term pr tm local is_param x)
  unfolding print_named_ref flatten
  named_ref-words true true x = simp (wording, h.param_words)
  named_ref-words true false x = simp wording
  named_ref-words false is_param x = simp (wording, h.obj_words)

  ref-words : (n : ℤ) (x : Var N) → words_of (print_ref pr n x) ≡ flatten (ref_term pr tm n x)
  unfolding print_ref flatten
  ref-words (pos n) x = simp (wording, join-three)
  ref-words (negsuc n) x =
      ap (λ b. words_of (print_named_ref pr b x.is_param x))
        (local-is_automatic x.is_in_function x.is_function x.is_static_local)
      ∙ named_ref-words (is_automatic x.is_in_function x.is_function x.is_static_local) x.is_param x

  pub var_ref-words :
      (x : Var N) (s : OpaqueNames) → words_of (print_var_ref pr x s) ≡ flatten (var_term pr tm x s)
  unfolding print_var_ref
  var_ref-words x s = ref-words (find_anon x.number s) x

  base-words : Prints (print_base pr) (base_term pr tm)
  unfolding print_base flatten
  base-words none = refl
  base-words (some d) = h.class_words d

  pub cast-words : (c : Cast N) → words_of (print_cast pr c) ≡ flatten (cast_term pr tm c)
  unfolding print_cast flatten
  cast-words (plain k) = simp (wording, cast_name-ctor)
  cast-words (derived_to_base path) =
      simp (wording, list_range-flatten (print_base pr) (base_term pr tm) base-words path)
  cast-words (base_to_derived path) =
      simp (wording, list_range-flatten (print_base pr) (base_term pr tm) base-words path)

  pub named_cast-words :
      (i : Info T) (c : NamedCast T N)
      → words_of (print_named_cast pr i c) ≡ flatten (named_cast_term pr tm i c)
  unfolding print_named_cast flatten
  named_cast-words i reinterpret_cast = simp (wording, h.type_words)
  named_cast-words i const_cast = simp (wording, h.type_words)
  named_cast-words i (static_cast c) = simp (wording, cast-words)
  named_cast-words i (dynamic_cast type) = simp (wording, h.type_words)
  named_cast-words i other_cast = refl

  type_if-words : Prints (print_type_if pr) (type_if_term pr tm)
  unfolding print_type_if flatten
  type_if-words none = refl
  type_if-words (some type) = h.type_words type

  pub method-words : (m : Method T N) → words_of (print_method pr m) ≡ flatten (method_term pr tm m)
  unfolding print_method flatten
  method-words m = simp (wording, h.obj_words, type_if-words, member_dispatch-ctor)

  pub operator_method-words :
      (m : OperatorMethod T N)
      → words_of (print_operator_method pr m) ≡ flatten (operator_method_term pr tm m)
  unfolding print_operator_method flatten
  operator_method-words m = simp (wording, h.obj_words, h.type_words, operator_dispatch-ctor)

  pub operation-words :
      (f : Option (Operation T N))
      → words_of (print_operation pr f) ≡ flatten (operation_term pr tm f)
  unfolding print_operation flatten
  operation-words none = refl
  operation-words (some f) = simp (wording, h.obj_words, h.type_words)

  pub string_type-words :
      (element : Option T)
      → words_of (print_string_type pr element) ≡ flatten (type_if_term pr tm element)
  unfolding print_string_type flatten
  string_type-words none = refl
  string_type-words (some type) = simp (wording, h.type_words)

  pub unit-words : Prints (print_unit pr) (unit_term pr tm)
  unfolding print_unit flatten join
  unit-words n = simp wording

  forwarded-words :
      (n : ℕ) (types : List T)
      → words_of (print_forwarded pr n types) ≡ flatten_list (forwarded_terms pr tm n types)
  unfolding print_forwarded forwarded_terms flatten
  forwarded-words n [] = refl
  forwarded-words n (type ∷ types) =
      simp (wording, join-three, h.type_words, forwarded-words (suc n) types)

  pub forwarded_list-words :
      (types : List T)
      → words_of (print_forwarded_list pr types) ≡ flatten (forwarded_term pr tm types)
  unfolding print_forwarded_list flatten
  forwarded_list-words [] = simp wording
  forwarded_list-words (type ∷ types) =
      bracketed-words (print_forwarded pr 0 (type ∷ types)) (forwarded_terms pr tm 0 (type ∷ types))
        (forwarded-words 0 (type ∷ types))
