-- ===== src/PrintExpr/Terms.antt =====
-- The terms that stand for the parts of an expression besides its operands.
use bri_ck.Prelude.{ℕ, suc, Bool, true, false, Option, none, some, List, [], ◌∷◌, String, codes}
use bri_ck.PrintExpr.Tables.{
  binary_ctor, applied, cast_ctor, is_automatic, member_call_ctor, operator_call_ctor, category,
  class_category,
}
use bri_ck.OpaqueNames.{ℤ, pos, negsuc, OpaqueNames, find_anon}
use bri_ck.CoqPrinter.Terms.{
  Term, Terms, atom, app, list, pair, triple, aborted, word, quoted, one, two, range,
}
use bri_ck.PrintExpr.{
  ValCat, Info, Done, v, t, o, vt, Var, Operator, assign, compound, simple, unsupported_op, UnaryOp,
  deref, post_inc, pre_inc, post_dec, pre_dec, plus, minus, bit_not, logical_not, unsupported_unary,
  Printers,
}
use bri_ck.PrintExpr.Parts.{
  Cast, plain, derived_to_base, base_to_derived, NamedCast, reinterpret_cast, const_cast,
  static_cast, dynamic_cast, other_cast, Operation, Method, OperatorMethod,
}

-- What the other printers print.
pub record Denotation (T N : Type 0) : Type 0 where
  pub type_term : T → Term
  pub type_option_term : T → Term
  pub obj_term : N → Term
  pub class_term : N → Term
  pub field_term : N → Term
  pub param_term : N → Term

abbrev pub word_if : Option String → Term
word_if none = aborted
word_if (some s) = word s

-- The category that the expression has in a template, or else that clang finds.
abbrev pub val_cat_term : Bool → ValCat → ValCat → Term
val_cat_term true own found = word_if (category own.is_lvalue own.is_prvalue own.is_xvalue)
val_cat_term false own found =
    word_if (class_category found.is_lvalue found.is_xvalue found.is_prvalue)

-- No term if an `assert` fails.
unfoldable pub guarded : Bool → Term → Term
guarded true u = u
guarded false u = aborted

-- The constructor and the operator before the operands
unfoldable pub operator_app : Operator → Terms → Term
operator_app assign us = app "Eassign" us
operator_app (compound a) us = app "Eassign_op" (Terms.cons (word (binary_ctor (applied a))) us)
operator_app (simple b) us = app "Ebinop" (Terms.cons (word (binary_ctor b)) us)
operator_app (unsupported_op name) us =
    app "Ebinop" (Terms.cons (app "Bunsupported" (one (quoted name))) us)

unfoldable pub unary_app : UnaryOp → Terms → Term
unary_app deref us = app "Ederef" us
unary_app post_inc us = app "Epostinc" us
unary_app pre_inc us = app "Epreinc" us
unary_app post_dec us = app "Epostdec" us
unary_app pre_dec us = app "Epredec" us
unary_app plus us = app "Eunop" (Terms.cons (word "Uplus") us)
unary_app minus us = app "Eunop" (Terms.cons (word "Uminus") us)
unary_app bit_not us = app "Eunop" (Terms.cons (word "Ubnot") us)
unary_app logical_not us = app "Eunop" (Terms.cons (word "Unot") us)
unary_app (unsupported_unary name) us =
    app "Eunop" (Terms.cons (atom (codes "(Uunsupported \"" ∷ name ∷ codes "\")" ∷ [])) us)

-- A variable of a reference type is read.
unfoldable pub read_ref : Bool → Term → Term
read_ref true u = app "Eread_ref" (one u)
read_ref false u = u

module _ {T N : Type 0} (pr : Printers T N) (tm : Denotation T N) where
  abbrev pub number_term : ℤ → Term
  number_term n = atom (pr.decimal n ∷ [])

  -- The value category and the type at the end
  abbrev pub done_terms : Info T → Done → Terms
  done_terms i v = one (val_cat_term pr.templates i.val_cat i.classified)
  done_terms i t = one (tm.type_term i.type)
  done_terms i o = one (tm.type_option_term i.type)
  done_terms i vt = two (val_cat_term pr.templates i.val_cat i.classified) (tm.type_term i.type)

  abbrev pub named_term : Bool → Bool → Var N → Term
  named_term true true x = app "Lname" (one (tm.param_term x.named))
  named_term true false x = app "Lname" (one (quoted x.name))
  named_term false is_param x = app "Gname" (one (tm.obj_term x.named))

  -- A variable with a number is anonymous.
  abbrev pub ref_term : ℤ → Var N → Term
  ref_term (pos n) x = app "Lname" (one (atom (codes "\"$" ∷ pr.decimal (pos n) ∷ codes "\"" ∷ [])))
  ref_term (negsuc n) x =
      named_term (is_automatic x.is_in_function x.is_function x.is_static_local) x.is_param x

  abbrev pub var_term : Var N → OpaqueNames → Term
  var_term x s = ref_term (find_anon x.number s) x

  abbrev pub base_term : Option N → Term
  base_term none = aborted
  base_term (some d) = tm.class_term d

  abbrev pub cast_term : Cast N → Term
  cast_term (plain k) = word (cast_ctor k)
  cast_term (derived_to_base path) = app "Cderived2base" (one (range base_term path))
  cast_term (base_to_derived path) = app "Cbase2derived" (one (range base_term path))

  abbrev pub named_cast_term : Info T → NamedCast T N → Term
  named_cast_term i reinterpret_cast = app "Creinterpret" (one (tm.type_term i.type))
  named_cast_term i const_cast = app "Cconst" (one (tm.type_term i.type))
  named_cast_term i (static_cast c) = app "Cstatic" (one (cast_term c))
  named_cast_term i (dynamic_cast type) =
      app "Cdynamic" (two (tm.type_term type) (tm.type_term i.type))
  named_cast_term i other_cast = aborted

  abbrev pub type_if_term : Option T → Term
  type_if_term none = aborted
  type_if_term (some type) = tm.type_term type

  abbrev pub method_term : Method T N → Term
  method_term m = app "inl" (
      one (
        triple (tm.obj_term m.named) (word (member_call_ctor m.has_qualifier m.is_virtual))
          (type_if_term m.method_type)))

  abbrev pub operator_method_term : OperatorMethod T N → Term
  operator_method_term m = app "inl" (
      one (
        triple (tm.obj_term m.named) (word (operator_call_ctor m.is_virtual))
          (tm.type_term m.method_type)))

  abbrev pub operation_term : Option (Operation T N) → Term
  operation_term none = aborted
  operation_term (some f) = pair (tm.obj_term f.named) (tm.type_term f.type)

  abbrev pub unit_term : ℕ → Term
  unit_term n = atom (pr.decimal (pos n) ∷ codes "%N" ∷ [])

  unfoldable pub forwarded_terms : ℕ → List T → Terms
  forwarded_terms n [] = Terms.nil
  forwarded_terms n (type ∷ types) =
      Terms.cons
        (app "Evar" (
          two (app "Lname" (one (atom (codes "\"#" ∷ pr.decimal (pos n) ∷ codes "\"" ∷ []))))
            (tm.type_term type)))
        (forwarded_terms (suc n) types)

  abbrev pub forwarded_term : List T → Term
  forwarded_term [] = word "nil"
  forwarded_term (type ∷ types) = list (forwarded_terms 0 (type ∷ types))
