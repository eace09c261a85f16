-- ===== src/PrintExpr/Meaning.antt =====
-- The terms of type `Expr` that expressions stand for. A term depends on the opaque names that are known
-- where the expression stands, and the expression may add names.
pub mod Objects
pub mod Tree
use bri_ck.Prelude.{
  ℕ, Bool, true, false, Option, none, some, List, [], ◌∷◌, Text, String, codes, if◌then◌else◌, ◌&&◌,
}
use bri_ck.OpaqueNames.{
  ℤ, pos, OpaqueNames, no_names, fresh, free, find_index, inc_index_count, dec_index_count,
}
use bri_ck.CoqPrinter.Terms.{
  Term, Terms, atom, app, list, beside, aborted, word, quoted, one, two, terms,
}
use bri_ck.PrintExpr.{Info, v, t, o, vt, Var, Operator, Sequencing, UnaryOp, Printers}
use bri_ck.PrintExpr.Units.Decoded.{decoded}
use bri_ck.PrintExpr.Tables.{sequencing_ctor, result_done}
use bri_ck.PrintExpr.Visit.{Pointer, indirect, immediate, other_pointer}
use bri_ck.PrintExpr.Terms.{
  Denotation, val_cat_term, guarded, operator_app, unary_app, read_ref, number_term, done_terms,
  var_term, cast_term, named_cast_term, type_if_term, method_term, operation_term, unit_term,
  forwarded_term,
}

-- What an expression stands for where some names are known, with the names that are known after it.
abbrev pub Sem : Type 0
Sem = OpaqueNames → Term × OpaqueNames

-- An expression that is printed without the names
abbrev pub term_alone : Sem → Term
term_alone m = (m no_names).0

-- A constructor around one expression, without its type
unfoldable pub wrapped_sem : String → Sem → Sem
wrapped_sem c m s = (app c (one (m s).0), (m s).1)

-- The operands know no names.
unfoldable pub sequencing_sem : Sequencing → Bool → Sem → Sem → Sem
unfolding guarded
sequencing_sem op fits l r s =
    (guarded fits (app (sequencing_ctor op) (two (term_alone l) (term_alone r))), s)

unfoldable pub alone_sem : Sem → Sem
alone_sem m s = (term_alone m, s)

unfoldable pub before_sem :
    Sem → (OpaqueNames → Terms × OpaqueNames) → OpaqueNames → Terms × OpaqueNames
before_sem m ms s = (Terms.cons (m s).0 (ms (m s).1).0, (ms (m s).1).1)

unfoldable pub list_sem : (OpaqueNames → Terms × OpaqueNames) → Sem
list_sem ms s = (list (ms s).0, (ms s).1)

module _ {T N : Type 0} (pr : Printers T N) (tm : Denotation T N) where
  unfoldable pub unsupported_sem : Info T → Text → Sem
  unsupported_sem i name s =
      (app "Eunsupported" (Terms.cons (quoted name) (done_terms pr tm i vt)), s)

  unfoldable pub binary_sem : Info T → Operator → Sem → Sem → Sem
  binary_sem i op l r s = (
    operator_app op (
        Terms.cons (l s).0
          (Terms.cons (r (l s).1).0 (done_terms pr tm i (result_done pr.templates)))),
    (r (l s).1).1,
  )

  unfoldable pub unary_sem : Info T → UnaryOp → Sem → Sem
  unary_sem i op m s =
      (unary_app op (Terms.cons (m s).0 (done_terms pr tm i (result_done pr.templates))), (m s).1)

  unfoldable pub enum_ref_sem : Info T → N → Option T → Sem
  enum_ref_sem i d none s =
      (app "Econst_ref" (Terms.cons (app "Gname" (one (tm.obj_term d))) (done_terms pr tm i t)), s)
  enum_ref_sem i d (some type) s = (
    app "Eenum_const_at"
        (Terms.cons (tm.obj_term d) (Terms.cons (tm.type_term type) (done_terms pr tm i t))),
    s,
  )

  unfoldable pub decl_ref_sem : Info T → Var N → Bool → Sem
  decl_ref_sem i x is_reference s = (
    read_ref is_reference (app "Evar" (Terms.cons (var_term pr tm x s) (done_terms pr tm i t))),
    s,
  )

  unfoldable pub unresolved_sem : Info T → Option Text → Sem
  unfolding unsupported_sem
  unresolved_sem i none s = unsupported_sem i i.class_name s
  unresolved_sem i (some name) s =
      if pr.templates then (quoted name, s) else unsupported_sem i i.class_name s

  unfoldable pub call_sem : Info T → Bool → Sem → Sem → Sem
  call_sem i is_dependent f ms s =
      if pr.templates && is_dependent
      then (app "Eunresolved_call" (two (f s).0 (ms (f s).1).0), (ms (f s).1).1)
      else (
        app "Ecall" (Terms.cons (f s).0 (Terms.cons (ms (f s).1).0 (done_terms pr tm i t))),
        (ms (f s).1).1,
      )

  -- A term before the object
  unfoldable pub member_call_sem : Info T → Term → Sem → Sem → Sem
  member_call_sem i callee m ms s = (
    app "Emember_call"
        (Terms.cons callee (Terms.cons (m s).0 (Terms.cons (ms (m s).1).0 (done_terms pr tm i t)))),
    (ms (m s).1).1,
  )

  unfoldable pub cast_sem : Info T → Term → Sem → Sem
  cast_sem i c m s =
      (app "Ecast" (Terms.cons c (Terms.cons (m s).0 (done_terms pr tm i vt))), (m s).1)

  unfoldable pub builtin_sem : Info T → N → Sem
  builtin_sem i d s =
      (app "Evar" (Terms.cons (app "Gname" (one (tm.obj_term d))) (done_terms pr tm i t)), s)

  -- A literal with its type
  unfoldable pub literal_sem : String → Info T → Text → String → Sem
  literal_sem c i value suffix s =
      (app c (Terms.cons (atom (value ∷ codes suffix ∷ [])) (done_terms pr tm i t)), s)

  unfoldable pub string_sem : ℕ → List ℕ → Option T → Sem
  unfolding decoded
  string_sem width bytes element s = (
    app "Estring" (
        two (list (terms (unit_term pr tm) (decoded pr.big_endian width bytes)))
          (type_if_term pr tm element)),
    s,
  )

  unfoldable pub predefined_sem : Text → Option T → Sem
  predefined_sem name element s = (
    app "Estring" (two (app "string_to_bytes" (one (quoted name))) (type_if_term pr tm element)),
    s,
  )

  unfoldable pub bool_sem : Bool → Sem
  bool_sem true s = (word "(Ebool true)", s)
  bool_sem false s = (word "(Ebool false)", s)

  unfoldable pub floating_sem : Info T → Text → Sem
  floating_sem i value s = (
    app "Eunsupported"
        (Terms.cons (atom (codes "float: \"" ∷ value ∷ codes "\"" ∷ [])) (done_terms pr tm i vt)),
    s,
  )

  unfoldable pub static_data_sem : Info T → Var N → Bool → Sem → Sem
  static_data_sem i x is_reference m s = (
    app "Ecomma" (
        two (m s).0 (
          read_ref is_reference
            (app "Evar" (Terms.cons (var_term pr tm x (m s).1) (done_terms pr tm i t))))),
    (m s).1,
  )

  unfoldable pub static_method_sem : Var N → T → Sem → Sem
  static_method_sem x type m s = (
    app "Ecomma" (two (m s).0 (app "Evar" (two (var_term pr tm x (m s).1) (tm.type_term type)))),
    (m s).1,
  )

  unfoldable pub object_sem : Option T → Sem → Sem
  object_sem none m s = m s
  object_sem (some pointee) m s = (app "Ederef" (two (m s).0 (tm.type_term pointee)), (m s).1)

  unfoldable pub member_sem : Info T → N → Bool → Option T → Bool → Sem → Sem
  unfolding object_sem guarded
  member_sem i d is_reference arrow fits m s = (
    guarded fits (
        read_ref is_reference (
          app "Emember" (
            Terms.cons (object_sem arrow m s).0
              (Terms.cons (tm.field_term d) (done_terms pr tm i t))))),
    (object_sem arrow m s).1,
  )

  unfoldable pub subscript_sem : Info T → Sem → Sem → Sem
  subscript_sem i l r s = (
    app "Esubscript" (
        Terms.cons (l s).0
          (Terms.cons (r (l s).1).0 (done_terms pr tm i (result_done pr.templates)))),
    (r (l s).1).1,
  )
