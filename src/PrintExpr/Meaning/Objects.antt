-- ===== src/PrintExpr/Meaning/Objects.antt =====
-- The meaning of the other expressions, from constructors to loops over arrays.
use bri_ck.Prelude.{
  ℕ, Bool, true, false, Option, none, some, List, [], ◌∷◌, Text, String, if◌then◌else◌,
}
use bri_ck.OpaqueNames.{pos, fresh, free, find_index, inc_index_count, dec_index_count}
use bri_ck.CoqPrinter.Terms.{Terms, atom, app, beside, aborted, word, bool, one, two}
use bri_ck.PrintExpr.{Info, v, t, vt, Printers}
use bri_ck.PrintExpr.Parts.{Operation}
use bri_ck.PrintExpr.Visit.{Pointer, indirect, immediate, other_pointer}
use bri_ck.PrintExpr.Terms.{
  Denotation, guarded, number_term, done_terms, operation_term, forwarded_term,
}
use bri_ck.PrintExpr.Meaning.{Sem, term_alone, unsupported_sem}

-- There is no term.
abbrev pub aborted_sem : Sem
aborted_sem s = (aborted, s)

abbrev pub missing_sem : Sem
missing_sem s = (word "None", s)

unfoldable pub present_sem : Sem → Sem
present_sem m s = (app "Some" (one (m s).0), (m s).1)

module _ {T N : Type 0} (pr : Printers T N) (tm : Denotation T N) where
  unfoldable pub construct_sem : Info T → N → Sem → Sem
  construct_sem i d ms s = (
    app "Econstructor" (Terms.cons (tm.obj_term d) (Terms.cons (ms s).0 (done_terms pr tm i t))),
    (ms s).1,
  )

  unfoldable pub inherited_sem : Info T → N → List T → Sem
  inherited_sem i d types s = (
    app "Econstructor" (
        Terms.cons (tm.obj_term d)
          (Terms.cons (forwarded_term pr tm types) (done_terms pr tm i t))),
    s,
  )

  unfoldable pub pointed_sem : Pointer T → Sem → Sem
  pointed_sem (indirect pointee) m s =
      (beside (two (word "Lvalue") (app "Ederef" (two (m s).0 (tm.type_term pointee)))), (m s).1)
  pointed_sem immediate m s = m s
  pointed_sem other_pointer m s = (aborted, s)

  unfoldable pub pointer_call_sem : Info T → Sem → Sem → Sem → Sem
  pointer_call_sem i f m ms s = (
    app "Emember_call" (
        Terms.cons (app "inr" (one (f s).0))
          (Terms.cons (m (f s).1).0 (Terms.cons (ms (m (f s).1).1).0 (done_terms pr tm i t)))),
    (ms (m (f s).1).1).1,
  )

  unfoldable pub conditional_sem : Info T → Sem → Sem → Sem → Sem
  conditional_sem i c l r s = (
    app "Eif" (
        Terms.cons (c s).0
          (Terms.cons (l (c s).1).0 (Terms.cons (r (l (c s).1).1).0 (done_terms pr tm i vt)))),
    (r (l (c s).1).1).1,
  )

  -- The common operand gets a number, by which the others refer to it.
  unfoldable pub binary_conditional_sem : Info T → ℕ → Sem → Sem → Sem → Sem → Sem
  binary_conditional_sem i d common c l r s =
      let s₁ = (common (fresh d s).1).1 in
      let s₂ = (c (inc_index_count s₁)).1 in
      let s₃ = (l s₂).1 in
      (
        app "Eif2" (
            Terms.cons (number_term pr tm (pos (fresh d s).0)) (
              Terms.cons (common (fresh d s).1).0 (
                Terms.cons (c (inc_index_count s₁)).0
                  (Terms.cons (l s₂).0 (Terms.cons (r s₃).0 (done_terms pr tm i vt)))))),
        dec_index_count (r s₃).1,
      )

  unfoldable pub paren_list_sem : Info T → Bool → Sem → Sem
  unfolding guarded unsupported_sem
  paren_list_sem i is_dependent ms s =
      if pr.templates
      then (
        guarded is_dependent
            (app "Eunresolved_parenlist" (two (tm.type_option_term i.type) (ms s).0)),
        (ms s).1,
      )
      else unsupported_sem pr tm i i.class_name s

  unfoldable pub init_list_sem : Info T → Sem → Sem → Sem
  init_list_sem i ms filler s = (
    app "Einitlist" (Terms.cons (ms s).0 (Terms.cons (filler (ms s).1).0 (done_terms pr tm i t))),
    (filler (ms s).1).1,
  )

  -- A constructor with nothing but the type
  unfoldable pub leaf_sem : String → Info T → Sem
  leaf_sem c i s = (app c (done_terms pr tm i t), s)

  abbrev pub null_ptr_sem : Sem
  null_ptr_sem s = (word "Enull", s)

  unfoldable pub trait_type_sem : Info T → Option String → T → Sem
  trait_type_sem i none type s = (aborted, s)
  trait_type_sem i (some c) type s =
      (app c (Terms.cons (app "inl" (one (tm.type_term type))) (done_terms pr tm i t)), s)

  unfoldable pub trait_expr_sem : Info T → Option String → Sem → Sem
  trait_expr_sem i none m s = (aborted, s)
  trait_expr_sem i (some c) m s =
      (app c (Terms.cons (app "inr" (one (m s).0)) (done_terms pr tm i t)), (m s).1)

  unfoldable pub offset_of_sem : Info T → Bool → Option N → Sem
  unfolding guarded
  offset_of_sem i is_one none s = (aborted, s)
  offset_of_sem i is_one (some d) s = (
    guarded is_one (
        app "Eoffset_of"
          (Terms.cons (app "Oo_Field" (one (tm.field_term d))) (done_terms pr tm i t))),
    s,
  )

  unfoldable pub new_sem : Option (Operation T N) → T → Sem → Sem → Sem → Sem
  new_sem f type ms size init s = (
    app "Enew" (
        Terms.cons (operation_term pr tm f) (
          Terms.cons (ms s).0
            (Terms.cons (tm.type_term type) (two (size (ms s).1).0 (init (size (ms s).1).1).0)))),
    (init (size (ms s).1).1).1,
  )

  unfoldable pub delete_sem : Bool → Option (Operation T N) → T → Sem → Sem
  delete_sem is_array f type m s = (
    app "Edelete" (
        Terms.cons (bool is_array)
          (Terms.cons (operation_term pr tm f) (two (m s).0 (tm.type_term type)))),
    (m s).1,
  )

  unfoldable pub materialize_sem : Info T → Bool → Sem → Sem
  materialize_sem i true m s = (aborted, s)
  materialize_sem i false m s =
      (app "Ematerialize_temp" (Terms.cons (m s).0 (done_terms pr tm i v)), (m s).1)

  unfoldable pub opaque_sem : Info T → ℕ → Sem
  opaque_sem i d s = (
    app "Eopaque_ref" (Terms.cons (number_term pr tm (find_index d s)) (done_terms pr tm i vt)),
    s,
  )

  unfoldable pub atomic_sem : Info T → Text → Sem → Sem
  atomic_sem i op ms s = (
    app "Eatomic" (Terms.cons (atom (op ∷ [])) (Terms.cons (ms s).0 (done_terms pr tm i t))),
    (ms s).1,
  )

  unfoldable pub va_arg_sem : Info T → Sem → Sem
  va_arg_sem i m s = (app "Eva_arg" (Terms.cons (m s).0 (done_terms pr tm i t)), (m s).1)

  unfoldable pub pseudo_destructor_sem : T → Sem → Sem
  pseudo_destructor_sem type m s =
      (app "Epseudo_destructor" (two (tm.type_term type) (term_alone m)), s)

  unfoldable pub answer_sem : Bool → Sem
  answer_sem b s = (app "Ebool" (one (bool b)), s)

  unfoldable pub scalar_value_sem : T → Sem
  scalar_value_sem type s = (app "Eimplicit_init" (one (tm.type_term type)), s)

  -- The elements are computed one loop deeper, and the source has a number.
  unfoldable pub array_loop_sem : Info T → ℕ → Text → Sem → Sem → Sem
  array_loop_sem i d size source m s =
      let s₁ = inc_index_count (source (fresh d s).1).1 in
      (
        app "Earrayloop_init" (
            Terms.cons (number_term pr tm (pos (fresh d s).0)) (
              Terms.cons (source (fresh d s).1).0 (
                Terms.cons (number_term pr tm s₁.index_count)
                  (Terms.cons (atom (size ∷ [])) (Terms.cons (m s₁).0 (done_terms pr tm i t)))))),
        free d (dec_index_count (m s₁).1),
      )

  unfoldable pub array_index_sem : Info T → Sem
  array_index_sem i s = (
    app "Earrayloop_index" (Terms.cons (number_term pr tm s.index_count) (done_terms pr tm i t)),
    s,
  )
