-- ===== src/PrintExpr/Words/Objects.antt =====
-- The methods from constructors to loops over arrays.
use bri_ck.Prelude.{
  ℕ, Bool, true, false, Bool-cases, inl, inr, Option, none, some, List, Text, String, codes,
}
use bri_ck.CoqPrinter.Words.{wording}
use bri_ck.CoqPrinter.View.{viewing, after-two}
use bri_ck.CoqPrinter.Terms.{flatten, words_of-boolean}
use bri_ck.PrintExpr.{Info, Printers}
use bri_ck.PrintExpr.Parts.{Operation, Method}
use bri_ck.PrintExpr.Visit.{P, Pointer, indirect, immediate, other_pointer}
use bri_ck.PrintExpr.Objects.{
  visit_construct, visit_inherited, visit_member_call, print_pointed, visit_pointer_call,
  visit_wrapped, visit_conditional, visit_binary_conditional, visit_paren_list, visit_init_list,
  visit_this, visit_null_ptr, visit_trait_type, visit_trait_expr, visit_offset_of, visit_new,
  visit_delete, visit_materialize, visit_opaque, visit_atomic, visit_va_arg, visit_lambda,
  visit_implicit_value, visit_pseudo_destructor, visit_answer, visit_scalar_value, visit_array_loop,
  visit_array_index, print_missing, print_present,
}
use bri_ck.PrintExpr.Terms.{Denotation, method_term}
use bri_ck.PrintExpr.Meaning.{Sem, wrapped_sem, unsupported_sem, member_call_sem, object_sem}
use bri_ck.PrintExpr.Meaning.Objects.{
  missing_sem, present_sem, construct_sem, inherited_sem, pointed_sem, pointer_call_sem,
  conditional_sem, binary_conditional_sem, paren_list_sem, init_list_sem, leaf_sem, null_ptr_sem,
  trait_type_sem, trait_expr_sem, offset_of_sem, new_sem, delete_sem, materialize_sem, opaque_sem,
  atomic_sem, va_arg_sem, pseudo_destructor_sem, answer_sem, scalar_value_sem, array_loop_sem,
  array_index_sem,
}
use bri_ck.PrintExpr.PartWords.{
  IsPrinting, assert-true, assert-false, done-words, method-words, operation-words,
  forwarded_list-words,
}
use bri_ck.PrintExpr.Words.{Shows, operand, alone-words}
use bri_ck.PrintExpr.Words.Visit.{unsupported-Shows, object-Shows}

module _ {T N : Type 0} (pr : Printers T N) (tm : Denotation T N) (h : IsPrinting pr tm) where
  pub wrapped-Shows :
      (w : String) {l : P} {m : Sem} → Shows l m → Shows (visit_wrapped pr w l) (wrapped_sem w m)
  unfolding visit_wrapped wrapped_sem flatten
  wrapped-Shows w a = record { shown = λ s. simp (viewing, wording, operand a) }

  pub construct-Shows :
      (i : Info T) (d : N) {l : P} {m : Sem}
      → Shows l m
      → Shows (visit_construct pr i d l) (construct_sem pr tm i d m)
  unfolding visit_construct construct_sem flatten
  construct-Shows i d a = record {
    shown = λ s. simp (viewing, wording, h.obj_words, done-words pr tm h, operand a);
  }

  pub inherited-Shows :
      (i : Info T) (d : N) (types : List T)
      → Shows (visit_inherited pr i d types) (inherited_sem pr tm i d types)
  unfolding visit_inherited inherited_sem flatten
  inherited-Shows i d types = record {
    shown =
        λ s. simp (viewing, wording, h.obj_words, forwarded_list-words pr tm h, done-words pr tm h);
  }

  pub member_call-Shows :
      (i : Info T) (w : Method T N) (arrow : Option T) {l r : P} {m n : Sem}
      → Shows l m
      → Shows r n
      → Shows
          (visit_member_call pr i w arrow l r)
          (member_call_sem pr tm i (method_term pr tm w) (object_sem pr tm arrow m) n)
  unfolding visit_member_call member_call_sem flatten
  member_call-Shows i w arrow a b = record {
    shown = λ s. simp (
      viewing,
      wording,
      method-words pr tm h,
      done-words pr tm h,
      operand (object-Shows pr tm h arrow a),
      operand b,
    );
  }

  pub pointed-Shows :
      (kind : Pointer T) {l : P} {m : Sem}
      → Shows l m
      → Shows (print_pointed pr kind l) (pointed_sem pr tm kind m)
  unfolding print_pointed pointed_sem flatten
  pointed-Shows (indirect pointee) a = record {
    shown = λ s. simp (viewing, wording, h.type_words, after-two, operand a);
  }
  pointed-Shows immediate a = a
  pointed-Shows other_pointer a = record { shown = λ s. simp viewing }

  pub pointer_call-Shows :
      (i : Info T) (kind : Pointer T) {l r q : P} {m n f : Sem}
      → Shows l m
      → Shows r n
      → Shows q f
      → Shows
          (visit_pointer_call pr i kind l r q)
          (pointer_call_sem pr tm i m (pointed_sem pr tm kind n) f)
  unfolding visit_pointer_call pointer_call_sem flatten
  pointer_call-Shows i kind a b c = record {
    shown = λ s. simp (
      viewing,
      wording,
      done-words pr tm h,
      operand a,
      operand (pointed-Shows kind b),
      operand c,
    );
  }

  pub conditional-Shows :
      (i : Info T) {l r q : P} {m n f : Sem}
      → Shows l m
      → Shows r n
      → Shows q f
      → Shows (visit_conditional pr i l r q) (conditional_sem pr tm i m n f)
  unfolding visit_conditional conditional_sem flatten
  conditional-Shows i a b c = record {
    shown = λ s. simp (viewing, wording, done-words pr tm h, operand a, operand b, operand c);
  }

  pub binary_conditional-Shows :
      (i : Info T) (x : ℕ) {l r q e : P} {m n f g : Sem}
      → Shows l m
      → Shows r n
      → Shows q f
      → Shows e g
      → Shows (visit_binary_conditional pr i x l r q e) (binary_conditional_sem pr tm i x m n f g)
  unfolding visit_binary_conditional binary_conditional_sem flatten
  binary_conditional-Shows i x a b c d₁ = record {
    shown = λ s.
        simp (viewing, wording, done-words pr tm h, operand a, operand b, operand c, operand d₁);
  }

  pub init_list-Shows :
      (i : Info T) {l r : P} {m n : Sem}
      → Shows l m
      → Shows r n
      → Shows (visit_init_list pr i l r) (init_list_sem pr tm i m n)
  unfolding visit_init_list init_list_sem flatten
  init_list-Shows i a b = record {
    shown = λ s. simp (viewing, wording, done-words pr tm h, operand a, operand b);
  }

  pub this-Shows : (i : Info T) → Shows (visit_this pr i) (leaf_sem pr tm "Ethis" i)
  unfolding visit_this leaf_sem flatten
  this-Shows i = record { shown = λ s. simp (viewing, wording, done-words pr tm h) }

  pub null_ptr-Shows : Shows (visit_null_ptr pr) (null_ptr_sem pr tm)
  unfolding visit_null_ptr flatten
  null_ptr-Shows = record { shown = λ s. simp (viewing, wording) }

  pub trait_type-Shows :
      (i : Info T) (w : Option String) (type : T)
      → Shows (visit_trait_type pr i w type) (trait_type_sem pr tm i w type)
  unfolding visit_trait_type trait_type_sem flatten
  trait_type-Shows i none type = record { shown = λ s. simp viewing }
  trait_type-Shows i (some w) type = record {
    shown = λ s. simp (viewing, wording, h.type_words, done-words pr tm h);
  }

  pub trait_expr-Shows :
      (i : Info T) (w : Option String) {l : P} {m : Sem}
      → Shows l m
      → Shows (visit_trait_expr pr i w l) (trait_expr_sem pr tm i w m)
  unfolding visit_trait_expr trait_expr_sem flatten
  trait_expr-Shows i none a = record { shown = λ s. simp viewing }
  trait_expr-Shows i (some w) a = record {
    shown = λ s. simp (viewing, wording, done-words pr tm h, operand a);
  }

  pub offset_of-Shows :
      (i : Info T) (is_one : Bool) (d : Option N)
      → Shows (visit_offset_of pr i is_one d) (offset_of_sem pr tm i is_one d)
  unfolding visit_offset_of offset_of_sem flatten
  offset_of-Shows i is_one none = record { shown = λ s. simp viewing }
  offset_of-Shows i true (some d) = record {
    shown = λ s. simp (viewing, wording, h.field_words, done-words pr tm h, assert-true);
  }
  offset_of-Shows i false (some d) = record {
    shown = λ s. simp (viewing, wording, h.field_words, done-words pr tm h, assert-false);
  }

  pub new-Shows :
      (f : Option (Operation T N)) (type : T) {l r q : P} {m n g : Sem}
      → Shows l m
      → Shows r n
      → Shows q g
      → Shows (visit_new pr f type l r q) (new_sem pr tm f type m n g)
  unfolding visit_new new_sem flatten
  new-Shows f type a b c = record {
    shown = λ s.
        simp (
          viewing,
          wording,
          operation-words pr tm h,
          h.type_words,
          operand a,
          operand b,
          operand c,
        );
  }

  pub delete-Shows :
      (is_array : Bool) (f : Option (Operation T N)) (type : T) {l : P} {m : Sem}
      → Shows l m
      → Shows (visit_delete pr is_array f type l) (delete_sem pr tm is_array f type m)
  unfolding visit_delete delete_sem flatten
  delete-Shows is_array f type a = record {
    shown = λ s.
        simp (viewing, wording, operation-words pr tm h, words_of-boolean, h.type_words, operand a);
  }

  pub materialize-Shows :
      (i : Info T) (is_extended : Bool) {l : P} {m : Sem}
      → Shows l m
      → Shows (visit_materialize pr i is_extended l) (materialize_sem pr tm i is_extended m)
  unfolding visit_materialize materialize_sem flatten
  materialize-Shows i true a = record { shown = λ s. simp viewing }
  materialize-Shows i false a = record {
    shown = λ s. simp (viewing, wording, done-words pr tm h, operand a);
  }

  pub opaque-Shows : (i : Info T) (x : ℕ) → Shows (visit_opaque pr i x) (opaque_sem pr tm i x)
  unfolding visit_opaque opaque_sem flatten
  opaque-Shows i x = record { shown = λ s. simp (viewing, wording, done-words pr tm h) }

  pub atomic-Shows :
      (i : Info T) (op : Text) {l : P} {m : Sem}
      → Shows l m
      → Shows (visit_atomic pr i op l) (atomic_sem pr tm i op m)
  unfolding visit_atomic atomic_sem flatten
  atomic-Shows i op a = record {
    shown = λ s. simp (viewing, wording, done-words pr tm h, operand a);
  }

  pub va_arg-Shows :
      (i : Info T) {l : P} {m : Sem}
      → Shows l m
      → Shows (visit_va_arg pr i l) (va_arg_sem pr tm i m)
  unfolding visit_va_arg va_arg_sem flatten
  va_arg-Shows i a = record { shown = λ s. simp (viewing, wording, done-words pr tm h, operand a) }

  pub lambda-Shows :
      (i : Info T) → Shows (visit_lambda pr i) (unsupported_sem pr tm i (codes "lambda"))
  unfolding visit_lambda unsupported_sem flatten
  lambda-Shows i = record { shown = λ s. simp (viewing, wording, done-words pr tm h) }

  pub implicit_value-Shows :
      (i : Info T) → Shows (visit_implicit_value pr i) (leaf_sem pr tm "Eimplicit_init" i)
  unfolding visit_implicit_value leaf_sem flatten
  implicit_value-Shows i = record { shown = λ s. simp (viewing, wording, done-words pr tm h) }

  pub pseudo_destructor-Shows :
      (type : T) {l : P} {m : Sem}
      → Shows l m
      → Shows (visit_pseudo_destructor pr type l) (pseudo_destructor_sem pr tm type m)
  unfolding visit_pseudo_destructor pseudo_destructor_sem flatten
  pseudo_destructor-Shows type a = record {
    shown = λ s. simp (viewing, wording, h.type_words, alone-words a);
  }

  pub answer-Shows : (b : Bool) → Shows (visit_answer pr b) (answer_sem pr tm b)
  unfolding visit_answer answer_sem flatten
  answer-Shows b = record { shown = λ s. simp (viewing, wording, words_of-boolean) }

  pub scalar_value-Shows :
      (type : T) → Shows (visit_scalar_value pr type) (scalar_value_sem pr tm type)
  unfolding visit_scalar_value scalar_value_sem flatten
  scalar_value-Shows type = record { shown = λ s. simp (viewing, wording, h.type_words) }

  pub array_loop-Shows :
      (i : Info T) (x : ℕ) (size : Text) {l r : P} {m n : Sem}
      → Shows l m
      → Shows r n
      → Shows (visit_array_loop pr i x size l r) (array_loop_sem pr tm i x size m n)
  unfolding visit_array_loop array_loop_sem flatten
  array_loop-Shows i x size a b = record {
    shown = λ s. simp (viewing, wording, done-words pr tm h, operand a, operand b);
  }

  pub array_index-Shows : (i : Info T) → Shows (visit_array_index pr i) (array_index_sem pr tm i)
  unfolding visit_array_index array_index_sem flatten
  array_index-Shows i = record { shown = λ s. simp (viewing, wording, done-words pr tm h) }

  pub missing-Shows : Shows (print_missing pr) (missing_sem)
  unfolding print_missing flatten
  missing-Shows = record { shown = λ s. simp (viewing, wording) }

  pub present-Shows : {l : P} {m : Sem} → Shows l m → Shows (print_present pr l) (present_sem m)
  unfolding print_present present_sem flatten
  present-Shows a = record { shown = λ s. simp (viewing, wording, operand a) }

  pub paren_list-Shows :
      (i : Info T) (is_dependent : Bool) {l : P} {m : Sem}
      → Shows l m
      → Shows (visit_paren_list pr i is_dependent l) (paren_list_sem pr tm i is_dependent m)
  unfolding visit_paren_list paren_list_sem flatten
  paren_list-Shows i true a = record {
    shown = λ s. elim (Bool-cases pr.templates) [
      | inl p ↦ simp (p, viewing, wording, assert-true, operand a, h.type_option_words)
      | inr p ↦ simp (p, (unsupported-Shows pr tm h i).shown)
    ];
  }
  paren_list-Shows i false a = record {
    shown = λ s. elim (Bool-cases pr.templates) [
      | inl p ↦ simp (p, viewing, wording, assert-false)
      | inr p ↦ simp (p, (unsupported-Shows pr tm h i).shown)
    ];
  }
