-- ===== src/PrintExpr/Words/Visit.antt =====
-- The methods from unsupported expressions to subscripts.
use bri_ck.Prelude.{
  ℕ, Bool, true, false, Bool-cases, inl, inr, ◌&&◌, Option, none, some, List, Text,
}
use bri_ck.CoqPrinter.Words.{wording, join-three, words_of-pure}
use bri_ck.CoqPrinter.View.{viewing, after-two}
use bri_ck.CoqPrinter.Terms.{flatten, items-flatten}
use bri_ck.PrintExpr.{Info, Var, Operator, Sequencing, UnaryOp, Printers}
use bri_ck.PrintExpr.Units.Decoded.{decoded, units-decoded}
use bri_ck.PrintExpr.Parts.{
  Cast, NamedCast, OperatorMethod, IntegerValue, open_ref, close_ref, print_unit,
}
use bri_ck.PrintExpr.Visit.{
  P, visit_unsupported, visit_sequencing, visit_binary, visit_addr_of, visit_unary, visit_enum_ref,
  visit_decl_ref, visit_unresolved_lookup, visit_call, visit_operator_method,
  visit_constructor_conversion, visit_user_cast, visit_cast, visit_builtin, visit_named_cast,
  visit_integer, visit_character, visit_string, visit_predefined, visit_bool, visit_floating,
  visit_static_data, visit_static_method, visit_member, visit_subscript, print_object,
}
use bri_ck.PrintExpr.Terms.{
  Denotation, read_ref, unit_term, cast_term, named_cast_term, operator_method_term,
}
use bri_ck.CoqPrinter.Terms.{app, one}
use bri_ck.PrintExpr.Meaning.{
  Sem, wrapped_sem, sequencing_sem, alone_sem, unsupported_sem, binary_sem, unary_sem, enum_ref_sem,
  decl_ref_sem, unresolved_sem, call_sem, member_call_sem, cast_sem, builtin_sem, literal_sem,
  string_sem, predefined_sem, bool_sem, floating_sem, static_data_sem, static_method_sem,
  object_sem, member_sem, subscript_sem,
}
use bri_ck.PrintExpr.Tables.{digits_of}
use bri_ck.PrintExpr.TableWords.{sequencing_name-ctor, if-result_done, if-digits_of}
use bri_ck.PrintExpr.PartWords.{
  IsPrinting, assert-true, assert-false, operator-words, unary-words, done-words, var_ref-words,
  cast-words, named_cast-words, operator_method-words, string_type-words, unit-words,
}
use bri_ck.PrintExpr.Words.{Shows, operand, alone-words}

module _ {T N : Type 0} (pr : Printers T N) (tm : Denotation T N) (h : IsPrinting pr tm) where
  pub unsupported-Shows :
      (i : Info T) → Shows (visit_unsupported pr i) (unsupported_sem pr tm i i.class_name)
  unfolding visit_unsupported unsupported_sem flatten
  unsupported-Shows i = record { shown = λ s. simp (viewing, wording, done-words pr tm h) }

  pub sequencing-Shows :
      (op : Sequencing) (fits : Bool) {l r : P} {m n : Sem}
      → Shows l m
      → Shows r n
      → Shows (visit_sequencing pr op fits l r) (sequencing_sem op fits m n)
  unfolding visit_sequencing sequencing_sem flatten
  sequencing-Shows op true a b = record {
    shown = λ s.
        simp (viewing, wording, alone-words a, alone-words b, assert-true, sequencing_name-ctor);
  }
  sequencing-Shows op false a b = record {
    shown = λ s.
        simp (viewing, wording, alone-words a, alone-words b, assert-false, sequencing_name-ctor);
  }

  pub binary-Shows :
      (i : Info T) (op : Operator) {l r : P} {m n : Sem}
      → Shows l m
      → Shows r n
      → Shows (visit_binary pr i op l r) (binary_sem pr tm i op m n)
  unfolding visit_binary binary_sem flatten
  binary-Shows i op a b = record {
    shown = λ s. simp (
      viewing,
      wording,
      operator-words op,
      operand a,
      operand b,
      done-words pr tm h,
      if-result_done pr.templates,
    );
  }

  pub addr_of-Shows :
      {l : P} {m : Sem} → Shows l m → Shows (visit_addr_of pr l) (wrapped_sem "Eaddrof" m)
  unfolding visit_addr_of wrapped_sem flatten
  addr_of-Shows a = record { shown = λ s. simp (viewing, wording, operand a) }

  pub unary-Shows :
      (i : Info T) (op : UnaryOp) {l : P} {m : Sem}
      → Shows l m
      → Shows (visit_unary pr i op l) (unary_sem pr tm i op m)
  unfolding visit_unary unary_sem flatten
  unary-Shows i op a = record {
    shown = λ s. simp (
      viewing,
      wording,
      unary-words op,
      done-words pr tm h,
      if-result_done pr.templates,
      operand a,
    );
  }

  pub enum_ref-Shows :
      (i : Info T) (d : N) (type : Option T)
      → Shows (visit_enum_ref pr i d type) (enum_ref_sem pr tm i d type)
  unfolding visit_enum_ref enum_ref_sem flatten
  enum_ref-Shows i d none = record {
    shown = λ s. simp (viewing, wording, h.obj_words, done-words pr tm h);
  }
  enum_ref-Shows i d (some type) = record {
    shown = λ s. simp (viewing, wording, h.obj_words, done-words pr tm h, h.type_words);
  }

  pub decl_ref-Shows :
      (i : Info T) (x : Var N) (is_reference : Bool)
      → Shows (visit_decl_ref pr i x is_reference) (decl_ref_sem pr tm i x is_reference)
  unfolding visit_decl_ref decl_ref_sem open_ref close_ref read_ref flatten
  decl_ref-Shows i x true = record {
    shown = λ s. simp (viewing, wording, var_ref-words pr tm h, done-words pr tm h);
  }
  decl_ref-Shows i x false = record {
    shown = λ s. simp (viewing, wording, var_ref-words pr tm h, done-words pr tm h, words_of-pure);
  }

  pub operator_method-Shows :
      (i : Info T) (c : OperatorMethod T N) {l r : P} {m n : Sem}
      → Shows l m
      → Shows r n
      → Shows
          (visit_operator_method pr i c l r)
          (member_call_sem pr tm i (operator_method_term pr tm c) m n)
  unfolding visit_operator_method member_call_sem flatten
  operator_method-Shows i c a b = record {
    shown = λ s.
        simp (
          viewing,
          wording,
          operator_method-words pr tm h,
          done-words pr tm h,
          operand a,
          operand b,
        );
  }

  pub constructor_conversion-Shows :
      {l : P} {m : Sem} → Shows l m → Shows (visit_constructor_conversion pr l) (alone_sem m)
  unfolding visit_constructor_conversion alone_sem flatten
  constructor_conversion-Shows a = record { shown = λ s. simp (viewing, alone-words a) }

  pub user_cast-Shows :
      (i : Info T) (d : N) {l : P} {m : Sem}
      → Shows l m
      → Shows (visit_user_cast pr i d l) (cast_sem pr tm i (app "Cuser" (one (tm.obj_term d))) m)
  unfolding visit_user_cast cast_sem flatten
  user_cast-Shows i d a = record {
    shown = λ s. simp (viewing, wording, h.obj_words, done-words pr tm h, operand a);
  }

  pub cast-Shows :
      (i : Info T) (c : Cast N) {l : P} {m : Sem}
      → Shows l m
      → Shows (visit_cast pr i c l) (cast_sem pr tm i (cast_term pr tm c) m)
  unfolding visit_cast cast_sem flatten
  cast-Shows i c a = record {
    shown = λ s. simp (viewing, wording, cast-words pr tm h, done-words pr tm h, operand a);
  }

  pub builtin-Shows : (i : Info T) (d : N) → Shows (visit_builtin pr i d) (builtin_sem pr tm i d)
  unfolding visit_builtin builtin_sem flatten
  builtin-Shows i d = record {
    shown = λ s. simp (viewing, wording, h.obj_words, done-words pr tm h);
  }

  pub named_cast-Shows :
      (i : Info T) (c : NamedCast T N) {l : P} {m : Sem}
      → Shows l m
      → Shows (visit_named_cast pr i c l) (cast_sem pr tm i (named_cast_term pr tm i c) m)
  unfolding visit_named_cast cast_sem flatten
  named_cast-Shows i c a = record {
    shown = λ s. simp (viewing, wording, named_cast-words pr tm h, done-words pr tm h, operand a);
  }

  pub integer-Shows :
      (i : Info T) (value : IntegerValue)
      → Shows (visit_integer pr i value) (
          literal_sem pr tm "Eint" i
            (digits_of value.is_signed value.signed_digits value.unsigned_digits)
            "%Z")
  unfolding visit_integer literal_sem flatten
  integer-Shows i value = record {
    shown = λ s. simp (
      viewing,
      wording,
      after-two,
      done-words pr tm h,
      if-digits_of value.is_signed value.signed_digits value.unsigned_digits,
    );
  }

  pub character-Shows :
      (i : Info T) (value : Text)
      → Shows (visit_character pr i value) (literal_sem pr tm "Echar" i value "%N")
  unfolding visit_character literal_sem flatten
  character-Shows i value = record {
    shown = λ s. simp (viewing, wording, after-two, done-words pr tm h);
  }

  pub string-Shows :
      (width : ℕ) (bytes : List ℕ) (element : Option T)
      → Shows (visit_string pr width bytes element) (string_sem pr tm width bytes element)
  unfolding visit_string string_sem flatten
  string-Shows width bytes element = record {
    shown = λ s. simp (
      viewing,
      wording,
      items-flatten (print_unit pr) (unit_term pr tm) (unit-words pr tm h)
          (decoded pr.big_endian width bytes),
      units-decoded,
      string_type-words pr tm h,
    );
  }

  pub predefined-Shows :
      (name : Text) (element : Option T)
      → Shows (visit_predefined pr name element) (predefined_sem pr tm name element)
  unfolding visit_predefined predefined_sem flatten
  predefined-Shows name element = record {
    shown = λ s. simp (viewing, wording, string_type-words pr tm h);
  }

  pub bool-Shows : (b : Bool) → Shows (visit_bool pr b) (bool_sem pr tm b)
  unfolding visit_bool bool_sem flatten
  bool-Shows true = record { shown = λ s. simp (viewing, wording) }
  bool-Shows false = record { shown = λ s. simp (viewing, wording) }

  pub floating-Shows :
      (i : Info T) (value : Text) → Shows (visit_floating pr i value) (floating_sem pr tm i value)
  unfolding visit_floating floating_sem flatten
  floating-Shows i value = record {
    shown = λ s. simp (viewing, wording, join-three, done-words pr tm h);
  }

  pub static_data-Shows :
      (i : Info T) (x : Var N) (is_reference : Bool) {l : P} {m : Sem}
      → Shows l m
      → Shows (visit_static_data pr i x is_reference l) (static_data_sem pr tm i x is_reference m)
  unfolding visit_static_data static_data_sem open_ref close_ref read_ref flatten
  static_data-Shows i x true a = record {
    shown = λ s. simp (viewing, wording, var_ref-words pr tm h, done-words pr tm h, operand a);
  }
  static_data-Shows i x false a = record {
    shown = λ s.
        simp
          (viewing, wording, var_ref-words pr tm h, done-words pr tm h, words_of-pure, operand a);
  }

  pub static_method-Shows :
      (x : Var N) (type : T) {l : P} {m : Sem}
      → Shows l m
      → Shows (visit_static_method pr x type l) (static_method_sem pr tm x type m)
  unfolding visit_static_method static_method_sem flatten
  static_method-Shows x type a = record {
    shown = λ s. simp (viewing, wording, var_ref-words pr tm h, h.type_words, operand a);
  }

  pub object-Shows :
      (arrow : Option T) {l : P} {m : Sem}
      → Shows l m
      → Shows (print_object pr arrow l) (object_sem pr tm arrow m)
  unfolding print_object object_sem flatten
  object-Shows none a = a
  object-Shows (some type) a = record {
    shown = λ s. simp (viewing, wording, h.type_words, operand a);
  }

  pub subscript-Shows :
      (i : Info T) {l r : P} {m n : Sem}
      → Shows l m
      → Shows r n
      → Shows (visit_subscript pr i l r) (subscript_sem pr tm i m n)
  unfolding visit_subscript subscript_sem flatten
  subscript-Shows i a b = record {
    shown = λ s.
        simp
          (viewing, wording, done-words pr tm h, operand a, operand b, if-result_done pr.templates);
  }

  pub unresolved-Shows :
      (i : Info T) (name : Option Text)
      → Shows (visit_unresolved_lookup pr i name) (unresolved_sem pr tm i name)
  unfolding visit_unresolved_lookup unresolved_sem flatten
  unresolved-Shows i none = unsupported-Shows i
  unresolved-Shows i (some name) = record {
    shown = λ s. elim (Bool-cases pr.templates) [
      | inl p ↦ simp (viewing, wording, p)
      | inr p ↦ simp (p, (unsupported-Shows i).shown)
    ];
  }

  pub call-Shows :
      (i : Info T) (is_dependent : Bool) {l r : P} {m n : Sem}
      → Shows l m
      → Shows r n
      → Shows (visit_call pr i is_dependent l r) (call_sem pr tm i is_dependent m n)
  unfolding visit_call call_sem flatten
  call-Shows i is_dependent a b = record {
    shown = λ s. elim (Bool-cases (pr.templates && is_dependent)) [
      | inl p ↦ simp (p, viewing, wording, operand a, operand b)
      | inr p ↦ simp (p, viewing, wording, operand a, operand b, done-words pr tm h)
    ];
  }

  pub member-Shows :
      (i : Info T) (d : N) (is_reference : Bool) (arrow : Option T) (fits : Bool) {l : P} {m : Sem}
      → Shows l m
      → Shows
          (visit_member pr i d is_reference arrow fits l)
          (member_sem pr tm i d is_reference arrow fits m)
  unfolding visit_member member_sem open_ref close_ref read_ref flatten
  member-Shows i d true arrow true a = record {
    shown = λ s. simp (
      viewing,
      wording,
      operand (object-Shows arrow a),
      assert-true,
      h.field_words,
      done-words pr tm h,
    );
  }
  member-Shows i d false arrow true a = record {
    shown = λ s. simp (
      viewing,
      wording,
      words_of-pure,
      operand (object-Shows arrow a),
      assert-true,
      h.field_words,
      done-words pr tm h,
    );
  }
  member-Shows i d true arrow false a = record {
    shown = λ s. simp (viewing, wording, operand (object-Shows arrow a), assert-false);
  }
  member-Shows i d false arrow false a = record {
    shown = λ s. simp (viewing, words_of-pure, operand (object-Shows arrow a), assert-false);
  }
