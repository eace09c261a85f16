-- ===== src/PrintExpr/Level/Objects.antt =====
-- The methods from constructors to loops over arrays restore the depth.
use bri_ck.Prelude.{ℕ, suc, Bool, if◌then◌else◌, Option, none, some, List, Text, String, codes}
use bri_ck.OpaqueNames.{pos, find_index, fresh, inc_index_count}
use bri_ck.PrintExpr.{Info, v, t, vt, Printers}
use bri_ck.PrintExpr.Parts.{Operation, Method}
use bri_ck.PrintExpr.Visit.{P, Pointer, indirect, immediate, other_pointer}
use bri_ck.PrintExpr.Objects.{
  visit_construct, visit_inherited, visit_member_call, print_pointed, visit_pointer_call,
  visit_wrapped, visit_conditional, visit_binary_conditional, visit_paren_list, visit_init_list,
  visit_this, visit_null_ptr, visit_trait_type, visit_trait_expr, visit_offset_of, visit_new,
  visit_delete, visit_materialize, visit_opaque, visit_atomic, visit_va_arg, visit_lambda,
  visit_implicit_value, visit_pseudo_destructor, visit_answer, visit_scalar_value, visit_array_loop,
  visit_array_index, print_missing, print_present,
}
use bri_ck.PrintExpr.Level.Visit.{unsupported-Level, object-Level}
use bri_ck.CoqPrinter.Moves.{
  ◌then◌, Moves->>=, Moves-pure, Moves-str, Moves-ctor, Moves-ctor_inline, Moves-some, Moves-none,
  Moves-end, Moves-out, Moves-space, Moves-digits, Moves-boolean, Moves-if, stops,
}
use bri_ck.PrintExpr.PartLevel.{
  AreLevel, assert-IsLevel, Moves-done, method-IsLevel, operation-IsLevel, forwarded_list-IsLevel,
}
use bri_ck.PrintExpr.Level.{Level, alone-IsLevel}

module _ {T N : Type 0} (pr : Printers T N) (h : AreLevel pr) where
  pub construct-Level :
      (i : Info T) (d : N) {arguments : P}
      → Level arguments
      → Level (visit_construct pr i d arguments)
  unfolding visit_construct
  construct-Level i d a = record {
    level = λ s j.
        Moves-ctor "Econstructor"
        then h.obj_level d (suc j)
        then Moves-space
        then Moves->>= (a.level s (suc j)) λ s₁. Moves-done pr h i t then Moves-pure;
  }

  pub inherited-Level :
      (i : Info T) (d : N) (parameters : List T) → Level (visit_inherited pr i d parameters)
  unfolding visit_inherited
  inherited-Level i d parameters = record {
    level = λ s j.
        Moves-ctor "Econstructor"
        then h.obj_level d (suc j)
        then Moves-space
        then forwarded_list-IsLevel pr h parameters (suc j)
        then Moves-done pr h i t
        then Moves-pure;
  }

  pub member_call-Level :
      (i : Info T) (m : Method T N) (arrow : Option T) {object arguments : P}
      → Level object
      → Level arguments
      → Level (visit_member_call pr i m arrow object arguments)
  unfolding visit_member_call
  member_call-Level i m arrow a b = record {
    level = λ s j.
        Moves-ctor "Emember_call"
        then method-IsLevel pr h m (suc j)
        then Moves-space
        then Moves->>= ((object-Level pr h arrow a).level s (suc j)) λ s₁.
          Moves-space then Moves->>= (b.level s₁ (suc j)) λ s₂. Moves-done pr h i t then Moves-pure;
  }

  pub pointed-Level : (kind : Pointer T) {e : P} → Level e → Level (print_pointed pr kind e)
  unfolding print_pointed
  pointed-Level (indirect pointee) a = record {
    level = λ s j.
        Moves-out "Lvalue"
        then Moves-ctor "Ederef"
        then Moves->>= (a.level s (suc j))
            λ s₁. Moves-space then h.type_level pointee (suc j) then Moves-end then Moves-pure;
  }
  pointed-Level immediate a = record { level = λ s j. a.level s j }
  pointed-Level other_pointer a = record { level = λ s j. stops }

  pub pointer_call-Level :
      (i : Info T) (kind : Pointer T) {member object arguments : P}
      → Level member
      → Level object
      → Level arguments
      → Level (visit_pointer_call pr i kind member object arguments)
  unfolding visit_pointer_call
  pointer_call-Level i kind a b c = record {
    level = λ s j.
        Moves-ctor "Emember_call"
        then Moves-ctor "inr"
        then Moves->>= (a.level s (suc (suc j))) λ s₁.
          Moves-end
          then Moves-space
          then Moves->>= ((pointed-Level kind b).level s₁ (suc j)) λ s₂.
            Moves-space
            then Moves->>= (c.level s₂ (suc j)) λ s₃. Moves-done pr h i t then Moves-pure;
  }

  pub wrapped-Level : (c : String) {e : P} → Level e → Level (visit_wrapped pr c e)
  unfolding visit_wrapped
  wrapped-Level c a = record {
    level = λ s j. Moves-ctor c then Moves->>= (a.level s (suc j)) λ s₁. Moves-end then Moves-pure;
  }

  pub conditional-Level :
      (i : Info T) {c l r : P} → Level c → Level l → Level r → Level (visit_conditional pr i c l r)
  unfolding visit_conditional
  conditional-Level i a b g = record {
    level = λ s j.
        Moves-ctor "Eif"
        then Moves->>= (a.level s (suc j)) λ s₁.
          Moves-space
          then Moves->>= (b.level s₁ (suc j)) λ s₂.
            Moves-space
            then Moves->>= (g.level s₂ (suc j)) λ s₃. Moves-done pr h i vt then Moves-pure;
  }

  pub binary_conditional-Level :
      (i : Info T) (d : ℕ) {common c l r : P}
      → Level common
      → Level c
      → Level l
      → Level r
      → Level (visit_binary_conditional pr i d common c l r)
  unfolding visit_binary_conditional
  binary_conditional-Level i d a b g k = record {
    level = λ s j.
        Moves-ctor "Eif2"
        then Moves-digits (pr.decimal (pos (fresh d s).0))
        then Moves-space
        then Moves->>= (a.level (fresh d s).1 (suc j)) λ s₁.
          Moves-space
          then Moves->>= (b.level (inc_index_count s₁) (suc j)) λ s₂.
            Moves-space
            then Moves->>= (g.level s₂ (suc j)) λ s₃.
              Moves-space
              then Moves->>= (k.level s₃ (suc j)) λ s₄. Moves-done pr h i vt then Moves-pure;
  }

  pub init_list-Level :
      (i : Info T) {es filler : P}
      → Level es
      → Level filler
      → Level (visit_init_list pr i es filler)
  unfolding visit_init_list
  init_list-Level i a b = record {
    level = λ s j.
        Moves-ctor "Einitlist"
        then Moves->>= (a.level s (suc j)) λ s₁.
          Moves-space then Moves->>= (b.level s₁ (suc j)) λ s₂. Moves-done pr h i t then Moves-pure;
  }

  pub this-Level : (i : Info T) → Level (visit_this pr i)
  unfolding visit_this
  this-Level i = record {
    level = λ s j. Moves-ctor_inline "Ethis" then Moves-done pr h i t then Moves-pure;
  }

  pub null_ptr-Level : Level (visit_null_ptr pr)
  unfolding visit_null_ptr
  null_ptr-Level = record { level = λ s j. Moves-out "Enull" then Moves-pure }

  pub trait_type-Level :
      (i : Info T) (w : Option String) (type : T) → Level (visit_trait_type pr i w type)
  unfolding visit_trait_type
  trait_type-Level i none type = record { level = λ s j. stops }
  trait_type-Level i (some c) type = record {
    level = λ s j.
        Moves-ctor_inline c
        then Moves-ctor_inline "inl"
        then h.type_level type (suc (suc j))
        then Moves-end
        then Moves-done pr h i t
        then Moves-pure;
  }

  pub trait_expr-Level :
      (i : Info T) (w : Option String) {e : P} → Level e → Level (visit_trait_expr pr i w e)
  unfolding visit_trait_expr
  trait_expr-Level i none a = record { level = λ s j. stops }
  trait_expr-Level i (some c) a = record {
    level = λ s j.
        Moves-ctor_inline c
        then Moves-ctor_inline "inr"
        then Moves->>= (a.level s (suc (suc j)))
            λ s₁. Moves-end then Moves-done pr h i t then Moves-pure;
  }

  pub offset_of-Level :
      (i : Info T) (is_one : Bool) (d : Option N) → Level (visit_offset_of pr i is_one d)
  unfolding visit_offset_of
  offset_of-Level i is_one none = record { level = λ s j. stops }
  offset_of-Level i is_one (some d) = record {
    level = λ s j.
        Moves-ctor "Eoffset_of"
        then assert-IsLevel is_one (suc j)
        then Moves-ctor "Oo_Field"
        then h.field_level d (suc (suc j))
        then Moves-end
        then Moves-done pr h i t
        then Moves-pure;
  }

  pub new-Level :
      (f : Option (Operation T N)) (type : T) {placement size initializer : P}
      → Level placement
      → Level size
      → Level initializer
      → Level (visit_new pr f type placement size initializer)
  unfolding visit_new
  new-Level f type a b c = record {
    level = λ s j.
        Moves-ctor "Enew"
        then operation-IsLevel pr h f (suc j)
        then Moves-space
        then Moves->>= (a.level s (suc j)) λ s₁.
          Moves-space
          then h.type_level type (suc j)
          then Moves-space
          then Moves->>= (b.level s₁ (suc j))
              λ s₂. Moves-space then Moves->>= (c.level s₂ (suc j)) λ s₃. Moves-end then Moves-pure;
  }

  pub delete-Level :
      (is_array : Bool) (f : Option (Operation T N)) (type : T) {e : P}
      → Level e
      → Level (visit_delete pr is_array f type e)
  unfolding visit_delete
  delete-Level is_array f type a = record {
    level = λ s j.
        Moves-ctor "Edelete"
        then Moves-boolean is_array
        then Moves-space
        then operation-IsLevel pr h f (suc j)
        then Moves-space
        then Moves->>= (a.level s (suc j))
            λ s₁. Moves-space then h.type_level type (suc j) then Moves-end then Moves-pure;
  }

  pub opaque-Level : (i : Info T) (d : ℕ) → Level (visit_opaque pr i d)
  unfolding visit_opaque
  opaque-Level i d = record {
    level = λ s j.
        Moves-ctor "Eopaque_ref"
        then Moves-digits (pr.decimal (find_index d s))
        then Moves-done pr h i vt
        then Moves-pure;
  }

  pub atomic-Level : (i : Info T) (op : Text) {es : P} → Level es → Level (visit_atomic pr i op es)
  unfolding visit_atomic
  atomic-Level i op a = record {
    level = λ s j.
        Moves-ctor "Eatomic"
        then Moves-digits op
        then Moves-space
        then Moves->>= (a.level s (suc j)) λ s₁. Moves-done pr h i t then Moves-pure;
  }

  pub va_arg-Level : (i : Info T) {e : P} → Level e → Level (visit_va_arg pr i e)
  unfolding visit_va_arg
  va_arg-Level i a = record {
    level = λ s j.
        Moves-ctor "Eva_arg"
        then Moves->>= (a.level s (suc j)) λ s₁. Moves-done pr h i t then Moves-pure;
  }

  pub implicit_value-Level : (i : Info T) → Level (visit_implicit_value pr i)
  unfolding visit_implicit_value
  implicit_value-Level i = record {
    level = λ s j. Moves-ctor "Eimplicit_init" then Moves-done pr h i t then Moves-pure;
  }

  pub pseudo_destructor-Level :
      (type : T) {e : P} → Level e → Level (visit_pseudo_destructor pr type e)
  unfolding visit_pseudo_destructor
  pseudo_destructor-Level type a = record {
    level = λ s j.
        Moves-ctor "Epseudo_destructor"
        then h.type_level type (suc j)
        then Moves-space
        then alone-IsLevel a (suc j)
        then Moves-end
        then Moves-pure;
  }

  pub answer-Level : (b : Bool) → Level (visit_answer pr b)
  unfolding visit_answer
  answer-Level b = record {
    level = λ s j. Moves-ctor "Ebool" then Moves-boolean b then Moves-end then Moves-pure;
  }

  pub scalar_value-Level : (type : T) → Level (visit_scalar_value pr type)
  unfolding visit_scalar_value
  scalar_value-Level type = record {
    level = λ s j.
        Moves-ctor "Eimplicit_init" then h.type_level type (suc j) then Moves-end then Moves-pure;
  }

  pub array_loop-Level :
      (i : Info T) (d : ℕ) (size : Text) {source e : P}
      → Level source
      → Level e
      → Level (visit_array_loop pr i d size source e)
  unfolding visit_array_loop
  array_loop-Level i d size a b = record {
    level = λ s j.
        Moves-ctor "Earrayloop_init"
        then Moves-digits (pr.decimal (pos (fresh d s).0))
        then Moves-space
        then Moves->>= (a.level (fresh d s).1 (suc j)) λ s₁.
          Moves-digits (pr.decimal (inc_index_count s₁).index_count)
          then Moves-space
          then Moves-digits size
          then Moves-space
          then Moves->>= (b.level (inc_index_count s₁) (suc j))
              λ s₂. Moves-done pr h i t then Moves-pure;
  }

  pub array_index-Level : (i : Info T) → Level (visit_array_index pr i)
  unfolding visit_array_index
  array_index-Level i = record {
    level = λ s j.
        Moves-ctor "Earrayloop_index"
        then Moves-digits (pr.decimal s.index_count)
        then Moves-space
        then Moves-done pr h i t
        then Moves-pure;
  }

  pub missing-Level : Level (print_missing pr)
  unfolding print_missing
  missing-Level = record { level = λ s j. Moves-none then Moves-pure }

  pub present-Level : {e : P} → Level e → Level (print_present pr e)
  unfolding print_present
  present-Level a = record {
    level = λ s j. Moves-some then Moves->>= (a.level s (suc j)) λ s₁. Moves-end then Moves-pure;
  }

  pub paren_list-Level :
      (i : Info T) (is_dependent : Bool) {es : P}
      → Level es
      → Level (visit_paren_list pr i is_dependent es)
  unfolding visit_paren_list
  paren_list-Level i is_dependent a = record {
    level = λ s j.
        Moves-if pr.templates
          (assert-IsLevel is_dependent j
            then Moves-ctor "Eunresolved_parenlist"
            then h.option_level i.type (suc j)
            then Moves-space
            then Moves->>= (a.level s (suc j)) λ s₁. Moves-end then Moves-pure)
          ((unsupported-Level pr h i).level s j);
  }

  pub materialize-Level :
      (i : Info T) (is_extended : Bool) {e : P}
      → Level e
      → Level (visit_materialize pr i is_extended e)
  unfolding visit_materialize
  materialize-Level i is_extended a = record {
    level = λ s j. Moves-if is_extended stops (
        Moves-ctor "Ematerialize_temp"
        then Moves->>= (a.level s (suc j)) λ s₁. Moves-done pr h i v then Moves-pure);
  }

  pub lambda-Level : (i : Info T) → Level (visit_lambda pr i)
  unfolding visit_lambda
  lambda-Level i = record {
    level = λ s j.
        Moves-ctor "Eunsupported"
        then Moves-str (codes "lambda")
        then Moves-done pr h i vt
        then Moves-pure;
  }
