-- ===== src/PrintExpr/Scope.antt =====
-- src/PrintExpr.cpp hands the opaque names through the operands of an expression: what becomes of them.
pub mod Tree
use bri_ck.Prelude.{
  ℕ, zero, suc, ◌≡◌, refl, sym, ap, ◌∙◌, Bool, true, false, Bool-cases, inl, inr, ◌&&◌, Option,
  none, some, List, [], ◌∷◌, ◌++◌, Text, String, append_assoc, append-nil, if◌then◌else◌,
}
use bri_ck.OpaqueNames.{
  ℤ, pos, negsuc, succ, pred, OpaqueNames, fresh, free, inc_index_count, dec_index_count,
}
use bri_ck.PrintExpr.{Info, Printers}
use bri_ck.PrintExpr.Visit.{Pointer, indirect, immediate, other_pointer}
use bri_ck.PrintExpr.Terms.{Denotation}
use bri_ck.PrintExpr.Meaning.{
  Sem, unsupported_sem, enum_ref_sem, unresolved_sem, call_sem, bool_sem, object_sem, member_sem,
}
use bri_ck.PrintExpr.Meaning.Objects.{
  pointed_sem, binary_conditional_sem, paren_list_sem, trait_type_sem, trait_expr_sem,
  offset_of_sem, materialize_sem, array_loop_sem,
}

-- The anonymous declarations and the depth of loops are the same, and there may be more numbers.
pub record Extends (s u : OpaqueNames) : Type 0 where
  pub added : List ℕ
  pub more_indexes : u.indexes ≡ s.indexes ++ added
  pub same_anonymous : u.anonymous ≡ s.anonymous
  pub same_count : u.index_count ≡ s.index_count

Extends-refl : (s : OpaqueNames) → Extends s s
Extends-refl s = record {
  added = [];
  more_indexes = sym (append-nil s.indexes);
  same_anonymous = refl;
  same_count = refl;
}

Extends-trans : {s u w : OpaqueNames} → Extends s u → Extends u w → Extends s w
Extends-trans {s} h k = record {
  added = h.added ++ k.added;
  more_indexes =
      k.more_indexes
      ∙ ap (λ l. l ++ k.added) h.more_indexes
      ∙ append_assoc s.indexes h.added k.added;
  same_anonymous = k.same_anonymous ∙ h.same_anonymous;
  same_count = k.same_count ∙ h.same_count;
}

fresh-Extends : (d : ℕ) (s : OpaqueNames) → Extends s (fresh d s).1
unfolding fresh
fresh-Extends d s = record {
  added = d ∷ [];
  more_indexes = refl;
  same_anonymous = refl;
  same_count = refl;
}

pred-succ : (n : ℤ) → pred (succ n) ≡ n
unfolding pred succ
pred-succ (pos n) = refl
pred-succ (negsuc zero) = refl
pred-succ (negsuc (suc n)) = refl

-- What is one loop deeper, and leaves that loop at the end.
deeper : {s u : OpaqueNames} → Extends (inc_index_count s) u → Extends s (dec_index_count u)
unfolding inc_index_count dec_index_count
deeper {s} {u} h = record {
  added = h.added;
  more_indexes = h.more_indexes;
  same_anonymous = h.same_anonymous;
  same_count = ap pred h.same_count ∙ pred-succ s.index_count;
}

-- The names go through the routine.
pub record Keeps (f : OpaqueNames → OpaqueNames) : Type 0 where
  pub keeps : (s : OpaqueNames) → Extends s (f s)

pub unchanged : Keeps (λ s. s)
unchanged = record { keeps = Extends-refl }

pub two : {f g : OpaqueNames → OpaqueNames} → Keeps f → Keeps g → Keeps (λ s. g (f s))
two {f} {g} a b = record { keeps = λ s. Extends-trans (a.keeps s) (b.keeps (f s)) }

pub three :
    {f g h : OpaqueNames → OpaqueNames} → Keeps f → Keeps g → Keeps h → Keeps (λ s. h (g (f s)))
three a b c = two (two a b) c

module _ {T N : Type 0} (pr : Printers T N) (tm : Denotation T N) where
  pub enum_ref-Keeps :
      (i : Info T) (d : N) (type : Option T) → Keeps (λ s. (enum_ref_sem pr tm i d type s).1)
  unfolding enum_ref_sem
  enum_ref-Keeps i d none = unchanged
  enum_ref-Keeps i d (some type) = unchanged

  pub bool-Keeps : (b : Bool) → Keeps (λ s. (bool_sem pr tm b s).1)
  unfolding bool_sem
  bool-Keeps true = unchanged
  bool-Keeps false = unchanged

  pub trait_type-Keeps :
      (i : Info T) (w : Option String) (type : T) → Keeps (λ s. (trait_type_sem pr tm i w type s).1)
  unfolding trait_type_sem
  trait_type-Keeps i none type = unchanged
  trait_type-Keeps i (some w) type = unchanged

  pub offset_of-Keeps :
      (i : Info T) (is_one : Bool) (d : Option N)
      → Keeps (λ s. (offset_of_sem pr tm i is_one d s).1)
  unfolding offset_of_sem
  offset_of-Keeps i is_one none = unchanged
  offset_of-Keeps i is_one (some d) = unchanged

  pub unresolved-Keeps :
      (i : Info T) (name : Option Text) → Keeps (λ s. (unresolved_sem pr tm i name s).1)
  unfolding unresolved_sem unsupported_sem
  unresolved-Keeps i none = unchanged
  unresolved-Keeps i (some name) = elim (Bool-cases pr.templates) [
    | inl p ↦ rw p unchanged
    | inr p ↦ rw p unchanged
  ]

  pub trait_expr-Keeps :
      (i : Info T) (w : Option String) (m : Sem)
      → Keeps (λ s. (m s).1)
      → Keeps (λ s. (trait_expr_sem pr tm i w m s).1)
  unfolding trait_expr_sem
  trait_expr-Keeps i none m a = unchanged
  trait_expr-Keeps i (some w) m a = a

  pub materialize-Keeps :
      (i : Info T) (is_extended : Bool) (m : Sem)
      → Keeps (λ s. (m s).1)
      → Keeps (λ s. (materialize_sem pr tm i is_extended m s).1)
  unfolding materialize_sem
  materialize-Keeps i true m a = unchanged
  materialize-Keeps i false m a = a

  pub paren_list-Keeps :
      (i : Info T) (is_dependent : Bool) (m : Sem)
      → Keeps (λ s. (m s).1)
      → Keeps (λ s. (paren_list_sem pr tm i is_dependent m s).1)
  unfolding paren_list_sem unsupported_sem
  paren_list-Keeps i is_dependent m a = elim (Bool-cases pr.templates) [
    | inl p ↦ rw p a
    | inr p ↦ rw p unchanged
  ]

  pub call-Keeps :
      (i : Info T) (is_dependent : Bool) (m n : Sem)
      → Keeps (λ s. (m s).1)
      → Keeps (λ s. (n s).1)
      → Keeps (λ s. (call_sem pr tm i is_dependent m n s).1)
  unfolding call_sem
  call-Keeps i is_dependent m n a b = elim (Bool-cases (pr.templates && is_dependent)) [
    | inl p ↦ rw p (two a b)
    | inr p ↦ rw p (two a b)
  ]

  pub object-Keeps :
      (arrow : Option T) (m : Sem)
      → Keeps (λ s. (m s).1)
      → Keeps (λ s. (object_sem pr tm arrow m s).1)
  unfolding object_sem
  object-Keeps none m a = a
  object-Keeps (some type) m a = a

  pub member-Keeps :
      (i : Info T) (d : N) (is_reference : Bool) (arrow : Option T) (fits : Bool) (m : Sem)
      → Keeps (λ s. (m s).1)
      → Keeps (λ s. (member_sem pr tm i d is_reference arrow fits m s).1)
  unfolding member_sem
  member-Keeps i d is_reference arrow fits m a = object-Keeps arrow m a

  pub pointed-Keeps :
      (kind : Pointer T) (m : Sem)
      → Keeps (λ s. (m s).1)
      → Keeps (λ s. (pointed_sem pr tm kind m s).1)
  unfolding pointed_sem
  pointed-Keeps (indirect type) m a = a
  pointed-Keeps immediate m a = a
  pointed-Keeps other_pointer m a = unchanged

  pub binary_conditional-Keeps :
      (i : Info T) (d : ℕ) (m n f g : Sem)
      → Keeps (λ s. (m s).1)
      → Keeps (λ s. (n s).1)
      → Keeps (λ s. (f s).1)
      → Keeps (λ s. (g s).1)
      → Keeps (λ s. (binary_conditional_sem pr tm i d m n f g s).1)
  unfolding binary_conditional_sem
  binary_conditional-Keeps i d m n f g a b c e = record {
    keeps = λ s.
        Extends-trans (Extends-trans (fresh-Extends d s) (a.keeps (fresh d s).1))
          (deeper ((three b c e).keeps (inc_index_count (m (fresh d s).1).1)));
  }

  pub array_loop-Keeps :
      (i : Info T) (d : ℕ) (size : Text) (m n : Sem)
      → Keeps (λ s. (m s).1)
      → Keeps (λ s. (n s).1)
      → Keeps (λ s. (array_loop_sem pr tm i d size m n s).1)
  unfolding array_loop_sem free
  array_loop-Keeps i d size m n a b = record {
    keeps = λ s.
        Extends-trans (Extends-trans (fresh-Extends d s) (a.keeps (fresh d s).1))
          (deeper (b.keeps (inc_index_count (m (fresh d s).1).1)));
  }
