-- ===== src/PrintExpr/Objects.antt =====
-- src/PrintExpr.cpp: the other `Visit…` methods, from constructors to loops over arrays, over the
-- printers of the operands.
use bri_ck.Prelude.{ℕ, Bool, Option, none, some, List, Text, codes, String, if◌then◌else◌}
use bri_ck.OpaqueNames.{pos, fresh, free, find_index, inc_index_count, dec_index_count}
use bri_ck.CoqPrinter.{
  ◌>>=◌, ◌>>◌, pure, aborts, out, digits, space, ctor, ctor_inline, end_ctor, str, boolean,
  print_some, print_none, begin_list, end_list, print_cons,
}
use bri_ck.PrintExpr.{Info, v, t, vt, Trait, align_of, size_of, other_trait, Printers}
use bri_ck.PrintExpr.Parts.{
  assert, Operation, Method, print_done, print_method, print_operation, print_forwarded_list,
}
use bri_ck.PrintExpr.Visit.{
  P, alone, Pointer, indirect, immediate, other_pointer, print_object, visit_unsupported,
}

module _ {T N : Type 0} (pr : Printers T N) where
  unfoldable pub visit_construct : Info T → N → P → P
  visit_construct i d arguments s = do
    ctor "Econstructor"
    pr.print_obj_name d
    space
    s₁ ← arguments s
    print_done pr i t
    pure s₁

  unfoldable pub visit_inherited : Info T → N → List T → P
  visit_inherited i d parameters s = do
    ctor "Econstructor"
    pr.print_obj_name d
    space
    print_forwarded_list pr parameters
    print_done pr i t
    pure s

  unfoldable pub visit_member_call : Info T → Method T N → Option T → P → P → P
  unfolding print_object
  visit_member_call i m arrow object arguments s = do
    ctor "Emember_call"
    print_method pr m
    space
    s₁ ← print_object pr arrow object s
    space
    s₂ ← arguments s₁
    print_done pr i t
    pure s₂

  -- The object of a call through a pointer to a member
  unfoldable pub print_pointed : Pointer T → P → P
  print_pointed (indirect pointee) e s = do
    out "Lvalue"
    ctor "Ederef"
    s₁ ← e s
    space
    pr.print_type pointee
    end_ctor
    pure s₁
  print_pointed immediate e s = e s
  print_pointed other_pointer e s = aborts

  unfoldable pub visit_pointer_call : Info T → Pointer T → P → P → P → P
  unfolding print_pointed
  visit_pointer_call i kind member object arguments s = do
    ctor "Emember_call"
    ctor "inr"
    s₁ ← member s
    end_ctor
    space
    s₂ ← print_pointed kind object s₁
    space
    s₃ ← arguments s₂
    print_done pr i t
    pure s₃

  -- A constructor around one expression, without its type
  unfoldable pub visit_wrapped : String → P → P
  visit_wrapped c e s = do ctor c; s₁ ← e s; end_ctor; pure s₁

  unfoldable pub visit_conditional : Info T → P → P → P → P
  visit_conditional i c l r s = do
    ctor "Eif"
    s₁ ← c s
    space
    s₂ ← l s₁
    space
    s₃ ← r s₂
    print_done pr i vt
    pure s₃

  unfoldable pub visit_binary_conditional : Info T → ℕ → P → P → P → P → P
  unfolding fresh inc_index_count dec_index_count
  visit_binary_conditional i d common c l r s = do
    ctor "Eif2"
    digits (pr.decimal (pos (fresh d s).0))
    space
    s₁ ← common (fresh d s).1
    space
    s₂ ← c (inc_index_count s₁)
    space
    s₃ ← l s₂
    space
    s₄ ← r s₃
    print_done pr i vt
    pure (dec_index_count s₄)

  unfoldable pub visit_paren_list : Info T → Bool → P → P
  visit_paren_list i is_dependent es s =
      if pr.templates
      then (do
        assert is_dependent
        ctor "Eunresolved_parenlist"
        pr.print_type_option i.type
        space
        s₁ ← es s
        end_ctor
        pure s₁)
      else visit_unsupported pr i s

  unfoldable pub visit_init_list : Info T → P → P → P
  visit_init_list i es filler s = do
    ctor "Einitlist"
    s₁ ← es s
    space
    s₂ ← filler s₁
    print_done pr i t
    pure s₂

  unfoldable pub visit_this : Info T → P
  visit_this i s = do ctor_inline "Ethis"; print_done pr i t; pure s

  unfoldable pub visit_null_ptr : P
  visit_null_ptr s = do out "Enull"; pure s

  unfoldable pub trait_name : Trait → Option String
  trait_name align_of = some "Ealign_of"
  trait_name size_of = some "Esize_of"
  trait_name other_trait = none

  -- `sizeof` and `alignof` of a type
  unfoldable pub visit_trait_type : Info T → Option String → T → P
  visit_trait_type i none type s = aborts
  visit_trait_type i (some c) type s = do
    ctor_inline c
    ctor_inline "inl"
    pr.print_type type
    end_ctor
    print_done pr i t
    pure s

  -- `sizeof` and `alignof` of an expression
  unfoldable pub visit_trait_expr : Info T → Option String → P → P
  visit_trait_expr i none e s = aborts
  visit_trait_expr i (some c) e s = do
    ctor_inline c
    ctor_inline "inr"
    s₁ ← e s
    end_ctor
    print_done pr i t
    pure s₁

  -- Only one component, which is a field, is supported.
  unfoldable pub visit_offset_of : Info T → Bool → Option N → P
  visit_offset_of i is_one none s = aborts
  visit_offset_of i is_one (some d) s = do
    ctor "Eoffset_of"
    assert is_one
    ctor "Oo_Field"
    pr.print_field d
    end_ctor
    print_done pr i t
    pure s

  unfoldable pub visit_new : Option (Operation T N) → T → P → P → P → P
  visit_new f type placement size initializer s = do
    ctor "Enew"
    print_operation pr f
    space
    s₁ ← placement s
    space
    pr.print_type type
    space
    s₂ ← size s₁
    space
    s₃ ← initializer s₂
    end_ctor
    pure s₃

  unfoldable pub visit_delete : Bool → Option (Operation T N) → T → P → P
  visit_delete is_array f type e s = do
    ctor "Edelete"
    boolean is_array
    space
    print_operation pr f
    space
    s₁ ← e s
    space
    pr.print_type type
    end_ctor
    pure s₁

  -- A temporary that outlives the expression is not supported.
  unfoldable pub visit_materialize : Info T → Bool → P → P
  visit_materialize i is_extended e s =
      if is_extended
      then aborts
      else (do ctor "Ematerialize_temp"; s₁ ← e s; print_done pr i v; pure s₁)

  unfoldable pub visit_opaque : Info T → ℕ → P
  unfolding find_index
  visit_opaque i d s = do
    ctor "Eopaque_ref"
    digits (pr.decimal (find_index d s))
    print_done pr i vt
    pure s

  unfoldable pub visit_atomic : Info T → Text → P → P
  visit_atomic i op es s = do
    ctor "Eatomic"
    digits op
    space
    s₁ ← es s
    print_done pr i t
    pure s₁

  unfoldable pub visit_va_arg : Info T → P → P
  visit_va_arg i e s = do ctor "Eva_arg"; s₁ ← e s; print_done pr i t; pure s₁

  unfoldable pub visit_lambda : Info T → P
  visit_lambda i s = do ctor "Eunsupported"; str (codes "lambda"); print_done pr i vt; pure s

  unfoldable pub visit_implicit_value : Info T → P
  visit_implicit_value i s = do ctor "Eimplicit_init"; print_done pr i t; pure s

  unfoldable pub visit_pseudo_destructor : T → P → P
  unfolding alone
  visit_pseudo_destructor type e s = do
    ctor "Epseudo_destructor"
    pr.print_type type
    space
    alone e
    end_ctor
    pure s

  -- `noexcept` and type traits
  unfoldable pub visit_answer : Bool → P
  visit_answer b s = do ctor "Ebool"; boolean b; end_ctor; pure s

  unfoldable pub visit_scalar_value : T → P
  visit_scalar_value type s = do ctor "Eimplicit_init"; pr.print_type type; end_ctor; pure s

  unfoldable pub visit_array_loop : Info T → ℕ → Text → P → P → P
  unfolding fresh free inc_index_count dec_index_count
  visit_array_loop i d size source e s = do
    ctor "Earrayloop_init"
    digits (pr.decimal (pos (fresh d s).0))
    space
    s₁ ← source (fresh d s).1
    digits (pr.decimal (inc_index_count s₁).index_count)
    space
    digits size
    space
    s₂ ← e (inc_index_count s₁)
    print_done pr i t
    pure (free d (dec_index_count s₂))

  unfoldable pub visit_array_index : Info T → P
  visit_array_index i s = do
    ctor "Earrayloop_index"
    digits (pr.decimal s.index_count)
    space
    print_done pr i t
    pure s

  -- An operand that may be missing
  unfoldable pub print_missing : P
  print_missing s = do print_none; pure s

  unfoldable pub print_present : P → P
  print_present e s = do print_some; s₁ ← e s; end_ctor; pure s₁

-- The items of a list, one after the other
unfoldable pub print_before : P → P → P
print_before e es s = do s₁ ← e s; print_cons; es s₁

unfoldable pub print_bracketed : P → P
print_bracketed es s = do begin_list; s₁ ← es s; end_list; pure s₁

unfoldable pub print_nil : P
print_nil s = do out "nil"; pure s
