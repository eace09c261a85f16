-- ===== src/PrintLocalDecl.antt =====
-- src/PrintLocalDecl.cpp: declarations of local variables as Coq terms. A declaration is modelled by
-- what the printer asks it, over expressions `E`, types `T` and declarations `N` with a name, which
-- other parts print. A printer of expressions also changes the opaque names.
pub mod Meaning
pub mod Words
pub mod Level
pub mod InStmt
use bri_ck.Prelude.{ℕ, Bool, true, false, Option, none, some, List, [], ◌∷◌, Text}
use bri_ck.OpaqueNames.{OpaqueNames, no_names, push_anon, pop_anon}
use bri_ck.CoqPrinter.{
  Print, aborts, ◌>>=◌, ◌>>◌, pure, out, digits, space, ctor, end_ctor, print_some, print_none, str,
  boolean, begin_list, end_list, print_cons,
}

pub record Variable (E T N : Type 0) : Type 0 where
  pub is_static_local : Bool
  pub object : N
  pub name : Text
  pub type : T
  pub init : Option E

pub record Binding (E : Type 0) : Type 0 where
  pub name : Text
  pub bound : E

pub data LocalDecl (E T N : Type 0) : Type 0 where
  var : Variable E T N → LocalDecl E T N
  -- its number, its type, the initialiser and the bindings
  decomposition : ℕ → T → E → List (Binding E) → LocalDecl E T N
  type_decl : LocalDecl E T N
  static_assert : LocalDecl E T N
  other : LocalDecl E T N

-- `pop_anon`, whose `assert`s may fail
unfoldable pub popped : Option OpaqueNames → Print OpaqueNames
popped none = aborts
popped (some s) = pure s

-- `thread_safe` is the compiler's option, `decimal` the digits that a stream writes for a number.
module _ {E T N : Type 0} (thread_safe : Bool) (decimal : ℕ → Text)
    (print_expr : E → OpaqueNames → Print OpaqueNames) (print_type : T → Print (Unit {0}))
    (print_name : N → Print (Unit {0})) where
  unfoldable pub print_init : Option E → OpaqueNames → Print OpaqueNames
  print_init none s = do print_none; space; pure s
  print_init (some e) s = do print_some; t ← print_expr e s; end_ctor; pure t

  -- What stands before the type: of a static local variable, or of another.
  unfoldable pub print_head : Bool → Variable E T N → Print (Unit {0})
  print_head true v = do ctor "Dinit"; boolean thread_safe; space; print_name v.object; space
  print_head false v = do ctor "Dvar"; str v.name; space

  unfoldable pub print_var : Variable E T N → OpaqueNames → Print OpaqueNames
  unfolding print_head print_init
  print_var v s = do
    print_head v.is_static_local v
    print_type v.type
    space
    t ← print_init v.init s
    end_ctor
    pure t

  unfoldable pub print_binding : T → Binding E → OpaqueNames → Print OpaqueNames
  print_binding type b s = do
    ctor "Dvar"
    str b.name
    space
    print_type type
    space
    print_some
    t ← print_expr b.bound s
    end_ctor
    end_ctor
    pure t

  unfoldable pub print_bindings : T → List (Binding E) → OpaqueNames → Print OpaqueNames
  unfolding print_binding
  print_bindings type [] s = pure s
  print_bindings type (b ∷ bs) s = do
    t ← print_binding type b s
    print_cons
    print_bindings type bs t

  -- `CoqPrinter::list` over the bindings
  unfoldable pub print_binding_list : T → List (Binding E) → OpaqueNames → Print OpaqueNames
  unfolding print_bindings
  print_binding_list type [] s = do out "nil"; pure s
  print_binding_list type (b ∷ bs) s = do
    begin_list
    t ← print_bindings type (b ∷ bs) s
    end_list
    pure t

  unfoldable pub print_decomposition :
      ℕ → T → E → List (Binding E) → OpaqueNames → Print OpaqueNames
  unfolding push_anon pop_anon print_binding_list popped
  print_decomposition d type init bs s = do
    ctor "Ddecompose"
    t ← print_expr init s
    space
    out "\"$"
    digits (decimal (push_anon d t).0)
    out "\""
    space
    u ← print_binding_list type bs (push_anon d t).1
    v ← popped (pop_anon d u)
    end_ctor
    pure v

  -- `printLocalDecl`: says whether something was printed.
  unfoldable pub print_local_decl : LocalDecl E T N → Print Bool
  unfolding print_var print_decomposition
  print_local_decl (var v) = do s ← print_var v no_names; pure true
  print_local_decl (decomposition d type init bs) = do
    s ← print_decomposition d type init bs no_names
    pure true
  print_local_decl type_decl = pure false
  print_local_decl static_assert = pure false
  print_local_decl other = pure false
