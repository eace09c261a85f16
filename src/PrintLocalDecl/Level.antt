-- ===== src/PrintLocalDecl/Level.antt =====
-- Printing a local declaration restores the depth of the formatter.
use bri_ck.Prelude.{ℕ, suc, Bool, true, false, Option, none, some, List, [], ◌∷◌, Text}
use bri_ck.OpaqueNames.{OpaqueNames, no_names, push_anon, pop_anon}
use bri_ck.CoqPrinter.{Print}
use bri_ck.CoqPrinter.Moves.{
  Moves, ◌then◌, IsLevel, Moves->>=, Moves-pure, Moves-str, Moves-ctor, Moves-some, Moves-none,
  Moves-end, Moves-begin_list, Moves-end_list, Moves-out, Moves-space, Moves-digits, Moves-cons,
  Moves-boolean, stops,
}
use bri_ck.PrintLocalDecl.{
  Variable, Binding, LocalDecl, var, decomposition, type_decl, static_assert, other, popped,
  print_init, print_head, print_var, print_binding, print_bindings, print_binding_list,
  print_decomposition, print_local_decl,
}

popped-IsLevel : (o : Option OpaqueNames) → IsLevel (popped o)
unfolding popped
popped-IsLevel none i = stops
popped-IsLevel (some s) i = Moves-pure

module _ {E T N : Type 0} (thread_safe : Bool) (decimal : ℕ → Text)
    (print_expr : E → OpaqueNames → Print OpaqueNames) (print_type : T → Print (Unit {0}))
    (print_name : N → Print (Unit {0}))
    (expr_level : (e : E) (s : OpaqueNames) → IsLevel (print_expr e s))
    (type_level : (t : T) → IsLevel (print_type t))
    (name_level : (d : N) → IsLevel (print_name d)) where
  init-IsLevel :
      (o : Option E) (s : OpaqueNames)
      → IsLevel (print_init thread_safe decimal print_expr print_type print_name o s)
  unfolding print_init
  init-IsLevel none s i = Moves-none then Moves-space then Moves-pure
  init-IsLevel (some e) s i =
      Moves-some then Moves->>= (expr_level e s (suc i)) λ t. Moves-end then Moves-pure

  head-IsLevel :
      (b : Bool) (v : Variable E T N) (i : ℕ)
      → Moves i (suc i) (print_head thread_safe decimal print_expr print_type print_name b v)
  unfolding print_head
  head-IsLevel true v i =
      Moves-ctor "Dinit"
      then Moves-boolean thread_safe
      then Moves-space
      then name_level v.object (suc i)
      then Moves-space
  head-IsLevel false v i = Moves-ctor "Dvar" then Moves-str v.name then Moves-space

  var-IsLevel :
      (v : Variable E T N) (s : OpaqueNames)
      → IsLevel (print_var thread_safe decimal print_expr print_type print_name v s)
  unfolding print_var
  var-IsLevel v s i =
      head-IsLevel v.is_static_local v i
      then type_level v.type (suc i)
      then Moves-space
      then Moves->>= (init-IsLevel v.init s (suc i)) λ t. Moves-end then Moves-pure

  binding-IsLevel :
      (type : T) (b : Binding E) (s : OpaqueNames)
      → IsLevel (print_binding thread_safe decimal print_expr print_type print_name type b s)
  unfolding print_binding
  binding-IsLevel type b s i =
      Moves-ctor "Dvar"
      then Moves-str b.name
      then Moves-space
      then type_level type (suc i)
      then Moves-space
      then Moves-some
      then Moves->>= (expr_level b.bound s (suc (suc i)))
          λ t. Moves-end then Moves-end then Moves-pure

  bindings-IsLevel :
      (type : T) (bs : List (Binding E)) (s : OpaqueNames)
      → IsLevel (print_bindings thread_safe decimal print_expr print_type print_name type bs s)
  unfolding print_bindings
  bindings-IsLevel type [] s i = Moves-pure
  bindings-IsLevel type (b ∷ bs) s i =
      Moves->>= (binding-IsLevel type b s i) λ t. Moves-cons then bindings-IsLevel type bs t i

  binding_list-IsLevel :
      (type : T) (bs : List (Binding E)) (s : OpaqueNames)
      → IsLevel (print_binding_list thread_safe decimal print_expr print_type print_name type bs s)
  unfolding print_binding_list
  binding_list-IsLevel type [] s i = Moves-out "nil" then Moves-pure
  binding_list-IsLevel type (b ∷ bs) s i =
      Moves-begin_list
      then Moves->>= (bindings-IsLevel type (b ∷ bs) s (suc i)) λ t. Moves-end_list then Moves-pure

  decomposition-IsLevel :
      (d : ℕ) (type : T) (init : E) (bs : List (Binding E)) (s : OpaqueNames)
      → IsLevel (
          print_decomposition thread_safe decimal print_expr print_type print_name d type init bs s)
  unfolding print_decomposition
  decomposition-IsLevel d type init bs s i =
      Moves-ctor "Ddecompose"
      then Moves->>= (expr_level init s (suc i)) λ t.
        Moves-space
        then Moves-out "\"$"
        then Moves-digits (decimal (push_anon d t).0)
        then Moves-out "\""
        then Moves-space
        then Moves->>= (binding_list-IsLevel type bs (push_anon d t).1 (suc i))
            λ u. Moves->>= (popped-IsLevel (pop_anon d u) (suc i)) λ v. Moves-end then Moves-pure

  pub local_decl-IsLevel :
      (d : LocalDecl E T N)
      → IsLevel (print_local_decl thread_safe decimal print_expr print_type print_name d)
  unfolding print_local_decl
  local_decl-IsLevel (var v) i = Moves->>= (var-IsLevel v no_names i) λ s. Moves-pure
  local_decl-IsLevel (decomposition d type init bs) i =
      Moves->>= (decomposition-IsLevel d type init bs no_names i) λ s. Moves-pure
  local_decl-IsLevel type_decl i = Moves-pure
  local_decl-IsLevel static_assert i = Moves-pure
  local_decl-IsLevel other i = Moves-pure
