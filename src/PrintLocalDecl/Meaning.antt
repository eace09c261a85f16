-- ===== src/PrintLocalDecl/Meaning.antt =====
-- The terms of type `VarDecl` that declarations of local variables stand for. As with expressions, a
-- term depends on the opaque names.
use bri_ck.Prelude.{
  ℕ, Bool, true, false, Option, none, some, List, [], ◌∷◌, ◌++◌, length, Text, codes,
}
use bri_ck.OpaqueNames.{OpaqueNames, no_names}
use bri_ck.CoqPrinter.Terms.{one, two, Term, Terms, atom, app, word, quoted, bool}
use bri_ck.PrintExpr.Meaning.{Sem, before_sem, list_sem}
use bri_ck.PrintLocalDecl.{
  Variable, Binding, LocalDecl, var, decomposition, type_decl, static_assert, other,
}

-- The name of the anonymous variable with this number.
abbrev pub opaque_term : Text → Term
opaque_term n = atom (codes "\"$" ∷ n ∷ codes "\"" ∷ [])

-- The names where one more variable is anonymous.
abbrev pub with_variable : ℕ → OpaqueNames → OpaqueNames
with_variable d s = record s { anonymous = s.anonymous ++ d ∷ [] }

module _ {E T N : Type 0} (thread_safe : Bool) (decimal : ℕ → Text) (expr : E → Sem)
    (type_term : T → Term) (name_term : N → Term) where
  unfoldable pub init_sem : Option E → Sem
  init_sem none s = (word "None", s)
  init_sem (some e) s = (app "Some" (one (expr e s).0), (expr e s).1)

  -- A static local variable, or another
  abbrev pub head_term : Bool → Variable E T N → Term → Term
  head_term true v init = app "Dinit" (
      Terms.cons (bool thread_safe) (Terms.cons (name_term v.object) (two (type_term v.type) init)))
  head_term false v init = app "Dvar" (Terms.cons (quoted v.name) (two (type_term v.type) init))

  unfoldable pub var_sem : Variable E T N → Sem
  unfolding init_sem
  var_sem v s = (head_term v.is_static_local v (init_sem v.init s).0, (init_sem v.init s).1)

  unfoldable pub binding_sem : T → Binding E → Sem
  binding_sem type b s = (
    app "Dvar"
        (Terms.cons (quoted b.name) (two (type_term type) (app "Some" (one (expr b.bound s).0)))),
    (expr b.bound s).1,
  )

  unfoldable pub bindings_sem : T → List (Binding E) → OpaqueNames → Terms × OpaqueNames
  unfolding binding_sem before_sem
  bindings_sem type [] s = (Terms.nil, s)
  bindings_sem type (b ∷ bs) s = before_sem (binding_sem type b) (bindings_sem type bs) s

  unfoldable pub binding_list_sem : T → List (Binding E) → Sem
  unfolding bindings_sem list_sem
  binding_list_sem type [] s = (word "nil", s)
  binding_list_sem type (b ∷ bs) s = list_sem (bindings_sem type (b ∷ bs)) s

  -- The bindings may use the anonymous variable `d`, and nothing after them may.
  unfoldable pub decomposition_sem : ℕ → T → E → List (Binding E) → Sem
  unfolding binding_list_sem
  decomposition_sem d type init bs s =
      let t = (expr init s).1 in
      let bound = binding_list_sem type bs (with_variable d t) in
      (
        app "Ddecompose"
            (Terms.cons (expr init s).0 (two (opaque_term (decimal (length t.anonymous))) bound.0)),
        record bound.1 { anonymous = t.anonymous },
      )

  -- A declaration of something else has no term.
  abbrev pub local_term : LocalDecl E T N → Option Term
  local_term (var v) = some (var_sem v no_names).0
  local_term (decomposition d type init bs) = some (decomposition_sem d type init bs no_names).0
  local_term type_decl = none
  local_term static_assert = none
  local_term other = none
