-- ===== src/PrintLocalDecl/Words.antt =====
-- The printer of local declarations implements their meaning, and it is what the printer of statements
-- relies on.
use bri_ck.Prelude.{
  ℕ, ◌≡◌, refl, ◌∙◌, sym, ap, append-nil, Bool, true, false, Option, none, some, List, [], ◌∷◌,
  ◌++◌, Text, codes,
}
use bri_ck.OpaqueNames.{OpaqueNames, no_names, push_anon, pop_anon, pop_back}
use bri_ck.OpaqueNames.Distinct.{pop_back-append}
use bri_ck.CoqPrinter.{
  Print, done, aborts, prefix, ◌>>=◌, ◌>>◌, pure, space, end_ctor, ctor, out, digits,
}
use bri_ck.CoqPrinter.Words.{join, join-three, words, words_of, wording}
use bri_ck.CoqPrinter.View.{view, after, gives, viewing, view->>, view->>=}
use bri_ck.CoqPrinter.Terms.{Term, flatten, Prints, words_of-boolean}
use bri_ck.PrintExpr.Meaning.{Sem, before_sem, list_sem}
use bri_ck.PrintExpr.Words.{Shows, operand, ShowsAll, list_items}
use bri_ck.Stmt.Words.{PrintsLocal, prints, skips, fails}
use bri_ck.PrintLocalDecl.{
  Variable, Binding, LocalDecl, var, decomposition, type_decl, static_assert, other, popped,
  print_init, print_head, print_var, print_binding, print_bindings, print_binding_list,
  print_decomposition, print_local_decl,
}
use bri_ck.PrintLocalDecl.Meaning.{
  init_sem, head_term, var_sem, binding_sem, bindings_sem, binding_list_sem, opaque_term,
  decomposition_sem, local_term,
}

some-injective : {A : Type 0} {x y : A} → some x ≡ some y → x ≡ y
some-injective h = cc

-- A routine that prints the words of a term prints it for the printer of statements.
view-PrintsLocal :
    (m : Print OpaqueNames) (a : OpaqueNames) (t : Term) (x : Option (List Text))
    → view m ≡ gives a x
    → x ≡ flatten t
    → PrintsLocal (m >>= λ s. pure true) (some t)
unfolding ◌>>=◌ prefix gives
view-PrintsLocal (done b d) a t none h e = absurd (cc h)
view-PrintsLocal (done b d) a t (some w) h e =
    prints (ap (λ l. some (words l)) (append-nil d) ∙ ap (λ p. some p.1) (some-injective h) ∙ e)
view-PrintsLocal aborts a t none h e = fails (sym e)
view-PrintsLocal aborts a t (some w) h e = absurd (cc h)

Shows-PrintsLocal :
    {p : OpaqueNames → Print OpaqueNames} {m : Sem}
    → Shows p m
    → PrintsLocal (p no_names >>= λ s. pure true) (some (m no_names).0)
Shows-PrintsLocal {p} {m} h =
    view-PrintsLocal (p no_names) (m no_names).1 (m no_names).0 (flatten (m no_names).0)
      (h.shown no_names) refl

-- The variable that was pushed last is popped.
popped-view :
    (d : ℕ) (xs : List ℕ) (s : OpaqueNames)
    → s.anonymous ≡ xs ++ d ∷ []
    → {B : Type 0} (k : OpaqueNames → Print B)
    → view (popped (pop_anon d s) >>= k) ≡ view (k (record s { anonymous = xs }))
unfolding popped pop_anon gives
popped-view d xs s h k =
    let e : pop_back d s.anonymous ≡ some xs = rw h (pop_back-append d xs) in
    let w : view (popped (pop_anon d s)) ≡ some (record s { anonymous = xs }, []) =
      rw (pop_anon, e) refl in
    simp (view->>= (popped (pop_anon d s)) (record s { anonymous = xs }) (some []) k w, viewing)

module _ {E T N : Type 0} (thread_safe : Bool) (decimal : ℕ → Text)
    (print_expr : E → OpaqueNames → Print OpaqueNames) (print_type : T → Print (Unit {0}))
    (print_name : N → Print (Unit {0})) (expr : E → Sem) (type_term : T → Term)
    (name_term : N → Term) (he : (e : E) → Shows (print_expr e) (expr e))
    (hk : (e : E) (s : OpaqueNames) → (expr e s).1.anonymous ≡ s.anonymous)
    (ht : Prints print_type type_term) (hn : Prints print_name name_term) where
  init-Shows :
      (o : Option E)
      → Shows
          (print_init thread_safe decimal print_expr print_type print_name o)
          (init_sem thread_safe decimal expr type_term name_term o)
  unfolding print_init init_sem flatten
  init-Shows none = record { shown = λ s. simp (viewing, wording) }
  init-Shows (some e) = record { shown = λ s. simp (viewing, wording, operand (he e)) }

  head-words :
      (b : Bool) (v : Variable E T N) (init : Term)
      → join
          (words_of (print_head thread_safe decimal print_expr print_type print_name b v))
          (join (flatten (type_term v.type)) (join (flatten init) (some (codes ")" ∷ []))))
        ≡ flatten (head_term thread_safe decimal expr type_term name_term b v init)
  unfolding print_head flatten
  head-words true v init = simp (wording, hn, words_of-boolean)
  head-words false v init = simp wording

  var-Shows :
      (v : Variable E T N)
      → Shows
          (print_var thread_safe decimal print_expr print_type print_name v)
          (var_sem thread_safe decimal expr type_term name_term v)
  unfolding print_var var_sem
  var-Shows v = record {
    shown = λ s.
        simp (
          viewing,
          wording,
          ht,
          sym (head-words v.is_static_local v _),
          operand (init-Shows v.init),
        );
  }

  binding-Shows :
      (type : T) (b : Binding E)
      → Shows
          (print_binding thread_safe decimal print_expr print_type print_name type b)
          (binding_sem thread_safe decimal expr type_term name_term type b)
  unfolding print_binding binding_sem flatten
  binding-Shows type b = record { shown = λ s. simp (viewing, wording, ht, operand (he b.bound)) }

  bindings-ShowsAll :
      (type : T) (bs : List (Binding E))
      → ShowsAll
          (print_bindings thread_safe decimal print_expr print_type print_name type bs)
          (bindings_sem thread_safe decimal expr type_term name_term type bs)
  unfolding print_bindings bindings_sem before_sem flatten
  bindings-ShowsAll type [] = record { all_shown = λ s. simp viewing }
  bindings-ShowsAll type (b ∷ bs) = record {
    all_shown = λ s.
        simp
          (viewing, wording, operand (binding-Shows type b), (bindings-ShowsAll type bs).all_shown);
  }

  binding_list-Shows :
      (type : T) (bs : List (Binding E))
      → Shows
          (print_binding_list thread_safe decimal print_expr print_type print_name type bs)
          (binding_list_sem thread_safe decimal expr type_term name_term type bs)
  unfolding print_binding_list binding_list_sem list_sem flatten
  binding_list-Shows type [] = record { shown = λ s. simp (viewing, wording) }
  binding_list-Shows type (b ∷ bs) = record {
    shown = λ s. simp (viewing, wording, list_items (bindings-ShowsAll type (b ∷ bs)));
  }

  bindings-anonymous :
      (type : T) (bs : List (Binding E)) (s : OpaqueNames)
      → (bindings_sem thread_safe decimal expr type_term name_term type bs s).1.anonymous
        ≡ s.anonymous
  unfolding bindings_sem binding_sem before_sem
  bindings-anonymous type [] s = refl
  bindings-anonymous type (b ∷ bs) s = bindings-anonymous type bs (expr b.bound s).1 ∙ hk b.bound s

  binding_list-anonymous :
      (type : T) (bs : List (Binding E)) (s : OpaqueNames)
      → (binding_list_sem thread_safe decimal expr type_term name_term type bs s).1.anonymous
        ≡ s.anonymous
  unfolding binding_list_sem list_sem
  binding_list-anonymous type [] s = refl
  binding_list-anonymous type (b ∷ bs) s = bindings-anonymous type (b ∷ bs) s

  -- What stands after the initialiser, where `p` is the number and the names after the variable was
  -- pushed.
  after-push :
      (d : ℕ) (type : T) (bs : List (Binding E)) (p : ℕ × OpaqueNames) (xs : List ℕ)
      → p.1.anonymous ≡ xs ++ d ∷ []
      → view (do
        space
        out "\"$"
        digits (decimal p.0)
        out "\""
        space
        u ← print_binding_list thread_safe decimal print_expr print_type print_name type bs p.1
        v ← popped (pop_anon d u)
        end_ctor
        pure v)
        ≡ (let bound = binding_list_sem thread_safe decimal expr type_term name_term type bs p.1 in
            gives
              (record bound.1 { anonymous = xs })
              (join
                (flatten (opaque_term (decimal p.0)))
                (join (flatten bound.0) (some (codes ")" ∷ [])))))
  unfolding flatten
  after-push d type bs p xs h = simp (
    viewing,
    wording,
    join-three,
    operand (binding_list-Shows type bs),
    popped-view d xs (binding_list_sem thread_safe decimal expr type_term name_term type bs p.1).1
        (binding_list-anonymous type bs p.1 ∙ h),
  )

  decomposition-Shows :
      (d : ℕ) (type : T) (init : E) (bs : List (Binding E))
      → Shows
          (print_decomposition thread_safe decimal print_expr print_type print_name d type init bs)
          (decomposition_sem thread_safe decimal expr type_term name_term d type init bs)
  unfolding print_decomposition decomposition_sem push_anon flatten
  decomposition-Shows d type init bs = record {
    shown = λ s.
        let t = (expr init s).1 in
        view->> (ctor "Ddecompose") _
        ∙ ap (after _) (
            operand (he init) s _
            ∙ ap (after _) (after-push d type bs (push_anon d t) t.anonymous refl))
        ∙ simp (viewing, wording);
  }

  -- If the printer of expressions prints the words of their terms, which may depend on the opaque names,
  -- and leaves the anonymous declarations as they are, and the printers of types and names print the
  -- words of theirs, then the printer of local declarations fails no `assert` of its own and prints the
  -- words of the declaration's term and returns true, or has no term, prints nothing and returns false.
  pub print_local_decl-PrintsLocal :
      (d : LocalDecl E T N)
      → PrintsLocal
          (print_local_decl thread_safe decimal print_expr print_type print_name d)
          (local_term thread_safe decimal expr type_term name_term d)
  unfolding print_local_decl
  print_local_decl-PrintsLocal (var v) = Shows-PrintsLocal (var-Shows v)
  print_local_decl-PrintsLocal (decomposition d type init bs) =
      Shows-PrintsLocal (decomposition-Shows d type init bs)
  print_local_decl-PrintsLocal type_decl = skips refl
  print_local_decl-PrintsLocal static_assert = skips refl
  print_local_decl-PrintsLocal other = skips refl
