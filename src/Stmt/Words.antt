-- ===== src/Stmt/Words.antt =====
-- The printer of statements implements their meaning: it prints the words of the terms.
use bri_ck.Prelude.{
  ◌≡◌, refl, ◌∙◌, sym, Bool, true, false, Option, none, some, List, [], ◌∷◌, Text, codes,
}
use bri_ck.Formatter.{Doc}
use bri_ck.CoqPrinter.{
  Print, done, aborts, ◌>>=◌, ◌>>◌, items_filter, cons_if, option, str, ctor_inline, out, apsint,
  space, end_ctor,
}
use bri_ck.CoqPrinter.Words.{join, words, words_of, wording, words_of->>=, words_of-str}
use bri_ck.CoqPrinter.Terms.{
  Term, Terms, quoted, flatten, flatten_list, flatten_conses, flatten_args, Prints, optional,
  items-flatten, option-flatten, words_of-boolean,
}
use bri_ck.Stmt.{
  Stmt, OptStmt, Stmts, Asm, decl_stmt, while_stmt, for_stmt, for_range, do_stmt, break_stmt,
  continue_stmt, if_stmt, case_stmt, default_stmt, switch_stmt, expr_stmt, return_stmt, compound,
  null_stmt, gcc_asm, attributed, label, goto, try_stmt, unsupported, null, this, nil, cons,
  print_variable, print_operand, print_case, print_asm, print_return, print_stmt, print_init,
  print_else, print_default, print_stmts,
}
use bri_ck.Stmt.Meaning.{
  Items, last, more, add, group, case_term, local_cons, locals, variable, operand_term, asm_term,
  return_term, meaning, init_term, else_term, default_items, sequence,
}

-- The items with `::` between them.
unfoldable flatten_items : Items → Option (List Text)
flatten_items (last t) = flatten t
flatten_items (more t is) = join (flatten t) (join (some (codes "::" ∷ [])) (flatten_items is))

flatten_list-add :
    (is : Items) (ts : Terms)
    → flatten_list (add is ts)
      ≡ join (flatten_items is) (join (some (codes "::" ∷ [])) (flatten_list ts))
unfolding flatten_items add flatten
flatten_list-add (last t) ts = refl
flatten_list-add (more t is) ts = simp (wording, flatten_list-add is ts)

flatten-group_more :
    (t : Term) (is : Items)
    → flatten_conses (Terms.cons t (add is Terms.nil))
      ≡ join (flatten t) (join (some (codes "::" ∷ [])) (flatten_items is))
unfolding flatten_items add flatten
flatten-group_more t (last u) = refl
flatten-group_more t (more u is) = simp (flatten-group_more u is)

flatten-group : (is : Items) → flatten (group is) ≡ flatten_items is
unfolding flatten_items group flatten
flatten-group (last t) = refl
flatten-group (more t is) = flatten-group_more t is

words_of-case :
    {E D : Type 0} (pe : E → Print (Unit {0})) (pl : D → Print Bool) (lhs : Text)
    (rhs : Option Text)
    → words_of (print_case pe pl lhs rhs) ≡ flatten (case_term lhs rhs)
unfolding print_case flatten join ◌>>=◌ ctor_inline out apsint space end_ctor
words_of-case pe pl lhs none = refl
words_of-case pe pl lhs (some rhs) = refl

-- What is printed for a declaration of a local variable is its term, if it has one.
pub data PrintsLocal : Print Bool → Option Term → Type 0 where
  prints : {d : Doc} {t : Term} → some (words d) ≡ flatten t → PrintsLocal (done true d) (some t)
  skips : {d : Doc} → words d ≡ [] → PrintsLocal (done false d) none
  fails : {t : Term} → flatten t ≡ none → PrintsLocal aborts (some t)

join-none : (x : Option (List Text)) → join none x ≡ none
unfolding join
join-none x = refl

words_of-aborts :
    {A B : Type 0} (f : A → Print B) → words_of (◌>>=◌ {A = A} {B = B} aborts f) ≡ none
unfolding ◌>>=◌
words_of-aborts f = refl

-- What follows an item that says whether it was printed.
words_of-cons_if :
    {m : Print Bool} {o : Option Term}
    → PrintsLocal m o
    → (k : Print (Unit {0})) (ts : Terms) → words_of k ≡ flatten_list ts
    → words_of (m >>= λ b. cons_if b >> k) ≡ flatten_list (local_cons o ts)
unfolding flatten cons_if
words_of-cons_if (prints {d} {t} h) k ts e = simp (wording, words_of->>=, h, e)
words_of-cons_if (skips {d} h) k ts e = simp (wording, words_of->>=, h, e)
words_of-cons_if (fails h) k ts e = simp (words_of-aborts, join-none, h)

words_of-print_variable :
    {m : Print Bool} {o : Option Term}
    → PrintsLocal m o
    → words_of (m >>= λ b. Print.done tt []) ≡ flatten_args (local_cons o Terms.nil)
unfolding flatten
words_of-print_variable (prints {d} {t} h) = simp (wording, words_of->>=, h)
words_of-print_variable (skips {d} h) = simp (wording, words_of->>=, h)
words_of-print_variable (fails h) = simp (wording, words_of-aborts, h)

module _ {E D : Type 0} (print_expr : E → Print (Unit {0})) (print_local : D → Print Bool)
    (expr : E → Term) (local : D → Option Term) (he : Prints print_expr expr)
    (hl : (d : D) → PrintsLocal (print_local d) (local d)) where
  locals-words :
      (ds : List D) → words_of (items_filter print_local ds) ≡ flatten_list (locals expr local ds)
  unfolding items_filter flatten
  locals-words [] = refl
  locals-words (d ∷ ds) =
      words_of-cons_if (hl d) (items_filter print_local ds) (locals expr local ds) (locals-words ds)

  variable-words :
      (v : Option D)
      → words_of (option (print_variable print_expr print_local) v)
        ≡ flatten (variable expr local v)
  unfolding option flatten print_variable
  variable-words none = simp wording
  variable-words (some d) = simp (wording, words_of-print_variable (hl d))

  operand-words : Prints (print_operand print_expr print_local) (operand_term expr local)
  unfolding print_operand flatten
  operand-words o = simp (wording, he)

  asm-words :
      (a : Asm E) → words_of (print_asm print_expr print_local a) ≡ flatten (asm_term expr local a)
  unfolding print_asm flatten
  asm-words a = simp (
    wording,
    words_of-boolean,
    items-flatten (print_operand print_expr print_local) (operand_term expr local) operand-words,
    items-flatten str quoted words_of-str,
  )

  return-words :
      (e : Option E)
      → words_of (print_return print_expr print_local e) ≡ flatten (return_term expr local e)
  unfolding print_return flatten
  return-words none = simp wording
  return-words (some e) = simp (wording, he)

  optional-words : (c : Option E) → words_of (option print_expr c) ≡ flatten (optional expr c)
  optional-words = option-flatten print_expr expr he

  mutual
    unfolding print_stmt meaning flatten flatten_items

    stmt-words :
        (s : Stmt E D)
        → words_of (print_stmt print_expr print_local s) ≡ flatten_items (meaning expr local s)
    stmt-words (decl_stmt ds) = simp (wording, locals-words)
    stmt-words (while_stmt v c body) =
        simp (wording, flatten-group, variable-words, he, stmt-words body)
    stmt-words (for_stmt init c inc body) =
        simp (wording, flatten-group, init-words init, optional-words, stmt-words body)
    stmt-words (for_range range begin end init c inc var body) = simp (
      wording,
      flatten-group,
      stmt-words range,
      stmt-words begin,
      stmt-words end,
      init-words init,
      optional-words,
      stmt-words var,
      stmt-words body,
    )
    stmt-words (do_stmt body c) = simp (wording, flatten-group, he, stmt-words body)
    stmt-words break_stmt = simp wording
    stmt-words continue_stmt = simp wording
    stmt-words (if_stmt v c t e) =
        simp (wording, flatten-group, variable-words, he, stmt-words t, else-words e)
    stmt-words (case_stmt lhs rhs sub) = simp (wording, words_of-case, stmt-words sub)
    stmt-words (default_stmt sub) = default-words sub
    stmt-words (switch_stmt v c body) =
        simp (wording, flatten-group, variable-words, he, stmt-words body)
    stmt-words (expr_stmt e) = simp (wording, he)
    stmt-words (return_stmt e) = return-words e
    stmt-words (compound ss) = simp (wording, stmts-words ss)
    stmt-words null_stmt = simp wording
    stmt-words (gcc_asm a) = asm-words a
    stmt-words (attributed as_ s) =
        simp (wording, flatten-group, items-flatten str quoted words_of-str as_, stmt-words s)
    stmt-words (label l s) = simp (wording, flatten-group, stmt-words s)
    stmt-words (goto l) = simp wording
    stmt-words try_stmt = simp wording
    stmt-words unsupported = refl

    init-words :
        (s : OptStmt E D)
        → words_of (print_init print_expr print_local s) ≡ flatten (init_term expr local s)
    init-words null = simp wording
    init-words (this s) = simp (wording, flatten-group, stmt-words s)

    else-words :
        (s : OptStmt E D)
        → words_of (print_else print_expr print_local s) ≡ flatten (else_term expr local s)
    else-words null = simp wording
    else-words (this s) = simp (flatten-group, stmt-words s)

    default-words :
        (s : OptStmt E D)
        → words_of (out "Sdefault" >> print_default print_expr print_local s)
          ≡ flatten_items (default_items expr local s)
    default-words null = simp wording
    default-words (this s) = simp (wording, stmt-words s)

    stmts-words :
        (ss : Stmts E D)
        → words_of (print_stmts print_expr print_local ss) ≡ flatten_list (sequence expr local ss)
    stmts-words nil = refl
    stmts-words (cons s ss) = simp (
      wording,
      stmt-words s,
      stmts-words ss,
      flatten_list-add (meaning expr local s) (sequence expr local ss),
    )

  -- If the printer of expressions prints the words of their terms, and the printer of local
  -- declarations the words of theirs or nothing and then says so, then the printer of statements
  -- prints the words of the term that the statement stands for, and aborts exactly if it has none.
  pub print_stmt-meaning :
      (s : Stmt E D)
      → words_of (print_stmt print_expr print_local s) ≡ flatten (group (meaning expr local s))
  print_stmt-meaning s = stmt-words s ∙ sym (flatten-group (meaning expr local s))
