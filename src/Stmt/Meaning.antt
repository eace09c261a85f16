-- ===== src/Stmt/Meaning.antt =====
-- The terms of type `Stmt` that statements stand for. A `case` or a `default` and the statement under
-- it are two items of the list in which the statement stands.
use bri_ck.Prelude.{Option, none, some, List, [], ◌∷◌, Text, codes}
use bri_ck.CoqPrinter.Terms.{
  one, two, Term, Terms, atom, app, list, pair, conses, aborted, word, quoted, bool, terms,
  optional,
}
use bri_ck.Stmt.{
  Stmt, OptStmt, Stmts, Operand, Asm, decl_stmt, while_stmt, for_stmt, for_range, do_stmt,
  break_stmt, continue_stmt, if_stmt, case_stmt, default_stmt, switch_stmt, expr_stmt, return_stmt,
  compound, null_stmt, gcc_asm, attributed, label, goto, try_stmt, unsupported, null, this, nil,
  cons,
}

-- The terms that a statement stands for: there is at least one.
pub data Items : Type 0 where
  last : Term → Items
  more : Term → Items → Items

unfoldable pub add : Items → Terms → Terms
add (last t) ts = Terms.cons t ts
add (more t is) ts = Terms.cons t (add is ts)

-- The items where one term is expected.
unfoldable pub group : Items → Term
unfolding add
group (last t) = t
group (more t is) = conses (Terms.cons t (add is Terms.nil))

-- An integer constant, which is put in parentheses twice.
abbrev pub integer : Text → Term
integer n = atom (codes "(" ∷ codes "(" ∷ n ∷ codes ")%Z" ∷ codes ")%Z" ∷ [])

abbrev pub case_term : Text → Option Text → Term
case_term lhs none = app "Exact" (one (integer lhs))
case_term lhs (some rhs) = app "Range" (two (integer lhs) (integer rhs))

-- The term of a declaration, if anything is printed for it, before others.
abbrev pub local_cons : Option Term → Terms → Terms
local_cons none ts = ts
local_cons (some t) ts = Terms.cons t ts

module _ {E D : Type 0} (expr : E → Term) (local : D → Option Term) where
  -- The declarations for which something is printed.
  abbrev pub locals : List D → Terms
  locals [] = Terms.nil
  locals (d ∷ ds) = local_cons (local d) (locals ds)

  abbrev pub variable : Option D → Term
  variable none = word "None"
  variable (some d) = app "Some" (local_cons (local d) Terms.nil)

  abbrev pub operand_term : Operand E → Term
  operand_term o = pair (quoted o.constraint) (expr o.operand)

  abbrev pub asm_term : Asm E → Term
  asm_term a = app "Sasm" (
      Terms.cons (quoted a.asm_string) (
        Terms.cons (bool a.is_volatile) (
          Terms.cons (list (terms operand_term a.inputs))
            (two (list (terms operand_term a.outputs)) (list (terms quoted a.clobbers))))))

  abbrev pub return_term : Option E → Term
  return_term none = word "Sreturn_void"
  return_term (some e) = app "Sreturn_val" (one (expr e))

  unfoldable mutual
    unfolding group add

    pub meaning : Stmt E D → Items
    meaning (decl_stmt ds) = last (app "Sdecl" (one (list (locals ds))))
    meaning (while_stmt v c body) =
        last (app "Swhile" (Terms.cons (variable v) (two (expr c) (group (meaning body)))))
    meaning (for_stmt init c inc body) = last (
        app "Sfor" (
          Terms.cons (init_term init)
            (Terms.cons (optional expr c) (two (optional expr inc) (group (meaning body))))))
    meaning (for_range range begin end init c inc var body) = last (
        app "Sforeach" (
          Terms.cons (group (meaning range)) (
            Terms.cons (group (meaning begin)) (
              Terms.cons (group (meaning end)) (
                Terms.cons (init_term init) (
                  Terms.cons (optional expr c) (
                    Terms.cons (optional expr inc)
                      (two (group (meaning var)) (group (meaning body))))))))))
    meaning (do_stmt body c) = last (app "Sdo" (two (group (meaning body)) (expr c)))
    meaning break_stmt = last (word "Sbreak")
    meaning continue_stmt = last (word "Scontinue")
    meaning (if_stmt v c t e) = last (
        app "Sif"
          (Terms.cons (variable v) (Terms.cons (expr c) (two (group (meaning t)) (else_term e)))))
    meaning (case_stmt lhs rhs sub) = more (app "Scase" (one (case_term lhs rhs))) (meaning sub)
    meaning (default_stmt sub) = default_items sub
    meaning (switch_stmt v c body) =
        last (app "Sswitch" (Terms.cons (variable v) (two (expr c) (group (meaning body)))))
    meaning (expr_stmt e) = last (app "Sexpr" (one (expr e)))
    meaning (return_stmt e) = last (return_term e)
    meaning (compound ss) = last (app "Sseq" (one (list (sequence ss))))
    meaning null_stmt = last (word "Sskip")
    meaning (gcc_asm a) = last (asm_term a)
    meaning (attributed as_ s) =
        last (app "Sattr" (two (list (terms quoted as_)) (group (meaning s))))
    meaning (label l s) = last (app "Slabeled" (two (quoted l) (group (meaning s))))
    meaning (goto l) = last (app "Sgoto" (one (quoted l)))
    meaning try_stmt = last (app "Sunsupported" (one (quoted (codes "try"))))
    meaning unsupported = last aborted

    pub init_term : OptStmt E D → Term
    init_term null = word "None"
    init_term (this s) = app "Some" (one (group (meaning s)))

    pub else_term : OptStmt E D → Term
    else_term null = word "Sskip"
    else_term (this s) = group (meaning s)

    pub default_items : OptStmt E D → Items
    default_items null = last (word "Sdefault")
    default_items (this s) = more (word "Sdefault") (meaning s)

    pub sequence : Stmts E D → Terms
    sequence nil = Terms.nil
    sequence (cons s ss) = add (meaning s) (sequence ss)
