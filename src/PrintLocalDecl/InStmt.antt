-- ===== src/PrintLocalDecl/InStmt.antt =====
-- The printer of statements with the printer of local declarations and the printer of types in place.
use bri_ck.Prelude.{ℕ, ◌≡◌, Bool, [], Text}
use bri_ck.Formatter.{Doc}
use bri_ck.Formatter.Depth.{IsBalanced}
use bri_ck.OpaqueNames.{OpaqueNames, no_names}
use bri_ck.CoqPrinter.{Print, done, ◌>>=◌}
use bri_ck.CoqPrinter.Words.{words_of}
use bri_ck.CoqPrinter.Terms.{Term, flatten, Prints}
use bri_ck.CoqPrinter.Moves.{IsLevel, Moves->>=, Moves-pure}
use bri_ck.PrintType.{QualType, print_qual_type}
use bri_ck.PrintType.Meaning.{qual_term}
use bri_ck.PrintType.Words.{print_qual_type-qual_term}
use bri_ck.PrintType.Level.{qual-IsLevel}
use bri_ck.PrintLocalDecl.{LocalDecl, print_local_decl}
use bri_ck.PrintLocalDecl.Meaning.{local_term}
use bri_ck.PrintExpr.Visit.{alone}
use bri_ck.PrintExpr.Meaning.{Sem, term_alone}
use bri_ck.PrintExpr.Words.{Shows, alone-words}
use bri_ck.PrintLocalDecl.Words.{print_local_decl-PrintsLocal}
use bri_ck.PrintLocalDecl.Level.{local_decl-IsLevel}
use bri_ck.Stmt.{Stmt, print_stmt}
use bri_ck.Stmt.Meaning.{group, meaning}
use bri_ck.Stmt.Words.{print_stmt-meaning}
use bri_ck.Stmt.Level.{print_stmt-IsBalanced}

module _ {E N : Type 0} (templates thread_safe : Bool) (decimal : ℕ → Text)
    (print_expr : E → OpaqueNames → Print OpaqueNames)
    (print_type_name print_obj_name : N → Print (Unit {0})) where
  -- `ClangPrinter::printExpr` outside initialisers, which begins with no opaque names.
  unfoldable pub print_expr_alone : E → Print (Unit {0})
  print_expr_alone e = print_expr e no_names >>= λ s. Print.done tt []

  abbrev pub print_local : LocalDecl E (QualType E N) N → Print Bool
  print_local =
      print_local_decl thread_safe decimal print_expr
        (print_qual_type templates print_expr_alone print_type_name) print_obj_name

  abbrev pub print_statement : Stmt E (LocalDecl E (QualType E N) N) → Print (Unit {0})
  print_statement = print_stmt print_expr_alone print_local

  module _ (expr_level : (e : E) (s : OpaqueNames) → IsLevel (print_expr e s))
      (type_level : (d : N) → IsLevel (print_type_name d))
      (obj_level : (d : N) → IsLevel (print_obj_name d)) where
    alone-IsLevel : (e : E) → IsLevel (print_expr_alone e)
    unfolding print_expr_alone
    alone-IsLevel e i = Moves->>= (expr_level e no_names i) λ s. Moves-pure

    -- If the printers of expressions and of names of declarations end at the depth at which they start,
    -- at every depth or with an abort, then what is printed for a statement, with its types and local
    -- declarations, is balanced, unless an abort ends it.
    pub print_statement-IsBalanced :
        (s : Stmt E (LocalDecl E (QualType E N) N)) (d : Doc)
        → print_statement s ≡ done tt d
        → IsBalanced d
    print_statement-IsBalanced s d h =
        print_stmt-IsBalanced print_expr_alone print_local alone-IsLevel
          (local_decl-IsLevel thread_safe decimal print_expr _ print_obj_name expr_level
            (qual-IsLevel templates print_expr_alone print_type_name alone-IsLevel type_level)
            obj_level)
          s d h

  module _ (expr : E → Sem) (type_name_term obj_name_term : N → Term) where
    abbrev pub expr_alone : E → Term
    expr_alone e = term_alone (expr e)

    abbrev pub statement_term : Stmt E (LocalDecl E (QualType E N) N) → Term
    statement_term s = group (
        meaning expr_alone
          (local_term thread_safe decimal expr (qual_term templates expr_alone type_name_term)
            obj_name_term)
          s)

    module _ (he : (e : E) → Shows (print_expr e) (expr e))
        (hk : (e : E) (s : OpaqueNames) → (expr e s).1.anonymous ≡ s.anonymous)
        (ht : Prints print_type_name type_name_term)
        (hn : Prints print_obj_name obj_name_term) where
      expr_alone-words : (e : E) → words_of (print_expr_alone e) ≡ flatten (expr_alone e)
      unfolding print_expr_alone alone
      expr_alone-words e = alone-words (he e)

      -- If the printer of expressions prints the words of their terms, which may depend on the opaque
      -- names, and leaves the anonymous declarations as they are, and the printers of names of
      -- declarations print the words of theirs, then for a statement, with its types and local
      -- declarations, the words of its term are printed, and printing aborts exactly if it has none.
      pub print_statement-statement_term :
          (s : Stmt E (LocalDecl E (QualType E N) N))
          → words_of (print_statement s) ≡ flatten (statement_term s)
      print_statement-statement_term s =
          print_stmt-meaning print_expr_alone print_local expr_alone _ expr_alone-words
            (print_local_decl-PrintsLocal thread_safe decimal print_expr _ print_obj_name expr _
              obj_name_term he hk
              (print_qual_type-qual_term templates print_expr_alone print_type_name expr_alone
                type_name_term expr_alone-words ht)
              hn)
            s
