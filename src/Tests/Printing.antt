-- ===== src/Tests/Printing.antt =====
-- The theorems on the printers at concrete inputs.
use bri_ck.Prelude.{◌≡◌, refl, Bool, true, false, none, some, [], ◌∷◌, codes}
use bri_ck.Formatter.{Doc, write, nbsp, lparen, rparen, line}
use bri_ck.Formatter.Depth.{shift, IsBalanced}
use bri_ck.CoqPrinter.{
  Print, space, option, print_none, out, ctor_inline, ctor, str, end_ctor, ◌>>=◌,
}
use bri_ck.CoqPrinter.Words.{words_of, words_of-out}
use bri_ck.CoqPrinter.Terms.{word, flatten}
use bri_ck.CoqPrinter.Moves.{Moves-out, stays}
use bri_ck.OpaqueNames.{OpaqueNames}
use bri_ck.PrintLocalDecl.{var as var_decl, LocalDecl, decomposition, print_local_decl}
use bri_ck.PrintLocalDecl.InStmt.{
  print_expr_alone, print_statement, statement_term, print_statement-statement_term,
  print_statement-IsBalanced,
}
use bri_ck.PrintLocalDecl.Meaning.{local_term}
use bri_ck.CoqPrinter.View.{gives}
use bri_ck.PrintLocalDecl.Words.{print_local_decl-PrintsLocal}
use bri_ck.PrintType.{
  Qualifiers, ClangType, QualType, QualTypes, function_proto, cc_c, qual, known, int, char_s,
  pointer, lvalue_reference, print_type, print_qual_type, kind_name, print_qualified,
}
use bri_ck.PrintType.Meaning.{qual_term}
use bri_ck.PrintType.Words.{print_qual_type-qual_term}
use bri_ck.PrintType.Level.{print_type-IsBalanced}
use bri_ck.Stmt.{
  OptStmt, decl_stmt, if_stmt, while_stmt, break_stmt, Stmt, Stmts, switch_stmt, compound,
  case_stmt, expr_stmt, print_stmt, goto,
}
use bri_ck.Stmt.Meaning.{group, meaning}
use bri_ck.Stmt.Words.{PrintsLocal, prints, print_stmt-meaning}
use bri_ck.Stmt.Level.{print_stmt-IsBalanced}

-- One expression, and one variable, for which `v` is printed.
abbrev print_e : Unit {0} → Print (Unit {0})
print_e _ = out "e"

abbrev print_v : Unit {0} → Print Bool
print_v _ = Print.done true (write (codes "v") ∷ [])

-- switch (e) { case 1: e; }
abbrev switch : Stmt Unit Unit
switch =
    switch_stmt none tt
      (compound (Stmts.cons (case_stmt (codes "1") none (expr_stmt tt)) Stmts.nil))

print_stmt-meaning_example :
    words_of (print_stmt print_e print_v switch)
    ≡ flatten (group (meaning (λ _. word "e") (λ _. some (word "v")) switch))
unfolding flatten
print_stmt-meaning_example =
    print_stmt-meaning print_e print_v (λ _. word "e") (λ _. some (word "v"))
      (λ _. words_of-out "e") (λ _. prints refl) switch

-- (Sgoto "l"), after a line break
abbrev printed_goto : Doc
printed_goto =
    line
    ∷ lparen
    ∷ write (codes "Sgoto")
    ∷ nbsp
    ∷ write (codes "\"")
    ∷ write (codes "l")
    ∷ write (codes "\"")
    ∷ rparen
    ∷ []

print_stmt-IsBalanced_example : IsBalanced printed_goto
unfolding print_stmt ctor str end_ctor ◌>>=◌ shift
print_stmt-IsBalanced_example =
    print_stmt-IsBalanced print_e print_v (λ e i. Moves-out "e") (λ d i. stays λ n. refl)
      (goto (codes "l")) printed_goto refl

-- int (*)(const char), in a template
abbrev plain_quals : Qualifiers
plain_quals = record { is_local_const = false; is_volatile = false; is_local_volatile = false }

abbrev const_quals : Qualifiers
const_quals = record { is_local_const = true; is_volatile = false; is_local_volatile = false }

abbrev function_type : ClangType Unit Unit
function_type =
    function_proto cc_c false (qual plain_quals (known int))
      (QualTypes.cons (qual const_quals (known char_s)) QualTypes.nil)

print_qual_type-qual_term_example :
    words_of (
      print_qual_type true print_e print_e
        (qual plain_quals (pointer (qual plain_quals function_type))))
    ≡ flatten (
        qual_term true
          (λ _. word "e")
          (λ _. word "e")
          (qual plain_quals (pointer (qual plain_quals function_type))))
unfolding flatten
print_qual_type-qual_term_example =
    print_qual_type-qual_term true print_e print_e (λ _. word "e") (λ _. word "e")
      (λ _. words_of-out "e") (λ _. words_of-out "e")
      (qual plain_quals (pointer (qual plain_quals function_type)))

-- (Tref Tint)
abbrev printed_reference : Doc
printed_reference = lparen ∷ write (codes "Tref") ∷ nbsp ∷ write (codes "Tint") ∷ rparen ∷ []

print_type-IsBalanced_example : IsBalanced printed_reference
unfolding print_type ctor_inline out end_ctor ◌>>=◌ kind_name print_qualified
print_type-IsBalanced_example =
    print_type-IsBalanced true print_e print_e (λ e i. Moves-out "e") (λ e i. Moves-out "e")
      (lvalue_reference (qual plain_quals (known int))) printed_reference refl

-- An expression, which leaves the names as they are.
abbrev print_in : Unit {0} → OpaqueNames → Print OpaqueNames
print_in e s = Print.done s (write (codes "e") ∷ [])

-- auto [x] = e;
abbrev decomposed : LocalDecl Unit Unit Unit
decomposed = decomposition 9 tt tt ((record { name = codes "x"; bound = tt }) ∷ [])

print_local_decl-PrintsLocal_example :
    PrintsLocal (print_local_decl true (λ n. codes "0") print_in print_e print_e decomposed) (
      local_term true
        (λ n. codes "0")
        (λ e s. (word "e", s))
        (λ t. word "e")
        (λ n. word "e")
        decomposed)
unfolding flatten gives
print_local_decl-PrintsLocal_example =
    print_local_decl-PrintsLocal true (λ n. codes "0") print_in print_e print_e
      (λ e s. (word "e", s)) (λ t. word "e") (λ n. word "e") (λ e. record { shown = λ s. refl })
      (λ e s. refl) (λ t. words_of-out "e") (λ n. words_of-out "e") decomposed

-- { auto [x] = e; const char y; if (e) e; }
abbrev some_stmt : Stmt Unit (LocalDecl Unit (QualType Unit Unit) Unit)
some_stmt = compound (
    Stmts.cons
      (decl_stmt (
        decomposition 9 (qual plain_quals (known int)) tt
          ((record { name = codes "x"; bound = tt }) ∷ [])
        ∷ var_decl (record {
          is_static_local = false;
          object = tt;
          name = codes "y";
          type = qual const_quals (known char_s);
          init = none;
        })
        ∷ []))
      (Stmts.cons (if_stmt none tt (expr_stmt tt) OptStmt.null) Stmts.nil))

print_statement-statement_term_example :
    words_of (print_statement false true (λ n. codes "0") print_in print_e print_e some_stmt)
    ≡ flatten (
        statement_term false true
          (λ n. codes "0")
          print_in
          print_e
          print_e
          (λ e s. (word "e", s))
          (λ n. word "e")
          (λ n. word "e")
          some_stmt)
unfolding flatten gives
print_statement-statement_term_example =
    print_statement-statement_term false true (λ n. codes "0") print_in print_e print_e
      (λ e s. (word "e", s)) (λ n. word "e") (λ n. word "e") (λ e. record { shown = λ s. refl })
      (λ e s. refl) (λ t. words_of-out "e") (λ n. words_of-out "e") some_stmt

-- while (e) break;
abbrev printed_while : Doc
printed_while =
    line
    ∷ lparen
    ∷ write (codes "Swhile")
    ∷ nbsp
    ∷ write (codes "None")
    ∷ nbsp
    ∷ write (codes "e")
    ∷ nbsp
    ∷ write (codes "Sbreak")
    ∷ rparen
    ∷ []

print_statement-IsBalanced_example : IsBalanced printed_while
unfolding print_stmt ctor out space end_ctor option print_none ◌>>=◌ shift print_expr_alone
print_statement-IsBalanced_example =
    print_statement-IsBalanced false true (λ n. codes "0") print_in print_e print_e
      (λ e s i. stays λ n. refl) (λ e i. Moves-out "e") (λ e i. Moves-out "e")
      (while_stmt none tt break_stmt) printed_while refl
