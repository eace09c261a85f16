-- ===== src/Composed.antt =====
-- src/PrintStmt.cpp, src/PrintLocalDecl.cpp, src/PrintExpr.cpp and src/PrintType.cpp together: the body of
-- a function. Only names, and the expressions that stand in the types of expressions, are printed by
-- other parts.
pub mod Words
pub mod Level
pub mod WithNames
use bri_ck.Prelude.{ℕ, Bool, Option, Text, if◌then◌else◌}
use bri_ck.OpaqueNames.{ℤ, pos}
use bri_ck.CoqPrinter.{Print}
use bri_ck.CoqPrinter.Terms.{Term, app, word, one}
use bri_ck.PrintType.{ClangType, QualType, null, qual, print_qual_type, print_qual_type_option}
use bri_ck.PrintType.Meaning.{qual_term}
use bri_ck.PrintExpr.{Printers}
use bri_ck.PrintExpr.Tree.{Expr, print_expr}
use bri_ck.PrintExpr.Terms.{Denotation}
use bri_ck.PrintExpr.Meaning.Tree.{meaning}
use bri_ck.PrintLocalDecl.{LocalDecl}
use bri_ck.PrintLocalDecl.InStmt.{print_statement, statement_term}
use bri_ck.Stmt.{Stmt}

-- The expressions of a program, over the expressions `V` in their types and the declarations `N`
abbrev pub Expression : (V N : Type 0) → Type 0
Expression V N = Expr (QualType V N) N

abbrev pub Body : (V N : Type 0) → Type 0
Body V N = Stmt (Expression V N) (LocalDecl (Expression V N) (QualType (Expression V N) N) N)

-- What the other parts print, and what clang answers.
pub record Context (V N : Type 0) : Type 0 where
  pub templates : Bool
  pub thread_safe : Bool
  pub big_endian : Bool
  pub is_dependent : ClangType V N → Bool
  pub decimal : ℤ → Text
  pub print_size : V → Print (Unit {0})
  pub print_type_name : N → Print (Unit {0})
  pub print_obj_name : N → Print (Unit {0})
  pub print_field : N → Print (Unit {0})
  pub print_param_name : N → Print (Unit {0})

-- The terms of what they print.
pub record PartTerms (V N : Type 0) : Type 0 where
  pub size_term : V → Term
  pub class_term : N → Term
  pub obj_term : N → Term
  pub field_term : N → Term
  pub param_term : N → Term

module _ {V N : Type 0} (c : Context V N) where
  -- `ClangPrinter`, as the printer of expressions calls it
  abbrev pub printers : Printers (QualType V N) N
  printers = record {
    templates = c.templates;
    big_endian = c.big_endian;
    print_type = print_qual_type c.templates c.print_size c.print_type_name;
    print_type_option =
        print_qual_type_option c.templates c.print_size c.print_type_name c.is_dependent;
    print_obj_name = c.print_obj_name;
    print_type_name = c.print_type_name;
    print_field = c.print_field;
    print_param_name = c.print_param_name;
    decimal = c.decimal;
  }

  abbrev pub print_body : Body V N → Print (Unit {0})
  print_body =
      print_statement c.templates c.thread_safe (λ n. c.decimal (pos n)) (print_expr printers)
        c.print_type_name c.print_obj_name

  module _ (tm : PartTerms V N) where
    unfoldable pub qual_option_term : QualType V N → Term
    qual_option_term null = word "None"
    qual_option_term (qual q t) =
        if c.is_dependent t
        then word "None"
        else app "Some" (one (qual_term c.templates tm.size_term tm.class_term (qual q t)))

    abbrev pub denotation : Denotation (QualType V N) N
    denotation = record {
      type_term = qual_term c.templates tm.size_term tm.class_term;
      type_option_term = qual_option_term;
      obj_term = tm.obj_term;
      class_term = tm.class_term;
      field_term = tm.field_term;
      param_term = tm.param_term;
    }

    abbrev pub body_term : Body V N → Term
    body_term =
        statement_term c.templates c.thread_safe (λ n. c.decimal (pos n)) (print_expr printers)
          c.print_type_name c.print_obj_name (meaning printers denotation) tm.class_term tm.obj_term
