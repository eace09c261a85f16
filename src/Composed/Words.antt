-- ===== src/Composed/Words.antt =====
-- The printers together print the words of the term of a body.
use bri_ck.Prelude.{◌≡◌, Bool-cases, inl, inr}
use bri_ck.CoqPrinter.Words.{words_of, wording}
use bri_ck.CoqPrinter.Terms.{flatten, Prints}
use bri_ck.PrintType.{null, qual, print_qual_type_option}
use bri_ck.PrintType.Words.{print_qual_type-qual_term}
use bri_ck.PrintExpr.PartWords.{IsPrinting}
use bri_ck.PrintExpr.Words.Tree.{expr-Shows}
use bri_ck.PrintExpr.Scope.Tree.{expr-Keeps}
use bri_ck.PrintLocalDecl.InStmt.{print_statement-statement_term}
use bri_ck.Composed.{
  Context, PartTerms, printers, print_body, qual_option_term, denotation, body_term, Body,
}

-- The other parts print the words of their terms.
pub record ArePrinting {V N : Type 0} (c : Context V N) (tm : PartTerms V N) : Type 0 where
  pub size_words : Prints c.print_size tm.size_term
  pub class_words : Prints c.print_type_name tm.class_term
  pub obj_words : Prints c.print_obj_name tm.obj_term
  pub field_words : Prints c.print_field tm.field_term
  pub param_words : Prints c.print_param_name tm.param_term

module _ {V N : Type 0} (c : Context V N) (tm : PartTerms V N) (h : ArePrinting c tm) where
  type-words : Prints (printers c).print_type (denotation c tm).type_term
  type-words =
      print_qual_type-qual_term c.templates c.print_size c.print_type_name tm.size_term
        tm.class_term h.size_words h.class_words

  type_option-words : Prints (printers c).print_type_option (denotation c tm).type_option_term
  unfolding print_qual_type_option qual_option_term flatten
  type_option-words null = simp wording
  type_option-words (qual q t) = elim (Bool-cases (c.is_dependent t)) [
    | inl p ↦ simp (p, wording)
    | inr p ↦ simp (p, wording, type-words)
  ]

  printers-IsPrinting : IsPrinting (printers c) (denotation c tm)
  printers-IsPrinting = record {
    type_words = type-words;
    type_option_words = type_option-words;
    obj_words = h.obj_words;
    class_words = h.class_words;
    field_words = h.field_words;
    param_words = h.param_words;
  }

  -- If the printers of names, and of the expressions in the types of expressions, print the words of their
  -- terms, then for the body of a function, with its statements, local declarations, expressions and
  -- types, the words of its term are printed, and printing aborts exactly if it has none.
  pub print_body-body_term : (b : Body V N) → words_of (print_body c b) ≡ flatten (body_term c tm b)
  print_body-body_term =
      print_statement-statement_term c.templates c.thread_safe _ _ c.print_type_name
        c.print_obj_name _ tm.class_term tm.obj_term
        (expr-Shows (printers c) (denotation c tm) printers-IsPrinting)
        (λ e s. ((expr-Keeps (printers c) (denotation c tm) e).keeps s).same_anonymous)
        h.class_words h.obj_words
