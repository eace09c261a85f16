-- ===== src/Tests/Exprs.antt =====
-- The theorems on expressions at concrete inputs.
use bri_ck.Prelude.{
  ℕ, some, true, none, ◌≡◌, refl, zero, suc, false, [], ◌∷◌, ◌++◌, Text, codes, arith, ◌<◌, ◌^◌,
  All,
}
use bri_ck.Formatter.{Doc, write, nbsp, lparen, rparen, line}
use bri_ck.Formatter.Depth.{IsBalanced}
use bri_ck.CoqPrinter.{
  option, print_none, out, done, ctor, ctor_inline, digits, space, end_ctor, ◌>>=◌,
}
use bri_ck.CoqPrinter.Words.{words_of, words_of-out}
use bri_ck.CoqPrinter.View.{view, gives}
use bri_ck.CoqPrinter.Terms.{word, flatten}
use bri_ck.CoqPrinter.Moves.{Moves-out}
use bri_ck.OpaqueNames.{
  ℤ, pos, negsuc, OpaqueNames, no_names, fresh, find_index, inc_index_count, dec_index_count,
}
use bri_ck.PrintExpr.{Info, Printers, ValCat, simple}
use bri_ck.PrintExpr.{add as add_op}
use bri_ck.PrintExpr.Objects.{visit_binary_conditional, visit_this, visit_opaque}
use bri_ck.PrintExpr.Parts.{IntegerValue, print_done, print_val_cat}
use bri_ck.PrintExpr.Units.{units}
use bri_ck.PrintExpr.Units.RoundTrip.{encode_all, units-encode_all}
use bri_ck.PrintExpr.Units.Bounds.{units-bounded}
use bri_ck.PrintExpr.Tree.{Expr, binary, binary_conditional, integer, opaque, this, print_expr}
use bri_ck.PrintExpr.Terms.{Denotation}
use bri_ck.PrintExpr.Meaning.Tree.{meaning}
use bri_ck.PrintExpr.PartWords.{IsPrinting}
use bri_ck.PrintExpr.PartLevel.{AreLevel}
use bri_ck.PrintExpr.Words.Tree.{print_expr-meaning}
use bri_ck.PrintExpr.Level.Tree.{print_expr-IsBalanced}
use bri_ck.PrintType.{QualType, qual, known, int, kind_name, print_type, print_qualified}
use bri_ck.PrintLocalDecl.{decomposition}
use bri_ck.PrintLocalDecl.InStmt.{print_expr_alone}
use bri_ck.Stmt.{Stmts, compound, decl_stmt, expr_stmt, break_stmt, while_stmt, print_stmt}
use bri_ck.Composed.{Context, PartTerms, Expression, Body, print_body, body_term}
use bri_ck.Composed.WithNames.{Named, with_names, print_body-with_names}
use bri_ck.PrintExpr.{Var}
use bri_ck.PrintExpr.Visit.{visit_decl_ref}
use bri_ck.PrintExpr.Tree.{decl_ref}
use bri_ck.PrintExpr.Parts.{open_ref, close_ref, print_var_ref, print_ref, print_named_ref}
use bri_ck.OpaqueNames.{find_anon}
use bri_ck.Composed.Words.{ArePrinting, print_body-body_term}
use bri_ck.Composed.Level.{PartsLevel, print_body-IsBalanced}
use bri_ck.Names.{
  scoped, enum, enum_identifier, namespace, linkage, unit, print_type_name, print_obj_name,
  other_type, plain, variable, named_param,
}
use bri_ck.Names.Mangled.{
  Spells, in_enum, in_namespace, in_linkage, in_unit, mangled_name, print_type_name-mangled_name,
}
use bri_ck.PrintExpr.Scope.{Extends}
use bri_ck.PrintExpr.Scope.Tree.{print_expr-Extends}

-- A number below two, and any other.
abbrev digit : ℤ → Text
digit (pos zero) = codes "0"
digit (pos (suc n)) = codes "1"
digit (negsuc n) = codes "-1"

-- Each type is printed as `t`, each name as `n`.
abbrev plain_printers : Printers (Unit {0}) (Unit {0})
plain_printers = record {
  templates = false;
  big_endian = false;
  print_type = λ _. out "t";
  print_type_option = λ _. out "t";
  print_obj_name = λ _. out "n";
  print_type_name = λ _. out "n";
  print_field = λ _. out "n";
  print_param_name = λ _. out "n";
  decimal = digit;
}

abbrev denotation : Denotation (Unit {0}) (Unit {0})
denotation = record {
  type_term = λ _. word "t";
  type_option_term = λ _. word "t";
  obj_term = λ _. word "n";
  class_term = λ _. word "n";
  field_term = λ _. word "n";
  param_term = λ _. word "n";
}

printing : IsPrinting plain_printers denotation
unfolding flatten
printing = record {
  type_words = λ _. words_of-out "t";
  type_option_words = λ _. words_of-out "t";
  obj_words = λ _. words_of-out "n";
  class_words = λ _. words_of-out "n";
  field_words = λ _. words_of-out "n";
  param_words = λ _. words_of-out "n";
}

level : AreLevel plain_printers
level = record {
  type_level = λ _ i. Moves-out "t";
  option_level = λ _ i. Moves-out "t";
  obj_level = λ _ i. Moves-out "n";
  class_level = λ _ i. Moves-out "n";
  field_level = λ _ i. Moves-out "n";
  param_level = λ _ i. Moves-out "n";
}

abbrev prvalue : ValCat
prvalue = record { is_lvalue = false; is_xvalue = false; is_prvalue = true }

abbrev lvalue : ValCat
lvalue = record { is_lvalue = true; is_xvalue = false; is_prvalue = false }

-- An integer of a signed type
abbrev signed : Text → IntegerValue
signed value = record { is_signed = true; signed_digits = value; unsigned_digits = codes "x" }

abbrev info : Info (Unit {0})
info = record { type = tt; val_cat = prvalue; classified = prvalue; class_name = codes "E" }

-- (1 ?: 0) + this, where the opaque value has number 7
abbrev elvis : Expr (Unit {0}) (Unit {0})
elvis =
    binary info (simple add_op)
      (binary_conditional info 7 (integer info (signed (codes "1"))) (opaque info 7) (opaque info 7)
        (integer info (signed (codes "0"))))
      (this info)

print_expr-meaning_example :
    view (print_expr plain_printers elvis no_names)
    ≡ gives
        (meaning plain_printers denotation elvis no_names).1
        (flatten (meaning plain_printers denotation elvis no_names).0)
print_expr-meaning_example = print_expr-meaning plain_printers denotation printing elvis no_names

-- The value of the opaque number 7 in a conditional
abbrev guess : Expr (Unit {0}) (Unit {0})
guess = binary_conditional info 7 (this info) (opaque info 7) (opaque info 7) (this info)

abbrev printed_this : Doc
printed_this = lparen ∷ write (codes "Ethis") ∷ nbsp ∷ nbsp ∷ write (codes "t") ∷ rparen ∷ []

abbrev printed_ref : Doc
printed_ref =
    line
    ∷ lparen
    ∷ write (codes "Eopaque_ref")
    ∷ nbsp
    ∷ write (codes "0")
    ∷ nbsp
    ∷ write (codes "Prvalue")
    ∷ nbsp
    ∷ write (codes "t")
    ∷ rparen
    ∷ []

-- (Eif2 0 (Ethis t) (Eopaque_ref 0 Prvalue t) (Eopaque_ref 0 Prvalue t) (Ethis t) Prvalue t)
abbrev printed_guess : Doc
printed_guess =
    (line ∷ lparen ∷ write (codes "Eif2") ∷ nbsp ∷ write (codes "0") ∷ nbsp ∷ [])
    ++ printed_this
    ++ (nbsp ∷ [])
    ++ printed_ref
    ++ (nbsp ∷ [])
    ++ printed_ref
    ++ (nbsp ∷ [])
    ++ printed_this
    ++ (nbsp ∷ write (codes "Prvalue") ∷ nbsp ∷ write (codes "t") ∷ rparen ∷ [])

-- The number of the opaque value stays.
abbrev names_after : OpaqueNames
names_after = record { indexes = 7 ∷ []; anonymous = []; index_count = negsuc 0 }

guess-prints : print_expr plain_printers guess no_names ≡ done names_after printed_guess
unfolding print_expr visit_binary_conditional visit_this visit_opaque print_done print_val_cat ◌>>=◌
    ctor ctor_inline out digits space end_ctor fresh find_index inc_index_count dec_index_count
guess-prints = refl

print_expr-IsBalanced_example : IsBalanced printed_guess
print_expr-IsBalanced_example =
    print_expr-IsBalanced plain_printers level guess no_names names_after printed_guess guess-prints

print_expr-Extends_example : Extends no_names names_after
print_expr-Extends_example =
    print_expr-Extends plain_printers guess no_names names_after printed_guess guess-prints

-- Two units of two bytes
units-encode_all_example : units false 2 (encode_all false 2 (258 ∷ 65535 ∷ [])) ≡ 258 ∷ 65535 ∷ []
units-encode_all_example =
    units-encode_all false 2 (258 ∷ 65535 ∷ []) (omega arith) (omega arith)
      (omega arith, (omega arith, tt))

units-bounded_example : All (λ u. u < 256 ^ 2) (units false 2 (2 ∷ 1 ∷ 255 ∷ 255 ∷ []))
units-bounded_example = units-bounded false 2 (2 ∷ 1 ∷ 255 ∷ 255 ∷ []) (omega arith)

-- Names are printed as `n`, and sizes of arrays as `e`.
abbrev context : Context (Unit {0}) (Unit {0})
context = record {
  templates = false;
  thread_safe = true;
  big_endian = false;
  is_dependent = λ _. false;
  decimal = digit;
  print_size = λ _. out "e";
  print_type_name = λ _. out "n";
  print_obj_name = λ _. out "n";
  print_field = λ _. out "n";
  print_param_name = λ _. out "n";
}

abbrev part_terms : PartTerms (Unit {0}) (Unit {0})
part_terms = record {
  size_term = λ _. word "e";
  class_term = λ _. word "n";
  obj_term = λ _. word "n";
  field_term = λ _. word "n";
  param_term = λ _. word "n";
}

parts-ArePrinting : ArePrinting context part_terms
unfolding flatten
parts-ArePrinting = record {
  size_words = λ _. words_of-out "e";
  class_words = λ _. words_of-out "n";
  obj_words = λ _. words_of-out "n";
  field_words = λ _. words_of-out "n";
  param_words = λ _. words_of-out "n";
}

parts-PartsLevel : PartsLevel context
parts-PartsLevel = record {
  size_level = λ _ i. Moves-out "e";
  class_level = λ _ i. Moves-out "n";
  obj_level = λ _ i. Moves-out "n";
  field_level = λ _ i. Moves-out "n";
  param_level = λ _ i. Moves-out "n";
}

abbrev int_type : {V : Type 0} → QualType V (Unit {0})
int_type =
    qual (record { is_local_const = false; is_volatile = false; is_local_volatile = false })
      (known int)

abbrev int_info : Info (QualType (Unit {0}) (Unit {0}))
int_info = record { type = int_type; val_cat = lvalue; classified = lvalue; class_name = codes "E" }

abbrev one_lit : Expression (Unit {0}) (Unit {0})
one_lit = integer int_info (signed (codes "1"))

-- { auto [x] = 1 ?: 1, where x is bound to the opaque value; 1 + 1; }
abbrev body : Body (Unit {0}) (Unit {0})
body = compound (
    Stmts.cons
      (decl_stmt (
        decomposition 9 int_type
          (binary_conditional int_info 7 one_lit (opaque int_info 7) (opaque int_info 7) one_lit)
          ((record { name = codes "x"; bound = opaque int_info 7 }) ∷ [])
        ∷ []))
      (Stmts.cons (expr_stmt (binary int_info (simple add_op) one_lit one_lit)) Stmts.nil))

print_body-body_term_example :
    words_of (print_body context body) ≡ flatten (body_term context part_terms body)
print_body-body_term_example = print_body-body_term context part_terms parts-ArePrinting body

-- while (this) break;
abbrev while_loop : Body (Unit {0}) (Unit {0})
while_loop = while_stmt none (this int_info) break_stmt

abbrev printed_loop : Doc
printed_loop =
    (line ∷ lparen ∷ write (codes "Swhile") ∷ nbsp ∷ write (codes "None") ∷ nbsp ∷ [])
    ++ (lparen ∷ write (codes "Ethis") ∷ nbsp ∷ nbsp ∷ write (codes "Tint") ∷ rparen ∷ [])
    ++ (nbsp ∷ write (codes "Sbreak") ∷ rparen ∷ [])

while_loop-prints : print_body context while_loop ≡ done tt printed_loop
unfolding print_stmt print_expr visit_this print_done print_expr_alone print_type print_qualified
    kind_name option print_none ◌>>=◌ ctor ctor_inline out space end_ctor
while_loop-prints = refl

print_body-IsBalanced_example : IsBalanced printed_loop
print_body-IsBalanced_example =
    print_body-IsBalanced context parts-PartsLevel while_loop printed_loop while_loop-prints

-- The digit of a number below two
abbrev digit_of : ℕ → Text
digit_of n = digit (pos n)

-- extern "C++" { namespace n { enum class E; } }
print_type_name-mangled_name_example :
    Spells
      (print_type_name digit_of (
        scoped
          (enum (enum_identifier (codes "E")) (namespace (some (codes "n")) false (linkage unit)))))
      tt
      (codes "\"" ++ (mangled_name digit_of (codes "E" ∷ codes "n" ∷ []) ++ codes "\""))
print_type_name-mangled_name_example =
    print_type_name-mangled_name digit_of (in_enum (in_namespace (in_linkage in_unit)))

-- The variable x
abbrev x_decl : Named
x_decl = record {
  as_type = other_type;
  as_value = plain (codes "x");
  as_member = variable;
  as_param = named_param (codes "x");
}

abbrev x_var : Var Named
x_var = record {
  number = 3;
  named = x_decl;
  name = codes "x";
  is_in_function = false;
  is_function = false;
  is_static_local = false;
  is_param = false;
}

abbrev named_int : {V : Type 0} → QualType V Named
named_int =
    qual (record { is_local_const = false; is_volatile = false; is_local_volatile = false })
      (known int)

-- while (x) break;
abbrev named_loop : Body (Unit {0}) Named
named_loop =
    while_stmt none
      (decl_ref
        (record { type = named_int; val_cat = lvalue; classified = lvalue; class_name = codes "E" })
        x_var false)
      break_stmt

abbrev named_context : Context (Unit {0}) Named
named_context = with_names false true false (λ _. false) digit (λ _. out "e")

abbrev printed_named_loop : Doc
printed_named_loop =
    (line ∷ lparen ∷ write (codes "Swhile") ∷ nbsp ∷ write (codes "None") ∷ nbsp ∷ [])
    ++ (lparen ∷ write (codes "Evar") ∷ nbsp ∷ lparen ∷ write (codes "Gname") ∷ nbsp ∷ [])
    ++ (write (codes "\"") ∷ write (codes "x") ∷ write (codes "\"") ∷ rparen ∷ nbsp ∷ [])
    ++ (write (codes "Tint") ∷ rparen ∷ nbsp ∷ write (codes "Sbreak") ∷ rparen ∷ [])

named_loop-prints : print_body named_context named_loop ≡ done tt printed_named_loop
unfolding print_stmt print_expr visit_decl_ref open_ref close_ref print_var_ref find_anon print_ref
    print_named_ref print_obj_name print_done print_expr_alone print_type print_qualified kind_name
    option print_none ◌>>=◌ ctor ctor_inline out digits space end_ctor
named_loop-prints = refl

print_body-with_names_example : IsBalanced printed_named_loop
print_body-with_names_example =
    print_body-with_names false true false (λ _. false) digit (λ _. out "e") (λ _ i. Moves-out "e")
      named_loop printed_named_loop named_loop-prints
