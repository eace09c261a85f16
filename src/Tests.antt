-- ===== src/Tests.antt =====
-- The theorems at concrete inputs.
pub mod Printing
pub mod Exprs
pub mod Comments
use bri_ck.Prelude.{
  ℕ, ◌≡◌, refl, inl, inr, Bool, true, false, none, some, List, [], ◌∷◌, codes, All, arith, Ensures,
  ◌<◌, ◌≤◌, ◌++◌, ◌==◌, if◌then◌else◌,
}
use bri_ck.Filter.{Filter, nothing, declaration, definition, default, combine, max, min, rank}
use bri_ck.Filter.Lattice.{Says, combine-max, combine-min}
use bri_ck.Formatter.{Formatter, Doc, write, nbsp, lparen, rparen, line, new_formatter, run, exec}
use bri_ck.Formatter.Depth.{Reaches, opens, shift, IsBalanced, run-IsBalanced}
use bri_ck.Formatter.Layout.{ink, ink-run, text}
use bri_ck.StringPrinter.{pretty_print}
use bri_ck.StringPrinter.Reader.{read_string}
use bri_ck.StringPrinter.RoundTrip.{pretty_print-read_string, pretty_print-injective}
use bri_ck.Module.{add_decl, add_definition, empty, no_flags}
use bri_ck.SpecCollector.{no_specs, add_specification, decl_for_comment}
use bri_ck.SpecCollector.Attached.{first, decl_for_comment-add_specification}
use bri_ck.ModuleBuilder.{
  Decls, FunctionInfo, Builder, typedef_name, cxx_record, once, visit_function, namespace, var,
  function, nil, cons, build_module, visit,
}
use bri_ck.ModuleBuilder.Contents.{build_module-IsShared, IsShared}
use bri_ck.ModuleBuilder.Invariant.{Emits}
use bri_ck.ModuleBuilder.Visited.{visit-visit}
use bri_ck.ModuleBuilder.Totality.{Succeeds, build_module-Succeeds, IsScoped}
use bri_ck.ModuleBuilder.Functions.{append, IsDefined, build_module-defines}
use bri_ck.CoqPrinter.{
  Print, space, option, print_none, out, ctor_inline, ctor, str, end_ctor, ◌>>=◌,
}
use bri_ck.CoqPrinter.Words.{words_of, words_of-out}
use bri_ck.CoqPrinter.Terms.{word, flatten}
use bri_ck.CoqPrinter.Moves.{Moves-out, stays}
use bri_ck.OpaqueNames.{
  OpaqueNames, pos, negsuc, fresh, find_index, find_from, find_anon, push_anon, pop_anon,
}
use bri_ck.OpaqueNames.Distinct.{find_index-injective, find_index-fresh, pop_anon-push_anon}
use bri_ck.PrintLocalDecl.{var as var_decl, LocalDecl, decomposition, print_local_decl}
use bri_ck.PrintLocalDecl.InStmt.{
  print_expr_alone, print_statement, statement_term, print_statement-statement_term,
  print_statement-IsBalanced,
}
use bri_ck.PrintLocalDecl.Meaning.{local_term}
use bri_ck.PrintType.{
  Qualifiers, ClangType, QualType, QualTypes, function_proto, cc_c, qual, known, int, char_s,
  pointer, lvalue_reference, print_type, print_qual_type, kind_name, print_qualified,
}
use bri_ck.PrintType.Meaning.{qual_term}
use bri_ck.PrintType.Words.{print_qual_type-qual_term}
use bri_ck.PrintType.Level.{print_type-IsBalanced}
use bri_ck.Stmt.{
  OptStmt, decl_stmt, if_stmt, while_stmt, break_stmt, Stmt, Stmts, switch_stmt, compound,
  case_stmt, expr_stmt, print_stmt, goto,
}
use bri_ck.Stmt.Meaning.{group, meaning}
use bri_ck.Stmt.Words.{PrintsLocal, prints, print_stmt-meaning}
use bri_ck.Stmt.Level.{print_stmt-IsBalanced}

-- A letter, a byte that is no character, a quote.
abbrev bytes : List ℕ
bytes = 97 ∷ 0 ∷ 34 ∷ []

bytes-AreBytes : All (λ c. c < 256) bytes
bytes-AreBytes = (omega arith, (omega arith, (omega arith, tt)))

pretty_print-read_string_example :
    (d : Doc) × (pretty_print bytes ≡ some d) × (read_string 40 (text d) ≡ some bytes)
pretty_print-read_string_example = pretty_print-read_string bytes 40 bytes-AreBytes (omega arith)

printed_bytes : (d : Doc) × (pretty_print bytes ≡ some d)
printed_bytes = (pretty_print-read_string_example.0, pretty_print-read_string_example.1)

pretty_print-injective_example : bytes ≡ bytes
pretty_print-injective_example =
    pretty_print-injective bytes bytes printed_bytes.0 printed_bytes.0 bytes-AreBytes bytes-AreBytes
      printed_bytes.1 printed_bytes.1 refl

-- A function that is its own definition.
abbrev plain_info : FunctionInfo
plain_info = record {
  is_method = false;
  is_deleted = false;
  is_dependent = false;
  redecl = record { definition_id = some 7; has_previous = false };
  comment = none;
  locals = [];
}

-- namespace { int x; }
abbrev some_namespace : Decls
some_namespace = cons (namespace 1 (cons (var 2 false) nil)) nil

abbrev some_unit : Decls
some_unit = append some_namespace (cons (function 7 plain_info) nil)

build_module-defines_example :
    (t : Builder) × (build_module
        (default definition)
        false
        (append some_namespace (cons (function 7 plain_info) nil))
        empty
        no_specs
      ≡ some t)
    × IsDefined 7 t.module_
unfolding default Emits IsScoped
build_module-defines_example =
    build_module-defines (default definition) false 7 plain_info some_namespace nil empty no_specs
      refl (record { is_definition = refl; not_deleted = refl; independent = refl })
      (((λ e. omega (arith, e)), (((λ e. omega (arith, e)), λ p q. tt), tt)), tt)
      ((refl, (tt, tt)), tt) tt

-- A namespace, an implicit record and a function.
abbrev guarded_unit : Decls
guarded_unit = append some_namespace (
    cons
      (cxx_record 50
        (record {
          is_implicit = true;
          is_specialization = false;
          redecl = record { definition_id = some 50; has_previous = false };
        })
        nil)
      (cons (function 7 plain_info) nil))

-- A filter that keeps the definition of the function and nothing else
abbrev only_seven : Filter
only_seven d = if d == 7 then definition else nothing

build_module-IsShared_example :
    Ensures
      (λ s. IsShared s.module_)
      (build_module (default definition) false some_unit empty no_specs)
build_module-IsShared_example = build_module-IsShared (default definition) some_unit no_specs

build_module-Succeeds_example :
    Succeeds (build_module (default definition) false some_unit empty no_specs)
unfolding IsScoped
build_module-Succeeds_example =
    build_module-Succeeds (default definition) false some_unit empty no_specs
      ((refl, (tt, tt)), (tt, tt))

abbrev builder : List ℕ → List ℕ → Builder
builder defined visited = record {
  module_ = record empty { definitions = defined };
  specs = no_specs;
  visited = visited;
}

visit-visit_example :
    visit
      (default definition)
      false
      (function 7 plain_info)
      no_flags
      (builder (7 ∷ 8 ∷ []) (8 ∷ 7 ∷ []))
    ≡ some (builder (7 ∷ 8 ∷ []) (8 ∷ 7 ∷ []))
unfolding visit once visit_function add_decl default add_definition
visit-visit_example =
    visit-visit (default definition) false (function 7 plain_info) (typedef_name 8) no_flags
      no_flags no_flags (builder [] []) (builder (7 ∷ []) (7 ∷ []))
      (builder (7 ∷ 8 ∷ []) (8 ∷ 7 ∷ [])) refl refl

-- (f x)
abbrev call : Doc
call = lparen ∷ write (codes "f") ∷ nbsp ∷ write (codes "x") ∷ rparen ∷ line ∷ []

run-IsBalanced_example : Reaches call new_formatter 0
unfolding shift opens
run-IsBalanced_example = run-IsBalanced call new_formatter (omega arith) (λ n. refl)

abbrev called : Formatter
called = record { out = codes "(f x)\n"; depth = 0; spaces = 0; blank = true }

ink-run_example : ink called.out ≡ ink new_formatter.out ++ ink (text call)
unfolding run exec
ink-run_example = ink-run call new_formatter {s' = called} refl

combine-max_example :
    Says
      (default declaration ∷ default definition ∷ [])
      5
      (combine nothing max (default declaration ∷ default definition ∷ []) 5)
    × (rank definition
        ≤ rank (combine nothing max (default declaration ∷ default definition ∷ []) 5))
unfolding default
combine-max_example =
    combine-max (default declaration ∷ default definition ∷ []) 5 definition (inr (inl refl))

combine-min_example :
    Says
      (default declaration ∷ default definition ∷ [])
      5
      (combine definition min (default declaration ∷ default definition ∷ []) 5)
    × (rank (combine definition min (default declaration ∷ default definition ∷ []) 5)
        ≤ rank definition)
unfolding default
combine-min_example =
    combine-min (default declaration ∷ default definition ∷ []) 5 definition (inr (inl refl))

decl_for_comment-add_specification_example :
    decl_for_comment 4 (add_specification 7 (record { raw = 4; full = none }) no_specs) ≡ some 7
unfolding first decl_for_comment
decl_for_comment-add_specification_example =
    decl_for_comment-add_specification 7 4 (record { raw = 4; full = none }) no_specs

-- The elements 5 and 6 have the numbers 0 and 1.
abbrev two_names : OpaqueNames
two_names = record { indexes = 5 ∷ 6 ∷ []; anonymous = 3 ∷ []; index_count = negsuc 0 }

find_index-injective_example : ◌≡◌ {A = ℕ} 6 6
unfolding find_index find_from
find_index-injective_example = find_index-injective 6 6 1 two_names refl refl

find_index-fresh_example :
    find_index 6 (fresh 7 two_names).1
    ≡ (if 7 == 6 then pos (fresh 7 two_names).0 else find_index 6 two_names)
unfolding find_index find_from
find_index-fresh_example = find_index-fresh 7 6 two_names refl

pop_anon-push_anon_example :
    (pop_anon 4 (push_anon 4 two_names).1 ≡ some two_names)
    × (find_anon 4 (push_anon 4 two_names).1 ≡ pos (push_anon 4 two_names).0)
unfolding find_anon find_from
pop_anon-push_anon_example = pop_anon-push_anon 4 two_names refl
