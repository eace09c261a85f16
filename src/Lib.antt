-- ===== src/Lib.antt =====
-- The front end of BRiCk, `cpp2v`, reads C++ by clang and prints it as Coq terms of the logic. This
-- library models the parts between the tree of clang and the text.
--
-- The parts, in the order in which a declaration passes them:
--   * ModuleBuilder (src/ModuleBuilder.cpp): the visitor `BuildModule` over the declarations of a
--     translation unit, the structure `Decl`, which holds what the visitor asks of each. Its state
--     `Builder` has the module, the comments and the set of visited declarations. `visit` is all
--     `Visit…` methods behind `Visit` (`once`), `go` and `go_what` are `go`, `visit_function` is
--     `VisitFunctionDecl`, `build_module` is the function of that name; `none` is a failed `assert`.
--   * Filter (include/Filter.hpp): what to keep of a declaration; the visitor asks one filter.
--   * Module (include/ModuleBuilder.hpp, end of src/ModuleBuilder.cpp) and SpecCollector
--     (include/SpecCollector.hpp): the lists and the comments that the visitor fills. Declarations
--     are named by the numbers of `Decl::getID()`.
--   * Stmt (src/PrintStmt.cpp) and PrintType (src/PrintType.cpp, end of src/ClangPrinter.cpp): the
--     printers of statements and of types, one clause for each `Visit…` method. They are routines of
--     type `Print A` that make calls of the formatter and return or abort.
--   * PrintExpr (src/PrintExpr.cpp): the printer of expressions. Visit and Objects have one routine for
--     each `Visit…` method, over the printers of the operands, which take the opaque names and return
--     them; Tree has the expressions and the visitor, Parts what the methods share, and Units the
--     bytes of string literals. Meaning has the terms; their constructors, and the units of string
--     literals, stand in Tables and Units/Decoded, apart from the tables and loops of the printer, as
--     those of the builtin types stand in PrintType/Kinds. Scope says what becomes of the names.
--   * PrintLocalDecl (src/PrintLocalDecl.cpp): the printer of local declarations, which hands the
--     opaque names on through the printers of expressions; the printer of statements calls it.
--     PrintLocalDecl/InStmt puts it and the printer of types in place of the parameters of Stmt.
--   * Composed: the printers of statements, local declarations, expressions and types call each other
--     as the methods of `ClangPrinter` do; its parameters, in the record `Context`, are the printers of
--     names and of the expressions in the types of expressions. Composed/WithNames takes those of
--     Names.
--   * Names (src/ClangPrinter.cpp): the printers of names of types, values, fields and parameters, which
--     mangle the names of types themselves.
--   * CommentScanner (include/CommentScanner.hpp): the scanner that cuts a block of text into comments.
--     What `StringRef::find` answers is the record `Block`, and `none` is `npos`.
--   * CoqPrinter (include/CoqPrinter.hpp): the operations for constructors, lists, options and tuples
--     that all printers use; `Print` is a list of calls with a result, or an abort.
--   * OpaqueNames (include/OpaqueNames.hpp): the numbers of array elements and of anonymous
--     declarations while an initialiser is printed.
--   * StringPrinter (src/StringPrettyPrinter.cpp): the automaton that prints a string literal with
--     bytes that Coq has no notation for. `none` is a failed `assert`.
--   * Formatter (include/Formatter.hpp, src/Formatter.cpp): `exec` is every `operator<<` and `run` a
--     list of calls, on the state of the class. Depth and spaces wrap at 2 ^ 32; `none` is the failed
--     `assert` of `outdent`.
--
-- Children named Words, Meaning and Level hold, for a printer, its words, the term that what it prints
-- stands for, and the depth that it restores. CoqPrinter/Terms has the terms and their syntax, and
-- StringPrinter/Reader reads the syntax of strings back. That reader takes fuel, eight steps for each
-- byte and nine more, which its theorem shows to be enough; the loop of CommentScanner takes as much as
-- the block has bytes, which is enough if all comments are ended. Nothing else needs fuel, since the
-- trees of clang are data and every routine recurses on them.
--
-- What clang answers (spellings, sizes, presumed locations, whether a type desugars) is part of the
-- data or a parameter. The printers of expressions are parameters of Stmt, PrintLocalDecl and
-- PrintType, and those of types and names are parameters of PrintExpr; Composed gives them. Types
-- and expressions contain each other only through sizes of arrays and the like; the printer of those
-- expressions that stand in the types of expressions stays a parameter. Not modelled are the
-- printer of declarations (src/PrintDecl.cpp), the writer of notations and the elaboration of implicit
-- members; nor are the block of comments before a declaration, the command line, the log, and
-- src/SpecWriter.cpp, which is disabled.
pub mod Prelude
pub mod Formatter
pub mod CoqPrinter
pub mod StringPrinter
pub mod Filter
pub mod Module
pub mod Names
pub mod CommentScanner
pub mod SpecCollector
pub mod ModuleBuilder
pub mod OpaqueNames
pub mod PrintExpr
pub mod Composed
pub mod PrintLocalDecl
pub mod PrintType
pub mod Stmt
pub mod Tests
