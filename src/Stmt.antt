-- ===== src/Stmt.antt =====
-- src/PrintStmt.cpp: statements as Coq terms of type `Stmt`. A statement of clang is modelled by what
-- the printer asks it, over expressions `E` and the declarations `D` of local variables, which other
-- parts print. What clang evaluates or spells (constants, names, attributes) is given as text.
pub mod Meaning
pub mod Words
pub mod Level
use bri_ck.Prelude.{codes, ℕ, Bool, true, false, Option, none, some, List, [], ◌∷◌, Text}
use bri_ck.CoqPrinter.{
  Print, ◌>>=◌, ◌>>◌, aborts, out, space, ctor, ctor_inline, end_ctor, print_some, print_none, str,
  boolean, apsint, begin_list, end_list, print_cons, begin_tuple, end_tuple, next_tuple, items,
  items_filter, option,
}

-- An operand of an inline assembly statement: its constraint and its expression.
pub record Operand (E : Type 0) : Type 0 where
  pub constraint : Text
  pub operand : E

pub record Asm (E : Type 0) : Type 0 where
  pub asm_string : Text
  pub is_volatile : Bool
  pub inputs : List (Operand E)
  pub outputs : List (Operand E)
  pub clobbers : List Text

-- `OptStmt` is a pointer to a statement that may be null.
mutual
  pub data Stmt (E D : Type 0) : Type 0 where
    decl_stmt : List D → Stmt E D
    while_stmt : Option D → E → Stmt E D → Stmt E D
    for_stmt : OptStmt E D → Option E → Option E → Stmt E D → Stmt E D
    -- range, begin, end, init, condition, increment, loop variable, body
    for_range :
        Stmt E D
        → Stmt E D
        → Stmt E D
        → OptStmt E D
        → Option E
        → Option E
        → Stmt E D
        → Stmt E D
        → Stmt E D
    do_stmt : Stmt E D → E → Stmt E D
    break_stmt : Stmt E D
    continue_stmt : Stmt E D
    if_stmt : Option D → E → Stmt E D → OptStmt E D → Stmt E D
    case_stmt : Text → Option Text → Stmt E D → Stmt E D
    default_stmt : OptStmt E D → Stmt E D
    switch_stmt : Option D → E → Stmt E D → Stmt E D
    expr_stmt : E → Stmt E D
    return_stmt : Option E → Stmt E D
    compound : Stmts E D → Stmt E D
    null_stmt : Stmt E D
    gcc_asm : Asm E → Stmt E D
    attributed : List Text → Stmt E D → Stmt E D
    label : Text → Stmt E D → Stmt E D
    goto : Text → Stmt E D
    try_stmt : Stmt E D
    unsupported : Stmt E D

  pub data OptStmt (E D : Type 0) : Type 0 where
    null : OptStmt E D
    this : Stmt E D → OptStmt E D

  pub data Stmts (E D : Type 0) : Type 0 where
    nil : Stmts E D
    cons : Stmt E D → Stmts E D → Stmts E D

module _ {E D : Type 0} (print_expr : E → Print (Unit {0})) (print_local : D → Print Bool) where
  -- `printLocalDecl`, its result not used.
  unfoldable pub print_variable : D → Print (Unit {0})
  print_variable d = print_local d >>= λ _. Print.done tt []

  unfoldable pub print_operand : Operand E → Print (Unit {0})
  print_operand o = do begin_tuple; str o.constraint; next_tuple; print_expr o.operand; end_tuple

  -- The range or the value of a `case`.
  unfoldable pub print_case : Text → Option Text → Print (Unit {0})
  print_case lhs (some rhs) = do
    ctor_inline "Range"
    out "("
    apsint lhs
    out ")%Z"
    space
    out "("
    apsint rhs
    out ")%Z"
    end_ctor
  print_case lhs none = do ctor_inline "Exact"; out "("; apsint lhs; out ")%Z"; end_ctor

  unfoldable pub print_asm : Asm E → Print (Unit {0})
  unfolding print_operand
  print_asm a = do
    ctor "Sasm"
    str a.asm_string
    space
    boolean a.is_volatile
    space
    begin_list
    items print_operand a.inputs
    end_list
    begin_list
    items print_operand a.outputs
    end_list
    begin_list
    items str a.clobbers
    end_list
    end_ctor

  unfoldable pub print_return : Option E → Print (Unit {0})
  print_return (some e) = do ctor "Sreturn_val"; print_expr e; end_ctor
  print_return none = out "Sreturn_void"

  unfoldable mutual
    unfolding print_variable print_case print_asm print_return

    pub print_stmt : Stmt E D → Print (Unit {0})
    print_stmt (decl_stmt ds) = do
      ctor "Sdecl"
      begin_list
      items_filter print_local ds
      end_list
      end_ctor
    print_stmt (while_stmt v c body) = do
      ctor "Swhile"
      option print_variable v
      space
      print_expr c
      space
      print_stmt body
      end_ctor
    print_stmt (for_stmt init c inc body) = do
      ctor "Sfor"
      print_init init
      space
      option print_expr c
      space
      option print_expr inc
      space
      print_stmt body
      end_ctor
    print_stmt (for_range range begin end init c inc var body) = do
      ctor "Sforeach"
      print_stmt range
      space
      print_stmt begin
      space
      print_stmt end
      space
      print_init init
      space
      option print_expr c
      space
      option print_expr inc
      space
      print_stmt var
      space
      print_stmt body
      end_ctor
    print_stmt (do_stmt body c) = do ctor "Sdo"; print_stmt body; space; print_expr c; end_ctor
    print_stmt break_stmt = out "Sbreak"
    print_stmt continue_stmt = out "Scontinue"
    print_stmt (if_stmt v c then_ else_) = do
      ctor "Sif"
      option print_variable v
      space
      print_expr c
      space
      print_stmt then_
      space
      print_else else_
      end_ctor
    print_stmt (case_stmt lhs rhs sub) = do
      ctor "Scase"
      print_case lhs rhs
      end_ctor
      print_cons
      print_stmt sub
    print_stmt (default_stmt sub) = do out "Sdefault"; print_default sub
    print_stmt (switch_stmt v c body) = do
      ctor "Sswitch"
      option print_variable v
      print_expr c
      print_stmt body
      end_ctor
    print_stmt (expr_stmt e) = do ctor "Sexpr"; print_expr e; end_ctor
    print_stmt (return_stmt e) = print_return e
    print_stmt (compound ss) = do ctor "Sseq"; begin_list; print_stmts ss; end_list; end_ctor
    print_stmt null_stmt = out "Sskip"
    print_stmt (gcc_asm a) = print_asm a
    print_stmt (attributed as_ s) = do
      ctor "Sattr"
      begin_list
      items str as_
      end_list
      print_stmt s
      end_ctor
    print_stmt (label l s) = do ctor "Slabeled"; str l; space; print_stmt s; end_ctor
    print_stmt (goto l) = do ctor "Sgoto"; str l; end_ctor
    print_stmt try_stmt = do ctor "Sunsupported"; str (codes "try"); end_ctor
    print_stmt unsupported = aborts

    -- The initialisation of a `for`, which may be missing.
    pub print_init : OptStmt E D → Print (Unit {0})
    print_init null = print_none
    print_init (this s) = do print_some; print_stmt s; end_ctor

    pub print_else : OptStmt E D → Print (Unit {0})
    print_else null = out "Sskip"
    print_else (this s) = print_stmt s

    pub print_default : OptStmt E D → Print (Unit {0})
    print_default null = Print.done tt []
    print_default (this s) = do print_cons; print_stmt s

    pub print_stmts : Stmts E D → Print (Unit {0})
    print_stmts nil = Print.done tt []
    print_stmts (cons s ss) = do print_stmt s; print_cons; print_stmts ss
