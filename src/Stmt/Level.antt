-- ===== src/Stmt/Level.antt =====
-- Printing a statement restores the depth of the formatter, which `printStmt` asserts.
use bri_ck.Prelude.{suc, ◌≡◌, Bool, Option, none, some, Text, codes}
use bri_ck.Formatter.{Doc}
use bri_ck.Formatter.Depth.{IsBalanced}
use bri_ck.CoqPrinter.{Print, done, option, str}
use bri_ck.CoqPrinter.Moves.{
  ◌then◌, IsLevel, Moves->>=, Moves-pure, Moves-str, Moves-ctor, Moves-ctor_inline, Moves-some,
  Moves-none, Moves-end, Moves-begin_list, Moves-end_list, Moves-out, Moves-space, Moves-apsint,
  Moves-cons, Moves-begin_tuple, Moves-end_tuple, Moves-next_tuple, Moves-boolean, stops,
  items-IsLevel, items_filter-IsLevel, option-IsLevel, IsLevel-IsBalanced,
}
use bri_ck.Stmt.{
  Stmt, OptStmt, Stmts, Operand, Asm, decl_stmt, while_stmt, for_stmt, for_range, do_stmt,
  break_stmt, continue_stmt, if_stmt, case_stmt, default_stmt, switch_stmt, expr_stmt, return_stmt,
  compound, null_stmt, gcc_asm, attributed, label, goto, try_stmt, unsupported, null, this, nil,
  cons, print_variable, print_operand, print_case, print_asm, print_return, print_stmt, print_init,
  print_else, print_default, print_stmts,
}

module _ {E D : Type 0} (print_expr : E → Print (Unit {0})) (print_local : D → Print Bool)
    (expr_level : (e : E) → IsLevel (print_expr e))
    (local_level : (d : D) → IsLevel (print_local d)) where
  variable-IsLevel : (d : D) → IsLevel (print_variable print_expr print_local d)
  unfolding print_variable
  variable-IsLevel d i = Moves->>= (local_level d i) λ b. Moves-pure

  operand-IsLevel : (o : Operand E) → IsLevel (print_operand print_expr print_local o)
  unfolding print_operand
  operand-IsLevel o i =
      Moves-begin_tuple
      then Moves-str o.constraint
      then Moves-next_tuple
      then expr_level o.operand i
      then Moves-end_tuple

  case-IsLevel :
      (lhs : Text) (rhs : Option Text) → IsLevel (print_case print_expr print_local lhs rhs)
  unfolding print_case
  case-IsLevel lhs (some rhs) i =
      Moves-ctor_inline "Range"
      then Moves-out "("
      then Moves-apsint lhs
      then Moves-out ")%Z"
      then Moves-space
      then Moves-out "("
      then Moves-apsint rhs
      then Moves-out ")%Z"
      then Moves-end
  case-IsLevel lhs none i =
      Moves-ctor_inline "Exact"
      then Moves-out "("
      then Moves-apsint lhs
      then Moves-out ")%Z"
      then Moves-end

  return-IsLevel : (e : Option E) → IsLevel (print_return print_expr print_local e)
  unfolding print_return
  return-IsLevel (some e) i = Moves-ctor "Sreturn_val" then expr_level e (suc i) then Moves-end
  return-IsLevel none i = Moves-out "Sreturn_void"

  asm-IsLevel : (a : Asm E) → IsLevel (print_asm print_expr print_local a)
  unfolding print_asm
  asm-IsLevel a i =
      Moves-ctor "Sasm"
      then Moves-str a.asm_string
      then Moves-space
      then Moves-boolean a.is_volatile
      then Moves-space
      then Moves-begin_list
      then items-IsLevel (print_operand print_expr print_local) operand-IsLevel a.inputs
          (suc (suc i))
      then Moves-end_list
      then Moves-begin_list
      then items-IsLevel (print_operand print_expr print_local) operand-IsLevel a.outputs
          (suc (suc i))
      then Moves-end_list
      then Moves-begin_list
      then items-IsLevel str (λ t _. Moves-str t) a.clobbers (suc (suc i))
      then Moves-end_list
      then Moves-end

  option_variable-IsLevel :
      (v : Option D) → IsLevel (option (print_variable print_expr print_local) v)
  option_variable-IsLevel = option-IsLevel (print_variable print_expr print_local) variable-IsLevel

  option_expr-IsLevel : (c : Option E) → IsLevel (option print_expr c)
  option_expr-IsLevel = option-IsLevel print_expr expr_level

  mutual
    unfolding print_stmt

    stmt-IsLevel : (s : Stmt E D) → IsLevel (print_stmt print_expr print_local s)
    stmt-IsLevel (decl_stmt ds) i =
        Moves-ctor "Sdecl"
        then Moves-begin_list
        then items_filter-IsLevel print_local local_level ds (suc (suc i))
        then Moves-end_list
        then Moves-end
    stmt-IsLevel (while_stmt v c body) i =
        Moves-ctor "Swhile"
        then option_variable-IsLevel v (suc i)
        then Moves-space
        then expr_level c (suc i)
        then Moves-space
        then stmt-IsLevel body (suc i)
        then Moves-end
    stmt-IsLevel (for_stmt init c inc body) i =
        Moves-ctor "Sfor"
        then init-IsLevel init (suc i)
        then Moves-space
        then option_expr-IsLevel c (suc i)
        then Moves-space
        then option_expr-IsLevel inc (suc i)
        then Moves-space
        then stmt-IsLevel body (suc i)
        then Moves-end
    stmt-IsLevel (for_range range begin end init c inc var body) i =
        Moves-ctor "Sforeach"
        then stmt-IsLevel range (suc i)
        then Moves-space
        then stmt-IsLevel begin (suc i)
        then Moves-space
        then stmt-IsLevel end (suc i)
        then Moves-space
        then init-IsLevel init (suc i)
        then Moves-space
        then option_expr-IsLevel c (suc i)
        then Moves-space
        then option_expr-IsLevel inc (suc i)
        then Moves-space
        then stmt-IsLevel var (suc i)
        then Moves-space
        then stmt-IsLevel body (suc i)
        then Moves-end
    stmt-IsLevel (do_stmt body c) i =
        Moves-ctor "Sdo"
        then stmt-IsLevel body (suc i)
        then Moves-space
        then expr_level c (suc i)
        then Moves-end
    stmt-IsLevel break_stmt i = Moves-out "Sbreak"
    stmt-IsLevel continue_stmt i = Moves-out "Scontinue"
    stmt-IsLevel (if_stmt v c t e) i =
        Moves-ctor "Sif"
        then option_variable-IsLevel v (suc i)
        then Moves-space
        then expr_level c (suc i)
        then Moves-space
        then stmt-IsLevel t (suc i)
        then Moves-space
        then else-IsLevel e (suc i)
        then Moves-end
    stmt-IsLevel (case_stmt lhs rhs sub) i =
        Moves-ctor "Scase"
        then case-IsLevel lhs rhs (suc i)
        then Moves-end
        then Moves-cons
        then stmt-IsLevel sub i
    stmt-IsLevel (default_stmt sub) i = Moves-out "Sdefault" then default-IsLevel sub i
    stmt-IsLevel (switch_stmt v c body) i =
        Moves-ctor "Sswitch"
        then option_variable-IsLevel v (suc i)
        then expr_level c (suc i)
        then stmt-IsLevel body (suc i)
        then Moves-end
    stmt-IsLevel (expr_stmt e) i = Moves-ctor "Sexpr" then expr_level e (suc i) then Moves-end
    stmt-IsLevel (return_stmt e) i = return-IsLevel e i
    stmt-IsLevel (compound ss) i =
        Moves-ctor "Sseq"
        then Moves-begin_list
        then stmts-IsLevel ss (suc (suc i))
        then Moves-end_list
        then Moves-end
    stmt-IsLevel null_stmt i = Moves-out "Sskip"
    stmt-IsLevel (gcc_asm a) i = asm-IsLevel a i
    stmt-IsLevel (attributed as_ s) i =
        Moves-ctor "Sattr"
        then Moves-begin_list
        then items-IsLevel str (λ t _. Moves-str t) as_ (suc (suc i))
        then Moves-end_list
        then stmt-IsLevel s (suc i)
        then Moves-end
    stmt-IsLevel (label l s) i =
        Moves-ctor "Slabeled"
        then Moves-str l
        then Moves-space
        then stmt-IsLevel s (suc i)
        then Moves-end
    stmt-IsLevel (goto l) i = Moves-ctor "Sgoto" then Moves-str l then Moves-end
    stmt-IsLevel try_stmt i = Moves-ctor "Sunsupported" then Moves-str (codes "try") then Moves-end
    stmt-IsLevel unsupported i = stops

    init-IsLevel : (s : OptStmt E D) → IsLevel (print_init print_expr print_local s)
    init-IsLevel null i = Moves-none
    init-IsLevel (this s) i = Moves-some then stmt-IsLevel s (suc i) then Moves-end

    else-IsLevel : (s : OptStmt E D) → IsLevel (print_else print_expr print_local s)
    else-IsLevel null i = Moves-out "Sskip"
    else-IsLevel (this s) i = stmt-IsLevel s i

    default-IsLevel : (s : OptStmt E D) → IsLevel (print_default print_expr print_local s)
    default-IsLevel null i = Moves-pure
    default-IsLevel (this s) i = Moves-cons then stmt-IsLevel s i

    stmts-IsLevel : (ss : Stmts E D) → IsLevel (print_stmts print_expr print_local ss)
    stmts-IsLevel nil i = Moves-pure
    stmts-IsLevel (cons s ss) i = stmt-IsLevel s i then Moves-cons then stmts-IsLevel ss i

  -- If the printers of expressions and of local declarations end at the depth at which they start,
  -- at every depth or with an abort, then what the printer of statements sends, unless it aborts, is
  -- balanced.
  pub print_stmt-IsBalanced :
      (s : Stmt E D) (d : Doc) → print_stmt print_expr print_local s ≡ done tt d → IsBalanced d
  print_stmt-IsBalanced s d h =
      IsLevel-IsBalanced (print_stmt print_expr print_local s) tt d (stmt-IsLevel s) h
