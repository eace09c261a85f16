-- ===== src/Composed/Level.antt =====
-- The printers together restore the depth of the formatter.
use bri_ck.Prelude.{suc, ◌≡◌}
use bri_ck.Formatter.{Doc}
use bri_ck.Formatter.Depth.{IsBalanced}
use bri_ck.CoqPrinter.{done}
use bri_ck.CoqPrinter.Moves.{IsLevel, Moves-if, Moves-some, Moves-none, Moves-end, ◌then◌}
use bri_ck.PrintType.{QualType, null, qual, print_qual_type_option}
use bri_ck.PrintType.Level.{qual-IsLevel}
use bri_ck.PrintExpr.PartLevel.{AreLevel}
use bri_ck.PrintExpr.Level.Tree.{expr-Level}
use bri_ck.PrintLocalDecl.InStmt.{print_statement-IsBalanced}
use bri_ck.Composed.{Context, printers, print_body, Body}

-- The other parts restore the depth.
pub record PartsLevel {V N : Type 0} (c : Context V N) : Type 0 where
  pub size_level : (e : V) → IsLevel (c.print_size e)
  pub class_level : (d : N) → IsLevel (c.print_type_name d)
  pub obj_level : (d : N) → IsLevel (c.print_obj_name d)
  pub field_level : (d : N) → IsLevel (c.print_field d)
  pub param_level : (d : N) → IsLevel (c.print_param_name d)

module _ {V N : Type 0} (c : Context V N) (h : PartsLevel c) where
  type-IsLevel : (t : QualType V N) → IsLevel ((printers c).print_type t)
  type-IsLevel = qual-IsLevel c.templates c.print_size c.print_type_name h.size_level h.class_level

  type_option-IsLevel : (t : QualType V N) → IsLevel ((printers c).print_type_option t)
  unfolding print_qual_type_option
  type_option-IsLevel null i = Moves-none
  type_option-IsLevel (qual q t) i =
      Moves-if (c.is_dependent t) Moves-none
        (Moves-some then type-IsLevel (qual q t) (suc i) then Moves-end)

  printers-AreLevel : AreLevel (printers c)
  printers-AreLevel = record {
    type_level = type-IsLevel;
    option_level = type_option-IsLevel;
    obj_level = h.obj_level;
    class_level = h.class_level;
    field_level = h.field_level;
    param_level = h.param_level;
  }

  -- If the printers of names, and of the expressions in the types of expressions, end at the depth at
  -- which they start, at every depth or with an abort, then what is printed for the body of a function
  -- is balanced, unless an abort ends it.
  pub print_body-IsBalanced : (b : Body V N) (d : Doc) → print_body c b ≡ done tt d → IsBalanced d
  print_body-IsBalanced =
      print_statement-IsBalanced c.templates c.thread_safe _ _ c.print_type_name c.print_obj_name
        (λ e. (expr-Level (printers c) printers-AreLevel e).level) h.class_level h.obj_level
