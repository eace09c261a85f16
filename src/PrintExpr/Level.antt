-- ===== src/PrintExpr/Level.antt =====
-- The visitor of src/PrintExpr.cpp restores the depth of the formatter, which `printExpr` checks.
pub mod Visit
pub mod Objects
pub mod Tree
use bri_ck.OpaqueNames.{OpaqueNames, no_names}
use bri_ck.CoqPrinter.Moves.{IsLevel, Moves->>=, Moves-pure}
use bri_ck.PrintExpr.Visit.{P, alone}

-- A printer of an operand that restores the depth.
pub record Level (p : P) : Type 0 where
  pub level : (s : OpaqueNames) → IsLevel (p s)

pub alone-IsLevel : {p : P} → Level p → IsLevel (alone p)
unfolding alone
alone-IsLevel h i = Moves->>= (h.level no_names i) λ s. Moves-pure
