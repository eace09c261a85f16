-- ===== src/PrintExpr.antt =====
-- src/PrintExpr.cpp: expressions as Coq terms of type `Expr`. An expression of clang is modelled by what
-- the printer asks it, over types `T` and declarations `N`, which other parts print. Spellings and
-- numbers that clang gives are texts. This file has the data, and the printers that the visitor calls.
pub mod Units
pub mod Parts
pub mod Visit
pub mod Objects
pub mod Tree
pub mod Tables
pub mod Terms
pub mod Meaning
pub mod TableWords
pub mod PartWords
pub mod Words
pub mod PartLevel
pub mod Level
pub mod Scope
use bri_ck.Prelude.{ℕ, Bool, Option, Text}
use bri_ck.OpaqueNames.{ℤ}
use bri_ck.CoqPrinter.{Print}

-- What clang answers for the value category of an expression; none of the three is an error.
pub record ValCat : Type 0 where
  pub is_lvalue : Bool
  pub is_xvalue : Bool
  pub is_prvalue : Bool

-- What every expression has: its type, its value category, as the expression has it and as
-- `Classify` answers, and the name of its class.
pub record Info (T : Type 0) : Type 0 where
  pub type : T
  pub val_cat : ValCat
  pub classified : ValCat
  pub class_name : Text

-- Which of them `done` prints.
pub data Done : Type 0 where
  v : Done
  t : Done
  o : Done
  vt : Done

-- A declaration of a value that is referred to, with the number that identifies it.
pub record Var (N : Type 0) : Type 0 where
  pub number : ℕ
  pub named : N
  pub name : Text
  pub is_in_function : Bool
  pub is_function : Bool
  pub is_static_local : Bool
  pub is_param : Bool

pub data BinaryOp : Type 0 where
  add : BinaryOp
  and : BinaryOp
  cmp : BinaryOp
  div : BinaryOp
  eq : BinaryOp
  ge : BinaryOp
  gt : BinaryOp
  le : BinaryOp
  lt : BinaryOp
  mul : BinaryOp
  ne : BinaryOp
  or : BinaryOp
  rem : BinaryOp
  shl : BinaryOp
  shr : BinaryOp
  sub : BinaryOp
  xor : BinaryOp
  ptr_mem_d : BinaryOp
  ptr_mem_i : BinaryOp

pub data AssignOp : Type 0 where
  add_assign : AssignOp
  and_assign : AssignOp
  div_assign : AssignOp
  mul_assign : AssignOp
  or_assign : AssignOp
  rem_assign : AssignOp
  shl_assign : AssignOp
  shr_assign : AssignOp
  sub_assign : AssignOp
  xor_assign : AssignOp

-- The operators that print their operands with the opaque names.
pub data Operator : Type 0 where
  assign : Operator
  compound : AssignOp → Operator
  simple : BinaryOp → Operator
  unsupported_op : Text → Operator

-- The operators `,`, `&&` and `||`
pub data Sequencing : Type 0 where
  comma : Sequencing
  logical_and : Sequencing
  logical_or : Sequencing

pub data UnaryOp : Type 0 where
  deref : UnaryOp
  post_inc : UnaryOp
  pre_inc : UnaryOp
  post_dec : UnaryOp
  pre_dec : UnaryOp
  plus : UnaryOp
  minus : UnaryOp
  bit_not : UnaryOp
  logical_not : UnaryOp
  unsupported_unary : Text → UnaryOp

-- The kinds of casts that print a word.
pub data CastKind : Type 0 where
  lvalue_to_rvalue : CastKind
  dependent : CastKind
  function_to_pointer : CastKind
  no_op : CastKind
  bit_cast : CastKind
  integral : CastKind
  integral_to_boolean : CastKind
  pointer_to_boolean : CastKind
  pointer_to_integral : CastKind
  integral_to_pointer : CastKind
  array_to_pointer : CastKind
  constructor : CastKind
  builtin_to_pointer : CastKind
  null_to_pointer : CastKind
  to_void : CastKind
  floating_to_integral : CastKind
  unsupported_cast : CastKind

-- What a call is directed at.
pub data Dispatch : Type 0 where
  direct : Dispatch
  virtual : Dispatch

-- `sizeof` and `alignof`; other traits are an error.
pub data Trait : Type 0 where
  align_of : Trait
  size_of : Trait
  other_trait : Trait

-- The other printers that an expression needs.
pub record Printers (T N : Type 0) : Type 0 where
  pub templates : Bool
  pub big_endian : Bool
  pub print_type : T → Print (Unit {0})
  pub print_type_option : T → Print (Unit {0})
  pub print_obj_name : N → Print (Unit {0})
  pub print_type_name : N → Print (Unit {0})
  pub print_field : N → Print (Unit {0})
  pub print_param_name : N → Print (Unit {0})
  pub decimal : ℤ → Text
