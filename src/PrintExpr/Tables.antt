-- ===== src/PrintExpr/Tables.antt =====
-- The constructors of Coq that stand for the operators, casts and calls of C++, apart from the tables of
-- the printers.
use bri_ck.Prelude.{Bool, true, false, Option, none, some, String, Text}
use bri_ck.PrintExpr.{
  BinaryOp, AssignOp, Sequencing, CastKind, Trait, Done, add, and, cmp, div, eq, ge, gt, le, lt,
  mul, ne, or, rem, shl, shr, sub, xor, ptr_mem_d, ptr_mem_i, add_assign, and_assign, div_assign,
  mul_assign, or_assign, rem_assign, shl_assign, shr_assign, sub_assign, xor_assign, comma,
  logical_and, logical_or, lvalue_to_rvalue, dependent, function_to_pointer, no_op, bit_cast,
  integral, integral_to_boolean, pointer_to_boolean, pointer_to_integral, integral_to_pointer,
  array_to_pointer, constructor, builtin_to_pointer, null_to_pointer, to_void, floating_to_integral,
  unsupported_cast, align_of, size_of, other_trait, o, t,
}

unfoldable pub binary_ctor : BinaryOp → String
binary_ctor add = "Badd"
binary_ctor and = "Band"
binary_ctor cmp = "Bcmp"
binary_ctor div = "Bdiv"
binary_ctor eq = "Beq"
binary_ctor ge = "Bge"
binary_ctor gt = "Bgt"
binary_ctor le = "Ble"
binary_ctor lt = "Blt"
binary_ctor mul = "Bmul"
binary_ctor ne = "Bneq"
binary_ctor or = "Bor"
binary_ctor rem = "Bmod"
binary_ctor shl = "Bshl"
binary_ctor shr = "Bshr"
binary_ctor sub = "Bsub"
binary_ctor xor = "Bxor"
binary_ctor ptr_mem_d = "Bdotp"
binary_ctor ptr_mem_i = "Bdotip"

-- The operator that a compound assignment applies
unfoldable pub applied : AssignOp → BinaryOp
applied add_assign = add
applied and_assign = and
applied div_assign = div
applied mul_assign = mul
applied or_assign = or
applied rem_assign = rem
applied shl_assign = shl
applied shr_assign = shr
applied sub_assign = sub
applied xor_assign = xor

unfoldable pub sequencing_ctor : Sequencing → String
sequencing_ctor comma = "Ecomma"
sequencing_ctor logical_and = "Eseqand"
sequencing_ctor logical_or = "Eseqor"

unfoldable pub cast_ctor : CastKind → String
cast_ctor lvalue_to_rvalue = "Cl2r"
cast_ctor dependent = "Cdependent"
cast_ctor function_to_pointer = "Cfun2ptr"
cast_ctor no_op = "Cnoop"
cast_ctor bit_cast = "Cbitcast"
cast_ctor integral = "Cintegral"
cast_ctor integral_to_boolean = "Cint2bool"
cast_ctor pointer_to_boolean = "Cptr2bool"
cast_ctor pointer_to_integral = "Cptr2int"
cast_ctor integral_to_pointer = "Cint2ptr"
cast_ctor array_to_pointer = "Carray2ptr"
cast_ctor constructor = "Cctor"
cast_ctor builtin_to_pointer = "Cbuiltin2fun"
cast_ctor null_to_pointer = "Cnull2ptr"
cast_ctor to_void = "C2void"
cast_ctor floating_to_integral = "Cfloat2int"
cast_ctor unsupported_cast = "Cunsupported"

-- The other traits have none.
unfoldable pub trait_ctor : Trait → Option String
trait_ctor size_of = some "Esize_of"
trait_ctor align_of = some "Ealign_of"
trait_ctor other_trait = none

-- What ends a term whose type a template may not know.
unfoldable pub result_done : Bool → Done
result_done true = o
result_done false = t

-- Whether a variable has automatic storage: it is declared in a function, and neither a function nor
-- static.
unfoldable pub is_automatic : Bool → Bool → Bool → Bool
is_automatic true false false = true
is_automatic true false true = false
is_automatic true true is_static = false
is_automatic false is_function is_static = false

-- How a method is called, with or without a qualifier: only an unqualified virtual one is looked up.
unfoldable pub member_call_ctor : Bool → Bool → String
member_call_ctor true is_virtual = "Direct"
member_call_ctor false true = "Virtual"
member_call_ctor false false = "Direct"

unfoldable pub operator_call_ctor : Bool → String
operator_call_ctor true = "Virtual"
operator_call_ctor false = "Direct"

-- The digits of an integer of a signed type, or of an unsigned one
unfoldable pub digits_of : Bool → Text → Text → Text
digits_of true signed unsigned = signed
digits_of false signed unsigned = unsigned

-- The category of an expression that is an lvalue, a prvalue or an xvalue
unfoldable pub category : Bool → Bool → Bool → Option String
category true is_prvalue is_xvalue = some "Lvalue"
category false true is_xvalue = some "Prvalue"
category false false true = some "Xvalue"
category false false false = none

-- The same for the answers of the classification, in which xvalues are asked for first.
unfoldable pub class_category : Bool → Bool → Bool → Option String
class_category true is_xvalue is_prvalue = some "Lvalue"
class_category false true is_prvalue = some "Xvalue"
class_category false false true = some "Prvalue"
class_category false false false = none
