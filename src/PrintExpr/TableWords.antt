-- ===== src/PrintExpr/TableWords.antt =====
-- The tables of the printers agree with the constructors that the terms have.
use bri_ck.Prelude.{◌≡◌, refl, Bool, true, false, Text, not, ◌&&◌, ◌||◌, if◌then◌else◌}
use bri_ck.PrintExpr.{
  BinaryOp, AssignOp, Sequencing, CastKind, Trait, Printers, add, and, cmp, div, eq, ge, gt, le, lt,
  mul, ne, or, rem, shl, shr, sub, xor, ptr_mem_d, ptr_mem_i, add_assign, and_assign, div_assign,
  mul_assign, or_assign, rem_assign, shl_assign, shr_assign, sub_assign, xor_assign, comma,
  logical_and, logical_or, lvalue_to_rvalue, dependent, function_to_pointer, no_op, bit_cast,
  integral, integral_to_boolean, pointer_to_boolean, pointer_to_integral, integral_to_pointer,
  array_to_pointer, constructor, builtin_to_pointer, null_to_pointer, to_void, floating_to_integral,
  unsupported_cast, align_of, size_of, other_trait, o, t,
}
use bri_ck.PrintExpr.Parts.{
  binary_name, assign_name, sequencing_name, cast_name, dispatch_name, operator_dispatch,
  member_dispatch,
}
use bri_ck.PrintExpr.Objects.{trait_name}
use bri_ck.PrintExpr.Tables.{
  binary_ctor, applied, sequencing_ctor, cast_ctor, trait_ctor, result_done, is_automatic,
  member_call_ctor, operator_call_ctor, digits_of,
}

pub binary_name-ctor : (b : BinaryOp) → binary_name b ≡ binary_ctor b
unfolding binary_name binary_ctor
binary_name-ctor add = refl
binary_name-ctor and = refl
binary_name-ctor cmp = refl
binary_name-ctor div = refl
binary_name-ctor eq = refl
binary_name-ctor ge = refl
binary_name-ctor gt = refl
binary_name-ctor le = refl
binary_name-ctor lt = refl
binary_name-ctor mul = refl
binary_name-ctor ne = refl
binary_name-ctor or = refl
binary_name-ctor rem = refl
binary_name-ctor shl = refl
binary_name-ctor shr = refl
binary_name-ctor sub = refl
binary_name-ctor xor = refl
binary_name-ctor ptr_mem_d = refl
binary_name-ctor ptr_mem_i = refl

pub assign_name-ctor : (a : AssignOp) → assign_name a ≡ binary_ctor (applied a)
unfolding assign_name binary_ctor applied
assign_name-ctor add_assign = refl
assign_name-ctor and_assign = refl
assign_name-ctor div_assign = refl
assign_name-ctor mul_assign = refl
assign_name-ctor or_assign = refl
assign_name-ctor rem_assign = refl
assign_name-ctor shl_assign = refl
assign_name-ctor shr_assign = refl
assign_name-ctor sub_assign = refl
assign_name-ctor xor_assign = refl

pub sequencing_name-ctor : (op : Sequencing) → sequencing_name op ≡ sequencing_ctor op
unfolding sequencing_name sequencing_ctor
sequencing_name-ctor comma = refl
sequencing_name-ctor logical_and = refl
sequencing_name-ctor logical_or = refl

pub cast_name-ctor : (k : CastKind) → cast_name k ≡ cast_ctor k
unfolding cast_name cast_ctor
cast_name-ctor lvalue_to_rvalue = refl
cast_name-ctor dependent = refl
cast_name-ctor function_to_pointer = refl
cast_name-ctor no_op = refl
cast_name-ctor bit_cast = refl
cast_name-ctor integral = refl
cast_name-ctor integral_to_boolean = refl
cast_name-ctor pointer_to_boolean = refl
cast_name-ctor pointer_to_integral = refl
cast_name-ctor integral_to_pointer = refl
cast_name-ctor array_to_pointer = refl
cast_name-ctor constructor = refl
cast_name-ctor builtin_to_pointer = refl
cast_name-ctor null_to_pointer = refl
cast_name-ctor to_void = refl
cast_name-ctor floating_to_integral = refl
cast_name-ctor unsupported_cast = refl

pub trait_name-ctor :
    {T N : Type 0} (pr : Printers T N) (k : Trait) → trait_name pr k ≡ trait_ctor k
unfolding trait_name trait_ctor
trait_name-ctor pr align_of = refl
trait_name-ctor pr size_of = refl
trait_name-ctor pr other_trait = refl

pub if-result_done : (b : Bool) → (if b then o else t) ≡ result_done b
unfolding result_done
if-result_done true = refl
if-result_done false = refl

pub local-is_automatic : (a b c : Bool) → (a && not (b || c)) ≡ is_automatic a b c
unfolding is_automatic
local-is_automatic true true c = refl
local-is_automatic true false true = refl
local-is_automatic true false false = refl
local-is_automatic false b c = refl

pub member_dispatch-ctor : (q w : Bool) → dispatch_name (member_dispatch q w) ≡ member_call_ctor q w
unfolding dispatch_name member_dispatch member_call_ctor
member_dispatch-ctor true w = refl
member_dispatch-ctor false true = refl
member_dispatch-ctor false false = refl

pub operator_dispatch-ctor : (w : Bool) → dispatch_name (operator_dispatch w) ≡ operator_call_ctor w
unfolding dispatch_name operator_dispatch operator_call_ctor
operator_dispatch-ctor true = refl
operator_dispatch-ctor false = refl

pub if-digits_of : (b : Bool) (x y : Text) → (if b then x else y) ≡ digits_of b x y
unfolding digits_of
if-digits_of true x y = refl
if-digits_of false x y = refl
