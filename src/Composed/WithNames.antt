-- ===== src/Composed/WithNames.antt =====
-- The body of a function with the printers of names of src/ClangPrinter.cpp in place.
use bri_ck.Prelude.{◌≡◌, Bool, Text}
use bri_ck.Formatter.{Doc}
use bri_ck.Formatter.Depth.{IsBalanced}
use bri_ck.OpaqueNames.{ℤ, pos}
use bri_ck.CoqPrinter.{Print, done}
use bri_ck.CoqPrinter.Moves.{IsLevel}
use bri_ck.PrintType.{ClangType}
use bri_ck.Names.{
  TypeDecl, ValueDecl, Member, Param, print_type_name, print_obj_name, print_field,
  print_param_name,
}
use bri_ck.Names.Level.{type_name-IsLevel, obj_name-IsLevel, field-IsLevel, param_name-IsLevel}
use bri_ck.Composed.{Context, Body, print_body}
use bri_ck.Composed.Level.{print_body-IsBalanced}

-- A declaration, by what the printers of names see in it.
pub record Named : Type 0 where
  pub as_type : TypeDecl
  pub as_value : ValueDecl
  pub as_member : Member
  pub as_param : Param

module _ {V : Type 0} (templates thread_safe big_endian : Bool)
    (is_dependent : ClangType V Named → Bool) (decimal : ℤ → Text)
    (print_size : V → Print (Unit {0})) where
  abbrev pub with_names : Context V Named
  with_names = record {
    templates = templates;
    thread_safe = thread_safe;
    big_endian = big_endian;
    is_dependent = is_dependent;
    decimal = decimal;
    print_size = print_size;
    print_type_name = λ d. print_type_name (λ n. decimal (pos n)) d.as_type;
    print_obj_name = λ d. print_obj_name (λ n. decimal (pos n)) d.as_value;
    print_field = λ d. print_field (λ n. decimal (pos n)) d.as_member;
    print_param_name = λ d. print_param_name (λ n. decimal (pos n)) d.as_param;
  }

  -- If the printer of the expressions in the types of expressions ends at the depth at which it starts,
  -- at every depth or with an abort, then what is printed for the body of a function, with all its
  -- names, is balanced, unless an abort ends it.
  pub print_body-with_names :
      ((e : V) → IsLevel (print_size e))
      → (b : Body V Named) (d : Doc) → print_body with_names b ≡ done tt d
      → IsBalanced d
  print_body-with_names size_level = print_body-IsBalanced with_names (record {
    size_level = size_level;
    class_level = λ d. type_name-IsLevel (λ n. decimal (pos n)) d.as_type;
    obj_level = λ d. obj_name-IsLevel (λ n. decimal (pos n)) d.as_value;
    field_level = λ d. field-IsLevel (λ n. decimal (pos n)) d.as_member;
    param_level = λ d. param_name-IsLevel (λ n. decimal (pos n)) d.as_param;
  })
