-- ===== src/PrintType.antt =====
-- src/PrintType.cpp and the end of src/ClangPrinter.cpp: types as Coq terms. A type of clang is
-- modelled by what the printer asks it, over expressions `E` and declarations `N` that have a type
-- name, which other parts print. Spellings and sizes that clang gives are texts.
pub mod Kinds
pub mod Meaning
pub mod Words
pub mod Level
pub mod Sugar
use bri_ck.Prelude.{
  Bool, true, false, Option, none, some, Text, String, codes, [], if◌then◌else◌, not, ◌&&◌, ◌||◌,
}
use bri_ck.CoqPrinter.{
  Print, ◌>>=◌, ◌>>◌, aborts, out, arch, space, ctor, ctor_inline, end_ctor, print_some, print_none,
  str, digits, begin_list, end_list, print_cons,
}

-- include/config.hpp
abbrev pub print_alias : Bool
print_alias = false

pub data CallingConv : Type 0 where
  cc_c : CallingConv
  cc_x86_reg_call : CallingConv
  cc_win64 : CallingConv
  cc_other : CallingConv

-- The kinds of builtin types that have a name of their own.
pub data Kind : Type 0 where
  bool : Kind
  void : Kind
  null_ptr : Kind
  schar : Kind
  uchar : Kind
  char_s : Kind
  char_u : Kind
  wchar_s : Kind
  wchar_u : Kind
  char16 : Kind
  char32 : Kind
  char8 : Kind
  short : Kind
  ushort : Kind
  int : Kind
  uint : Kind
  long : Kind
  ulong : Kind
  long_long : Kind
  ulong_long : Kind
  int128 : Kind
  uint128 : Kind
  float : Kind
  double : Kind
  long_double : Kind

-- What the printer asks a builtin type of another kind.
pub record Builtin : Type 0 where
  pub is_dependent_kind : Bool  -- BuiltinType::Kind::Dependent
  pub is_character : Bool
  pub is_floating_point : Bool
  pub is_integer : Bool
  pub is_sizeless : Bool
  pub is_dependent : Bool
  pub name : Text
  pub class_name : Text

pub record Qualifiers : Type 0 where
  pub is_local_const : Bool
  pub is_volatile : Bool
  pub is_local_volatile : Bool

-- A sugared type comes with what it desugars to, and one that is not with nothing. The text is the
-- name of the type's class.
mutual
  pub data ClangType (E N : Type 0) : Type 0 where
    other : Text → ClangType E N
    attributed : QualType E N → ClangType E N
    enum_underlying : QualType E N → QualType E N → ClangType E N
    unary_transform : Text → ClangType E N
    deduced : Text → OptType E N → ClangType E N
    template_parm : Text → ClangType E N
    enum : N → ClangType E N
    record_ : N → ClangType E N
    paren : QualType E N → ClangType E N
    known : Kind → ClangType E N
    builtin : Builtin → ClangType E N
    lvalue_reference : QualType E N → ClangType E N
    rvalue_reference : QualType E N → ClangType E N
    pointer : QualType E N → ClangType E N
    typedef : N → QualType E N → ClangType E N
    function_proto : CallingConv → Bool → QualType E N → QualTypes E N → ClangType E N
    elaborated : QualType E N → ClangType E N
    constant_array : QualType E N → Text → ClangType E N
    subst_template_parm : QualType E N → ClangType E N
    incomplete_array : QualType E N → ClangType E N
    variable_array : QualType E N → E → ClangType E N
    decayed : QualType E N → QualType E N → ClangType E N
    template_specialization : Text → OptType E N → ClangType E N
    decltype : Text → OptType E N → QualType E N → ClangType E N
    typeof_expr : Text → OptType E N → QualType E N → ClangType E N
    injected_class_name : Option N → QualType E N → ClangType E N
    member_pointer : N → ClangType E N → QualType E N → ClangType E N
    macro_qualified : QualType E N → ClangType E N
    using_type : OptType E N → ClangType E N

  pub data QualType (E N : Type 0) : Type 0 where
    null : QualType E N
    qual : Qualifiers → ClangType E N → QualType E N

  pub data OptType (E N : Type 0) : Type 0 where
    plain : OptType E N
    sugar : QualType E N → OptType E N

  pub data QualTypes (E N : Type 0) : Type 0 where
    nil : QualTypes E N
    cons : QualType E N → QualTypes E N → QualTypes E N

unfoldable pub print_calling_conv : CallingConv → Print (Unit {0})
print_calling_conv cc_c = out "CC_C"
print_calling_conv cc_x86_reg_call = out "CC_RegCall"
print_calling_conv cc_win64 = out "CC_MsAbi"
print_calling_conv cc_other = aborts

unfoldable pub print_variadic : Bool → Print (Unit {0})
print_variadic true = out "Ar_Variadic"
print_variadic false = out "Ar_Definite"

unfoldable pub print_qualifier : Bool → Bool → Print (Unit {0})
print_qualifier true true = out "QCV"
print_qualifier true false = out "QC"
print_qualifier false true = out "QV"
print_qualifier false false = out "QM"

unfoldable pub unsupported_type : Text → Print (Unit {0})
unsupported_type name = do ctor_inline "Tunsupported"; str name; end_ctor

unfoldable pub kind_name : Kind → String
kind_name bool = "Tbool"
kind_name void = "Tvoid"
kind_name null_ptr = "Tnullptr"
kind_name schar = "Tschar"
kind_name uchar = "Tuchar"
kind_name char_s = "Tchar"
kind_name char_u = "Tchar"
kind_name wchar_s = "Twchar"
kind_name wchar_u = "Twchar"
kind_name char16 = "Tchar16"
kind_name char32 = "Tchar32"
kind_name char8 = "Tchar8"
kind_name short = "Tshort"
kind_name ushort = "Tushort"
kind_name int = "Tint"
kind_name uint = "Tuint"
kind_name long = "Tlong"
kind_name ulong = "Tulong"
kind_name long_long = "Tlonglong"
kind_name ulong_long = "Tulonglong"
kind_name int128 = "Ti128"
kind_name uint128 = "Tu128"
kind_name float = "Tfloat"
kind_name double = "Tdouble"
kind_name long_double = "Tlongdouble"

-- With clang 11 or later.
unfoldable pub print_builtin : Bool → Builtin → Print (Unit {0})
unfolding unsupported_type
print_builtin templates b =
    if not templates && b.is_dependent_kind
    then aborts
    else if b.is_character || b.is_floating_point || b.is_integer
    then aborts
    else if b.is_sizeless
    then arch b.name
    else if templates && b.is_dependent
    then out "Tdependent"
    else unsupported_type (b.class_name)

-- The qualifiers around a type.
unfoldable pub print_qualified : Qualifiers → Print (Unit {0}) → Print (Unit {0})
print_qualified q print =
    if q.is_local_const
    then (if q.is_volatile
        then (do ctor_inline "Qconst_volatile"; print; end_ctor)
        else (do ctor_inline "Qconst"; print; end_ctor))
    else if q.is_local_volatile
    then (do ctor_inline "Qmut_volatile"; print; end_ctor)
    else print

module _ {E N : Type 0} (templates : Bool) (print_expr : E → Print (Unit {0}))
    (print_type_name : N → Print (Unit {0})) where
  -- `CoqPrinter::type`
  unfoldable pub coq_type : Print (Unit {0})
  coq_type = if templates then out "Mtype" else out "type"

  unfoldable pub print_named : N → Print (Unit {0})
  print_named d = do ctor_inline "Tnamed"; print_type_name d; end_ctor

  unfoldable mutual
    unfolding unsupported_type print_builtin print_qualified coq_type print_named

    -- `PrintType::Visit`, called by `printType`
    pub print_type : ClangType E N → Print (Unit {0})
    print_type (other name) = unsupported_type name
    print_type (attributed t) = print_qual_type t
    print_type (enum_underlying base underlying) = do
      ctor_inline "@Tunderlying"
      coq_type
      space
      print_qual_type base
      space
      print_qual_type underlying
      end_ctor
    print_type (unary_transform name) = unsupported_type name
    print_type (deduced name t) = print_sugar (unsupported_type name) t
    print_type (template_parm name) = do ctor "Tvar"; str name; end_ctor
    print_type (enum d) = do ctor_inline "Tenum"; print_type_name d; end_ctor
    print_type (record_ d) = print_named d
    print_type (paren t) = print_qual_type t
    print_type (known k) = out (kind_name k)
    print_type (builtin b) = print_builtin templates b
    print_type (lvalue_reference t) = do ctor_inline "Tref"; print_qual_type t; end_ctor
    print_type (rvalue_reference t) = do ctor_inline "Trv_ref"; print_qual_type t; end_ctor
    print_type (pointer t) = do ctor_inline "Tptr"; print_qual_type t; end_ctor
    print_type (typedef d t) =
        let underlying = print_qual_type t in
        if print_alias
        then (do
          ctor_inline "@Talias"
          coq_type
          space
          out "\""
          print_type_name d
          out "\""
          space
          underlying
          end_ctor)
        else underlying
    print_type (function_proto cc variadic t ts) = do
      ctor "@Tfunction"
      print_calling_conv cc
      space
      print_variadic variadic
      space
      print_qual_type t
      space
      print_params ts
      end_ctor
    print_type (elaborated t) = print_qual_type t
    print_type (constant_array t size) = do
      ctor "Tarray"
      print_qual_type t
      space
      digits size
      end_ctor
    print_type (subst_template_parm t) = print_qual_type t
    print_type (incomplete_array t) = do ctor "Tincomplete_array"; print_qual_type t; end_ctor
    print_type (variable_array t size) = do
      ctor "Tvariable_array"
      print_qual_type t
      space
      print_expr size
      end_ctor
    print_type (decayed t u) = do
      ctor "Tdecay_type"
      print_qual_type t
      space
      print_qual_type u
      end_ctor
    print_type (template_specialization name t) = print_sugar (unsupported_type name) t
    print_type (decltype name t underlying) =
        let p = print_qual_type underlying in
        print_sugar (if templates then p else unsupported_type name) t
    print_type (typeof_expr name t underlying) =
        let p = print_qual_type underlying in
        print_sugar (if templates then p else unsupported_type name) t
    print_type (injected_class_name (some d) t) = print_named d
    print_type (injected_class_name none t) = print_qual_type t
    print_type (member_pointer d class t) =
        let p = print_type class in
        (do
          ctor "Tmember_pointer"
          (if templates then p else print_type_name d)
          space
          print_qual_type t
          end_ctor)
    print_type (macro_qualified t) = print_qual_type t
    print_type (using_type t) = print_sugar aborts t

    pub print_qual_type : QualType E N → Print (Unit {0})
    print_qual_type null = aborts
    print_qual_type (qual q t) = print_qualified q (print_type t)

    -- What a type desugars to, or else what is printed for it itself.
    pub print_sugar : Print (Unit {0}) → OptType E N → Print (Unit {0})
    print_sugar p plain = p
    print_sugar p (sugar t) = print_qual_type t

    -- `CoqPrinter::list` over the types of the parameters
    pub print_params : QualTypes E N → Print (Unit {0})
    print_params nil = out "nil"
    print_params (cons t ts) = do begin_list; print_qual_type t; print_cons; print_rest ts; end_list

    pub print_rest : QualTypes E N → Print (Unit {0})
    print_rest nil = Print.done tt []
    print_rest (cons t ts) = do print_qual_type t; print_cons; print_rest ts

  -- What clang answers for `isDependentType()` is a parameter.
  unfoldable pub print_qual_type_option : (ClangType E N → Bool) → QualType E N → Print (Unit {0})
  unfolding print_type
  print_qual_type_option is_dependent null = print_none
  print_qual_type_option is_dependent (qual q t) =
      if is_dependent t then print_none else (do print_some; print_qual_type (qual q t); end_ctor)
