-- ===== src/PrintType/Kinds.antt =====
-- The constructors of Coq that stand for the builtin types, apart from the table of the printer.
use bri_ck.Prelude.{◌≡◌, refl, String}
use bri_ck.PrintType.{
  Kind, kind_name, bool, void, null_ptr, schar, uchar, char_s, char_u, wchar_s, wchar_u, char16,
  char32, char8, short, ushort, int, uint, long, ulong, long_long, ulong_long, int128, uint128,
  float, double, long_double,
}

unfoldable pub kind_ctor : Kind → String
kind_ctor bool = "Tbool"
kind_ctor void = "Tvoid"
kind_ctor null_ptr = "Tnullptr"
kind_ctor schar = "Tschar"
kind_ctor uchar = "Tuchar"
kind_ctor char_s = "Tchar"
kind_ctor char_u = "Tchar"
kind_ctor wchar_s = "Twchar"
kind_ctor wchar_u = "Twchar"
kind_ctor char16 = "Tchar16"
kind_ctor char32 = "Tchar32"
kind_ctor char8 = "Tchar8"
kind_ctor short = "Tshort"
kind_ctor ushort = "Tushort"
kind_ctor int = "Tint"
kind_ctor uint = "Tuint"
kind_ctor long = "Tlong"
kind_ctor ulong = "Tulong"
kind_ctor long_long = "Tlonglong"
kind_ctor ulong_long = "Tulonglong"
kind_ctor int128 = "Ti128"
kind_ctor uint128 = "Tu128"
kind_ctor float = "Tfloat"
kind_ctor double = "Tdouble"
kind_ctor long_double = "Tlongdouble"

pub kind_name-ctor : (k : Kind) → kind_name k ≡ kind_ctor k
unfolding kind_name kind_ctor
kind_name-ctor bool = refl
kind_name-ctor void = refl
kind_name-ctor null_ptr = refl
kind_name-ctor schar = refl
kind_name-ctor uchar = refl
kind_name-ctor char_s = refl
kind_name-ctor char_u = refl
kind_name-ctor wchar_s = refl
kind_name-ctor wchar_u = refl
kind_name-ctor char16 = refl
kind_name-ctor char32 = refl
kind_name-ctor char8 = refl
kind_name-ctor short = refl
kind_name-ctor ushort = refl
kind_name-ctor int = refl
kind_name-ctor uint = refl
kind_name-ctor long = refl
kind_name-ctor ulong = refl
kind_name-ctor long_long = refl
kind_name-ctor ulong_long = refl
kind_name-ctor int128 = refl
kind_name-ctor uint128 = refl
kind_name-ctor float = refl
kind_name-ctor double = refl
kind_name-ctor long_double = refl
