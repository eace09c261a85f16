-- ===== src/PrintType/Sugar.antt =====
-- src/PrintType.cpp: `bitsize` and `printTypeSugar`, short names of integer types by their size.
use bri_ck.Prelude.{ℕ, Bool, true, false, String, ◌==◌, if◌then◌else◌}
use bri_ck.CoqPrinter.{Print, ◌>>◌, out, pure}

unfoldable pub bitsize : ℕ → String
bitsize n =
    if n == 8
    then "W8"
    else if n == 16
    then "W16"
    else if n == 32
    then "W32"
    else if n == 64
    then "W64"
    else if n == 128
    then "W128"
    else "unknown_bit_size"

-- A type that is neither a signed nor an unsigned integer prints nothing.
unfoldable pub print_type_sugar : Bool → Bool → ℕ → Print (Unit {0})
unfolding bitsize
print_type_sugar true unsigned n =
    if n == 8
    then out "Ti8"
    else if n == 16
    then out "Ti16"
    else if n == 32
    then out "Ti32"
    else if n == 64
    then out "Ti64"
    else if n == 128
    then out "Ti128"
    else (do out "(Tnum "; out (bitsize n); out " Signed)")
print_type_sugar false true n =
    if n == 8
    then out "Tu8"
    else if n == 16
    then out "Tu16"
    else if n == 32
    then out "Tu32"
    else if n == 64
    then out "Tu64"
    else if n == 128
    then out "Tu128"
    else (do out "(Tnum "; out (bitsize n); out " Unsigned)")
print_type_sugar false false n = pure tt
