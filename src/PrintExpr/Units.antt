-- ===== src/PrintExpr/Units.antt =====
-- The code units of a string literal, as `VisitStringLiteral` reads them from its bytes.
pub mod Decoded
pub mod RoundTrip
pub mod Bounds
use bri_ck.Prelude.{
  ℕ, zero, suc, ◌+◌, ◌*◌, ◌%◌, ◌^◌, ◌<◌, ◌≤◌, ◌≡◌, refl, Bool, true, false, Option, none, some,
  List, [], ◌∷◌, ◌++◌, if◌then◌else◌, arith,
}

-- One more byte, in an `unsigned long long`.
unfoldable pub shift_in : ℕ → ℕ → ℕ
shift_in unit byte = unit * 256 % 2 ^ 64 + byte % 256

unfoldable pub from_bytes : ℕ → List ℕ → ℕ
unfolding shift_in
from_bytes unit [] = unit
from_bytes unit (b ∷ bs) = from_bytes (shift_in unit b) bs

-- A host with the least byte first reads a unit from its last byte back.
unfoldable pub backward : List ℕ → List ℕ
backward [] = []
backward (b ∷ bs) = backward bs ++ b ∷ []

unfoldable pub one_unit : Bool → List ℕ → ℕ
unfolding from_bytes backward
one_unit true bs = from_bytes 0 bs
one_unit false bs = from_bytes 0 (backward bs)

-- The literal's bytes, `width` for each unit: `taken` are those of the unit that is being read, and `n`
-- is how many of them are missing. Clang gives whole units only; bytes behind the last whole unit, for
-- which the source would read on behind the end, are dropped here.
unfoldable pub units_from : Bool → ℕ → ℕ → List ℕ → List ℕ → List ℕ
unfolding one_unit
units_from big width n taken [] = []
units_from big width zero taken (b ∷ bs) = units_from big width zero taken bs
units_from big width (suc zero) taken (b ∷ bs) =
    one_unit big (taken ++ b ∷ []) ∷ units_from big width width [] bs
units_from big width (suc (suc n)) taken (b ∷ bs) =
    units_from big width (suc n) (taken ++ b ∷ []) bs

unfoldable pub units : Bool → ℕ → List ℕ → List ℕ
unfolding units_from
units big width bs = units_from big width width [] bs
