-- ===== src/PrintExpr/Units/Bounds.antt =====
-- The code units of a string literal fit into its width.
use bri_ck.Prelude.{
  ℕ, zero, suc, ◌+◌, ◌*◌, ◌%◌, ◌^◌, ◌<◌, ◌≤◌, ◌≡◌, Bool, true, false, List, [], ◌∷◌, ◌++◌, arith,
  All, length, length-append,
}
use mathlib.Core.Path.{subst}
use bri_ck.PrintExpr.Units.{shift_in, from_bytes, backward, one_unit, units_from, units}
use bri_ck.PrintExpr.Units.RoundTrip.{top_bits, shift_in-exact, length-backward}

next_bits : (w u b : ℕ) → u < 256 ^ w → u * 256 + b % 256 < 256 ^ suc w
next_bits w u b h = omega arith

-- From a number of `w` bytes on, one more byte gives a number of one more byte.
shift_in-bounded : (w u b : ℕ) → suc w ≤ 8 → u < 256 ^ w → shift_in u b < 256 ^ suc w
shift_in-bounded w u b h k =
    let exact : shift_in u b ≡ u * 256 + b % 256 =
      shift_in-exact u b (top_bits w u (omega arith) k) in
    let small : u * 256 + b % 256 < 256 ^ suc w = next_bits w u b k in omega arith

from_bytes-bounded :
    (w u n : ℕ) (bs : List ℕ) → w + length bs ≡ n → n ≤ 8 → u < 256 ^ w → from_bytes u bs < 256 ^ n
unfolding from_bytes
from_bytes-bounded w u n [] e h k = subst (λ m. u < 256 ^ m) (omega arith) k
from_bytes-bounded w u n (b ∷ bs) e h k =
    from_bytes-bounded (suc w) (shift_in u b) n bs (omega arith) h
      (shift_in-bounded w u b (omega arith) k)

one_unit-bounded :
    (big : Bool) (n : ℕ) (bs : List ℕ) → length bs ≡ n → n ≤ 8 → one_unit big bs < 256 ^ n
unfolding one_unit
one_unit-bounded true n bs e h = from_bytes-bounded 0 0 n bs (omega arith) h (omega arith)
one_unit-bounded false n bs e h =
    from_bytes-bounded 0 0 n (backward bs) (omega (arith, length-backward bs)) h (omega arith)

units_from-bounded :
    (big : Bool) (width n : ℕ) (taken bs : List ℕ)
    → width ≤ 8
    → length taken + n ≡ width
    → All (λ u. u < 256 ^ width) (units_from big width n taken bs)
unfolding units_from
units_from-bounded big width n taken [] h e = tt
units_from-bounded big width zero taken (b ∷ bs) h e =
    units_from-bounded big width zero taken bs h e
units_from-bounded big width (suc zero) taken (b ∷ bs) h e = (
  one_unit-bounded big width (taken ++ b ∷ []) (omega (arith, length-append taken (b ∷ []))) h,
  units_from-bounded big width width [] bs h (omega arith),
)
units_from-bounded big width (suc (suc n)) taken (b ∷ bs) h e =
    units_from-bounded big width (suc n) (taken ++ b ∷ []) bs h
      (omega (arith, length-append taken (b ∷ [])))

-- If the width is at most eight bytes, every unit that is read is a number of that many bytes.
pub units-bounded :
    (big : Bool) (width : ℕ) (bs : List ℕ)
    → width ≤ 8
    → All (λ u. u < 256 ^ width) (units big width bs)
unfolding units
units-bounded big width bs h = units_from-bounded big width width [] bs h (omega arith)
