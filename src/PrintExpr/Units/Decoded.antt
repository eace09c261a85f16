-- ===== src/PrintExpr/Units/Decoded.antt =====
-- The code units that the bytes of a string literal encode, unit by unit, apart from the loop that reads
-- them.
use bri_ck.Prelude.{
  ℕ, zero, suc, ◌+◌, ◌*◌, ◌%◌, ◌^◌, ◌≤◌, ◌≡◌, refl, ap, ◌∙◌, sym, inl, inr, Bool, true, false,
  Option, none, some, List, [], ◌∷◌, ◌++◌, arith, length, append_assoc, Option-cases,
}
use bri_ck.PrintExpr.Units.{shift_in, from_bytes, backward, one_unit, units_from, units}
use bri_ck.PrintExpr.Units.RoundTrip.{from_bytes-snoc}

-- The number that bytes write after `n`, the greatest first
unfoldable greatest_first : ℕ → List ℕ → ℕ
greatest_first n [] = n
greatest_first n (b ∷ bs) = greatest_first (n * 256 + b % 256) bs

unfoldable least_first : List ℕ → ℕ
least_first [] = 0
least_first (b ∷ bs) = least_first bs * 256 + b % 256

unfoldable unit_value : Bool → List ℕ → ℕ
unfolding greatest_first least_first
unit_value true bs = greatest_first 0 bs % 2 ^ 64
unit_value false bs = least_first bs % 2 ^ 64

unfoldable prepend : ℕ → Option (List ℕ × List ℕ) → Option (List ℕ × List ℕ)
prepend b none = none
prepend b (some p) = some (b ∷ p.0, p.1)

-- The first bytes and the others, if there are so many
unfoldable split_at : ℕ → List ℕ → Option (List ℕ × List ℕ)
unfolding prepend
split_at zero bs = some ([], bs)
split_at (suc n) [] = none
split_at (suc n) (b ∷ bs) = prepend b (split_at n bs)

unfoldable decode : Bool → ℕ → ℕ → List ℕ → List ℕ
unfolding split_at unit_value
decode big w zero bs = []
decode big w (suc k) bs = elim (split_at w bs) [
  | none ↦ []
  | some p ↦ unit_value big p.0 ∷ decode big w k p.1
]

-- What is left of the bytes after the last whole unit is no unit.
unfoldable pub decoded : Bool → ℕ → List ℕ → List ℕ
unfolding decode
decoded big zero bs = []
decoded big (suc w) bs = decode big (suc w) (length bs) bs

shift_in-mod : (n b : ℕ) → shift_in (n % 2 ^ 64) b ≡ (n * 256 + b % 256) % 2 ^ 64
unfolding shift_in
shift_in-mod n b = omega arith

from_bytes-greatest_first :
    (n : ℕ) (bs : List ℕ) → from_bytes (n % 2 ^ 64) bs ≡ greatest_first n bs % 2 ^ 64
unfolding from_bytes greatest_first
from_bytes-greatest_first n [] = refl
from_bytes-greatest_first n (b ∷ bs) =
    ap (λ u. from_bytes u bs) (shift_in-mod n b) ∙ from_bytes-greatest_first (n * 256 + b % 256) bs

from_bytes-least_first : (bs : List ℕ) → from_bytes 0 (backward bs) ≡ least_first bs % 2 ^ 64
unfolding from_bytes backward least_first
from_bytes-least_first [] = refl
from_bytes-least_first (b ∷ bs) =
    from_bytes-snoc 0 (backward bs) b
    ∙ ap (λ u. shift_in u b) (from_bytes-least_first bs)
    ∙ shift_in-mod (least_first bs) b

one_unit-value : (big : Bool) (bs : List ℕ) → one_unit big bs ≡ unit_value big bs
unfolding one_unit unit_value
one_unit-value true bs = from_bytes-greatest_first 0 bs
one_unit-value false bs = from_bytes-least_first bs

units_from-split :
    (big : Bool) (width n : ℕ) (taken bs : List ℕ)
    → units_from big width (suc n) taken bs ≡ elim (split_at (suc n) bs) [
      | none ↦ []
      | some p ↦ one_unit big (taken ++ p.0) ∷ units_from big width width [] p.1
    ]
unfolding units_from split_at
units_from-split big width n taken [] = refl
units_from-split big width zero taken (b ∷ bs) = refl
units_from-split big width (suc n) taken (b ∷ bs) =
    units_from-split big width n (taken ++ b ∷ []) bs ∙ elim (Option-cases (split_at (suc n) bs)) [
      | inl e ↦ rw e refl
      | inr (p, e) ↦ rw e (
          ap (λ l. one_unit big l ∷ units_from big width width [] p.1)
            (append_assoc taken (b ∷ []) p.0))
    ]

split_at-length :
    (n : ℕ) (bs : List ℕ) (p : List ℕ × List ℕ)
    → split_at n bs ≡ some p
    → length p.1 + n ≡ length bs
unfolding split_at
split_at-length zero bs p h = let q : ([], bs) ≡ p = cc in rw (sym q) (omega arith)
split_at-length (suc n) [] p h = absurd (cc h)
split_at-length (suc n) (b ∷ bs) p h = elim (Option-cases (split_at n bs)) [
  | inl e ↦ let q : prepend b none ≡ some p = ap (prepend b) (sym e) ∙ h in absurd (cc q)
  | inr (q, e) ↦
      let r : some (b ∷ q.0, q.1) ≡ some p = ap (prepend b) (sym e) ∙ h in
      let s : (b ∷ q.0, q.1) ≡ p = cc in rw (sym s) (omega (arith, split_at-length n bs q e))
]

units_from-decode :
    (big : Bool) (w k : ℕ) (bs : List ℕ)
    → length bs ≤ k
    → units_from big (suc w) (suc w) [] bs ≡ decode big (suc w) k bs
unfolding units_from decode
units_from-decode big w zero [] h = refl
units_from-decode big w zero (b ∷ bs) h = absurd (omega arith)
units_from-decode big w (suc k) bs h =
    units_from-split big (suc w) w [] bs ∙ elim (Option-cases (split_at (suc w) bs)) [
      | inl e ↦ rw (decode, e) refl
      | inr (p, e) ↦
          rw (decode, e, one_unit-value big p.0)
            (ap (λ us. unit_value big p.0 ∷ us)
              (units_from-decode big w k p.1 (omega (arith, split_at-length (suc w) bs p e))))
    ]

units_from-zero : (big : Bool) (taken bs : List ℕ) → units_from big 0 0 taken bs ≡ []
unfolding units_from
units_from-zero big taken [] = refl
units_from-zero big taken (b ∷ bs) = units_from-zero big taken bs

pub units-decoded :
    (big : Bool) (width : ℕ) (bs : List ℕ) → units big width bs ≡ decoded big width bs
unfolding units decoded
units-decoded big zero bs = units_from-zero big [] bs
units-decoded big (suc w) bs = units_from-decode big w (length bs) bs (omega arith)
