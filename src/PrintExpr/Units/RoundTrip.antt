-- ===== src/PrintExpr/Units/RoundTrip.antt =====
-- The code units of a string literal are read back from its bytes.
use bri_ck.Prelude.{
  ℕ, zero, suc, ◌+◌, ◌*◌, ◌/◌, ◌%◌, ◌^◌, ◌<◌, ◌≤◌, ◌≡◌, refl, ap, ◌∙◌, sym, Bool, true, false, List,
  [], ◌∷◌, ◌++◌, arith, All, length, length-append, append_assoc, append-nil,
}
use bri_ck.PrintExpr.Units.{shift_in, from_bytes, backward, one_unit, units_from, units}
use mathlib.Core.Path.{subst}
use native.Mathlib.Nat.{pow-le-pow_right}

-- The bytes of a unit, the least first.
unfoldable pub bytes_of : ℕ → ℕ → List ℕ
bytes_of zero u = []
bytes_of (suc w) u = u % 256 ∷ bytes_of w (u / 256)

-- The bytes of a unit on a host that has the greatest byte first, or the least
unfoldable pub encode : Bool → ℕ → ℕ → List ℕ
unfolding bytes_of backward
encode true w u = backward (bytes_of w u)
encode false w u = bytes_of w u

unfoldable pub encode_all : Bool → ℕ → List ℕ → List ℕ
encode_all big w [] = []
encode_all big w (u ∷ us) = encode big w u ++ encode_all big w us

pub from_bytes-snoc :
    (u : ℕ) (bs : List ℕ) (b : ℕ) → from_bytes u (bs ++ b ∷ []) ≡ shift_in (from_bytes u bs) b
unfolding from_bytes
from_bytes-snoc u [] b = refl
from_bytes-snoc u (c ∷ bs) b = from_bytes-snoc (shift_in u c) bs b

backward-append : (xs ys : List ℕ) → backward (xs ++ ys) ≡ backward ys ++ backward xs
unfolding backward
backward-append [] ys = sym (append-nil (backward ys))
backward-append (x ∷ xs) ys =
    ap (λ l. l ++ x ∷ []) (backward-append xs ys)
    ∙ append_assoc (backward ys) (backward xs) (x ∷ [])

backward-backward : (xs : List ℕ) → backward (backward xs) ≡ xs
unfolding backward
backward-backward [] = refl
backward-backward (x ∷ xs) =
    backward-append (backward xs) (x ∷ []) ∙ ap (λ l. x ∷ l) (backward-backward xs)

-- One more byte after at most seven fits into 64 bits.
pub top_bits : (w u : ℕ) → w ≤ 7 → u < 256 ^ w → u < 2 ^ 56
top_bits w u h k = let room : 256 ^ w ≤ 256 ^ 7 = pow-le-pow_right (omega arith) h in omega arith

less_bits : (w u : ℕ) → u < 256 ^ suc w → u / 256 < 256 ^ w
less_bits w u h = omega arith

pub shift_in-exact : (u b : ℕ) → u < 2 ^ 56 → shift_in u b ≡ u * 256 + b % 256
unfolding shift_in
shift_in-exact u b h = omega arith

from_bytes-bytes_of : (w u : ℕ) → w ≤ 8 → u < 256 ^ w → from_bytes 0 (backward (bytes_of w u)) ≡ u
unfolding bytes_of backward from_bytes
from_bytes-bytes_of zero u h k = omega arith
from_bytes-bytes_of (suc w) u h k =
    let fits : u / 256 < 256 ^ w = less_bits w u k in
    from_bytes-snoc 0 (backward (bytes_of w (u / 256))) (u % 256)
    ∙ ap (λ x. shift_in x (u % 256)) (from_bytes-bytes_of w (u / 256) (omega arith) fits)
    ∙ shift_in-exact (u / 256) (u % 256) (top_bits w (u / 256) (omega arith) fits)
    ∙ omega arith

one_unit-encode : (big : Bool) (w u : ℕ) → w ≤ 8 → u < 256 ^ w → one_unit big (encode big w u) ≡ u
unfolding one_unit encode
one_unit-encode true w u h k = from_bytes-bytes_of w u h k
one_unit-encode false w u h k = from_bytes-bytes_of w u h k

length-bytes_of : (w u : ℕ) → length (bytes_of w u) ≡ w
unfolding bytes_of
length-bytes_of zero u = refl
length-bytes_of (suc w) u = ap suc (length-bytes_of w (u / 256))

pub length-backward : (bs : List ℕ) → length (backward bs) ≡ length bs
unfolding backward
length-backward [] = refl
length-backward (b ∷ bs) = length-append (backward bs) (b ∷ []) ∙ omega (arith, length-backward bs)

length-encode : (big : Bool) (w u : ℕ) → length (encode big w u) ≡ w
unfolding encode
length-encode true w u = length-backward (bytes_of w u) ∙ length-bytes_of w u
length-encode false w u = length-bytes_of w u

-- The bytes of one unit are read to their end.
units_from-one :
    (big : Bool) (width b : ℕ) (bs taken rest : List ℕ)
    → units_from big width (length (b ∷ bs)) taken (b ∷ bs ++ rest)
      ≡ one_unit big (taken ++ b ∷ bs) ∷ units_from big width width [] rest
unfolding units_from
units_from-one big width b [] taken rest = refl
units_from-one big width b (c ∷ bs) taken rest =
    units_from-one big width c bs (taken ++ b ∷ []) rest
    ∙ ap (λ l. one_unit big l ∷ units_from big width width [] rest)
        (append_assoc taken (b ∷ []) (c ∷ bs))

units_from-unit :
    (big : Bool) (width : ℕ) (bs rest : List ℕ)
    → length bs ≡ width
    → 1 ≤ width
    → units_from big width width [] (bs ++ rest)
      ≡ one_unit big bs ∷ units_from big width width [] rest
units_from-unit big width [] rest e h = absurd (omega arith)
units_from-unit big width (b ∷ bs) rest e h =
    subst
      (λ n.
        units_from big width n [] (b ∷ bs ++ rest)
        ≡ one_unit big (b ∷ bs) ∷ units_from big width width [] rest)
      e (units_from-one big width b bs [] rest)

-- If the units of a string literal fit into a width of one to eight bytes, they are read back from the
-- bytes that encode them on a host of the same byte order.
pub units-encode_all :
    (big : Bool) (w : ℕ) (us : List ℕ)
    → 1 ≤ w
    → w ≤ 8
    → All (λ u. u < 256 ^ w) us
    → units big w (encode_all big w us) ≡ us
unfolding units encode_all units_from
units-encode_all big w [] h k f = refl
units-encode_all big w (u ∷ us) h k f =
    units_from-unit big w (encode big w u) (encode_all big w us) (length-encode big w u) h
    ∙ ap (λ x. x ∷ units_from big w w [] (encode_all big w us)) (one_unit-encode big w u k f.0)
    ∙ ap (λ l. u ∷ l) (units-encode_all big w us h k f.1)
