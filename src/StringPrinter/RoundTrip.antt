-- ===== src/StringPrinter/RoundTrip.antt =====
-- What the printer writes for a literal, read back.
use bri_ck.Prelude.{
  ℕ, zero, suc, ◌+◌, ◌-◌, ◌*◌, ◌/◌, ◌%◌, ◌≤◌, ◌<◌, ◌≡◌, ◌≢◌, ◌∙◌, ap, sym, refl, inl, inr, false,
  Bool-cases, ==_iff, some, List, [], ◌∷◌, ◌++◌, ◌==◌, Text, codes, replicate, arith, All, length,
  append_assoc,
}
use native.Mathlib.Nat.{add-zero, add-suc}
use bri_ck.Formatter.{Doc}
use bri_ck.Formatter.Layout.{text}
use bri_ck.StringPrinter.{printable, hex_digit, pretty_print}
use bri_ck.StringPrinter.Printed.{
  quoted, byte, closing, tail_lit, tail_esc, printed, pretty_print-printed, tail_lit-nil,
  tail_esc-nil, printed-printable, printed-escaped, tail_lit-printable, tail_lit-escaped,
  tail_esc-printable, tail_esc-escaped,
}
use bri_ck.StringPrinter.Reader.{
  strip, hex_value, read_byte, read_item, read_lit, read_close, read_string, consed,
}

hex_value-hex_digit : (n : ℕ) → n < 16 → hex_value (hex_digit n) ≡ some n
unfolding hex_value hex_digit
hex_value-hex_digit n h = ground arith

read_byte-byte :
    (c : ℕ) (t : Text)
    → c < 256
    → read_byte (hex_digit (c / 16) ∷ hex_digit (c % 16) ∷ t) ≡ some (c, t)
unfolding read_byte
read_byte-byte c t h =
    let e : c / 16 * 16 + c % 16 ≡ c = omega arith in
    rw (hex_value-hex_digit (c / 16) (omega arith), hex_value-hex_digit (c % 16) (omega arith), e)

read_item-byte :
    (f k c : ℕ) (t : Text)
    → c < 256
    → read_item (suc f) k (byte c ++ t) ≡ consed c (read_item f (suc k) t)
unfolding read_item strip
read_item-byte f k c t h = rw (read_byte-byte c _ h)

read_lit-plain :
    (f k c : ℕ) (t : Text)
    → (c == 34) ≡ false
    → read_lit (suc f) k (c ∷ t) ≡ consed c (read_lit f k t)
unfolding read_lit strip
read_lit-plain f k c t h = ground arith

read_lit-double :
    (f k : ℕ) (t : Text) → read_lit (suc f) k (34 ∷ 34 ∷ t) ≡ consed 34 (read_lit f k t)
unfolding read_lit strip
read_lit-double f k t = refl

read_lit-quoted :
    (f k c : ℕ) (t : Text) → read_lit (suc f) k (quoted c ++ t) ≡ consed c (read_lit f k t)
read_lit-quoted f k c t = elim (Bool-cases (c == 34)) [
  | inl e ↦ rw (e, (==_iff c 34).0 e) (read_lit-double f k t)
  | inr e ↦ rw e (read_lit-plain f k c t e)
]

-- A quoted run, from its opening quote on.
read_item-quote : (f k : ℕ) (t : Text) → read_item (suc f) k (34 ∷ t) ≡ read_lit f k t
unfolding read_item strip
read_item-quote f k t = refl

-- The end of a quoted run, seen from inside the quotes.
read_lit-quote :
    (f k c : ℕ) (t : Text) → c ≢ 34 → read_lit (suc f) k (34 ∷ c ∷ t) ≡ read_close f k (c ∷ t)
unfolding read_lit strip
read_lit-quote f k c t h = ground arith

read_close-join :
    (f : ℕ) (t : Text) → read_close (suc f) zero (codes " ++ " ++ t) ≡ read_item f zero t
unfolding read_lit strip
read_close-join f t = refl

read_close-end : (f : ℕ) → read_close (suc f) zero (codes ")") ≡ some []
unfolding read_lit strip
read_close-end f = refl

read_close-parens :
    (k f : ℕ) (t : Text) → read_close (f + k) k (replicate k 41 ++ t) ≡ read_close f zero t
unfolding read_lit strip
read_close-parens zero f t = rw add-zero
read_close-parens (suc k) f t = rw add-suc (read_close-parens k f t)

-- The end of `k` encoded bytes: the empty run and the parentheses.
read_item-closing :
    (k f c : ℕ) (t : Text)
    → c ≢ 34
    → read_item (suc (suc (f + k))) k (closing k ++ c ∷ t) ≡ read_close f zero (c ∷ t)
read_item-closing zero f c t h =
    read_item-quote _ 0 _ ∙ read_lit-quote _ 0 c t h ∙ read_close-parens 0 f (c ∷ t)
read_item-closing (suc k) f c t h =
    read_item-quote _ (suc k) _
    ∙ read_lit-quote _ (suc k) 41 _ (omega arith)
    ∙ read_close-parens (suc k) f (c ∷ t)

abbrev AreBytes : List ℕ → Type 0
AreBytes = All (λ c. c < 256)

mutual
  reads-lit :
      (cs : List ℕ) (f : ℕ)
      → AreBytes cs
      → 8 * length cs + 8 ≤ f
      → read_lit f zero (tail_lit cs) ≡ some cs
  reads-lit [] f b h =
      let g = f - 2 in
      let e : f ≡ suc (suc g) = omega arith in
      rw (e, tail_lit-nil) (read_lit-quote (suc g) 0 41 [] (omega arith) ∙ read_close-end g)
  reads-lit (c ∷ cs) f b h = elim (Bool-cases (printable c)) [
    | inl p ↦
        let g = f - 1 in
        let e : f ≡ suc g = omega arith in
        rw (e, tail_lit-printable c cs p, read_lit-quoted g 0 c (tail_lit cs))
          (ap (consed c) (reads-lit cs g b.1 (omega arith)))
    | inr p ↦
        let g = f - 3 in
        let e : f ≡ suc (suc (suc g)) = omega arith in
        let t = byte c ++ tail_esc 1 cs in
        rw (e, tail_lit-escaped c cs p)
          (read_lit-quote _ 0 32 _ (omega arith)
            ∙ read_close-join (suc g) t
            ∙ read_item-byte g 0 c (tail_esc 1 cs) b.0
            ∙ ap (consed c) (reads-esc cs 1 g b.1 (omega arith)))
  ]

  reads-esc :
      (cs : List ℕ) (k f : ℕ)
      → AreBytes cs
      → 8 * length cs + 8 + k ≤ f
      → read_item f k (tail_esc k cs) ≡ some cs
  reads-esc [] k f b h =
      let g = f - k - 3 in
      let e : f ≡ suc (suc (suc g + k)) = omega arith in
      rw (e, tail_esc-nil k) (read_item-closing k (suc g) 41 [] (omega arith) ∙ read_close-end g)
  reads-esc (c ∷ cs) k f b h = elim (Bool-cases (printable c)) [
    | inl p ↦
        let g = f - k - 5 in
        let e : f ≡ suc (suc (suc (suc (suc g)) + k)) = omega arith in
        let t = 34 ∷ quoted c ++ tail_lit cs in
        rw (e, tail_esc-printable k c cs p, append_assoc)
          (read_item-closing k (suc (suc (suc g))) 32 _ (omega arith)
            ∙ read_close-join (suc (suc g)) t
            ∙ read_item-quote (suc g) 0 _
            ∙ read_lit-quoted g 0 c (tail_lit cs)
            ∙ ap (consed c) (reads-lit cs g b.1 (omega arith)))
    | inr p ↦
        let g = f - 1 in
        let e : f ≡ suc g = omega arith in
        rw (e, tail_esc-escaped k c cs p)
          (read_item-byte g k c (tail_esc (suc k) cs) b.0
            ∙ ap (consed c) (reads-esc cs (suc k) g b.1 (omega arith)))
  ]

read_string-paren : (f : ℕ) (t : Text) → read_string f (40 ∷ t) ≡ read_item f zero t
unfolding read_string
read_string-paren f t = refl

read_string-empty : (f : ℕ) → read_string f (printed []) ≡ some []
unfolding read_string printed
read_string-empty f = refl

reads-printed :
    (bytes : List ℕ) (f : ℕ)
    → AreBytes bytes
    → 8 * length bytes + 9 ≤ f
    → read_string f (printed bytes) ≡ some bytes
reads-printed [] f b h = read_string-empty f
reads-printed (c ∷ cs) f b h = elim (Bool-cases (printable c)) [
  | inl p ↦
      let g = f - 2 in
      let e : f ≡ suc (suc g) = omega arith in
      rw (e, printed-printable c cs p)
        (read_string-paren _ _
          ∙ read_item-quote (suc g) 0 (quoted c ++ tail_lit cs)
          ∙ read_lit-quoted g 0 c (tail_lit cs)
          ∙ ap (consed c) (reads-lit cs g b.1 (omega arith)))
  | inr p ↦
      let g = f - 1 in
      let e : f ≡ suc g = omega arith in
      rw (e, printed-escaped c cs p)
        (read_string-paren _ _
          ∙ read_item-byte g 0 c (tail_esc 1 cs) b.0
          ∙ ap (consed c) (reads-esc cs 1 g b.1 (omega arith)))
]

-- For every string of bytes the printer fails no `assert`, and what it sends reads back, as a Coq
-- term, to exactly these bytes, given fuel that is linear in their number.
pub pretty_print-read_string :
    (bytes : List ℕ) (f : ℕ)
    → AreBytes bytes
    → 8 * length bytes + 9 ≤ f
    → (d : Doc) × (pretty_print bytes ≡ some d) × (read_string f (text d) ≡ some bytes)
pretty_print-read_string bytes f b h =
    let (d, e, q) = pretty_print-printed bytes in (d, e, rw q (reads-printed bytes f b h))

-- Two strings of bytes that print the same text are equal.
pub pretty_print-injective :
    (a b : List ℕ) (d e : Doc)
    → AreBytes a
    → AreBytes b
    → pretty_print a ≡ some d
    → pretty_print b ≡ some e
    → text d ≡ text e
    → a ≡ b
pretty_print-injective a b d e x y p q r =
    let f = 8 * (length a + length b) + 9 in
    let (d', p', u) = pretty_print-read_string a f x (omega arith) in
    let (e', q', v) = pretty_print-read_string b f y (omega arith) in
    let same_d : d' ≡ d = cc in
    let same_e : e' ≡ e = cc in
    let read : read_string f (text d') ≡ read_string f (text e') =
      ap (read_string f) (ap text same_d ∙ r ∙ ap text (sym same_e)) in
    cc
