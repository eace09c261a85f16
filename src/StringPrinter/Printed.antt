-- ===== src/StringPrinter/Printed.antt =====
-- The text that the state machine writes, as a recursion on the bytes with one function for each
-- state. None of its `assert`s fails.
use bri_ck.Prelude.{
  ℕ, zero, suc, ◌/◌, ◌%◌, ◌≡◌, refl, ap, ◌∙◌, inl, inr, true, false, Option, some, List, [], ◌∷◌,
  ◌++◌, if◌then◌else◌, ◌==◌, Text, codes, replicate, ◌>>=◌, arith, append_assoc, append-nil,
  Bool-cases,
}
use bri_ck.Formatter.{Doc, write, lparen, rparen}
use bri_ck.Formatter.Layout.{text, text-append}
use bri_ck.StringPrinter.{
  Printer, PrettyState, Parens, nothing, lit, escape, minus_one, count, printable, hex_digit,
  close_parens, send, step, loop, finish, pretty_print, start,
}

abbrev at : Doc → Parens → PrettyState → Printer
at d n st = record { print = d; parens_to_close = n; state = st }

abbrev pub quoted : ℕ → Text
quoted c = if c == 34 then codes "\"\"" else c ∷ []

abbrev pub byte : ℕ → Text
byte c = codes "(BS.String Byte.x" ++ hex_digit (c / 16) ∷ hex_digit (c % 16) ∷ codes " "

-- What is still to be written, inside quotes and under `k` applications of `BS.String`.
abbrev pub closing : ℕ → Text
closing k = codes "\"\"" ++ replicate k 41

unfoldable mutual
  pub tail_lit : List ℕ → Text
  tail_lit [] = codes "\")"
  tail_lit (c ∷ cs) =
      if printable c then quoted c ++ tail_lit cs else codes "\" ++ " ++ (byte c ++ tail_esc 1 cs)

  pub tail_esc : ℕ → List ℕ → Text
  tail_esc k [] = closing k ++ codes ")"
  tail_esc k (c ∷ cs) =
      if printable c
      then closing k ++ (codes " ++ \"" ++ (quoted c ++ tail_lit cs))
      else byte c ++ tail_esc (suc k) cs

pub tail_lit-nil : tail_lit [] ≡ 34 ∷ 41 ∷ []
unfolding tail_lit
tail_lit-nil = refl

pub tail_esc-nil : (k : ℕ) → tail_esc k [] ≡ closing k ++ codes ")"
unfolding tail_lit
tail_esc-nil k = refl

pub tail_lit-printable :
    (c : ℕ) (cs : List ℕ) → printable c ≡ true → tail_lit (c ∷ cs) ≡ quoted c ++ tail_lit cs
unfolding tail_lit
tail_lit-printable c cs h = rw h

pub tail_lit-escaped :
    (c : ℕ) (cs : List ℕ)
    → printable c ≡ false
    → tail_lit (c ∷ cs) ≡ (codes "\" ++ " ++ byte c) ++ tail_esc 1 cs
unfolding tail_lit
tail_lit-escaped c cs h = rw h

pub tail_esc-printable :
    (k c : ℕ) (cs : List ℕ)
    → printable c ≡ true
    → tail_esc k (c ∷ cs) ≡ (closing k ++ (codes " ++ \"" ++ quoted c)) ++ tail_lit cs
unfolding tail_lit
tail_esc-printable k c cs h = rw h (simp append_assoc)

pub tail_esc-escaped :
    (k c : ℕ) (cs : List ℕ)
    → printable c ≡ false
    → tail_esc k (c ∷ cs) ≡ byte c ++ tail_esc (suc k) cs
unfolding tail_lit
tail_esc-escaped k c cs h = rw h

close_parens_lem :
    (n : ℕ) (p : Printer)
    → close_parens n p ≡ record p { print = p.print ++ replicate n (write (codes ")")) }
unfolding close_parens
close_parens_lem zero p = rw append-nil
close_parens_lem (suc n) p = rw (close_parens_lem n (send (codes ")") p), append_assoc)

text-parens : (n : ℕ) → text (replicate n (write (codes ")"))) ≡ replicate n 41
unfolding text
text-parens zero = refl
text-parens (suc n) = ap (λ t. 41 ∷ t) (text-parens n)

-- `o` is a printer in state `st` that has written `t`.
abbrev Leads : Option Printer → Parens → PrettyState → Text → Type 0
Leads o n st t = (d : Doc) × (o ≡ some (at d n st)) × (text d ≡ t)

-- The calls for a quoted byte, for an encoded byte, and for the end of `k` encoded bytes.
abbrev quoted_ops : ℕ → Doc
quoted_ops c = write (quoted c) ∷ []

abbrev byte_ops : ℕ → Doc
byte_ops c =
    write (codes "(BS.String Byte.x")
    ∷ write (hex_digit (c / 16) ∷ hex_digit (c % 16) ∷ [])
    ∷ write (codes " ")
    ∷ []

abbrev closing_ops : ℕ → Doc
closing_ops k = write (codes "\"\"") ∷ replicate k (write (codes ")"))

text-byte_ops : (c : ℕ) → text (byte_ops c) ≡ byte c
unfolding text
text-byte_ops c = refl

text-quoted_ops : (c : ℕ) → text (quoted_ops c) ≡ quoted c
unfolding text
text-quoted_ops c = append-nil (quoted c)

text-closing_ops : (k : ℕ) → text (closing_ops k) ≡ closing k
unfolding text
text-closing_ops k = ap (λ t. codes "\"\"" ++ t) (text-parens k)

text-join_escaped :
    (c : ℕ)
    → text (write (codes "\"") ∷ write (codes " ++ ") ∷ byte_ops c) ≡ codes "\" ++ " ++ byte c
unfolding text
text-join_escaped c = refl

text-join_quoted :
    (c : ℕ)
    → text (write (codes " ++ ") ∷ write (codes "\"") ∷ quoted_ops c) ≡ codes " ++ \"" ++ quoted c
unfolding text
text-join_quoted c = ap (λ t. codes " ++ \"" ++ t) (append-nil (quoted c))

ruleset texts = (
  text-append, text-byte_ops, text-quoted_ops, text-closing_ops, text-join_escaped,
  text-join_quoted, append_assoc,
)

quoted-if :
    (c : ℕ) (p : Printer)
    → (if c == 34 then send (codes "\"\"") p else send (c ∷ []) p) ≡ send (quoted c) p
quoted-if c p = ground arith

step_lit-printable :
    (c : ℕ) (d : Doc)
    → printable c ≡ true
    → Leads (step c (at d minus_one lit)) minus_one lit (text d ++ quoted c)
unfolding step
step_lit-printable c d h = (d ++ quoted_ops c, simp (h, quoted-if), simp texts)

step_lit-escaped :
    (c : ℕ) (d : Doc)
    → printable c ≡ false
    → Leads (step c (at d minus_one lit)) (count 1) escape (text d ++ (codes "\" ++ " ++ byte c))
unfolding step
step_lit-escaped c d h = (
  d ++ write (codes "\"") ∷ write (codes " ++ ") ∷ byte_ops c,
  simp (h, append_assoc),
  simp texts,
)

step_esc-escaped :
    (k c : ℕ) (d : Doc)
    → printable c ≡ false
    → Leads (step c (at d (count k) escape)) (count (suc k)) escape (text d ++ byte c)
unfolding step
step_esc-escaped k c d h = (d ++ byte_ops c, simp (h, append_assoc), simp texts)

step_esc-printable :
    (k c : ℕ) (d : Doc)
    → printable c ≡ true
    → Leads
        (step c (at d (count k) escape))
        minus_one
        lit
        (text d ++ (closing k ++ (codes " ++ \"" ++ quoted c)))
unfolding step
step_esc-printable k c d h = (
  d ++ (closing_ops k ++ write (codes " ++ ") ∷ write (codes "\"") ∷ quoted_ops c),
  rw (h, quoted-if) (simp (close_parens_lem, append_assoc)),
  simp texts,
)

step_start-printable :
    (c : ℕ)
    → printable c ≡ true
    → Leads (step c (at [] minus_one nothing)) minus_one lit (codes "(\"" ++ quoted c)
unfolding step text
step_start-printable c h =
    (lparen ∷ write (codes "\"") ∷ quoted_ops c, simp (h, quoted-if), simp append-nil)

step_start-escaped :
    (c : ℕ)
    → printable c ≡ false
    → Leads (step c (at [] minus_one nothing)) (count 1) escape (codes "(" ++ byte c)
unfolding step text
step_start-escaped c h = (lparen ∷ byte_ops c, simp h, refl)

loop-cons : (c : ℕ) (cs : List ℕ) (p : Printer) → loop (c ∷ cs) p ≡ (step c p >>= loop cs)
unfolding loop
loop-cons c cs p = refl

-- Running on from the printer `p` writes `t` in all and fails no `assert`.
abbrev Writes : Printer → List ℕ → Text → Type 0
Writes p cs t = (d : Doc) × ((loop cs p >>= finish) ≡ some d) × (text d ≡ t)

Writes-cons :
    (c : ℕ) (cs : List ℕ) (p : Printer) {n : Parens} {st : PrettyState} (t u : Text)
    → Leads (step c p) n st t
    → ((d : Doc) → Writes (at d n st) cs (text d ++ u))
    → Writes p (c ∷ cs) (t ++ u)
Writes-cons c cs p t u (d, e, q) w =
    let (d', e', q') = w d in (d', rw (loop-cons, e) e', q' ∙ ap (λ x. x ++ u) q)

Writes-lit_end : (d : Doc) → Writes (at d minus_one lit) [] (text d ++ tail_lit [])
unfolding loop finish tail_lit
Writes-lit_end d =
    (d ++ write (codes "\"") ∷ rparen ∷ [], rw append_assoc, text-append d _ ∙ unfold text in refl)

Writes-esc_end : (k : ℕ) (d : Doc) → Writes (at d (count k) escape) [] (text d ++ tail_esc k [])
unfolding loop finish tail_lit
Writes-esc_end k d = (
  d ++ (closing_ops k ++ rparen ∷ []),
  simp (close_parens_lem, append_assoc),
  simp texts (unfold text in refl),
)

mutual
  Writes-lit : (cs : List ℕ) (d : Doc) → Writes (at d minus_one lit) cs (text d ++ tail_lit cs)
  Writes-lit [] d = Writes-lit_end d
  Writes-lit (c ∷ cs) d = elim (Bool-cases (printable c)) [
    | inl h ↦
        rw (tail_lit-printable c cs h, ← append_assoc)
          (Writes-cons c cs _ _ _ (step_lit-printable c d h) (Writes-lit cs))
    | inr h ↦
        rw (tail_lit-escaped c cs h, ← append_assoc)
          (Writes-cons c cs _ _ _ (step_lit-escaped c d h) (Writes-esc cs 1))
  ]

  Writes-esc :
      (cs : List ℕ) (k : ℕ) (d : Doc) → Writes (at d (count k) escape) cs (text d ++ tail_esc k cs)
  Writes-esc [] k d = Writes-esc_end k d
  Writes-esc (c ∷ cs) k d = elim (Bool-cases (printable c)) [
    | inl h ↦
        rw (tail_esc-printable k c cs h, ← append_assoc)
          (Writes-cons c cs _ _ _ (step_esc-printable k c d h) (Writes-lit cs))
    | inr h ↦
        rw (tail_esc-escaped k c cs h, ← append_assoc)
          (Writes-cons c cs _ _ _ (step_esc-escaped k c d h) (Writes-esc cs (suc k)))
  ]

-- What a literal is printed as.
unfoldable pub printed : List ℕ → Text
printed [] = codes "\"\""
printed (c ∷ cs) =
    if printable c
    then codes "(\"" ++ quoted c ++ tail_lit cs
    else codes "(" ++ byte c ++ tail_esc 1 cs

pretty_print_lem : (bytes : List ℕ) → pretty_print bytes ≡ (loop bytes start >>= finish)
unfolding pretty_print
pretty_print_lem bytes = refl

printed-nil : (d : Doc) × ((loop [] start >>= finish) ≡ some d) × (text d ≡ printed [])
unfolding loop finish printed text
printed-nil = (write (codes "\"\"") ∷ [], refl, refl)

pub printed-printable :
    (c : ℕ) (cs : List ℕ)
    → printable c ≡ true
    → printed (c ∷ cs) ≡ (codes "(\"" ++ quoted c) ++ tail_lit cs
unfolding printed
printed-printable c cs h = rw h

pub printed-escaped :
    (c : ℕ) (cs : List ℕ)
    → printable c ≡ false
    → printed (c ∷ cs) ≡ (codes "(" ++ byte c) ++ tail_esc 1 cs
unfolding printed
printed-escaped c cs h = rw h

Writes-start : (bytes : List ℕ) → Writes start bytes (printed bytes)
Writes-start [] = printed-nil
Writes-start (c ∷ cs) = elim (Bool-cases (printable c)) [
  | inl h ↦
      rw (printed-printable c cs h)
        (Writes-cons c cs start _ _ (step_start-printable c h) (Writes-lit cs))
  | inr h ↦
      rw (printed-escaped c cs h)
        (Writes-cons c cs start _ _ (step_start-escaped c h) (Writes-esc cs 1))
]

-- The state machine fails no `assert`, and writes what the recursion says.
pub pretty_print-printed :
    (bytes : List ℕ) → (d : Doc) × (pretty_print bytes ≡ some d) × (text d ≡ printed bytes)
pretty_print-printed bytes = rw pretty_print_lem (Writes-start bytes)
