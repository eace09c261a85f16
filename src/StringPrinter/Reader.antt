-- ===== src/StringPrinter/Reader.antt =====
-- A reader of the Coq terms that denote byte strings, written from Coq's notation and not from the
-- printer: quoted runs, in which `""` is a quote, `(BS.String Byte.xHH …)`, and ` ++ `. It takes
-- fuel; what it reads is a parenthesised sum, or the empty run.
use bri_ck.Prelude.{
  ℕ, zero, suc, ◌+◌, ◌-◌, ◌*◌, ◌&&◌, Option, none, some, List, [], ◌∷◌, if◌then◌else◌, leb, ◌==◌,
  Text, codes, ◌>>=◌,
}

-- What follows `p` in `t`.
unfoldable pub strip : Text → Text → Option Text
strip [] t = some t
strip (c ∷ p) [] = none
strip (c ∷ p) (x ∷ t) = if c == x then strip p t else none

unfoldable pub hex_value : ℕ → Option ℕ
hex_value c =
    if leb b'0' c && leb c b'9'
    then some (c - b'0')
    else if leb b'a' c && leb c b'f'
    then some (c - b'a' + 10)
    else none

-- Two digits, and what follows them.
unfoldable pub read_byte : Text → Option (ℕ × Text)
unfolding hex_value
read_byte [] = none
read_byte (a ∷ []) = none
read_byte (a ∷ b ∷ t) = hex_value a >>= λ x. hex_value b >>= λ y. some (x * 16 + y, t)

abbrev pub consed : ℕ → Option (List ℕ) → Option (List ℕ)
consed c none = none
consed c (some cs) = some (c ∷ cs)

-- `read_item f k t` reads at the start of a term under `k` applications of `BS.String`, `read_lit`
-- inside quotes, and `read_close` behind a complete term.
unfoldable mutual
  pub read_item : ℕ → ℕ → Text → Option (List ℕ)
  read_item zero k t = none
  read_item (suc f) k t = elim (strip (codes "(BS.String Byte.x") t) [
    | some r ↦
        read_byte r >>= λ (b, r'). strip (codes " ") r' >>= λ u. consed b (read_item f (suc k) u)
    | none ↦ strip (codes "\"") t >>= λ u. read_lit f k u
  ]

  pub read_lit : ℕ → ℕ → Text → Option (List ℕ)
  read_lit zero k t = none
  read_lit (suc f) k t = elim (strip (codes "\"\"") t) [
    | some r ↦ consed 34 (read_lit f k r)
    | none ↦ elim (strip (codes "\"") t) [
      | some r ↦ read_close f k r
      | none ↦ elim t [ [] ↦ none | c ∷ r ↦ consed c (read_lit f k r) ]
    ]
  ]

  pub read_close : ℕ → ℕ → Text → Option (List ℕ)
  read_close zero k t = none
  read_close (suc f) zero t = elim (strip (codes " ++ ") t) [
    | some r ↦ read_item f zero r
    | none ↦ strip (codes ")") t >>= λ r. elim r [ [] ↦ some [] | _ ∷ _ ↦ none ]
  ]
  read_close (suc f) (suc k) t = strip (codes ")") t >>= λ r. read_close f k r

-- A whole term.
unfoldable pub read_string : ℕ → Text → Option (List ℕ)
unfolding strip read_item read_byte
read_string f t = elim (strip (codes "\"\"") t) [
  | some [] ↦ some []
  | _ ↦ strip (codes "(") t >>= λ r. read_item f zero r
]
