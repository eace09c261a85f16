-- ===== src/CommentScanner/Endless.antt =====
-- A block of two line comments, of which the first stands on the first line and the second has no line
-- break behind it.
use bri_ck.Prelude.{ℕ, zero, suc, ◌<◌, ◌≡◌, refl, true, none, some, ltb, arith}
use bri_ck.CommentScanner.{Block, looped, more_lines, line_outcome, parse_line_comment}

less-ltb : (i j : ℕ) → i < j → ltb i j ≡ true
less-ltb i j h = ground arith

module _ (b : Block) (first eol last : ℕ) (h₁ : b.find_newline 0 ≡ some eol) (h₂ : first < eol)
    (h₃ : b.find_line_comment 0 ≡ some first) (h₄ : b.find_newline first ≡ some eol)
    (h₅ : b.find_line_comment (suc eol) ≡ some last) (h₆ : b.find_newline (suc eol) ≡ none)
    (h₇ : b.find_newline last ≡ none) where
  mutual
    unfolding more_lines

    from_first : (fuel : ℕ) → more_lines b fuel (some eol) (some last) ≡ none
    from_first zero = refl
    from_first (suc fuel) = rw (h₆, h₇, h₃) (from_npos fuel)

    from_npos : (fuel : ℕ) → more_lines b fuel none (some first) ≡ none
    from_npos zero = refl
    from_npos (suc fuel) = rw (h₁, less-ltb first eol h₂, h₄, h₅) (from_first fuel)

  -- Suppose that the first line comment of a block stands on its first line, that the first line break of
  -- the block ends it, that a second line comment is found behind this break, and that no line break is
  -- found from there on. Then no fuel is enough for the loop over the lines of the first comment: the end
  -- of the last line is `npos`, after which the search goes on at 0.
  pub parse_line_comment-looped : (fuel : ℕ) → parse_line_comment b fuel first ≡ looped
  unfolding parse_line_comment line_outcome
  parse_line_comment-looped fuel = rw (parse_line_comment, h₄, h₅, from_first fuel) refl
