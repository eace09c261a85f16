-- ===== src/CommentScanner.antt =====
-- include/CommentScanner.hpp: the comments in a block of text, one after the other. The block is asked
-- only by `find` for the first place from an offset on, which is a parameter; `none` is `npos`.
pub mod Termination
pub mod Endless
use bri_ck.Prelude.{
  ℕ, zero, suc, ◌<◌, ◌≤◌, ◌≡◌, Bool, true, false, Option, none, some, ltb, if◌then◌else◌,
}

pub record Block : Type 0 where
  pub size : ℕ
  pub find_newline : ℕ → Option ℕ
  pub find_line_comment : ℕ → Option ℕ
  pub find_block_comment : ℕ → Option ℕ
  pub find_closing : ℕ → Option ℕ

-- `npos + 1` is 0.
abbrev pub past : Option ℕ → ℕ
past none = 0
past (some i) = suc i

-- `i > c`, where `npos` is greater than every place
abbrev pub greater : Option ℕ → ℕ → Bool
greater none c = true
greater (some i) c = ltb c i

-- The result of `next`: `looped` if the fuel does not suffice.
pub data Outcome : Type 0 where
  no_comment : Outcome
  comment : ℕ → Option ℕ → Outcome
  failed : Outcome
  looped : Outcome

module _ (b : Block) where
  -- The loop of `parseLineComment`, from an end of line and the comment after it
  unfoldable pub more_lines : ℕ → Option ℕ → Option ℕ → Option (Option ℕ)
  more_lines zero eol next = none
  more_lines (suc fuel) eol none = some eol
  more_lines (suc fuel) eol (some c) =
      let rest =
        more_lines fuel (b.find_newline c) (b.find_line_comment (past (b.find_newline c))) in
      if greater (b.find_newline (past eol)) c then rest else some eol

  unfoldable pub line_outcome : ℕ → Option (Option ℕ) → Outcome
  line_outcome first none = looped
  line_outcome first (some eol) = comment first eol

  unfoldable pub parse_line_comment : ℕ → ℕ → Outcome
  unfolding more_lines line_outcome
  parse_line_comment fuel first = elim (b.find_newline first) [
    | none ↦ failed
    | some eol ↦ line_outcome first (more_lines fuel (some eol) (b.find_line_comment (suc eol)))
  ]

  unfoldable pub parse_block_comment : ℕ → Outcome
  parse_block_comment first = elim (b.find_closing first) [
    | none ↦ failed
    | some closing ↦ comment first (some (suc (suc closing)))
  ]

  -- Both are found: the first one counts.
  unfoldable pub first_of : ℕ → ℕ → ℕ → Outcome
  unfolding parse_line_comment parse_block_comment
  first_of fuel line block =
      if ltb line block
      then parse_line_comment fuel line
      else if ltb block line
      then parse_block_comment block
      else failed

  unfoldable pub choose_comment : ℕ → Option ℕ → Option ℕ → Outcome
  unfolding parse_line_comment parse_block_comment first_of
  choose_comment fuel none none = no_comment
  choose_comment fuel (some line) none = parse_line_comment fuel line
  choose_comment fuel none (some block) = parse_block_comment block
  choose_comment fuel (some line) (some block) = first_of fuel line block

  -- `next`, from the offset of the scanner
  unfoldable pub next_comment : ℕ → ℕ → Outcome
  unfolding choose_comment
  next_comment fuel offset =
      choose_comment fuel (b.find_line_comment offset) (b.find_block_comment offset)
