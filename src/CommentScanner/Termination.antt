-- ===== src/CommentScanner/Termination.antt =====
-- The loop over the lines of a comment ends.
use bri_ck.Prelude.{
  ℕ, zero, suc, ◌+◌, ◌<◌, ◌≤◌, ◌≡◌, refl, true, false, Bool-cases, inl, inr, ◌⊎◌, Option, none,
  some, ltb, arith,
}
use bri_ck.CommentScanner.{
  Block, greater, Outcome, no_comment, comment, more_lines, line_outcome, parse_line_comment,
  parse_block_comment, first_of, choose_comment, next_comment,
}

lt→ltb : (i j : ℕ) → i < j → ltb i j ≡ true
lt→ltb i j h = ground arith

not_ltb : (i j : ℕ) → j < i → ltb i j ≡ false
not_ltb i j h = ground arith

-- What `find` promises: a place from the offset on, inside the block, and two patterns that differ are not
-- at the same place.
pub record Finds (b : Block) : Type 0 where
  pub newline_from : (i j : ℕ) → b.find_newline i ≡ some j → i ≤ j
  pub newline_inside : (i j : ℕ) → b.find_newline i ≡ some j → j < b.size
  pub line_from : (i j : ℕ) → b.find_line_comment i ≡ some j → i ≤ j
  pub block_from : (i j : ℕ) → b.find_block_comment i ≡ some j → i ≤ j
  pub closing_from : (i j : ℕ) → b.find_closing i ≡ some j → i ≤ j
  pub apart :
      (i j k : ℕ)
      → b.find_line_comment i ≡ some j
      → b.find_block_comment i ≡ some k
      → (j < k) ⊎ (k < j)

-- A line break stands after every line comment, and every block comment is closed.
pub record AreEnded (b : Block) : Type 0 where
  pub end_of : ℕ → ℕ
  pub is_ended : (i j : ℕ) → b.find_line_comment i ≡ some j → b.find_newline j ≡ some (end_of j)
  pub closing_of : ℕ → ℕ
  pub is_closed :
      (i j : ℕ) → b.find_block_comment i ≡ some j → b.find_closing j ≡ some (closing_of j)

-- There is no more comment, or there is one from the offset on, which ends in the block.
pub data Answers (offset : ℕ) : Outcome → Type 0 where
  nothing_left : Answers offset no_comment
  found : {i j : ℕ} → offset ≤ i → i ≤ j → Answers offset (comment i (some j))

module _ (b : Block) (h : Finds b) (ends : AreEnded b) where
  -- With as much fuel as there are places left, the loop gives an end of line.
  more_lines-ends :
      (fuel eol : ℕ)
      → eol < b.size
      → b.size ≤ fuel + eol
      → (next : Option ℕ) → b.find_line_comment (suc eol) ≡ next
      → (e : ℕ) × (eol ≤ e × (more_lines b fuel (some eol) next ≡ some (some e)))
  unfolding more_lines
  more_lines-ends zero eol k m next p = absurd (omega (arith, k, m))
  more_lines-ends (suc fuel) eol k m none p = (eol, (omega arith, refl))
  more_lines-ends (suc fuel) eol k m (some c) p =
      let e = ends.end_of c in
      let at : b.find_newline c ≡ some e = ends.is_ended (suc eol) c p in
      let below : suc eol ≤ c = h.line_from (suc eol) c p in
      let above : c ≤ e = h.newline_from c e at in
      let rest =
        more_lines-ends fuel e (h.newline_inside c e at) (omega arith) (b.find_line_comment (suc e))
          refl in
      elim (Bool-cases (greater (b.find_newline (suc eol)) c)) [
        | inl q ↦ (rest.0, (omega (arith, below, above, rest.1.0), rw (q, at) rest.1.1))
        | inr q ↦ (eol, (omega arith, rw q refl))
      ]

  line-Answers :
      (offset first : ℕ)
      → b.find_line_comment offset ≡ some first
      → Answers offset (parse_line_comment b b.size first)
  unfolding parse_line_comment line_outcome
  line-Answers offset first p =
      let e = ends.end_of first in
      let at : b.find_newline first ≡ some e = ends.is_ended offset first p in
      let above : first ≤ e = h.newline_from first e at in
      let rest =
        more_lines-ends b.size e (h.newline_inside first e at) (omega arith)
          (b.find_line_comment (suc e)) refl in
      rw (parse_line_comment, at, rest.1.1)
        (found (h.line_from offset first p) (omega (arith, above, rest.1.0)))

  block-Answers :
      (offset first : ℕ)
      → b.find_block_comment offset ≡ some first
      → Answers offset (parse_block_comment b first)
  unfolding parse_block_comment
  block-Answers offset first p =
      let c = ends.closing_of first in
      let at : b.find_closing first ≡ some c = ends.is_closed offset first p in
      rw (parse_block_comment, at)
        (found (h.block_from offset first p) (omega (arith, h.closing_from first c at)))

  choose_comment-Answers :
      (offset : ℕ) (line block : Option ℕ)
      → b.find_line_comment offset ≡ line
      → b.find_block_comment offset ≡ block
      → Answers offset (choose_comment b b.size line block)
  unfolding choose_comment first_of
  choose_comment-Answers offset none none p q = nothing_left
  choose_comment-Answers offset (some l) none p q = line-Answers offset l p
  choose_comment-Answers offset none (some k) p q = block-Answers offset k q
  choose_comment-Answers offset (some l) (some k) p q = elim (h.apart offset l k p q) [
    | inl less ↦ rw (lt→ltb l k less) (line-Answers offset l p)
    | inr more ↦ rw (not_ltb l k more, lt→ltb k l more) (block-Answers offset k q)
  ]

  -- If `find` gives places from the offset on and inside the block, a line break stands after every line
  -- comment and every block comment is closed, then with as much fuel as the block has bytes the scanner
  -- does not run out of it and fails no `assert`: it says that there is no more comment, or gives one
  -- that begins at the offset or after it and does not end before it begins.
  pub next_comment-Answers : (offset : ℕ) → Answers offset (next_comment b b.size offset)
  unfolding next_comment
  next_comment-Answers offset =
      choose_comment-Answers offset (b.find_line_comment offset) (b.find_block_comment offset) refl
        refl
