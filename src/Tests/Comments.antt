-- ===== src/Tests/Comments.antt =====
-- The theorems on the scanner of comments at concrete inputs.
use bri_ck.Prelude.{◌≡◌, refl, none, some, leb, if◌then◌else◌, arith}
use bri_ck.CommentScanner.{Block, looped, parse_line_comment, next_comment}
use bri_ck.CommentScanner.Termination.{Finds, AreEnded, Answers, next_comment-Answers}
use bri_ck.CommentScanner.Endless.{parse_line_comment-looped}

-- "//a", a line break, "//b"
abbrev unended : Block
unended = record {
  size = 7;
  find_newline = λ i. if leb i 3 then some 3 else none;
  find_line_comment = λ i. if leb i 0 then some 0 else if leb i 4 then some 4 else none;
  find_block_comment = λ i. none;
  find_closing = λ i. none;
}

parse_line_comment-looped_example : parse_line_comment unended 100 0 ≡ looped
parse_line_comment-looped_example =
    parse_line_comment-looped unended 0 3 4 refl (omega arith) refl refl refl refl refl 100

-- "//", a line break
abbrev ended : Block
ended = record {
  size = 3;
  find_newline = λ i. if leb i 2 then some 2 else none;
  find_line_comment = λ i. if leb i 0 then some 0 else none;
  find_block_comment = λ i. none;
  find_closing = λ i. none;
}

ended-Finds : Finds ended
ended-Finds = record {
  newline_from = λ i j h. ground arith;
  newline_inside = λ i j h. ground arith;
  line_from = λ i j h. ground arith;
  block_from = λ i j h. ground arith;
  closing_from = λ i j h. ground arith;
  apart = λ i j k h g. ground arith;
}

ended-AreEnded : AreEnded ended
ended-AreEnded = record {
  end_of = λ _. 2;
  is_ended = λ i j h. ground arith;
  closing_of = λ _. 0;
  is_closed = λ i j h. ground arith;
}

next_comment-Answers_example : Answers 0 (next_comment ended 3 0)
next_comment-Answers_example = next_comment-Answers ended ended-Finds ended-AreEnded 0
