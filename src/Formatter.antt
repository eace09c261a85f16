-- ===== src/Formatter.antt =====
-- The output formatter of include/Formatter.hpp and src/Formatter.cpp: an output stream, the
-- indentation depth, the pending spaces and the flag for a line on which nothing is written yet.
-- A routine that prints is modelled by the list of its calls on the formatter, in order; `run` makes
-- those calls. `none` is a failed `assert`.
pub mod Depth
pub mod Layout
use bri_ck.Prelude.{
  ℕ, ◌+◌, ◌-◌, ◌%◌, ◌^◌, Bool, true, false, Option, none, some, List, [], ◌∷◌, ◌++◌, if◌then◌else◌,
  ltb, Text, codes, replicate, ◌>>=◌,
}

pub record Formatter : Type 0 where
  pub out : Text  -- what the raw_ostream has received
  pub depth : ℕ  -- unsigned int
  pub spaces : ℕ  -- unsigned int
  pub blank : Bool

-- Arithmetic on `unsigned int`.
abbrev pub u32 : ℕ → ℕ
u32 n = n % 2 ^ 32

-- `Formatter(llvm::raw_ostream&)`, on a stream that has received nothing.
abbrev pub new_formatter : Formatter
new_formatter = record { out = []; depth = 0; spaces = 0; blank = true }

-- The values that are sent to a formatter by `<<`.
pub data Op : Type 0 where
  write : Text → Op
  nbsp indent outdent lparen rparen line : Op

abbrev pub Doc : Type 0
Doc = List Op

unfoldable pub break_line : Formatter → Formatter
break_line s = record s { out = s.out ++ 10 ∷ []; blank = true; spaces = 0 }

-- Both loops write spaces one by one.
unfoldable pub nobreak : Formatter → Formatter
nobreak s = record s {
  out = s.out ++ ((if s.blank then replicate s.depth 32 else []) ++ replicate s.spaces 32);
  blank = false;
  spaces = 0;
}

-- The template `operator<<`, on the text of its argument.
unfoldable pub put : Text → Formatter → Formatter
unfolding nobreak
put t s = let s' = nobreak s in record s' { out = s'.out ++ t; blank = false }

unfoldable pub exec : Op → Formatter → Option Formatter
unfolding break_line put
exec (write t) s = some (put t s)
exec nbsp s = some (record s { spaces = u32 (s.spaces + 1) })
exec indent s = some (record s { depth = u32 (s.depth + 2) })
exec outdent s = if ltb s.depth 2 then none else some (record s { depth = s.depth - 2 })
exec lparen s = let s' = put (codes "(") s in some (record s' { depth = u32 (s'.depth + 2) })
exec rparen s =
    if ltb s.depth 2 then none else some (put (codes ")") (record s { depth = s.depth - 2 }))
exec line s = some (break_line s)

unfoldable pub run : Doc → Formatter → Option Formatter
unfolding exec
run [] s = some s
run (o ∷ d) s = exec o s >>= run d
