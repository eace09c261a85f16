-- ===== src/StringPrinter.antt =====
-- src/StringPrettyPrinter.cpp: string literals as Coq terms of type `bs`. A run of ASCII bytes is
-- printed between quotes, each other byte as `(BS.String Byte.xHH …)`, and the runs are joined
-- by ` ++ `. `none` is a failed `assert`.
pub mod Reader
pub mod Printed
pub mod RoundTrip
use bri_ck.Prelude.{
  ℕ, zero, suc, ◌+◌, ◌-◌, ◌/◌, ◌%◌, Bool, true, false, ◌&&◌, Option, none, some, List, [], ◌∷◌,
  ◌++◌, if◌then◌else◌, ltb, leb, ◌==◌, Text, codes, replicate, ◌>>=◌,
}
use bri_ck.Formatter.{Doc, write, lparen, rparen}

pub data PrettyState : Type 0 where
  nothing lit escape : PrettyState

-- `parens_to_close` is an `int` that is -1 or a count: `minus_one` or `count n`.
pub data Parens : Type 0 where
  minus_one : Parens
  count : ℕ → Parens

-- `print` is what has been sent to the formatter so far.
pub record Printer : Type 0 where
  pub print : Doc
  pub parens_to_close : Parens
  pub state : PrettyState

unfoldable pub same : PrettyState → PrettyState → Bool
same nothing nothing = true
same lit lit = true
same escape escape = true
same _ _ = false

-- print.output() << …
abbrev pub send : Text → Printer → Printer
send t p = record p { print = p.print ++ write t ∷ [] }

unfoldable pub printable : ℕ → Bool
printable c = leb 32 c && ltb c 128

-- The loop of `close`, which runs no times at -1.
unfoldable pub close_parens : ℕ → Printer → Printer
close_parens zero p = p
close_parens (suc n) p = close_parens n (send (codes ")") p)

abbrev pub to_close : Parens → ℕ
to_close minus_one = 0
to_close (count n) = n

unfoldable pub close_at : PrettyState → Printer → Option Printer
close_at nothing p = none
close_at lit p = some (send (codes "\"") p)
close_at escape p =
    let q = close_parens (to_close p.parens_to_close) (send (codes "\"\"") p) in
    some (record q { parens_to_close = minus_one })

unfoldable pub close : Printer → Option Printer
unfolding close_at close_parens
close p = close_at p.state p

abbrev pub is_minus_one : Parens → Bool
is_minus_one minus_one = true
is_minus_one (count n) = false

unfoldable pub open_at : PrettyState → Printer → Option Printer
open_at lit p = some (send (codes "\"") p)
open_at escape p =
    if is_minus_one p.parens_to_close then some (record p { parens_to_close = count 0 }) else none
open_at nothing p = none

-- What comes before `open`: the current section is closed, or the outer parenthesis is opened.
unfoldable pub leave : Printer → Option Printer
unfolding same close
leave p =
    if same p.state nothing
    then some (record p { print = p.print ++ lparen ∷ [] })
    else (close p >>= λ q. some (send (codes " ++ ") q))

unfoldable pub switch_st : PrettyState → Printer → Option Printer
unfolding same leave open_at
switch_st new_st p =
    if same new_st nothing
    then none
    else if same new_st p.state
    then some p
    else (leave p >>= λ q. open_at new_st q >>= λ r. some (record r { state = new_st }))

unfoldable pub to_lit : ℕ → Printer → Option Printer
unfolding switch_st
to_lit c p =
    switch_st lit p >>= λ q. some (if c == 34 then send (codes "\"\"") q else send (c ∷ []) q)

-- A digit of `%02x`.
unfoldable pub hex_digit : ℕ → ℕ
hex_digit n = if ltb n 10 then b'0' + n else b'a' + n - 10

abbrev pub incr : Parens → Parens
incr minus_one = count 0
incr (count n) = count (suc n)

unfoldable pub to_escape : ℕ → Printer → Option Printer
unfolding switch_st hex_digit
to_escape c p = switch_st escape p >>= λ q.
    let r = send (codes "(BS.String Byte.x") q in
    let s = send (hex_digit (c / 16) ∷ hex_digit (c % 16) ∷ []) r in
    let u = send (codes " ") s in some (record u { parens_to_close = incr u.parens_to_close })

-- One round of the loop over the bytes.
unfoldable pub step : ℕ → Printer → Option Printer
unfolding printable to_lit to_escape
step c p = if printable c then to_lit c p else to_escape c p

unfoldable pub loop : List ℕ → Printer → Option Printer
unfolding step
loop [] p = some p
loop (c ∷ cs) p = step c p >>= loop cs

unfoldable pub finish : Printer → Option Doc
unfolding same close
finish p =
    if same p.state nothing
    then some (p.print ++ write (codes "\"\"") ∷ [])
    else (close p >>= λ q. some (q.print ++ rparen ∷ []))

-- A `StringPrettyPrinter` that has printed nothing.
abbrev pub start : Printer
start = record { print = []; parens_to_close = minus_one; state = nothing }

unfoldable pub pretty_print : List ℕ → Option Doc
unfolding loop finish
pretty_print bytes = loop bytes start >>= finish
