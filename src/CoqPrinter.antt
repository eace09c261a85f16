-- ===== src/CoqPrinter.antt =====
-- include/CoqPrinter.hpp: the operations that print Coq syntax on a formatter, as the calls that they
-- make. `Print A` is a routine that makes calls and returns an `A`, or aborts by `logging::die()` or
-- a failed `assert`.
pub mod Moves
pub mod Terms
pub mod Words
pub mod View
use bri_ck.Prelude.{
  ℕ, Bool, true, false, Option, none, some, List, [], ◌∷◌, ◌++◌, if◌then◌else◌, codes, String, Text,
}
use bri_ck.Formatter.{Op, Doc, write, nbsp, lparen, rparen, line}
use bri_ck.StringPrinter.{pretty_print}

pub data Print (A : Type 0) : Type 0 where
  done : A → Doc → Print A
  aborts : Print A

unfoldable pub prefix : {A : Type 0} → Doc → Print A → Print A
prefix d (done a e) = done a (d ++ e)
prefix d aborts = aborts

infixl 5 ◌>>=◌ ◌>>◌
unfoldable pub ◌>>=◌ : {A B : Type 0} → Print A → (A → Print B) → Print B
unfolding prefix
done a d >>= f = prefix d (f a)
aborts >>= f = aborts

abbrev pub ◌>>◌ : {B : Type 0} → Print (Unit {0}) → Print B → Print B
m >> k = m >>= λ _. k

abbrev pub pure : {A : Type 0} → A → Print A
pure a = done a []

abbrev pub emit : Doc → Print (Unit {0})
emit d = done tt d

-- print.output() << "…"
unfoldable pub out : String → Print (Unit {0})
out s = emit (write (codes s) ∷ [])

-- print.output() << fmt::nbsp
unfoldable pub space : Print (Unit {0})
space = emit (nbsp ∷ [])

-- print.output() << fmt::line
unfoldable pub newline : Print (Unit {0})
newline = emit (line ∷ [])

unfoldable pub begin_tuple : Print (Unit {0})
unfolding out
begin_tuple = out "("

unfoldable pub end_tuple : Print (Unit {0})
unfolding out
end_tuple = out ")"

unfoldable pub next_tuple : Print (Unit {0})
next_tuple = emit (write (codes ",") ∷ nbsp ∷ [])

-- `ctor(name, false)`
unfoldable pub ctor_inline : String → Print (Unit {0})
ctor_inline name = emit (lparen ∷ write (codes name) ∷ nbsp ∷ [])

-- `ctor(name)`
unfoldable pub ctor : String → Print (Unit {0})
ctor name = emit (line ∷ lparen ∷ write (codes name) ∷ nbsp ∷ [])

unfoldable pub end_ctor : Print (Unit {0})
end_ctor = emit (rparen ∷ [])

unfoldable pub print_some : Print (Unit {0})
unfolding ctor
print_some = ctor "Some"

unfoldable pub print_none : Print (Unit {0})
unfolding out
print_none = out "None"

-- `begin_record(line)` and `end_record(line)`
unfoldable pub begin_record : Bool → Print (Unit {0})
begin_record true = emit (line ∷ write (codes "{|") ∷ nbsp ∷ [])
begin_record false = emit (write (codes "{|") ∷ nbsp ∷ [])

unfoldable pub end_record : Bool → Print (Unit {0})
end_record true = emit (line ∷ nbsp ∷ write (codes "|}") ∷ [])
end_record false = emit (nbsp ∷ write (codes "|}") ∷ [])

unfoldable pub record_field : String → Print (Unit {0})
record_field field = emit (write (codes field) ∷ nbsp ∷ write (codes ":=") ∷ nbsp ∷ [])

-- A string with no special characters.
unfoldable pub str : Text → Print (Unit {0})
str s = emit (write (codes "\"") ∷ write s ∷ write (codes "\"") ∷ [])

unfoldable pub boolean : Bool → Print (Unit {0})
unfolding out
boolean true = out "true"
boolean false = out "false"

unfoldable pub print_doc : Option Doc → Print (Unit {0})
print_doc none = aborts
print_doc (some d) = emit d

unfoldable pub escaped_str : List ℕ → Print (Unit {0})
unfolding pretty_print print_doc
escaped_str bytes = print_doc (pretty_print bytes)

-- `fmt << val` for an `llvm::APSInt`, given the digits that `APSInt::print` writes.
unfoldable pub apsint : Text → Print (Unit {0})
apsint digits = emit (write (codes "(") ∷ write digits ∷ write (codes ")%Z") ∷ [])

-- `fmt << n` for a number, given its digits.
unfoldable pub digits : Text → Print (Unit {0})
digits t = emit (write t ∷ [])

-- (Tarch None "…")
unfoldable pub arch : Text → Print (Unit {0})
arch name =
    emit (lparen ∷ write (codes "Tarch None \"") ∷ write name ∷ write (codes "\"") ∷ rparen ∷ [])

unfoldable pub begin_list : Print (Unit {0})
begin_list = emit (lparen ∷ [])

unfoldable pub end_list : Print (Unit {0})
end_list = emit (write (codes "nil") ∷ rparen ∷ [])

unfoldable pub print_cons : Print (Unit {0})
print_cons = emit (nbsp ∷ write (codes "::") ∷ nbsp ∷ [])

-- What is done after an item that says whether it was printed.
unfoldable pub cons_if : Bool → Print (Unit {0})
cons_if true = print_cons
cons_if false = pure tt

module _ {A : Type 0} where
  -- The loop over a list whose items are each followed by `cons`.
  unfoldable pub items : (A → Print (Unit {0})) → List A → Print (Unit {0})
  items f [] = pure tt
  items f (a ∷ as_) = do f a; print_cons; items f as_

  unfoldable pub list_range : (A → Print (Unit {0})) → List A → Print (Unit {0})
  unfolding items
  list_range f [] = out "nil"
  list_range f (a ∷ as_) = do begin_list; items f (a ∷ as_); end_list

  unfoldable pub items_filter : (A → Print Bool) → List A → Print (Unit {0})
  items_filter f [] = pure tt
  items_filter f (a ∷ as_) = do printed ← f a; cons_if printed; items_filter f as_

  unfoldable pub list_range_filter : (A → Print Bool) → List A → Print (Unit {0})
  unfolding items_filter
  list_range_filter f [] = out "nil"
  list_range_filter f (a ∷ as_) = do begin_list; items_filter f (a ∷ as_); end_list

  -- `if (auto v = …) { print.some(); …; print.end_ctor(); } else { print.none(); }`
  unfoldable pub option : (A → Print (Unit {0})) → Option A → Print (Unit {0})
  option f none = print_none
  option f (some a) = do print_some; f a; end_ctor
