-- ===== src/PrintExpr/Words.antt =====
-- The `Visit…` methods of src/PrintExpr.cpp print the words of the terms, if the printers of the operands
-- do.
pub mod Visit
pub mod Objects
pub mod Tree
use bri_ck.Prelude.{◌≡◌, refl, Bool, true, false, Option, none, some, List, [], ◌∷◌, Text}
use bri_ck.OpaqueNames.{OpaqueNames, no_names}
use bri_ck.CoqPrinter.{Print, ◌>>=◌, pure}
use bri_ck.CoqPrinter.Words.{words_of}
use bri_ck.CoqPrinter.View.{view, after, gives, view->>=, words_of-view}
use bri_ck.CoqPrinter.Terms.{Terms, flatten, flatten_list}
use bri_ck.PrintExpr.Visit.{P, alone}
use bri_ck.PrintExpr.Meaning.{Sem, term_alone}

-- The printer prints the words of the term, and leaves the names that the meaning says.
pub record Shows (p : P) (m : Sem) : Type 0 where
  pub shown : (s : OpaqueNames) → view (p s) ≡ gives (m s).1 (flatten (m s).0)

-- What follows an operand is printed with the names that the operand leaves.
pub operand :
    {p : P} {m : Sem}
    → Shows p m
    → {B : Type 0} (s : OpaqueNames) (k : OpaqueNames → Print B)
    → view (p s >>= k) ≡ after (flatten (m s).0) (view (k (m s).1))
operand {p} {m} h s k = view->>= (p s) (m s).1 (flatten (m s).0) k (h.shown s)

pub alone-words : {p : P} {m : Sem} → Shows p m → words_of (alone p) ≡ flatten (term_alone m)
unfolding alone
alone-words {p} {m} h =
    words_of-view (p no_names) (m no_names).1 (flatten (m no_names).0) (h.shown no_names)

-- The same of the items of a list
pub record ShowsAll (p : P) (ms : OpaqueNames → Terms × OpaqueNames) : Type 0 where
  pub all_shown : (s : OpaqueNames) → view (p s) ≡ gives (ms s).1 (flatten_list (ms s).0)

pub list_items :
    {p : P} {ms : OpaqueNames → Terms × OpaqueNames}
    → ShowsAll p ms
    → {B : Type 0} (s : OpaqueNames) (k : OpaqueNames → Print B)
    → view (p s >>= k) ≡ after (flatten_list (ms s).0) (view (k (ms s).1))
list_items {p} {ms} h s k = view->>= (p s) (ms s).1 (flatten_list (ms s).0) k (h.all_shown s)
