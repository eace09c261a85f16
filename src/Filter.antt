-- ===== src/Filter.antt =====
-- include/Filter.hpp: what of a declaration is kept, and the filters. A filter is the function that
-- its `shouldInclude` computes; declarations are named by `Decl::getID()`.
pub mod Lattice
use bri_ck.Prelude.{ℕ, Bool, true, false, List, [], ◌∷◌, Option, none, some, if◌then◌else◌, ltb}

pub data What : Type 0 where
  nothing declaration definition : What

-- The values of the enumeration.
unfoldable pub rank : What → ℕ
rank nothing = 0
rank declaration = 1
rank definition = 2

unfoldable pub min : What → What → What
unfolding rank
min a b = if ltb (rank a) (rank b) then a else b

unfoldable pub max : What → What → What
unfolding rank
max a b = if ltb (rank a) (rank b) then b else a

abbrev pub Filter : Type 0
Filter = ℕ → What

unfoldable pub default : What → Filter
default w d = w

-- The parts of `clang::SourceManager` that `NoInclude` asks about the start of a declaration:
-- whether the location is valid, whether it has a presumed location, and whether that one has an
-- include location.
pub record Location : Type 0 where
  pub is_valid : Bool
  pub has_presumed : Bool
  pub has_include : Bool

unfoldable pub is_included : Location → Bool
is_included l =
    if l.is_valid
    then (if l.has_presumed then (if l.has_include then true else false) else false)
    else false

unfoldable pub no_include : (ℕ → Location) → Filter
unfolding is_included
no_include begin d = if is_included (begin d) then declaration else definition

unfoldable pub no_private : Filter
no_private d = definition

-- The loop of `Combine`.
unfoldable pub fold : (What → What → What) → What → List Filter → ℕ → What
fold combine result [] d = result
fold combine result (f ∷ fs) d = fold combine (combine result (f d)) fs d

unfoldable pub combine : What → (What → What → What) → List Filter → Filter
unfolding fold
combine unit op filters d = fold op unit filters d

-- What `FromComment` finds in the comment of a declaration: whether its text has the word
-- "definition", and whether it has the word "declaration".
pub record Comment : Type 0 where
  pub says_definition : Bool
  pub says_declaration : Bool

unfoldable pub from_comment : (ℕ → Option Comment) → Filter
from_comment comment_of d = elim (comment_of d) [
  | none ↦ nothing
  | some c ↦
      if c.says_definition then definition else if c.says_declaration then declaration else nothing
]
