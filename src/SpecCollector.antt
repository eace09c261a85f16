-- ===== src/SpecCollector.antt =====
-- include/SpecCollector.hpp: the comments that stand before definitions. A raw comment, a full
-- comment and a declaration are named by numbers.
pub mod Attached
use bri_ck.Prelude.{ℕ, Option, none, some, List, [], ◌∷◌, ◌++◌, if◌then◌else◌, ◌==◌}

-- What clang answers for a declaration with a comment: the raw comment, and the full comment, which
-- may be missing.
pub record Comment : Type 0 where
  pub raw : ℕ
  pub full : Option ℕ

pub record SpecCollector : Type 0 where
  pub specifications : List (ℕ × ℕ)
  pub comment_decl : List (ℕ × ℕ)
  pub attached : List ℕ  -- the raw comments that were told so, the last first

abbrev pub no_specs : SpecCollector
no_specs = record { specifications = []; comment_decl = []; attached = [] }

-- `std::map::find`.
unfoldable pub find : ℕ → List (ℕ × ℕ) → Option ℕ
find k [] = none
find k ((j, v) ∷ m) = if j == k then some v else find k m

-- `std::map::insert`, which keeps the value of a key that is there.
unfoldable pub insert : ℕ → ℕ → List (ℕ × ℕ) → List (ℕ × ℕ)
unfolding find
insert k v m = elim (find k m) [ none ↦ (k, v) ∷ m | some _ ↦ m ]

unfoldable pub add_specification : ℕ → Comment → SpecCollector → SpecCollector
unfolding insert
add_specification decl c s =
    let t = record s {
      attached = c.raw ∷ s.attached;
      comment_decl = insert c.raw decl s.comment_decl;
    } in
    elim c.full [
      | none ↦ t
      | some comment ↦ record t { specifications = t.specifications ++ (decl, comment) ∷ [] }
    ]

unfoldable pub decl_for_comment : ℕ → SpecCollector → Option ℕ
unfolding find
decl_for_comment c s = find c s.comment_decl
