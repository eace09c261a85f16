-- ===== src/SpecCollector/Attached.antt =====
-- Which declaration a comment is attached to.
use bri_ck.Prelude.{
  ℕ, ◌≡◌, refl, false, Option, none, some, List, ◌∷◌, ◌==◌, if◌then◌else◌, inl, inr, ==_iff,
  Bool-cases, Option-cases, arith,
}
use mathlib.Core.Path.{subst}
use bri_ck.SpecCollector.{Comment, SpecCollector, find, insert, add_specification, decl_for_comment}

-- The declaration that was there before, or else the new one.
unfoldable pub first : Option ℕ → ℕ → ℕ
first none d = d
first (some e) d = e

first-none : (d : ℕ) → first none d ≡ d
unfolding first
first-none d = refl

first-some : (e d : ℕ) → first (some e) d ≡ e
unfolding first
first-some e d = refl

find-here : (k j v : ℕ) (m : List (ℕ × ℕ)) → j ≡ k → find k ((j, v) ∷ m) ≡ some v
unfolding find
find-here k j v m h = ground arith

find-there : (k j v : ℕ) (m : List (ℕ × ℕ)) → (j == k) ≡ false → find k ((j, v) ∷ m) ≡ find k m
unfolding find
find-there k j v m p = rw p refl

insert-new : (j v : ℕ) (m : List (ℕ × ℕ)) → find j m ≡ none → insert j v m ≡ (j, v) ∷ m
unfolding insert
insert-new j v m e = rw (insert, e) refl

insert-old : (j v a : ℕ) (m : List (ℕ × ℕ)) → find j m ≡ some a → insert j v m ≡ m
unfolding insert
insert-old j v a m e = rw (insert, e) refl

find-insert_same :
    (k j v : ℕ) (m : List (ℕ × ℕ)) → j ≡ k → find k (insert j v m) ≡ some (first (find k m) v)
find-insert_same k j v m h = elim (Option-cases (find j m)) [
  | inl e ↦
      let q : find k m ≡ none = subst (λ x. find x m ≡ none) h e in
      rw (insert-new j v m e, find-here k j v m h, q, first-none) refl
  | inr (a, e) ↦
      let q : find k m ≡ some a = subst (λ x. find x m ≡ some a) h e in
      rw (insert-old j v a m e, q, first-some) refl
]

find-insert_other :
    (k j v : ℕ) (m : List (ℕ × ℕ)) → (j == k) ≡ false → find k (insert j v m) ≡ find k m
find-insert_other k j v m p = elim (Option-cases (find j m)) [
  | inl e ↦ rw (insert-new j v m e) (find-there k j v m p)
  | inr (a, e) ↦ rw (insert-old j v a m e) refl
]

find-insert :
    (k j v : ℕ) (m : List (ℕ × ℕ))
    → find k (insert j v m) ≡ (if j == k then some (first (find k m) v) else find k m)
find-insert k j v m = elim (Bool-cases (j == k)) [
  | inl p ↦ rw p (find-insert_same k j v m ((==_iff j k).0 p))
  | inr p ↦ rw p (find-insert_other k j v m p)
]

-- A comment is attached to the first declaration that it was added for, and an addition changes
-- nothing for the other comments.
pub decl_for_comment-add_specification :
    (d k : ℕ) (c : Comment) (s : SpecCollector)
    → decl_for_comment k (add_specification d c s)
      ≡ (if c.raw == k then some (first (decl_for_comment k s) d) else decl_for_comment k s)
unfolding decl_for_comment add_specification
decl_for_comment-add_specification d k c s = elim (Option-cases c.full) [
  | inl e ↦ rw e (find-insert k c.raw d s.comment_decl)
  | inr (f, e) ↦ rw e (find-insert k c.raw d s.comment_decl)
]
