-- ===== src/OpaqueNames.antt =====
-- include/OpaqueNames.hpp: numbers for what has no name in the source: the elements of arrays that are
-- being initialised, and anonymous declarations. Both are named by numbers, as pointers are compared
-- only.
pub mod Distinct
use bri_ck.Prelude.{
  ℕ, zero, suc, ◌+◌, Bool, true, false, not, ◌&&◌, Option, none, some, List, [], ◌∷◌, ◌++◌, length,
  ◌==◌, if◌then◌else◌,
}

-- `int`, far from its bounds.
pub data ℤ : Type 0 where
  pos : ℕ → ℤ
  negsuc : ℕ → ℤ

unfoldable pub succ : ℤ → ℤ
succ (pos n) = pos (suc n)
succ (negsuc zero) = pos 0
succ (negsuc (suc n)) = negsuc n

unfoldable pub pred : ℤ → ℤ
pred (pos zero) = negsuc 0
pred (pos (suc n)) = pos n
pred (negsuc n) = negsuc (suc n)

pub record OpaqueNames : Type 0 where
  pub indexes : List ℕ
  pub anonymous : List ℕ
  pub index_count : ℤ

abbrev pub no_names : OpaqueNames
no_names = record { indexes = []; anonymous = []; index_count = negsuc 0 }

unfoldable pub fresh : ℕ → OpaqueNames → ℕ × OpaqueNames
fresh e s = (length s.indexes, record s { indexes = s.indexes ++ e ∷ [] })

unfoldable pub free : ℕ → OpaqueNames → OpaqueNames
free e s = s

-- The loop of `find` and `find_anon`, from the number `n` on.
unfoldable pub find_from : ℕ → ℕ → List ℕ → ℤ
find_from n e [] = negsuc 0
find_from n e (x ∷ xs) = if x == e then pos n else find_from (suc n) e xs

unfoldable pub find_index : ℕ → OpaqueNames → ℤ
unfolding find_from
find_index e s = find_from 0 e s.indexes

unfoldable pub push_anon : ℕ → OpaqueNames → ℕ × OpaqueNames
push_anon e s = (length s.anonymous, record s { anonymous = s.anonymous ++ e ∷ [] })

unfoldable pub find_anon : ℕ → OpaqueNames → ℤ
unfolding find_from
find_anon e s = find_from 0 e s.anonymous

-- The list without its last member, which must be `e`; `none` is a failed `assert`.
unfoldable pub pop_back : ℕ → List ℕ → Option (List ℕ)
pop_back e [] = none
pop_back e (x ∷ []) = if x == e then some [] else none
pop_back e (x ∷ y ∷ xs) = elim (pop_back e (y ∷ xs)) [ none ↦ none | some ys ↦ some (x ∷ ys) ]

unfoldable pub pop_anon : ℕ → OpaqueNames → Option OpaqueNames
unfolding pop_back
pop_anon e s = elim (pop_back e s.anonymous) [
  | none ↦ none
  | some xs ↦ some (record s { anonymous = xs })
]

unfoldable pub inc_index_count : OpaqueNames → OpaqueNames
unfolding succ
inc_index_count s = record s { index_count = succ s.index_count }

unfoldable pub dec_index_count : OpaqueNames → OpaqueNames
unfolding pred
dec_index_count s = record s { index_count = pred s.index_count }
