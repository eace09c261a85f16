-- ===== src/OpaqueNames/Distinct.antt =====
-- Numbers tell what they stand for apart.
use bri_ck.Prelude.{
  ℕ, suc, ◌+◌, ◌≤◌, ◌≡◌, refl, ap, ◌∙◌, sym, inl, inr, true, false, some, List, [], ◌∷◌, ◌++◌,
  length, ◌==◌, ==_iff, Bool-cases, arith, if◌then◌else◌,
}
use mathlib.Core.Path.{subst}
use bri_ck.OpaqueNames.{
  ℤ, pos, negsuc, OpaqueNames, fresh, find_from, find_index, push_anon, find_anon, pop_back,
  pop_anon,
}

-- The number in a result that is not -1.
abbrev magnitude : ℤ → ℕ
magnitude (pos n) = n
magnitude (negsuc n) = n

find_from-here : (n e x : ℕ) (xs : List ℕ) → (x == e) ≡ true → find_from n e (x ∷ xs) ≡ pos n
unfolding find_from
find_from-here n e x xs p = rw p refl

find_from-there :
    (n e x : ℕ) (xs : List ℕ) → (x == e) ≡ false → find_from n e (x ∷ xs) ≡ find_from (suc n) e xs
unfolding find_from
find_from-there n e x xs p = rw p refl

find_from-none : (n e : ℕ) → find_from n e [] ≡ negsuc 0
unfolding find_from
find_from-none n e = refl

-- What is found is at or after the start.
find_from-start : (n e i : ℕ) (xs : List ℕ) → find_from n e xs ≡ pos i → n ≤ i
find_from-start n e i [] h =
    let clash : negsuc 0 ≡ pos i = sym (find_from-none n e) ∙ h in absurd (cc clash)
find_from-start n e i (x ∷ xs) h = elim (Bool-cases (x == e)) [
  | inl p ↦ omega (arith, ap magnitude (sym (find_from-here n e x xs p) ∙ h))
  | inr p ↦ omega (arith, find_from-start (suc n) e i xs (sym (find_from-there n e x xs p) ∙ h))
]

find_from-injective :
    (n a b i : ℕ) (xs : List ℕ) → find_from n a xs ≡ pos i → find_from n b xs ≡ pos i → a ≡ b
find_from-injective n a b i [] h k =
    let clash : negsuc 0 ≡ pos i = sym (find_from-none n a) ∙ h in absurd (cc clash)
find_from-injective n a b i (x ∷ xs) h k = elim (Bool-cases (x == a)) [
  | inl p ↦ elim (Bool-cases (x == b)) [
    | inl q ↦ omega (arith, (==_iff x a).0 p, (==_iff x b).0 q)
    | inr q ↦ absurd (
        omega (
          arith,
          ap magnitude (sym (find_from-here n a x xs p) ∙ h),
          find_from-start (suc n) b i xs (sym (find_from-there n b x xs q) ∙ k),
        ))
  ]
  | inr p ↦ elim (Bool-cases (x == b)) [
    | inl q ↦ absurd (
        omega (
          arith,
          ap magnitude (sym (find_from-here n b x xs q) ∙ k),
          find_from-start (suc n) a i xs (sym (find_from-there n a x xs p) ∙ h),
        ))
    | inr q ↦
        find_from-injective (suc n) a b i xs (sym (find_from-there n a x xs p) ∙ h)
          (sym (find_from-there n b x xs q) ∙ k)
  ]
]

find_from-other :
    (n e x : ℕ) (xs : List ℕ) → (e == x) ≡ false → find_from n x (xs ++ e ∷ []) ≡ find_from n x xs
find_from-other n e x [] p =
    find_from-there n x e [] p ∙ find_from-none (suc n) x ∙ sym (find_from-none n x)
find_from-other n e x (y ∷ xs) p = elim (Bool-cases (y == x)) [
  | inl q ↦ find_from-here n x y (xs ++ e ∷ []) q ∙ sym (find_from-here n x y xs q)
  | inr q ↦
      find_from-there n x y (xs ++ e ∷ []) q
      ∙ find_from-other (suc n) e x xs p
      ∙ sym (find_from-there n x y xs q)
]

find_from-new :
    (n e : ℕ) (xs : List ℕ)
    → find_from n e xs ≡ negsuc 0
    → find_from n e (xs ++ e ∷ []) ≡ pos (n + length xs)
find_from-new n e [] h = find_from-here n e e [] ((==_iff e e).1 refl) ∙ ap pos (omega arith)
find_from-new n e (x ∷ xs) h = elim (Bool-cases (x == e)) [
  | inl p ↦ let clash : pos n ≡ negsuc 0 = sym (find_from-here n e x xs p) ∙ h in absurd (cc clash)
  | inr p ↦
      find_from-there n e x (xs ++ e ∷ []) p
      ∙ find_from-new (suc n) e xs (sym (find_from-there n e x xs p) ∙ h)
      ∙ ap pos (omega arith)
]

pop_back-cons :
    (x y : ℕ) (xs : List ℕ) (e : ℕ) {ys : List ℕ}
    → pop_back e (y ∷ xs) ≡ some ys
    → pop_back e (x ∷ y ∷ xs) ≡ some (x ∷ ys)
unfolding pop_back
pop_back-cons x y xs e h = rw h refl

pub pop_back-append : (e : ℕ) (xs : List ℕ) → pop_back e (xs ++ e ∷ []) ≡ some xs
unfolding pop_back
pop_back-append e [] = rw ((==_iff e e).1 refl) refl
pop_back-append e (x ∷ []) = pop_back-cons x e [] e (pop_back-append e [])
pop_back-append e (x ∷ y ∷ xs) = pop_back-cons x y (xs ++ e ∷ []) e (pop_back-append e (y ∷ xs))

-- A number stands for one element only.
pub find_index-injective :
    (a b i : ℕ) (s : OpaqueNames) → find_index a s ≡ pos i → find_index b s ≡ pos i → a ≡ b
unfolding find_index
find_index-injective a b i s h k = find_from-injective 0 a b i s.indexes h k

-- If an element had no number, then after `fresh` it is found under the number that `fresh` gives, and
-- what is found for every other element, with a number or without, is what was found before.
pub find_index-fresh :
    (e x : ℕ) (s : OpaqueNames)
    → find_index e s ≡ negsuc 0
    → find_index x (fresh e s).1 ≡ (if e == x then pos (fresh e s).0 else find_index x s)
unfolding find_index fresh
find_index-fresh e x s h = elim (Bool-cases (e == x)) [
  | inl p ↦ rw p (
      subst (λ y. find_from 0 y (s.indexes ++ e ∷ []) ≡ pos (length s.indexes)) ((==_iff e x).0 p)
        (find_from-new 0 e s.indexes h ∙ ap pos (omega arith)))
  | inr p ↦ rw p (find_from-other 0 e x s.indexes p)
]

-- What `pop_anon` is given back is what `push_anon` was given, and in between a declaration that had no
-- number is found under the number that `push_anon` gave.
pub pop_anon-push_anon :
    (e : ℕ) (s : OpaqueNames)
    → find_anon e s ≡ negsuc 0
    → (pop_anon e (push_anon e s).1 ≡ some s)
      × (find_anon e (push_anon e s).1 ≡ pos (push_anon e s).0)
unfolding push_anon find_anon pop_anon
pop_anon-push_anon e s h = (
  rw (pop_anon, pop_back-append e s.anonymous) refl,
  find_from-new 0 e s.anonymous h ∙ ap pos (omega arith),
)
