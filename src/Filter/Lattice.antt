-- ===== src/Filter/Lattice.antt =====
-- The combination of filters by `max` and `min`.
use bri_ck.Prelude.{ℕ, ◌≤◌, ◌≡◌, refl, ◌⊎◌, inl, inr, List, [], ◌∷◌, ◌∙◌, sym, arith}
use bri_ck.Filter.{What, Filter, nothing, declaration, definition, rank, min, max, fold, combine}

-- `w` is what some filter of the list says of `d`.
abbrev pub Says : List Filter → ℕ → What → Type 0
Says [] d w = ⊥
Says (f ∷ fs) d w = (f d ≡ w) ⊎ Says fs d w

max_bounds : (a b : What) → (rank a ≤ rank (max a b)) × (rank b ≤ rank (max a b))
unfolding max
max_bounds a b = ground arith

min_bounds : (a b : What) → (rank (min a b) ≤ rank a) × (rank (min a b) ≤ rank b)
unfolding min
min_bounds a b = ground arith

max-cases : (a b : What) → (max a b ≡ a) ⊎ (max a b ≡ b)
unfolding max
max-cases a b = ground arith

min-cases : (a b : What) → (min a b ≡ a) ⊎ (min a b ≡ b)
unfolding min
min-cases a b = ground arith

fold-max_start : (fs : List Filter) (w : What) (d : ℕ) → rank w ≤ rank (fold max w fs d)
unfolding fold
fold-max_start [] w d = omega arith
fold-max_start (f ∷ fs) w d = omega (arith, fold-max_start fs (max w (f d)) d, max_bounds w (f d))

fold-min_start : (fs : List Filter) (w : What) (d : ℕ) → rank (fold min w fs d) ≤ rank w
unfolding fold
fold-min_start [] w d = omega arith
fold-min_start (f ∷ fs) w d = omega (arith, fold-min_start fs (min w (f d)) d, min_bounds w (f d))

fold-max_bound :
    (fs : List Filter) (w v : What) (d : ℕ) → Says fs d v → rank v ≤ rank (fold max w fs d)
unfolding fold
fold-max_bound [] w v d s = absurd s
fold-max_bound (f ∷ fs) w v d (inl e) =
    rw (← e) (omega (arith, fold-max_start fs (max w (f d)) d, max_bounds w (f d)))
fold-max_bound (f ∷ fs) w v d (inr s) = fold-max_bound fs (max w (f d)) v d s

fold-min_bound :
    (fs : List Filter) (w v : What) (d : ℕ) → Says fs d v → rank (fold min w fs d) ≤ rank v
unfolding fold
fold-min_bound [] w v d s = absurd s
fold-min_bound (f ∷ fs) w v d (inl e) =
    rw (← e) (omega (arith, fold-min_start fs (min w (f d)) d, min_bounds w (f d)))
fold-min_bound (f ∷ fs) w v d (inr s) = fold-min_bound fs (min w (f d)) v d s

-- An operation that returns one of its arguments makes a fold return the unit or what a filter says.
fold-Says :
    (op : What → What → What)
    → ((a b : What) → (op a b ≡ a) ⊎ (op a b ≡ b))
    → (fs : List Filter) (w : What) (d : ℕ) → (fold op w fs d ≡ w) ⊎ Says fs d (fold op w fs d)
unfolding fold
fold-Says op pick [] w d = inl refl
fold-Says op pick (f ∷ fs) w d = elim (fold-Says op pick fs (op w (f d)) d) [
  | inr s ↦ inr (inr s)
  | inl e ↦ elim (pick w (f d)) [ inl p ↦ inl (e ∙ p) | inr p ↦ inr (inl (sym (e ∙ p))) ]
]

is_nothing : (v : What) → rank v ≤ 0 → v ≡ nothing
unfolding rank
is_nothing nothing h = refl
is_nothing declaration h = absurd (omega (arith, h))
is_nothing definition h = absurd (omega (arith, h))

is_definition : (v : What) → 2 ≤ rank v → v ≡ definition
unfolding rank
is_definition nothing h = absurd (omega (arith, h))
is_definition declaration h = absurd (omega (arith, h))
is_definition definition h = refl

-- Where some filter of the list has a say, the filters joined by `max` from `nothing` say what one of
-- them says, and no filter of the list says more.
pub combine-max :
    (fs : List Filter) (d : ℕ) (v : What)
    → Says fs d v
    → Says fs d (combine nothing max fs d) × (rank v ≤ rank (combine nothing max fs d))
unfolding combine rank
combine-max fs d v s =
    let bound = fold-max_bound fs nothing v d s in
    elim (fold-Says max max-cases fs nothing d) [
      | inr said ↦ (said, bound)
      | inl e ↦ (rw (e, ← is_nothing v (rw e at bound)) s, bound)
    ]

-- Where some filter of the list has a say, the filters joined by `min` from `definition` say what one
-- of them says, and no filter of the list says less.
pub combine-min :
    (fs : List Filter) (d : ℕ) (v : What)
    → Says fs d v
    → Says fs d (combine definition min fs d) × (rank (combine definition min fs d) ≤ rank v)
unfolding combine rank
combine-min fs d v s =
    let bound = fold-min_bound fs definition v d s in
    elim (fold-Says min min-cases fs definition d) [
      | inr said ↦ (said, bound)
      | inl e ↦ (rw (e, ← is_definition v (rw e at bound)) s, bound)
    ]
