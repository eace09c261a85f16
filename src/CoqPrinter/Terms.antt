-- ===== src/CoqPrinter/Terms.antt =====
-- Coq terms, as far as the generated files use them, and their concrete syntax as words.
use bri_ck.Prelude.{
  ◌≡◌, refl, Option, none, some, List, [], ◌∷◌, String, Text, codes, Bool, true, false,
}
use bri_ck.CoqPrinter.{Print, boolean, out, items, list_range, option}
use bri_ck.CoqPrinter.Words.{join, words_of, wording}

mutual
  pub data Term : Type 0 where
    atom : List Text → Term  -- the words as they stand
    app : String → Terms → Term  -- (c a₁ … aₙ)
    list : Terms → Term  -- (a₁ :: … :: aₙ :: nil)
    pair : Term → Term → Term  -- (a, b)
    triple : Term → Term → Term → Term  -- (a, b, c)
    beside : Terms → Term  -- a₁ … aₙ, the arguments of a constructor that are printed together
    conses : Terms → Term  -- a₁ :: … :: aₙ, not in parentheses
    aborted : Term  -- there is no term: printing aborts

  pub data Terms : Type 0 where
    nil : Terms
    cons : Term → Terms → Terms

-- A word.
abbrev pub word : String → Term
word s = atom (codes s ∷ [])

-- A quoted string.
abbrev pub quoted : Text → Term
quoted t = atom (codes "\"" ∷ t ∷ codes "\"" ∷ [])

abbrev pub one : Term → Terms
one t = Terms.cons t Terms.nil

abbrev pub two : Term → Term → Terms
two t u = Terms.cons t (one u)

abbrev pub bool : Bool → Term
bool true = word "true"
bool false = word "false"

unfoldable mutual
  pub flatten : Term → Option (List Text)
  flatten (atom ws) = some ws
  flatten (app c ts) =
      join (some (codes "(" ∷ codes c ∷ [])) (join (flatten_args ts) (some (codes ")" ∷ [])))
  flatten (list ts) =
      join (some (codes "(" ∷ [])) (join (flatten_list ts) (some (codes "nil" ∷ codes ")" ∷ [])))
  flatten (pair a b) =
      join (some (codes "(" ∷ []))
        (join (flatten a) (join (some (codes "," ∷ [])) (join (flatten b) (some (codes ")" ∷ [])))))
  flatten (triple a b c) = join (some (codes "(" ∷ [])) (
      join (flatten a) (
        join (some (codes "," ∷ [])) (
          join (flatten b)
            (join (some (codes "," ∷ [])) (join (flatten c) (some (codes ")" ∷ [])))))))
  flatten (beside ts) = flatten_args ts
  flatten (conses ts) = flatten_conses ts
  flatten aborted = none

  pub flatten_args : Terms → Option (List Text)
  flatten_args nil = some []
  flatten_args (cons t ts) = join (flatten t) (flatten_args ts)

  -- Each item is followed by `::`.
  pub flatten_list : Terms → Option (List Text)
  flatten_list nil = some []
  flatten_list (cons t ts) = join (flatten t) (join (some (codes "::" ∷ [])) (flatten_list ts))

  -- `::` stands between the items.
  pub flatten_conses : Terms → Option (List Text)
  flatten_conses nil = some []
  flatten_conses (cons t nil) = flatten t
  flatten_conses (cons t (cons u ts)) =
      join (flatten t) (join (some (codes "::" ∷ [])) (flatten_conses (cons u ts)))

pub words_of-boolean : (b : Bool) → words_of (boolean b) ≡ flatten (bool b)
unfolding boolean flatten out
words_of-boolean true = refl
words_of-boolean false = refl

-- How a routine for the items of a list prints them: each is its term.
abbrev pub Prints : {A : Type 0} → (A → Print (Unit {0})) → (A → Term) → Type 0
Prints {A} f t = (a : A) → words_of (f a) ≡ flatten (t a)

module _ {A : Type 0} (t : A → Term) where
  abbrev pub terms : List A → Terms
  terms [] = nil
  terms (a ∷ xs) = cons (t a) (terms xs)

  -- `list_range` prints an empty list without parentheses.
  abbrev pub range : List A → Term
  range [] = word "nil"
  range (a ∷ xs) = list (terms (a ∷ xs))

  abbrev pub optional : Option A → Term
  optional none = word "None"
  optional (some a) = app "Some" (cons (t a) nil)

module _ {A : Type 0} (f : A → Print (Unit {0})) (t : A → Term) (h : Prints f t) where
  pub items-flatten : (xs : List A) → words_of (items f xs) ≡ flatten_list (terms t xs)
  unfolding items flatten
  items-flatten [] = refl
  items-flatten (a ∷ xs) = simp (wording, h, items-flatten xs)

  pub list_range-flatten : (xs : List A) → words_of (list_range f xs) ≡ flatten (range t xs)
  unfolding list_range flatten
  list_range-flatten [] = simp wording
  list_range-flatten (a ∷ xs) = simp (wording, h, items-flatten xs)

  pub option-flatten : (o : Option A) → words_of (option f o) ≡ flatten (optional t o)
  unfolding option flatten
  option-flatten none = simp wording
  option-flatten (some a) = simp (wording, h)
