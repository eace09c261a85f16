-- ===== src/CoqPrinter/Words.antt =====
-- The words that a routine prints: the texts and parentheses that it sends, without spaces and line
-- breaks. `none`: the routine aborts.
use bri_ck.Prelude.{
  ◌≡◌, refl, ap, Option, none, some, List, [], ◌∷◌, ◌++◌, Text, String, codes, append_assoc,
  append-nil,
}
use bri_ck.Formatter.{Doc, write, nbsp, indent, outdent, lparen, rparen, line}
use bri_ck.CoqPrinter.{
  Print, pure, done, aborts, prefix, ◌>>=◌, ◌>>◌, ctor, ctor_inline, end_ctor, out, str, print_some,
  print_none, begin_tuple, end_tuple, begin_list, end_list, space, newline, apsint, print_cons,
  next_tuple, digits, arch,
}

abbrev pub words : Doc → List Text
words [] = []
words (write t ∷ d) = t ∷ words d
words (lparen ∷ d) = codes "(" ∷ words d
words (rparen ∷ d) = codes ")" ∷ words d
words (_ ∷ d) = words d

abbrev pub words_of : {A : Type 0} → Print A → Option (List Text)
words_of (done a d) = some (words d)
words_of aborts = none

-- One after the other; nothing if either aborts.
unfoldable pub join : Option (List Text) → Option (List Text) → Option (List Text)
join none y = none
join (some a) none = none
join (some a) (some b) = some (a ++ b)

pub join_assoc : (x y z : Option (List Text)) → join (join x y) z ≡ join x (join y z)
unfolding join
join_assoc none y z = refl
join_assoc (some a) none z = refl
join_assoc (some a) (some b) none = refl
join_assoc (some a) (some b) (some c) = ap some (append_assoc a b c)

pub join-nil : (x : Option (List Text)) → join (some []) x ≡ x
unfolding join
join-nil none = refl
join-nil (some a) = refl

pub join-nil_right : (x : Option (List Text)) → join x (some []) ≡ x
unfolding join
join-nil_right none = refl
join-nil_right (some a) = ap some (append-nil a)

pub words_of-pure : words_of (pure tt) ≡ some []
words_of-pure = refl

-- Three words that a term has together are printed one by one.
pub join-three :
    (a b c : Text) (x : Option (List Text))
    → join (some (a ∷ b ∷ c ∷ [])) x
      ≡ join (some (a ∷ [])) (join (some (b ∷ [])) (join (some (c ∷ [])) x))
unfolding join
join-three a b c none = refl
join-three a b c (some w) = refl

pub words-append : (d e : Doc) → words (d ++ e) ≡ words d ++ words e
words-append [] e = refl
words-append (write t ∷ d) e = ap (λ w. t ∷ w) (words-append d e)
words-append (lparen ∷ d) e = ap (λ w. codes "(" ∷ w) (words-append d e)
words-append (rparen ∷ d) e = ap (λ w. codes ")" ∷ w) (words-append d e)
words-append (nbsp ∷ d) e = words-append d e
words-append (indent ∷ d) e = words-append d e
words-append (outdent ∷ d) e = words-append d e
words-append (line ∷ d) e = words-append d e

words_of-prefix :
    {A : Type 0} (d : Doc) (m : Print A)
    → words_of (prefix d m) ≡ join (some (words d)) (words_of m)
unfolding prefix join
words_of-prefix d (done a e) = ap some (words-append d e)
words_of-prefix d aborts = refl

pub words_of->> :
    {B : Type 0} (m : Print (Unit {0})) (k : Print B)
    → words_of (m >> k) ≡ join (words_of m) (words_of k)
unfolding ◌>>=◌ join
words_of->> (done tt d) k = words_of-prefix d k
words_of->> aborts k = refl

-- A routine that returns a value: the words of the value's continuation follow.
pub words_of->>= :
    {A B : Type 0} (a : A) (d : Doc) (f : A → Print B)
    → words_of (done a d >>= f) ≡ join (some (words d)) (words_of (f a))
unfolding ◌>>=◌
words_of->>= a d f = words_of-prefix d (f a)

-- The words of each operation of `CoqPrinter`.
pub words_of-ctor : (s : String) → words_of (ctor s) ≡ some (codes "(" ∷ codes s ∷ [])
unfolding ctor
words_of-ctor s = refl

pub words_of-ctor_inline : (s : String) → words_of (ctor_inline s) ≡ some (codes "(" ∷ codes s ∷ [])
unfolding ctor_inline
words_of-ctor_inline s = refl

pub words_of-some : words_of print_some ≡ some (codes "(" ∷ codes "Some" ∷ [])
unfolding print_some
words_of-some = refl

pub words_of-none : words_of print_none ≡ some (codes "None" ∷ [])
unfolding print_none
words_of-none = refl

pub words_of-begin_list : words_of begin_list ≡ some (codes "(" ∷ [])
unfolding begin_list
words_of-begin_list = refl

pub words_of-end_list : words_of end_list ≡ some (codes "nil" ∷ codes ")" ∷ [])
unfolding end_list
words_of-end_list = refl

pub words_of-end : words_of end_ctor ≡ some (codes ")" ∷ [])
unfolding end_ctor
words_of-end = refl

pub words_of-out : (s : String) → words_of (out s) ≡ some (codes s ∷ [])
unfolding out
words_of-out s = refl

pub words_of-space : words_of space ≡ some ([])
unfolding space
words_of-space = refl

pub words_of-newline : words_of newline ≡ some ([])
unfolding newline
words_of-newline = refl

pub words_of-str : (t : Text) → words_of (str t) ≡ some (codes "\"" ∷ t ∷ codes "\"" ∷ [])
unfolding str
words_of-str t = refl

pub words_of-apsint : (t : Text) → words_of (apsint t) ≡ some (codes "(" ∷ t ∷ codes ")%Z" ∷ [])
unfolding apsint
words_of-apsint t = refl

pub words_of-cons : words_of print_cons ≡ some (codes "::" ∷ [])
unfolding print_cons
words_of-cons = refl

pub words_of-begin_tuple : words_of begin_tuple ≡ some (codes "(" ∷ [])
unfolding begin_tuple
words_of-begin_tuple = refl

pub words_of-end_tuple : words_of end_tuple ≡ some (codes ")" ∷ [])
unfolding end_tuple
words_of-end_tuple = refl

pub words_of-next_tuple : words_of next_tuple ≡ some (codes "," ∷ [])
unfolding next_tuple
words_of-next_tuple = refl

pub words_of-digits : (t : Text) → words_of (digits t) ≡ some (t ∷ [])
unfolding digits
words_of-digits t = refl

pub words_of-arch :
    (t : Text)
    → words_of (arch t) ≡ some (codes "(" ∷ codes "Tarch None \"" ∷ t ∷ codes "\"" ∷ codes ")" ∷ [])
unfolding arch
words_of-arch t = refl

pub ruleset wording = (
  words_of->>, words_of-ctor, words_of-ctor_inline, words_of-some, words_of-none,
  words_of-begin_list, words_of-end_list, words_of-end, words_of-out, words_of-space,
  words_of-newline, words_of-str, words_of-apsint, words_of-cons, words_of-begin_tuple,
  words_of-end_tuple, words_of-next_tuple, words_of-digits, words_of-arch, join_assoc, join-nil,
  join-nil_right,
)
