-- ===== src/CoqPrinter/Moves.antt =====
-- What a routine does to the depth of the formatter.
use bri_ck.Prelude.{
  ℕ, zero, suc, ◌≡◌, refl, ◌∙◌, Option, none, some, Bool, true, false, List, [], ◌∷◌, ◌++◌, String,
  Text, if◌then◌else◌,
}
use bri_ck.Formatter.{Doc}
use bri_ck.Formatter.Depth.{shift, shift-append, IsBalanced}
use mathlib.Core.Path.{subst}
use bri_ck.CoqPrinter.{
  Print, done, aborts, prefix, ◌>>=◌, ◌>>◌, ctor, ctor_inline, end_ctor, out, str, print_some,
  print_none, begin_tuple, end_tuple, begin_list, end_list, space, newline, apsint, digits, arch,
  print_cons, next_tuple, pure, boolean, items, list_range, option, cons_if, items_filter,
}

abbrev pub up : ℕ → ℕ → ℕ
up zero n = n
up (suc k) n = suc (suc (up k n))

-- If the routine does not abort, it can be run `i` levels deep in anything and ends `j` levels deep.
pub data Moves {A : Type 0} (i j : ℕ) : Print A → Type 0 where
  stays : {a : A} {d : Doc} → ((n : ℕ) → shift d (up i n) ≡ some (up j n)) → Moves i j (done a d)
  stops : Moves i j aborts

shift-then : (d e : Doc) (n : ℕ) {m : ℕ} → shift d n ≡ some m → shift (d ++ e) n ≡ shift e m
shift-then d e n h = shift-append d e n ∙ rw h

Moves-prefix :
    {A : Type 0} (i j k : ℕ) (d : Doc) {m : Print A}
    → ((n : ℕ) → shift d (up i n) ≡ some (up j n))
    → Moves j k m
    → Moves i k (prefix d m)
unfolding prefix
Moves-prefix i j k d h (stays {d = e} g) = stays λ n. shift-then d e (up i n) (h n) ∙ g n
Moves-prefix i j k d h stops = stops

pub Moves->>= :
    {A B : Type 0} {i j k : ℕ} {m : Print A} {f : A → Print B}
    → Moves i j m
    → ((a : A) → Moves j k (f a))
    → Moves i k (m >>= f)
unfolding ◌>>=◌
Moves->>= {i = i} {j = j} {k = k} (stays {a} {d} h) g = Moves-prefix i j k d h (g a)
Moves->>= stops g = stops

pub Moves->> :
    {B : Type 0} {i j k : ℕ} {m : Print (Unit {0})} {n : Print B}
    → Moves i j m
    → Moves j k n
    → Moves i k (m >> n)
Moves->> h g = Moves->>= h λ _. g

-- The rules for a sequence of operations.
infixr 3 ◌then◌
pub ◌then◌ :
    {B : Type 0} {i j k : ℕ} {m : Print (Unit {0})} {n : Print B}
    → Moves i j m
    → Moves j k n
    → Moves i k (m >> n)
h then g = Moves->> h g

-- One rule for each operation of `CoqPrinter`.
pub Moves-ctor : {i : ℕ} (s : String) → Moves i (suc i) (ctor s)
unfolding shift ctor
Moves-ctor s = stays λ n. refl

pub Moves-ctor_inline : {i : ℕ} (s : String) → Moves i (suc i) (ctor_inline s)
unfolding shift ctor_inline
Moves-ctor_inline s = stays λ n. refl

pub Moves-some : {i : ℕ} → Moves i (suc i) print_some
unfolding shift print_some
Moves-some = stays λ n. refl

pub Moves-begin_list : {i : ℕ} → Moves i (suc i) begin_list
unfolding shift begin_list
Moves-begin_list = stays λ n. refl

pub Moves-end : {i : ℕ} → Moves (suc i) i end_ctor
unfolding shift end_ctor
Moves-end = stays λ n. refl

pub Moves-end_list : {i : ℕ} → Moves (suc i) i end_list
unfolding shift end_list
Moves-end_list = stays λ n. refl

pub Moves-out : {i : ℕ} (s : String) → Moves i i (out s)
unfolding shift out
Moves-out s = stays λ n. refl

pub Moves-space : {i : ℕ} → Moves i i space
unfolding shift space
Moves-space = stays λ n. refl

pub Moves-newline : {i : ℕ} → Moves i i newline
unfolding shift newline
Moves-newline = stays λ n. refl

pub Moves-none : {i : ℕ} → Moves i i print_none
unfolding shift print_none
Moves-none = stays λ n. refl

pub Moves-str : {i : ℕ} (t : Text) → Moves i i (str t)
unfolding shift str
Moves-str t = stays λ n. refl

pub Moves-apsint : {i : ℕ} (t : Text) → Moves i i (apsint t)
unfolding shift apsint
Moves-apsint t = stays λ n. refl

pub Moves-digits : {i : ℕ} (t : Text) → Moves i i (digits t)
unfolding shift digits
Moves-digits t = stays λ n. refl

pub Moves-arch : {i : ℕ} (t : Text) → Moves i i (arch t)
unfolding shift arch
Moves-arch t = stays λ n. refl

pub Moves-cons : {i : ℕ} → Moves i i print_cons
unfolding shift print_cons
Moves-cons = stays λ n. refl

pub Moves-begin_tuple : {i : ℕ} → Moves i i begin_tuple
unfolding shift begin_tuple
Moves-begin_tuple = stays λ n. refl

pub Moves-end_tuple : {i : ℕ} → Moves i i end_tuple
unfolding shift end_tuple
Moves-end_tuple = stays λ n. refl

pub Moves-next_tuple : {i : ℕ} → Moves i i next_tuple
unfolding shift next_tuple
Moves-next_tuple = stays λ n. refl

pub Moves-pure : {A : Type 0} {i : ℕ} {a : A} → Moves i i (pure a)
unfolding shift
Moves-pure = stays λ n. refl

pub Moves-boolean : {i : ℕ} (b : Bool) → Moves i i (boolean b)
unfolding boolean
Moves-boolean true = Moves-out "true"
Moves-boolean false = Moves-out "false"

pub Moves-if :
    {A : Type 0} (b : Bool) {i j : ℕ} {p q : Print A}
    → Moves i j p
    → Moves i j q
    → Moves i j (if b then p else q)
Moves-if true h k = h
Moves-if false h k = k

-- A routine that prints something whole.
abbrev pub IsLevel : {A : Type 0} → Print A → Type 0
IsLevel m = (i : ℕ) → Moves i i m

module _ {A : Type 0} (f : A → Print (Unit {0})) (level : (a : A) → IsLevel (f a)) where
  pub items-IsLevel : (xs : List A) → IsLevel (items f xs)
  unfolding items
  items-IsLevel [] i = Moves-pure
  items-IsLevel (a ∷ xs) i = Moves->> (level a i) (Moves->> Moves-cons (items-IsLevel xs i))

  pub list_range-IsLevel : (xs : List A) → IsLevel (list_range f xs)
  unfolding list_range
  list_range-IsLevel [] i = Moves-out "nil"
  list_range-IsLevel (a ∷ xs) i =
      Moves->> Moves-begin_list (Moves->> (items-IsLevel (a ∷ xs) (suc i)) Moves-end_list)

  pub option-IsLevel : (o : Option A) → IsLevel (option f o)
  unfolding option
  option-IsLevel none i = Moves-none
  option-IsLevel (some a) i = Moves->> Moves-some (Moves->> (level a (suc i)) Moves-end)

pub cons_if-IsLevel : (b : Bool) → IsLevel (cons_if b)
unfolding cons_if
cons_if-IsLevel true i = Moves-cons
cons_if-IsLevel false i = Moves-pure

module _ {A : Type 0} (f : A → Print Bool) (level : (a : A) → IsLevel (f a)) where
  pub items_filter-IsLevel : (xs : List A) → IsLevel (items_filter f xs)
  unfolding items_filter
  items_filter-IsLevel [] i = Moves-pure
  items_filter-IsLevel (a ∷ xs) i =
      Moves->>= (level a i) λ b. Moves->> (cons_if-IsLevel b i) (items_filter-IsLevel xs i)

-- The calls of a whole routine are balanced.
pub IsLevel-IsBalanced :
    {A : Type 0} (m : Print A) (a : A) (d : Doc) → IsLevel m → m ≡ done a d → IsBalanced d
IsLevel-IsBalanced m a d h e = balanced (subst (Moves 0 0) e (h 0))
  where
    balanced : Moves 0 0 (done a d) → IsBalanced d
    balanced (stays g) = g

pub ruleset moves = (
  Moves->>, Moves-ctor, Moves-ctor_inline, Moves-some, Moves-none, Moves-end, Moves-begin_list,
  Moves-end_list, Moves-out, Moves-space, Moves-newline, Moves-str, Moves-apsint, Moves-cons,
  Moves-begin_tuple, Moves-end_tuple, Moves-next_tuple, Moves-pure, Moves-boolean,
)
