-- ===== src/Names/Mangled.antt =====
-- `printSimpleContext` prints nested names as the Itanium ABI has them.
use bri_ck.Prelude.{
  ℕ, suc, ◌+◌, ◌≡◌, refl, ap, ◌∙◌, sym, Bool, true, false, ◌&&◌, some, List, [], ◌∷◌, ◌++◌, Text,
  String, codes, ltb, ◌==◌, length, if◌then◌else◌, append_assoc, append-nil, arith,
}
use bri_ck.Formatter.{Doc}
use bri_ck.CoqPrinter.{Print, done, prefix, ◌>>=◌, ◌>>◌, pure, out, digits}
use bri_ck.CoqPrinter.Words.{words, words-append}
use bri_ck.Names.{
  Scope, unit, namespace, record_, enum, linkage, identifier, typedef_name, enum_identifier,
  print_identifier, print_namespace_name, print_record_name, print_enum_name, print_end, print_if,
  print_context, scoped, print_type_name,
}

unfoldable pub concat : List Text → Text
concat [] = []
concat (w ∷ ws) = w ++ concat ws

concat-append : (u w : List Text) → concat (u ++ w) ≡ concat u ++ concat w
unfolding concat
concat-append [] w = refl
concat-append (x ∷ u) w =
    ap (λ l. x ++ l) (concat-append u w) ∙ sym (append_assoc x (concat u) (concat w))

-- The routine returns the value and prints the text.
pub data Spells {A : Type 0} : Print A → A → Text → Type 0 where
  spells : {a : A} {d : Doc} {t : Text} → concat (words d) ≡ t → Spells (done a d) a t

Spells-≡ : {A : Type 0} {m : Print A} {a : A} {t u : Text} → Spells m a t → t ≡ u → Spells m a u
Spells-≡ (spells h) e = spells (h ∙ e)

Spells-prefix :
    {A : Type 0} (d : Doc) {m : Print A} {a : A} {t : Text}
    → Spells m a t
    → Spells (prefix d m) a (concat (words d) ++ t)
unfolding prefix
Spells-prefix d (spells {d = e} h) = spells (
    ap concat (words-append d e)
    ∙ concat-append (words d) (words e)
    ∙ ap (λ l. concat (words d) ++ l) h)

Spells->>= :
    {A B : Type 0} {m : Print A} {a : A} {t u : Text} (k : A → Print B) {b : B}
    → Spells m a t
    → Spells (k a) b u
    → Spells (m >>= k) b (t ++ u)
unfolding ◌>>=◌
Spells->>= {u = u} k (spells {d = d} h) g = Spells-≡ (Spells-prefix d g) (ap (λ l. l ++ u) h)

Spells->> :
    {B : Type 0} {m : Print (Unit {0})} {t u : Text} {n : Print B} {b : B}
    → Spells m tt t
    → Spells n b u
    → Spells (m >> n) b (t ++ u)
Spells->> h g = Spells->>= _ h g

Spells-digits : (t : Text) → Spells (digits t) tt t
unfolding digits concat
Spells-digits t = spells (append-nil t)

Spells-out : (w : String) → Spells (out w) tt (codes w)
unfolding out concat
Spells-out w = spells (append-nil (codes w))

Spells-pure : {A : Type 0} {a : A} → Spells (pure a) a []
unfolding concat
Spells-pure = spells refl

-- A scope of named namespaces, records and enumerations, with their names, the innermost first. A
-- linkage specification has no name of its own.
pub data IsPath : Scope → List Text → Type 0 where
  in_unit : IsPath unit []
  in_namespace :
      {n : Text} {is_empty : Bool} {s : Scope} {ns : List Text}
      → IsPath s ns
      → IsPath (namespace (some n) is_empty s) (n ∷ ns)
  in_record :
      {n : Text} {s : Scope} {ns : List Text}
      → IsPath s ns
      → IsPath (record_ (identifier n) s) (n ∷ ns)
  in_typedef :
      {n : Text} {s : Scope} {ns : List Text}
      → IsPath s ns
      → IsPath (record_ (typedef_name n) s) (n ∷ ns)
  in_enum :
      {n : Text} {s : Scope} {ns : List Text}
      → IsPath s ns
      → IsPath (enum (enum_identifier n) s) (n ∷ ns)
  in_linkage : {s : Scope} {ns : List Text} → IsPath s ns → IsPath (linkage s) ns

abbrev when : Bool → String → Text
when true w = codes w
when false w = []

suc_is_nonzero : (r : ℕ) → (suc r == 0) ≡ false
suc_is_nonzero r = ground arith

one_more : (k : ℕ) → ltb 0 k ≡ ltb 1 (suc k)
one_more k = ground arith

and-false : (b : Bool) → (b && false) ≡ false
and-false true = refl
and-false false = refl

assemble : (z m s p e : Text) → (z ++ m ++ s ++ []) ++ (p ++ (e ++ [])) ≡ z ++ m ++ (s ++ p) ++ e
assemble z m s p e = simp (append_assoc, append-nil)

Spells-end_if : (b : Bool) → Spells (if b then out "E" else pure tt) tt (when b "E")
Spells-end_if true = Spells-out "E"
Spells-end_if false = Spells-pure

module _ (decimal : ℕ → Text) where
  -- Each name after its length, the outermost first
  unfoldable pub source_names : List Text → Text
  source_names [] = []
  source_names (n ∷ ns) = source_names ns ++ (decimal (length n) ++ n)

  -- The mangled name: more than one name is nested.
  unfoldable pub mangled_name : List Text → Text
  mangled_name ns =
      if ltb 1 (length ns)
      then codes "_ZN" ++ source_names ns ++ codes "E"
      else codes "_Z" ++ source_names ns

  Spells-if : (b : Bool) (w : String) → Spells (print_if decimal b w) tt (when b w)
  unfolding print_if
  Spells-if true w = Spells-out w
  Spells-if false w = Spells-out ""

  Spells-end : (r k : ℕ) → Spells (print_end decimal r k) tt (when (r == 0 && ltb 1 (suc k)) "E")
  unfolding print_end
  Spells-end r k =
      Spells-≡ (Spells-end_if (r == 0 && ltb 0 k)) (ap (λ b. when (r == 0 && b) "E") (one_more k))

  Spells-identifier : (n : Text) → Spells (print_identifier decimal n) tt (decimal (length n) ++ n)
  unfolding print_identifier
  Spells-identifier n = Spells->> (Spells-digits (decimal (length n))) (Spells-digits n)

  -- The text for a context inside others, which open and close a nested name or do not
  spelled : Bool → Bool → List Text → Text
  spelled b c ns = codes "_Z" ++ when b "N" ++ source_names ns ++ when c "E"

  spelled-suc :
      (b c : Bool) (n : Text) (ns : List Text)
      → spelled b false ns ++ ((decimal (length n) ++ n) ++ (when c "E" ++ []))
        ≡ spelled b c (n ∷ ns)
  unfolding spelled source_names
  spelled-suc b c n ns =
      assemble (codes "_Z") (when b "N") (source_names ns) (decimal (length n) ++ n) (when c "E")

  context_text : ℕ → List Text → Text
  context_text r ns = spelled (ltb 1 (r + length ns)) (r == 0 && ltb 1 (length ns)) ns

  context_text-suc :
      (r : ℕ) (n : Text) (ns : List Text)
      → context_text (suc r) ns
          ++ ((decimal (length n) ++ n) ++ (when (r == 0 && ltb 1 (suc (length ns))) "E" ++ []))
        ≡ context_text r (n ∷ ns)
  unfolding context_text
  context_text-suc r n ns =
      let x = r == 0 && ltb 1 (suc (length ns)) in
      let more : Text = (decimal (length n) ++ n) ++ (when x "E" ++ []) in
      ap (λ b. spelled (ltb 1 (suc r + length ns)) (b && ltb 1 (length ns)) ns ++ more)
        (suc_is_nonzero r)
      ∙ spelled-suc (ltb 1 (suc r + length ns)) x n ns
      ∙ ap (λ k. spelled (ltb 1 k) x (n ∷ ns)) (omega arith)

  spelled-nil : (b : Bool) → codes "_Z" ++ (when b "N" ++ []) ≡ spelled b false []
  unfolding spelled source_names
  spelled-nil b = simp (append_assoc, append-nil)

  context_text-nil : (r : ℕ) → codes "_Z" ++ (when (ltb 1 r) "N" ++ []) ≡ context_text r []
  unfolding context_text
  context_text-nil r =
      spelled-nil (ltb 1 r)
      ∙ ap (λ k. spelled (ltb 1 k) false []) (omega arith)
      ∙ ap (λ b. spelled (ltb 1 (r + 0)) b []) (sym (and-false (r == 0)))

  -- One more name after the context that it stands in
  named-Spells :
      (r : ℕ) (n : Text) (ns : List Text) {m : Print ℕ} {p : Print (Unit {0})}
      → Spells m (length ns) (context_text (suc r) ns)
      → Spells p tt (decimal (length n) ++ n)
      → Spells
          (do compound ← m; p; print_end decimal r compound; pure (suc compound))
          (suc (length ns))
          (context_text r (n ∷ ns))
  named-Spells r n ns h g =
      Spells-≡ (Spells->>= _ h (Spells->> g (Spells->> (Spells-end r (length ns)) Spells-pure)))
        (context_text-suc r n ns)

  context-Spells :
      {s : Scope} {ns : List Text}
      → IsPath s ns
      → (r : ℕ) → Spells (print_context decimal s r) (length ns) (context_text r ns)
  unfolding print_context print_namespace_name print_record_name print_enum_name
  context-Spells in_unit r =
      Spells-≡ (Spells->> (Spells-out "_Z") (Spells->> (Spells-if (ltb 1 r) "N") Spells-pure))
        (context_text-nil r)
  context-Spells (in_namespace {n = n} {ns = ns} h) r =
      named-Spells r n ns (context-Spells h (suc r)) (Spells-identifier n)
  context-Spells (in_record {n = n} {ns = ns} h) r =
      named-Spells r n ns (context-Spells h (suc r)) (Spells-identifier n)
  context-Spells (in_typedef {n = n} {ns = ns} h) r =
      named-Spells r n ns (context-Spells h (suc r)) (Spells-identifier n)
  context-Spells (in_enum {n = n} {ns = ns} h) r =
      named-Spells r n ns (context-Spells h (suc r)) (Spells-identifier n)
  context-Spells (in_linkage h) r = context-Spells h r

  nested :
      (b : Bool) (t : Text)
      → codes "_Z" ++ when b "N" ++ t ++ when b "E"
        ≡ (if b then codes "_ZN" ++ t ++ codes "E" else codes "_Z" ++ t)
  nested true t = refl
  nested false t = simp append-nil

  mangled-text : (ns : List Text) → context_text 0 ns ≡ mangled_name ns
  unfolding context_text spelled mangled_name
  mangled-text ns =
      ap (λ k. spelled (ltb 1 k) (ltb 1 (length ns)) ns) (omega arith)
      ∙ nested (ltb 1 (length ns)) (source_names ns)

  -- For a type in a scope of named namespaces, records and enumerations, with linkage specifications
  -- among them, the text that is printed is the mangled name between quotes: `_Z` and the one name, or
  -- `_ZN`, the names from the outermost in, and `E`, each name after its length.
  pub print_type_name-mangled_name :
      {s : Scope} {ns : List Text}
      → IsPath s ns
      → Spells
          (print_type_name decimal (scoped s))
          tt
          (codes "\"" ++ (mangled_name ns ++ codes "\""))
  unfolding print_type_name
  print_type_name-mangled_name {ns = ns} h =
      Spells-≡ (Spells->> (Spells-out "\"") (Spells->>= _ (context-Spells h 0) (Spells-out "\"")))
        (ap (λ l. codes "\"" ++ (l ++ codes "\"")) (mangled-text ns))
