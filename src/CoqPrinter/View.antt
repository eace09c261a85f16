-- ===== src/CoqPrinter/View.antt =====
-- What a routine that returns a value does: the value and the words that it prints, or an abort.
use bri_ck.Prelude.{
  ◌≡◌, refl, ap, ◌∙◌, sym, Option, none, some, List, [], ◌∷◌, ◌++◌, Text, append_assoc, append-nil,
}
use bri_ck.Formatter.{Doc}
use bri_ck.CoqPrinter.{Print, done, aborts, prefix, ◌>>=◌, ◌>>◌, pure}
use bri_ck.CoqPrinter.Words.{join, words, words_of, words-append}

module _ {A : Type 0} where
  abbrev pub view : Print A → Option (A × List Text)
  view (done a d) = some (a, words d)
  view aborts = none

  -- The words `x`, then what follows.
  unfoldable pub after : Option (List Text) → Option (A × List Text) → Option (A × List Text)
  after none v = none
  after (some w) none = none
  after (some w) (some (a, u)) = some (a, w ++ u)

  -- The words `x` are printed and `a` is returned.
  unfoldable pub gives : A → Option (List Text) → Option (A × List Text)
  gives a none = none
  gives a (some w) = some (a, w)

  pub after-join :
      (x y : Option (List Text)) (v : Option (A × List Text))
      → after (join x y) v ≡ after x (after y v)
  unfolding after join
  after-join none y v = refl
  after-join (some w) none v = refl
  after-join (some w) (some u) none = refl
  after-join (some w) (some u) (some (a, z)) = ap (λ l. some (a, l)) (append_assoc w u z)

  pub after-nil : (v : Option (A × List Text)) → after (some []) v ≡ v
  unfolding after
  after-nil none = refl
  after-nil (some (a, u)) = refl

  pub gives-after : (a : A) (x : Option (List Text)) → gives a x ≡ after x (some (a, []))
  unfolding after gives
  gives-after a none = refl
  gives-after a (some w) = ap (λ l. some (a, l)) (sym (append-nil w))

  -- Two words that a term has together
  pub after-two :
      (a b : Text) (v : Option (A × List Text))
      → after (some (a ∷ b ∷ [])) v ≡ after (some (a ∷ [])) (after (some (b ∷ [])) v)
  unfolding after
  after-two a b none = refl
  after-two a b (some (x, w)) = refl

  pub after-none : (v : Option (A × List Text)) → after none v ≡ none
  unfolding after
  after-none v = refl

  pub after-none_right : (x : Option (List Text)) → after x none ≡ none
  unfolding after
  after-none_right none = refl
  after-none_right (some w) = refl

  view-prefix : (d : Doc) (m : Print A) → view (prefix d m) ≡ after (some (words d)) (view m)
  unfolding after prefix
  view-prefix d (done a e) = ap (λ l. some (a, l)) (words-append d e)
  view-prefix d aborts = refl

  pub view->> : (m : Print (Unit {0})) (k : Print A) → view (m >> k) ≡ after (words_of m) (view k)
  unfolding ◌>>=◌ after
  view->> (done tt d) k = view-prefix d k
  view->> aborts k = refl

  pub view-done : (a : A) → view (pure a) ≡ some (a, [])
  view-done a = refl

some-injective : {A : Type 0} {x y : A} → some x ≡ some y → x ≡ y
some-injective h = cc

-- The rule for a routine about which all is known.
pub view->>= :
    {A B : Type 0} (m : Print A) (a : A) (x : Option (List Text)) (k : A → Print B)
    → view m ≡ gives a x
    → view (m >>= k) ≡ after x (view (k a))
unfolding ◌>>=◌ gives
view->>= (done b d) a none k h = absurd (cc h)
view->>= (done b d) a (some w) k h =
    view-prefix d (k b) ∙ ap (λ p. after (some p.1) (view (k p.0))) (some-injective h)
view->>= aborts a none k h = sym (after-none (view (k a)))
view->>= aborts a (some w) k h = absurd (cc h)

-- A routine that returns nothing.
pub words_of-view :
    {A : Type 0} (m : Print A) (a : A) (x : Option (List Text))
    → view m ≡ gives a x
    → words_of (m >>= λ s. pure tt) ≡ x
unfolding ◌>>=◌ gives prefix
words_of-view (done b d) a none h = absurd (cc h)
words_of-view (done b d) a (some w) h =
    ap (λ l. some (words l)) (append-nil d) ∙ ap (λ p. some p.1) (some-injective h)
words_of-view aborts a none h = refl
words_of-view aborts a (some w) h = absurd (cc h)

pub ruleset viewing = (view->>, after-join, after-nil, after-none, after-none_right, gives-after)
