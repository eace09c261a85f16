-- ===== src/ModuleBuilder/Invariant.antt =====
-- One induction over the visitor for all that its steps preserve.
use bri_ck.Prelude.{
  ℕ, ◌≡◌, ◌≢◌, refl, inl, inr, Bool, true, false, ◌&&◌, ◌||◌, not, Option, none, some, List, [],
  ◌∷◌, if◌then◌else◌, Bool-cases, All, Ensures, Ensures->>=, arith,
}
use bri_ck.Filter.{What, Filter, nothing, declaration, definition}
use bri_ck.Module.{Flags, set_template, set_specialization, add_assert}
use bri_ck.SpecCollector.{Comment, add_specification}
use bri_ck.ModuleBuilder.{
  Decl, Decls, ignored, unsupported, static_assert, typedef_name, c_record, cxx_record, function,
  enum_constant, var, enum, namespace, linkage_spec, var_template, function_template,
  class_template, friend, friend_type, nil, cons, id, Builder, FunctionInfo, Local, Redecl,
  contains, once, is_self, is_first, go_what, go, go_all, visit_tag, static_locals, add_comment,
  go_locals, visit_function, visit, visit_all,
}

-- `V` holds of every declaration that the visitor may reach, and `Ok` of every one that it may add to
-- the module: one that the filter does not reject, at a place where no guard of the visitor stops it.
module _ (filter : Filter) (templates : Bool) (Ok V : ℕ → Type 0) where
  abbrev pub Passes : ℕ → Type 0
  Passes d = filter d ≢ nothing → Ok d

  -- A definition, or the only declaration of something that has none
  abbrev pub PassesTag : ℕ → Redecl → Type 0
  PassesTag d r = (is_self d r.definition_id || is_first r) ≡ true → Passes d

  -- The static local variables of a function are added with its definition.
  abbrev pub PassesLocals : ℕ → FunctionInfo → Type 0
  PassesLocals d info =
      is_self d info.redecl.definition_id ≡ true
      → filter d ≡ definition
      → All Passes (static_locals info.locals)

  unfoldable mutual
    pub Emits : Flags → Decl → Type 0
    Emits flags (ignored d) = V d
    Emits flags (unsupported d) = V d
    Emits flags (static_assert d) = V d
    Emits flags (typedef_name d) = V d × Passes d
    Emits flags (c_record d r) = V d × PassesTag d r
    Emits flags (cxx_record d info ds) =
        V d
        × ((info.is_implicit || (not flags.in_specialization && info.is_specialization)) ≡ false
            → PassesTag d info.redecl × EmitsAll flags ds)
    Emits flags (function d info) =
        V d
        × ((info.is_method && info.is_deleted) ≡ false
            → (not templates && info.is_dependent) ≡ false
            → PassesTag d info.redecl × PassesLocals d info)
    Emits flags (enum_constant d) = V d × Passes d
    Emits flags (var d is_templated) =
        V d × ((not templates && not is_templated) ≡ false → Passes d)
    Emits flags (enum d is_canonical ds) = V d × (is_canonical ≡ true → Passes d × All Passes ds)
    Emits flags (namespace d ds) = V d × EmitsAll flags ds
    Emits flags (linkage_spec d ds) = V d × EmitsAll flags ds
    Emits flags (var_template d ds) =
        V d × (templates ≡ true → Passes d) × EmitsAll (set_specialization flags) ds
    Emits flags (function_template d ds) =
        V d × (templates ≡ true → Passes d) × EmitsAll (set_specialization flags) ds
    Emits flags (class_template d decl ds) =
        V d
        × (templates ≡ true → Emits (set_template flags) decl)
        × EmitsAll (set_specialization flags) ds
    Emits flags (friend d decl) = V d × Emits flags decl
    Emits flags (friend_type d) = V d

    pub EmitsAll : Flags → Decls → Type 0
    EmitsAll flags nil = Unit {0}
    EmitsAll flags (cons d ds) = Emits flags d × EmitsAll flags ds

Emits-id :
    (filter : Filter) (templates : Bool) (Ok V : ℕ → Type 0) (flags : Flags) (d : Decl)
    → Emits filter templates Ok V flags d
    → V (id d)
unfolding Emits
Emits-id f b Ok V g (ignored d) e = e
Emits-id f b Ok V g (unsupported d) e = e
Emits-id f b Ok V g (static_assert d) e = e
Emits-id f b Ok V g (typedef_name d) e = e.0
Emits-id f b Ok V g (c_record d r) e = e.0
Emits-id f b Ok V g (cxx_record d info ds) e = e.0
Emits-id f b Ok V g (function d info) e = e.0
Emits-id f b Ok V g (enum_constant d) e = e.0
Emits-id f b Ok V g (var d is_templated) e = e.0
Emits-id f b Ok V g (enum d is_canonical ds) e = e.0
Emits-id f b Ok V g (namespace d ds) e = e.0
Emits-id f b Ok V g (linkage_spec d ds) e = e.0
Emits-id f b Ok V g (var_template d ds) e = e.0
Emits-id f b Ok V g (function_template d ds) e = e.0
Emits-id f b Ok V g (class_template d decl ds) e = e.0
Emits-id f b Ok V g (friend d decl) e = e.0
Emits-id f b Ok V g (friend_type d) e = e

-- Every declaration that the filter does not reject satisfies `Ok`.
module _ (filter : Filter) (templates : Bool) (Ok : ℕ → Type 0)
    (ok : (d : ℕ) → filter d ≢ nothing → Ok d) where
  pub All-Passes : (xs : List ℕ) → All (λ d. filter d ≢ nothing → Ok d) xs
  All-Passes [] = tt
  All-Passes (x ∷ xs) = (ok x, All-Passes xs)

  mutual
    unfolding Emits

    pub Emits-Passes : (flags : Flags) (d : Decl) → Emits filter templates Ok (λ _. Unit) flags d
    Emits-Passes g (ignored d) = tt
    Emits-Passes g (unsupported d) = tt
    Emits-Passes g (static_assert d) = tt
    Emits-Passes g (typedef_name d) = (tt, ok d)
    Emits-Passes g (c_record d r) = (tt, λ _. ok d)
    Emits-Passes g (cxx_record d info ds) = (tt, λ _. (λ _. ok d, EmitsAll-Passes g ds))
    Emits-Passes g (function d info) =
        (tt, λ _ _. (λ _. ok d, λ _ _. All-Passes (static_locals info.locals)))
    Emits-Passes g (enum_constant d) = (tt, ok d)
    Emits-Passes g (var d is_templated) = (tt, λ _. ok d)
    Emits-Passes g (enum d is_canonical ds) = (tt, λ _. (ok d, All-Passes ds))
    Emits-Passes g (namespace d ds) = (tt, EmitsAll-Passes g ds)
    Emits-Passes g (linkage_spec d ds) = (tt, EmitsAll-Passes g ds)
    Emits-Passes g (var_template d ds) = (tt, λ _. ok d, EmitsAll-Passes (set_specialization g) ds)
    Emits-Passes g (function_template d ds) =
        (tt, λ _. ok d, EmitsAll-Passes (set_specialization g) ds)
    Emits-Passes g (class_template d decl ds) =
        (tt, λ _. Emits-Passes (set_template g) decl, EmitsAll-Passes (set_specialization g) ds)
    Emits-Passes g (friend d decl) = (tt, Emits-Passes g decl)
    Emits-Passes g (friend_type d) = tt

    pub EmitsAll-Passes :
        (flags : Flags) (ds : Decls) → EmitsAll filter templates Ok (λ _. Unit) flags ds
    EmitsAll-Passes g nil = tt
    EmitsAll-Passes g (cons d ds) = (Emits-Passes g d, EmitsAll-Passes g ds)

go_what-definition :
    (w : What) (d : ℕ) (flags : Flags) (b : Bool) (s : Builder)
    → (go_what w d flags b s).1 ≡ definition
    → w ≡ definition
unfolding go_what
go_what-definition definition d flags b s h = refl
go_what-definition declaration d flags b s h = h
go_what-definition nothing d flags b s h = h

-- `go` returns `definition` only for what the filter answers so.
go-definition :
    (filter : Filter) (d : ℕ) (flags : Flags) (b : Bool) (s : Builder)
    → (go filter d flags b s).1 ≡ definition
    → filter d ≡ definition
unfolding go
go-definition filter d flags b s = go_what-definition (filter d) d flags b s

module _ (filter : Filter) (templates : Bool) (Ok V : ℕ → Type 0) (F : Flags → Type 0)
    (I : Builder → Type 0) where
  -- The steps that the visitor takes keep `I`, and the flags that it passes on satisfy `F`.
  pub record IsKept : Type 0 where
    pub mark : (d : ℕ) (s : Builder) → V d → I s → I (record s { visited = d ∷ s.visited })
    pub assertion : (d : ℕ) (s : Builder) → I s → I (record s { module_ = add_assert d s.module_ })
    pub comment :
        (d : ℕ) (c : Comment) (s : Builder)
        → I s
        → I (record s { specs = add_specification d c s.specs })
    pub added :
        (d : ℕ) (flags : Flags) (b : Bool) (s : Builder)
        → (filter d ≢ nothing → Ok d)
        → F flags
        → I s
        → I (go filter d flags b s).0
    pub specialized : (flags : Flags) → F flags → F (set_specialization flags)
    pub templated : (flags : Flags) → templates ≡ true → F flags → F (set_template flags)

  module _ (kept : IsKept) where
    go_all-keeps :
        (ds : List ℕ) (flags : Flags) (s : Builder)
        → All (Passes filter templates Ok V) ds
        → F flags
        → I s
        → I (go_all filter ds flags s)
    unfolding go_all
    go_all-keeps [] flags s h f i = i
    go_all-keeps (d ∷ ds) flags s h f i =
        go_all-keeps ds flags _ h.1 f (kept.added d flags true s h.0 f i)

    visit_tag-keeps :
        (d : ℕ) (r : Redecl) (flags : Flags) (s : Builder)
        → PassesTag filter templates Ok V d r
        → F flags
        → I s
        → I (visit_tag filter d r flags s)
    unfolding visit_tag
    visit_tag-keeps d r flags s h f i = elim (Bool-cases (is_self d r.definition_id)) [
      | inl p ↦ rw p (kept.added d flags true s (h (ground arith)) f i)
      | inr p ↦ elim (Bool-cases (is_first r)) [
        | inl q ↦ rw (p, q) (kept.added d flags false s (h (ground arith)) f i)
        | inr q ↦ rw (p, q) i
      ]
    ]

    add_comment-keeps : (d : ℕ) (c : Option Comment) (s : Builder) → I s → I (add_comment d c s)
    unfolding add_comment
    add_comment-keeps d none s i = i
    add_comment-keeps d (some c) s i = kept.comment d c s i

    pub go_locals-keeps :
        (w : What) (ls : List Local) (flags : Flags) (s : Builder)
        → (w ≡ definition → All (Passes filter templates Ok V) (static_locals ls))
        → F flags
        → I s
        → I (go_locals filter w ls flags s)
    unfolding go_locals
    go_locals-keeps definition ls flags s h f i =
        go_all-keeps (static_locals ls) flags s (h refl) f i
    go_locals-keeps declaration ls flags s h f i = i
    go_locals-keeps nothing ls flags s h f i = i

    visit_function-keeps :
        (d : ℕ) (info : FunctionInfo) (flags : Flags) (s : Builder)
        → ((not templates && info.is_dependent) ≡ false
            → PassesTag filter templates Ok V d info.redecl
              × PassesLocals filter templates Ok V d info)
        → F flags
        → I s
        → I (visit_function filter templates d info flags s)
    unfolding visit_function
    visit_function-keeps d info flags s h f i =
        elim (Bool-cases (not templates && info.is_dependent)) [
          | inl p ↦ rw p i
          | inr p ↦ elim (Bool-cases (is_self d info.redecl.definition_id)) [
            | inl q ↦
                rw (p, q)
                  (go_locals-keeps _ info.locals flags _
                    (λ e. (h p).1 q (go-definition filter d flags true _ e)) f
                    (kept.added d flags true _ ((h p).0 (ground arith)) f
                      (add_comment-keeps d info.comment s i)))
            | inr q ↦ elim (Bool-cases (is_first info.redecl)) [
              | inl r ↦ rw (p, q, r) (kept.added d flags false s ((h p).0 (ground arith)) f i)
              | inr r ↦ rw (p, q, r) i
            ]
          ]
        ]

    once-keeps :
        (d : ℕ) (s : Builder) (k : Builder → Option Builder)
        → (contains s.visited d ≡ true → I s)
        → I (record s { visited = d ∷ s.visited })
        → ((t : Builder) → I t → Ensures I (k t))
        → Ensures I (once d s k)
    unfolding once
    once-keeps d s k i m h = elim (Bool-cases (contains s.visited d)) [
      | inl p ↦ rw p (i p)
      | inr p ↦ rw p (h _ m)
    ]

    if-keeps :
        (b : Bool) (s t : Builder) → (b ≡ true → I s) → (b ≡ false → I t) → I (if b then s else t)
    if-keeps true s t h k = h refl
    if-keeps false s t h k = k refl

    branch-keeps :
        (b : Bool) (o p : Option Builder)
        → (b ≡ true → Ensures I o)
        → (b ≡ false → Ensures I p)
        → Ensures I (if b then o else p)
    branch-keeps true o p h k = h refl
    branch-keeps false o p h k = k refl

    mutual
      unfolding visit Emits

      pub visit-enters :
          (d : Decl) (flags : Flags) (s : Builder)
          → Emits filter templates Ok V flags d
          → F flags
          → (contains s.visited (id d) ≡ true → I s)
          → I (record s { visited = id d ∷ s.visited })
          → Ensures I (visit filter templates d flags s)
      visit-enters (ignored d) flags s e f i m = once-keeps d s _ i m λ t j. j
      visit-enters (unsupported d) flags s e f i m = once-keeps d s _ i m λ t j. j
      visit-enters (static_assert d) flags s e f i m =
          once-keeps d s _ i m λ t j. kept.assertion d t j
      visit-enters (typedef_name d) flags s e f i m =
          once-keeps d s _ i m λ t j. kept.added d flags true t e.1 f j
      visit-enters (c_record d r) flags s e f i m =
          once-keeps d s _ i m λ t j. visit_tag-keeps d r flags t e.1 f j
      visit-enters (cxx_record d info ds) flags s e f i m = once-keeps d s _ i m λ t j.
          branch-keeps (info.is_implicit || (not flags.in_specialization && info.is_specialization))
            (some t) _ (λ p. j)
            (λ p.
              Ensures->>= I I _ _ (visit_all-keeps ds flags t (e.1 p).1 f j)
                λ u k. visit_tag-keeps d info.redecl flags u (e.1 p).0 f k)
      visit-enters (function d info) flags s e f i m = once-keeps d s _ i m λ t j.
          if-keeps (info.is_method && info.is_deleted) _ _ (λ p. j)
            (λ p. visit_function-keeps d info flags t (e.1 p) f j)
      visit-enters (enum_constant d) flags s e f i m =
          once-keeps d s _ i m λ t j. kept.added d flags true t e.1 f j
      visit-enters (var d is_templated) flags s e f i m = once-keeps d s _ i m λ t j.
          if-keeps (not templates && not is_templated) _ _ (λ p. j)
            (λ p. kept.added d flags true t (e.1 p) f j)
      visit-enters (enum d is_canonical ds) flags s e f i m = once-keeps d s _ i m λ t j.
          if-keeps is_canonical _ _
            (λ p. go_all-keeps ds flags _ (e.1 p).1 f (kept.added d flags true t (e.1 p).0 f j))
            (λ p. j)
      visit-enters (namespace d ds) flags s e f i m = once-keeps d s _ i m λ t j.
          branch-keeps (not flags.in_template && not flags.in_specialization) _ none
            (λ p. visit_all-keeps ds flags t e.1 f j) (λ p. tt)
      visit-enters (linkage_spec d ds) flags s e f i m = once-keeps d s _ i m λ t j.
          branch-keeps (not flags.in_template && not flags.in_specialization) _ none
            (λ p. visit_all-keeps ds flags t e.1 f j) (λ p. tt)
      visit-enters (var_template d ds) flags s e f i m = once-keeps d s _ i m λ t j.
          visit_all-keeps ds (set_specialization flags) _ e.2 (kept.specialized flags f) (
            if-keeps templates _ _
              (λ p. kept.added d (set_template flags) true t (e.1 p) (kept.templated flags p f) j)
              (λ p. j))
      visit-enters (function_template d ds) flags s e f i m = once-keeps d s _ i m λ t j.
          visit_all-keeps ds (set_specialization flags) _ e.2 (kept.specialized flags f) (
            if-keeps templates _ _
              (λ p. kept.added d (set_template flags) true t (e.1 p) (kept.templated flags p f) j)
              (λ p. j))
      visit-enters (class_template d decl ds) flags s e f i m = once-keeps d s _ i m λ t j.
          Ensures->>= I I _ _
            (branch-keeps templates _ (some t)
              (λ p.
                visit-enters decl (set_template flags) t (e.1 p) (kept.templated flags p f) (λ _. j)
                  (kept.mark _ t (Emits-id filter templates Ok V (set_template flags) decl (e.1 p))
                    j))
              (λ p. j))
            λ u k. visit_all-keeps ds (set_specialization flags) u e.2 (kept.specialized flags f) k
      visit-enters (friend d decl) flags s e f i m = once-keeps d s _ i m λ t j.
          visit-enters decl flags t e.1 f (λ _. j)
            (kept.mark _ t (Emits-id filter templates Ok V flags decl e.1) j)
      visit-enters (friend_type d) flags s e f i m = once-keeps d s _ i m λ t j. j

      pub visit_all-keeps :
          (ds : Decls) (flags : Flags) (s : Builder)
          → EmitsAll filter templates Ok V flags ds
          → F flags
          → I s
          → Ensures I (visit_all filter templates ds flags s)
      visit_all-keeps nil flags s e f i = i
      visit_all-keeps (cons d ds) flags s e f i =
          Ensures->>= I I _ _
            (visit-enters d flags s e.0 f (λ _. i)
              (kept.mark _ s (Emits-id filter templates Ok V flags d e.0) i))
            λ t j. visit_all-keeps ds flags t e.1 f j

    pub visit-keeps :
        (d : Decl) (flags : Flags) (s : Builder)
        → Emits filter templates Ok V flags d
        → F flags
        → I s
        → Ensures I (visit filter templates d flags s)
    visit-keeps d flags s e f i =
        visit-enters d flags s e f (λ _. i)
          (kept.mark _ s (Emits-id filter templates Ok V flags d e) i)
