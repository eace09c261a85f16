-- ===== src/ModuleBuilder/Functions.antt =====
-- The definitions of functions get into the module.
use bri_ck.Prelude.{
  ℕ, ◌≡◌, ◌≢◌, ◌∙◌, refl, inl, inr, Bool, true, false, ◌&&◌, not, some, [], ◌∷◌, ◌>>=◌,
  Option-cases, Ensures, arith,
}
use mathlib.Core.Path.{subst}
use bri_ck.Filter.{What, Filter, nothing, declaration, definition}
use bri_ck.Module.{Flags, Module, no_flags, add_decl, add_definition, add_declaration, add_assert}
use bri_ck.SpecCollector.{SpecCollector}
use bri_ck.ModuleBuilder.{
  Decl, Decls, function, nil, cons, FunctionInfo, Builder, contains, once, is_self, static_locals,
  add_comment, go_what, go, visit_function, visit, visit_all, build_module,
}
use bri_ck.ModuleBuilder.Contents.{contains-snoc}
use bri_ck.ModuleBuilder.Invariant.{
  EmitsAll, IsKept, visit_all-keeps, EmitsAll-Passes, go_locals-keeps, All-Passes,
}
use bri_ck.ModuleBuilder.Totality.{AreScoped, visit_all-Succeeds}

abbrev pub append : Decls → Decls → Decls
append nil es = es
append (cons d ds) es = cons d (append ds es)

visit_all-append :
    (filter : Filter) (templates : Bool) (ds es : Decls) (flags : Flags) (s : Builder)
    → visit_all filter templates (append ds es) flags s
      ≡ (visit_all filter templates ds flags s >>= visit_all filter templates es flags)
unfolding visit
visit_all-append filter templates nil es flags s = refl
visit_all-append filter templates (cons d ds) es flags s =
    elim (Option-cases (visit filter templates d flags s)) [
      | inl p ↦ rw p
      | inr (t, p) ↦ rw p (visit_all-append filter templates ds es flags t)
    ]

visit_all-cons :
    (filter : Filter) (templates : Bool) (d : Decl) (ds : Decls) (flags : Flags) (s : Builder)
    → visit_all filter templates (cons d ds) flags s
      ≡ (visit filter templates d flags s >>= visit_all filter templates ds flags)
unfolding visit
visit_all-cons filter templates d ds flags s = refl

-- `j` is among the definitions of the translation unit.
abbrev pub IsDefined : ℕ → Module → Type 0
IsDefined j m = contains m.definitions j ≡ true

go_what-IsDefined :
    (w : What) (d : ℕ) (flags : Flags) (b : Bool) (s : Builder) (j : ℕ)
    → IsDefined j s.module_
    → IsDefined j (go_what w d flags b s).0.module_
unfolding go_what add_definition add_declaration
go_what-IsDefined definition d flags true s j h =
    ground (arith, contains-snoc s.module_.definitions d j)
go_what-IsDefined definition d flags false s j h = h
go_what-IsDefined declaration d flags b s j h = h
go_what-IsDefined nothing d flags b s j h = h

IsDefined-IsKept :
    (filter : Filter) (templates : Bool) (j : ℕ)
    → IsKept filter templates
        (λ _. Unit {0})
        (λ _. Unit {0})
        (λ _. Unit {0})
        (λ s. IsDefined j s.module_)
unfolding go add_assert
IsDefined-IsKept filter templates j = record {
  mark = λ d s v i. i;
  assertion = λ d s i. i;
  comment = λ d c s i. i;
  added = λ d flags b s o f i. go_what-IsDefined (filter d) d flags b s j i;
  specialized = λ flags f. tt;
  templated = λ flags p f. tt;
}

-- The definition of a function that the visitor keeps: it is its own definition, is no deleted
-- method, and depends on templates only where these are printed.
pub record IsKeptDefinition (templates : Bool) (d : ℕ) (info : FunctionInfo) : Type 0 where
  pub is_definition : info.redecl.definition_id ≡ some d
  pub not_deleted : (info.is_method && info.is_deleted) ≡ false
  pub independent : (not templates && info.is_dependent) ≡ false

module _ (filter : Filter) (templates : Bool) (d : ℕ) (wanted : filter d ≡ definition) where
  go-defines : (s : Builder) → IsDefined d (go filter d no_flags true s).0.module_
  unfolding go go_what add_definition add_decl
  go-defines s = rw wanted (ground (arith, contains-snoc s.module_.definitions d d))

  visit_function-defines :
      (info : FunctionInfo) (s : Builder)
      → IsKeptDefinition templates d info
      → IsDefined d (visit_function filter templates d info no_flags s).module_
  unfolding visit_function
  visit_function-defines info s k =
      let self : is_self d info.redecl.definition_id ≡ true = rw k.is_definition (ground arith) in
      rw (k.independent, self)
        (go_locals-keeps filter templates _ _ _ _ (IsDefined-IsKept filter templates d) _
          info.locals no_flags _
          (λ _. All-Passes filter templates _ (λ _ _. tt) (static_locals info.locals)) tt
          (go-defines (add_comment d info.comment s)))

  visit-defines :
      (info : FunctionInfo) (s : Builder)
      → IsKeptDefinition templates d info
      → contains s.visited d ≡ false
      → (t : Builder) × (visit filter templates (function d info) no_flags s ≡ some t)
        × IsDefined d t.module_
  unfolding visit once
  visit-defines info s k new = (
    visit_function filter templates d info no_flags (record s { visited = d ∷ s.visited }),
    rw (new, k.not_deleted),
    visit_function-defines info _ k,
  )

go_what-visited :
    (w : What) (d : ℕ) (flags : Flags) (b : Bool) (s : Builder)
    → (go_what w d flags b s).0.visited ≡ s.visited
unfolding go_what
go_what-visited definition d flags true s = refl
go_what-visited definition d flags false s = refl
go_what-visited declaration d flags b s = refl
go_what-visited nothing d flags b s = refl

new-IsKept :
    (filter : Filter) (templates : Bool) (j : ℕ)
    → IsKept filter templates
        (λ _. Unit {0})
        (λ d. d ≢ j)
        (λ _. Unit {0})
        (λ s. contains s.visited j ≡ false)
unfolding go
new-IsKept filter templates j = record {
  mark = λ d s v i. unfold contains in ground arith;
  assertion = λ d s i. i;
  comment = λ d c s i. i;
  added = λ d flags b s o f i. rw go_what-visited i;
  specialized = λ flags f. tt;
  templated = λ flags p f. tt;
}

-- No declaration that the visitor may reach from the list, at any depth, has the number `j`.
abbrev pub Avoids : Filter → Bool → ℕ → Decls → Type 0
Avoids filter templates j ds = EmitsAll filter templates (λ _. Unit {0}) (λ d. d ≢ j) no_flags ds

-- Let a function stand at the top of a translation unit as its own definition, which is not a deleted
-- method, and which with templates left out does not depend on one. If the filter keeps its
-- definition, no declaration that the visitor may reach before it has its number, and all namespaces
-- and linkage specifications before and behind it stand outside templates, then the module is built,
-- and the function is among its definitions.
pub build_module-defines :
    (filter : Filter) (templates : Bool) (d : ℕ) (info : FunctionInfo) (before behind : Decls)
    (m : Module) (c : SpecCollector)
    → filter d ≡ definition
    → IsKeptDefinition templates d info
    → Avoids filter templates d before
    → AreScoped true before
    → AreScoped true behind
    → (t : Builder) × (build_module filter templates
          (append before (cons (function d info) behind))
          m
          c
        ≡ some t)
      × IsDefined d t.module_
unfolding build_module
build_module-defines filter templates d info before behind m c w k avoids h₁ h₂ =
    let start : Builder = record { module_ = m; specs = c; visited = [] } in
    let (s, p) = visit_all-Succeeds filter templates before true no_flags start h₁ (λ _. refl) in
    let new =
      visit_all-keeps filter templates _ _ _ _ (new-IsKept filter templates d) before no_flags start
        avoids tt (unfold contains in refl) in
    let (t, q, defined) =
      visit-defines filter templates d w info s k
        (subst (Ensures (λ b. contains b.visited d ≡ false)) p new) in
    let (u, r) = visit_all-Succeeds filter templates behind true no_flags t h₂ (λ _. refl) in
    let kept =
      visit_all-keeps filter templates _ _ _ _ (IsDefined-IsKept filter templates d) behind no_flags
        t (EmitsAll-Passes filter templates _ (λ _ _. tt) no_flags behind) tt defined in
    (
      u,
      visit_all-append filter templates before (cons (function d info) behind) no_flags start
          ∙ rw p (visit_all-cons filter templates (function d info) behind no_flags s ∙ rw q r),
      subst (Ensures (λ b. IsDefined d b.module_)) r kept,
    )
