-- ===== src/ModuleBuilder/Totality.antt =====
-- The assertions of the visitor hold where namespaces and linkage specifications stand only outside
-- templates.
use bri_ck.Prelude.{
  ℕ, ◌≡◌, refl, inl, inr, Bool, true, false, ◌&&◌, ◌||◌, not, Option, some, Bool-cases, ◌>>=◌,
  if◌then◌else◌,
}
use bri_ck.Filter.{Filter}
use bri_ck.Module.{Flags, Module, set_template, set_specialization, no_flags}
use bri_ck.SpecCollector.{SpecCollector}
use bri_ck.ModuleBuilder.{
  Decl, Decls, ignored, unsupported, static_assert, typedef_name, c_record, cxx_record, function,
  enum_constant, var, enum, namespace, linkage_spec, var_template, function_template,
  class_template, friend, friend_type, nil, cons, Builder, contains, once, visit_tag, visit,
  visit_all, build_module,
}

-- No namespace and no linkage specification stands inside a template; `outside` says whether the
-- declaration itself stands outside all templates.
unfoldable mutual
  pub IsScoped : Bool → Decl → Type 0
  IsScoped outside (cxx_record d info ds) = AreScoped outside ds
  IsScoped outside (namespace d ds) = (outside ≡ true) × AreScoped outside ds
  IsScoped outside (linkage_spec d ds) = (outside ≡ true) × AreScoped outside ds
  IsScoped outside (var_template d ds) = AreScoped false ds
  IsScoped outside (function_template d ds) = AreScoped false ds
  IsScoped outside (class_template d decl ds) = IsScoped false decl × AreScoped false ds
  IsScoped outside (friend d decl) = IsScoped outside decl
  IsScoped outside _ = Unit {0}

  pub AreScoped : Bool → Decls → Type 0
  AreScoped outside nil = Unit {0}
  AreScoped outside (cons d ds) = IsScoped outside d × AreScoped outside ds

abbrev pub Succeeds : Option Builder → Type 0
Succeeds o = (t : Builder) × (o ≡ some t)

Succeeds->>= :
    (o : Option Builder) (f : Builder → Option Builder)
    → Succeeds o
    → ((t : Builder) → Succeeds (f t))
    → Succeeds (o >>= f)
Succeeds->>= o f (t, e) k = let (u, p) = k t in (u, rw e p)

Succeeds-once :
    (d : ℕ) (s : Builder) (k : Builder → Option Builder)
    → ((t : Builder) → Succeeds (k t))
    → Succeeds (once d s k)
unfolding once
Succeeds-once d s k h = elim (Bool-cases (contains s.visited d)) [
  | inl p ↦ rw p (s, refl)
  | inr p ↦ rw p (h _)
]

Succeeds-if :
    (b : Bool) (o p : Option Builder)
    → (b ≡ true → Succeeds o)
    → (b ≡ false → Succeeds p)
    → Succeeds (if b then o else p)
Succeeds-if true o p h k = h refl
Succeeds-if false o p h k = k refl

-- The flags are none if the declaration stands outside all templates.
abbrev Agrees : Bool → Flags → Type 0
Agrees outside flags =
    outside ≡ true → (not flags.in_template && not flags.in_specialization) ≡ true

module _ (filter : Filter) (templates : Bool) where
  mutual
    unfolding visit IsScoped

    visit-Succeeds :
        (d : Decl) (outside : Bool) (flags : Flags) (s : Builder)
        → IsScoped outside d
        → Agrees outside flags
        → Succeeds (visit filter templates d flags s)
    visit-Succeeds (cxx_record d info ds) b flags s h a = Succeeds-once d s _ λ t.
        Succeeds-if (info.is_implicit || (not flags.in_specialization && info.is_specialization))
          (some t) _ (λ p. (t, refl))
          (λ p.
            Succeeds->>= _ _ (visit_all-Succeeds ds b flags t h a)
              λ u. (visit_tag filter d info.redecl flags u, refl))
    visit-Succeeds (namespace d ds) b flags s h a =
        Succeeds-once d s _ λ t. rw (a h.0) (visit_all-Succeeds ds b flags t h.1 a)
    visit-Succeeds (linkage_spec d ds) b flags s h a =
        Succeeds-once d s _ λ t. rw (a h.0) (visit_all-Succeeds ds b flags t h.1 a)
    visit-Succeeds (var_template d ds) b flags s h a =
        Succeeds-once d s _
          λ t. visit_all-Succeeds ds false (set_specialization flags) _ h (λ p. cc)
    visit-Succeeds (function_template d ds) b flags s h a =
        Succeeds-once d s _
          λ t. visit_all-Succeeds ds false (set_specialization flags) _ h (λ p. cc)
    visit-Succeeds (class_template d decl ds) b flags s h a = Succeeds-once d s _ λ t.
        Succeeds->>= _ _
          (Succeeds-if templates _ (some t)
            (λ p. visit-Succeeds decl false (set_template flags) t h.0 (λ q. cc)) (λ p. (t, refl)))
          λ u. visit_all-Succeeds ds false (set_specialization flags) u h.1 (λ p. cc)
    visit-Succeeds (friend d decl) b flags s h a =
        Succeeds-once d s _ λ t. visit-Succeeds decl b flags t h a
    visit-Succeeds (c_record d r) b flags s h a = Succeeds-once d s _ λ t. (_, refl)
    visit-Succeeds (ignored d) b flags s h a = Succeeds-once d s _ λ t. (_, refl)
    visit-Succeeds (unsupported d) b flags s h a = Succeeds-once d s _ λ t. (_, refl)
    visit-Succeeds (static_assert d) b flags s h a = Succeeds-once d s _ λ t. (_, refl)
    visit-Succeeds (typedef_name d) b flags s h a = Succeeds-once d s _ λ t. (_, refl)
    visit-Succeeds (function d info) b flags s h a = Succeeds-once d s _ λ t. (_, refl)
    visit-Succeeds (enum_constant d) b flags s h a = Succeeds-once d s _ λ t. (_, refl)
    visit-Succeeds (var d is_templated) b flags s h a = Succeeds-once d s _ λ t. (_, refl)
    visit-Succeeds (enum d is_canonical ds) b flags s h a = Succeeds-once d s _ λ t. (_, refl)
    visit-Succeeds (friend_type d) b flags s h a = Succeeds-once d s _ λ t. (_, refl)

    pub visit_all-Succeeds :
        (ds : Decls) (outside : Bool) (flags : Flags) (s : Builder)
        → AreScoped outside ds
        → Agrees outside flags
        → Succeeds (visit_all filter templates ds flags s)
    visit_all-Succeeds nil b flags s h a = (s, refl)
    visit_all-Succeeds (cons d ds) b flags s h a =
        Succeeds->>= _ _ (visit-Succeeds d b flags s h.0 a)
          λ t. visit_all-Succeeds ds b flags t h.1 a

-- The visitor fails no `assert` on a translation unit whose namespaces and linkage specifications all
-- stand outside templates.
pub build_module-Succeeds :
    (filter : Filter) (templates : Bool) (ds : Decls) (m : Module) (c : SpecCollector)
    → AreScoped true ds
    → Succeeds (build_module filter templates ds m c)
unfolding build_module
build_module-Succeeds filter templates ds m c h =
    visit_all-Succeeds filter templates ds true no_flags _ h (λ p. refl)
