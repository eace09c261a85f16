-- ===== src/ModuleBuilder/Visited.antt =====
-- The set of visited declarations: it only grows, and a second visit does nothing.
use bri_ck.Prelude.{ℕ, ◌≡◌, refl, Bool, true, false, Option, some, Ensures, arith}
use mathlib.Core.Path.{subst}
use bri_ck.Filter.{Filter}
use bri_ck.Module.{Flags}
use bri_ck.ModuleBuilder.{
  Decl, ignored, unsupported, static_assert, typedef_name, c_record, cxx_record, function,
  enum_constant, var, enum, namespace, linkage_spec, var_template, function_template,
  class_template, friend, friend_type, id, Builder, contains, once, go, go_what, visit,
}
use bri_ck.Filter.{What, nothing, declaration, definition}
use bri_ck.ModuleBuilder.Invariant.{IsKept, visit-keeps, visit-enters, Emits-Passes}

once-again :
    (d : ℕ) (s : Builder) (k : Builder → Option Builder)
    → contains s.visited d ≡ true
    → once d s k ≡ some s
unfolding once
once-again d s k h = rw h

-- A declaration that was visited before is passed over.
visit_of_visited :
    (filter : Filter) (templates : Bool) (d : Decl) (flags : Flags) (s : Builder)
    → contains s.visited (id d) ≡ true
    → visit filter templates d flags s ≡ some s
unfolding visit
visit_of_visited filter templates (ignored d) flags s h = once-again d s _ h
visit_of_visited filter templates (unsupported d) flags s h = once-again d s _ h
visit_of_visited filter templates (static_assert d) flags s h = once-again d s _ h
visit_of_visited filter templates (typedef_name d) flags s h = once-again d s _ h
visit_of_visited filter templates (c_record d r) flags s h = once-again d s _ h
visit_of_visited filter templates (cxx_record d info ds) flags s h = once-again d s _ h
visit_of_visited filter templates (function d info) flags s h = once-again d s _ h
visit_of_visited filter templates (enum_constant d) flags s h = once-again d s _ h
visit_of_visited filter templates (var d is_templated) flags s h = once-again d s _ h
visit_of_visited filter templates (enum d is_canonical ds) flags s h = once-again d s _ h
visit_of_visited filter templates (namespace d ds) flags s h = once-again d s _ h
visit_of_visited filter templates (linkage_spec d ds) flags s h = once-again d s _ h
visit_of_visited filter templates (var_template d ds) flags s h = once-again d s _ h
visit_of_visited filter templates (function_template d ds) flags s h = once-again d s _ h
visit_of_visited filter templates (class_template d decl ds) flags s h = once-again d s _ h
visit_of_visited filter templates (friend d decl) flags s h = once-again d s _ h
visit_of_visited filter templates (friend_type d) flags s h = once-again d s _ h

go_what-visited :
    (w : What) (d : ℕ) (flags : Flags) (b : Bool) (s : Builder)
    → (go_what w d flags b s).0.visited ≡ s.visited
unfolding go_what
go_what-visited definition d flags true s = refl
go_what-visited definition d flags false s = refl
go_what-visited declaration d flags b s = refl
go_what-visited nothing d flags b s = refl

visited-IsKept :
    (filter : Filter) (templates : Bool) (j : ℕ)
    → IsKept filter templates
        (λ _. Unit {0})
        (λ _. Unit {0})
        (λ _. Unit {0})
        (λ s. contains s.visited j ≡ true)
unfolding go
visited-IsKept filter templates j = record {
  mark = λ d s v i. unfold contains in ground arith;
  assertion = λ d s i. i;
  comment = λ d c s i. i;
  added = λ d flags b s o f i. rw go_what-visited i;
  specialized = λ flags f. tt;
  templated = λ flags p f. tt;
}

-- What was visited stays visited.
pub visit-visited :
    (filter : Filter) (templates : Bool) (d : Decl) (flags : Flags) (s : Builder) (j : ℕ)
    → contains s.visited j ≡ true
    → Ensures (λ t. contains t.visited j ≡ true) (visit filter templates d flags s)
visit-visited filter templates d flags s j h =
    visit-keeps filter templates _ _ _ _ (visited-IsKept filter templates j) d flags s
      (Emits-Passes filter templates _ (λ _ _. tt) flags d) tt h

-- After its visit a declaration is visited.
visit-marks :
    (filter : Filter) (templates : Bool) (d : Decl) (flags : Flags) (s : Builder)
    → Ensures (λ t. contains t.visited (id d) ≡ true) (visit filter templates d flags s)
visit-marks filter templates d flags s =
    visit-enters filter templates _ _ _ _ (visited-IsKept filter templates (id d)) d flags s
      (Emits-Passes filter templates _ (λ _ _. tt) flags d) tt (λ p. p)
      (unfold contains in ground arith)

-- A second visit of a declaration, with whatever flags and after whatever else was visited in
-- between, changes nothing.
pub visit-visit :
    (filter : Filter) (templates : Bool) (d e : Decl) (f g h : Flags) (s t u : Builder)
    → visit filter templates d f s ≡ some t
    → visit filter templates e g t ≡ some u
    → visit filter templates d h u ≡ some u
visit-visit filter templates d e f g h s t u p q =
    let marked : contains t.visited (id d) ≡ true =
      subst (Ensures (λ b. contains b.visited (id d) ≡ true)) p
        (visit-marks filter templates d f s) in
    visit_of_visited filter templates d h u (
      subst (Ensures (λ b. contains b.visited (id d) ≡ true)) q
        (visit-visited filter templates e g t (id d) marked))
