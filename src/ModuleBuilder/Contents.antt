-- ===== src/ModuleBuilder/Contents.antt =====
-- What the lists of the module hold after a translation unit was visited.
use bri_ck.Prelude.{
  ℕ, ◌≡◌, refl, Bool, true, false, ◌||◌, List, [], ◌∷◌, ◌++◌, ◌==◌, All, Ensures, arith,
}
use bri_ck.Filter.{What, Filter, nothing, declaration, definition}
use bri_ck.Module.{
  set_specialization, Flags, Module, empty, no_flags, add_definition, add_declaration, add_assert,
  add_decl,
}
use bri_ck.SpecCollector.{SpecCollector}
use bri_ck.ModuleBuilder.{Decls, Builder, contains, go_what, go, build_module}
use bri_ck.ModuleBuilder.Invariant.{IsKept, visit_all-keeps, EmitsAll-Passes}

-- `Ok` holds of every declaration in the four lists.
pub record AllListed (Ok : ℕ → Type 0) (m : Module) : Type 0 where
  pub declared : All Ok m.declarations
  pub defined : All Ok m.definitions
  pub template_declared : All Ok m.template_declarations
  pub template_defined : All Ok m.template_definitions

-- Every member of the first list is in the second.
abbrev pub Within : List ℕ → List ℕ → Type 0
Within xs ys = (j : ℕ) → contains xs j ≡ true → contains ys j ≡ true

pub contains-snoc : (xs : List ℕ) (d j : ℕ) → contains (xs ++ d ∷ []) j ≡ (contains xs j || d == j)
unfolding contains
contains-snoc [] d j = ground arith
contains-snoc (x ∷ xs) d j = ground (arith, contains-snoc xs d j)

add_decl-Within :
    (decls tdecls : List ℕ) (d : ℕ) (flags : Flags)
    → flags.in_template ≡ false
    → Within tdecls decls
    → Within (add_decl decls tdecls d flags).1 (add_decl decls tdecls d flags).0
unfolding add_decl
add_decl-Within decls tdecls d flags f w j h =
    ground (arith, w j, contains-snoc decls d j, contains-snoc tdecls d j)

-- What is listed for the templates is listed for the translation unit too.
pub record IsShared (m : Module) : Type 0 where
  pub shared_declarations : Within m.template_declarations m.declarations
  pub shared_definitions : Within m.template_definitions m.definitions

go_what-IsShared :
    (w : What) (d : ℕ) (flags : Flags) (b : Bool) (s : Builder)
    → flags.in_template ≡ false
    → IsShared s.module_
    → IsShared (go_what w d flags b s).0.module_
unfolding go_what add_definition add_declaration
go_what-IsShared definition d flags true s f i = record {
  shared_declarations = i.shared_declarations;
  shared_definitions =
      add_decl-Within s.module_.definitions s.module_.template_definitions d flags f
        i.shared_definitions;
}
go_what-IsShared definition d flags false s f i = record {
  shared_declarations =
      add_decl-Within s.module_.declarations s.module_.template_declarations d flags f
        i.shared_declarations;
  shared_definitions = i.shared_definitions;
}
go_what-IsShared declaration d flags b s f i = record {
  shared_declarations =
      add_decl-Within s.module_.declarations s.module_.template_declarations d flags f
        i.shared_declarations;
  shared_definitions = i.shared_definitions;
}
go_what-IsShared nothing d flags b s f i = i

abbrev NotInTemplate : Flags → Type 0
NotInTemplate flags = flags.in_template ≡ false

IsShared-IsKept :
    (filter : Filter) (Ok : ℕ → Type 0)
    → IsKept filter false Ok (λ _. Unit {0}) NotInTemplate (λ s. IsShared s.module_)
unfolding go add_assert set_specialization
IsShared-IsKept filter Ok = record {
  mark = λ d s v i. i;
  assertion = λ d s i. record {
    shared_declarations = i.shared_declarations;
    shared_definitions = i.shared_definitions;
  };
  comment = λ d c s i. i;
  added = λ d flags b s o f i. go_what-IsShared (filter d) d flags b s f i;
  specialized = λ flags f. f;
  templated = λ flags p f. cc;
}

empty-IsShared : IsShared empty
unfolding contains
empty-IsShared = record { shared_declarations = λ j h. h; shared_definitions = λ j h. h }

-- Without `-templates` every declaration that is listed for the templates is also listed for the
-- translation unit: no template is ever entered by itself.
pub build_module-IsShared :
    (filter : Filter) (ds : Decls) (c : SpecCollector)
    → Ensures (λ s. IsShared s.module_) (build_module filter false ds empty c)
unfolding build_module
build_module-IsShared filter ds c =
    visit_all-keeps filter false (λ _. Unit {0}) (λ _. Unit {0}) NotInTemplate
      (λ s. IsShared s.module_) (IsShared-IsKept filter _) ds no_flags _
      (EmitsAll-Passes filter false _ (λ _ _. tt) no_flags ds) refl empty-IsShared
