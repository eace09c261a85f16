-- ===== src/ModuleBuilder.antt =====
-- src/ModuleBuilder.cpp: the visitor that walks over the declarations of a translation unit and adds
-- them to a `Module`. A declaration of clang is modelled by what the visitor asks it; its number is
-- its `Decl::getID()`. `none` is a failed `assert(flags.none())`.
pub mod Contents
pub mod Functions
pub mod Invariant
pub mod Totality
pub mod Visited
use bri_ck.Prelude.{
  ℕ, Bool, true, false, ◌&&◌, ◌||◌, not, Option, none, some, List, [], ◌∷◌, if◌then◌else◌, ◌==◌,
  ◌>>=◌,
}
use bri_ck.Filter.{What, Filter, nothing, declaration, definition}
use bri_ck.Module.{
  Flags, Module, set_template, set_specialization, is_none, no_flags, empty, add_definition,
  add_declaration, add_assert,
}
use bri_ck.SpecCollector.{SpecCollector, Comment, no_specs, add_specification}

-- What `getDefinition()` and `getPreviousDecl()` answer: the definition's number, and whether there
-- is an earlier declaration.
pub record Redecl : Type 0 where
  pub definition_id : Option ℕ
  pub has_previous : Bool

-- A declaration inside a function: its number and whether it is a static local variable.
pub record Local : Type 0 where
  pub local_id : ℕ
  pub is_static_local : Bool

pub record FunctionInfo : Type 0 where
  pub is_method : Bool  -- a CXXMethodDecl: also a constructor or a destructor
  pub is_deleted : Bool
  pub is_dependent : Bool  -- isDependentContext()
  pub redecl : Redecl
  pub comment : Option Comment
  pub locals : List Local

pub record RecordInfo : Type 0 where
  pub is_implicit : Bool
  pub is_specialization : Bool  -- a ClassTemplateSpecializationDecl
  pub redecl : Redecl

-- `ignored` stands for the kinds whose method does nothing: builtin templates, access specifiers,
-- empty declarations, fields, indirect fields, using declarations, directives and shadows, alias
-- templates. `unsupported` is a kind that is only logged, by `VisitDecl` or `VisitTypeDecl`.
mutual
  pub data Decl : Type 0 where
    ignored : ℕ → Decl
    unsupported : ℕ → Decl
    static_assert : ℕ → Decl
    typedef_name : ℕ → Decl
    c_record : ℕ → Redecl → Decl  -- a RecordDecl of C
    cxx_record : ℕ → RecordInfo → Decls → Decl
    function : ℕ → FunctionInfo → Decl
    enum_constant : ℕ → Decl
    var : ℕ → Bool → Decl  -- isTemplated()
    enum : ℕ → Bool → List ℕ → Decl  -- isCanonicalDecl(), enumerators()
    namespace : ℕ → Decls → Decl
    linkage_spec : ℕ → Decls → Decl
    var_template : ℕ → Decls → Decl  -- specializations()
    function_template : ℕ → Decls → Decl
    class_template : ℕ → Decl → Decls → Decl  -- getTemplatedDecl(), specializations()
    friend : ℕ → Decl → Decl
    friend_type : ℕ → Decl  -- a friend with no getFriendDecl()

  pub data Decls : Type 0 where
    nil : Decls
    cons : Decl → Decls → Decls

-- The number of a declaration.
abbrev pub id : Decl → ℕ
id (ignored d) = d
id (unsupported d) = d
id (static_assert d) = d
id (typedef_name d) = d
id (c_record d r) = d
id (cxx_record d info ds) = d
id (function d info) = d
id (enum_constant d) = d
id (var d is_templated) = d
id (enum d is_canonical ds) = d
id (namespace d ds) = d
id (linkage_spec d ds) = d
id (var_template d ds) = d
id (function_template d ds) = d
id (class_template d decl ds) = d
id (friend d decl) = d
id (friend_type d) = d

-- The fields of `BuildModule` that change, with the module and the comments that it refers to.
pub record Builder : Type 0 where
  pub module_ : Module
  pub specs : SpecCollector
  pub visited : List ℕ

unfoldable pub contains : List ℕ → ℕ → Bool
contains [] d = false
contains (x ∷ xs) d = x == d || contains xs d

-- `Visit`: only the first visit of a declaration goes on.
unfoldable pub once : ℕ → Builder → (Builder → Option Builder) → Option Builder
unfolding contains
once d s visit =
    if contains s.visited d then some s else visit (record s { visited = d ∷ s.visited })

abbrev pub is_self : ℕ → Option ℕ → Bool
is_self d none = false
is_self d (some e) = e == d

abbrev pub is_null : Option ℕ → Bool
is_null none = true
is_null (some e) = false

-- The only declaration of something that has no definition.
abbrev pub is_first : Redecl → Bool
is_first r = is_null r.definition_id && not r.has_previous

-- What `go` adds, and what it returns, for the filter's answer.
unfoldable pub go_what : What → ℕ → Flags → Bool → Builder → Builder × What
go_what definition d flags is_definition s =
    if is_definition
    then (record s { module_ = add_definition d flags s.module_ }, definition)
    else (record s { module_ = add_declaration d flags s.module_ }, declaration)
go_what declaration d flags is_definition s =
    (record s { module_ = add_declaration d flags s.module_ }, declaration)
go_what nothing d flags is_definition s = (s, nothing)

abbrev pub static_locals : List Local → List ℕ
static_locals [] = []
static_locals (l ∷ ls) =
    if l.is_static_local then l.local_id ∷ static_locals ls else static_locals ls

unfoldable pub add_comment : ℕ → Option Comment → Builder → Builder
unfolding add_specification
add_comment d none s = s
add_comment d (some c) s = record s { specs = add_specification d c s.specs }

module _ (filter : Filter) where
  unfoldable pub go : ℕ → Flags → Bool → Builder → Builder × What
  unfolding go_what
  go d flags is_definition s = go_what (filter d) d flags is_definition s

  unfoldable pub go_all : List ℕ → Flags → Builder → Builder
  unfolding go
  go_all [] flags s = s
  go_all (d ∷ ds) flags s = go_all ds flags (go d flags true s).0

  unfoldable pub visit_tag : ℕ → Redecl → Flags → Builder → Builder
  unfolding go
  visit_tag d r flags s =
      if is_self d r.definition_id
      then (go d flags true s).0
      else if is_first r
      then (go d flags false s).0
      else s

  -- After a definition was added, its static local variables.
  unfoldable pub go_locals : What → List Local → Flags → Builder → Builder
  unfolding go_all
  go_locals definition ls flags s = go_all (static_locals ls) flags s
  go_locals _ ls flags s = s

module _ (filter : Filter) (templates : Bool) where
  unfoldable pub visit_function : ℕ → FunctionInfo → Flags → Builder → Builder
  unfolding go add_comment go_locals
  visit_function d info flags s =
      if not templates && info.is_dependent
      then s
      else if is_self d info.redecl.definition_id
      then (let (s', what) = go filter d flags true (add_comment d info.comment s) in
          go_locals filter what info.locals flags s')
      else if is_first info.redecl
      then (go filter d flags false s).0
      else s

  unfoldable mutual
    unfolding go go_all visit_tag visit_function set_template set_specialization is_none

    pub visit : Decl → Flags → Builder → Option Builder
    visit (ignored d) flags s = once d s some
    visit (unsupported d) flags s = once d s some
    visit (static_assert d) flags s =
        once d s λ t. some (record t { module_ = add_assert d t.module_ })
    visit (typedef_name d) flags s = once d s λ t. some (go filter d flags true t).0
    visit (c_record d r) flags s = once d s λ t. some (visit_tag filter d r flags t)
    visit (cxx_record d info ds) flags s = once d s λ t.
        if info.is_implicit || (not flags.in_specialization && info.is_specialization)
        then some t
        else (visit_all ds flags t >>= λ u. some (visit_tag filter d info.redecl flags u))
    visit (function d info) flags s =
        once d s
          λ t. some (if info.is_method && info.is_deleted then t else visit_function d info flags t)
    visit (enum_constant d) flags s = once d s λ t. some (go filter d flags true t).0
    visit (var d is_templated) flags s =
        once d s
          λ t. some (if not templates && not is_templated then t else (go filter d flags true t).0)
    visit (enum d is_canonical ds) flags s =
        once d s λ t.
          some (if is_canonical then go_all filter ds flags (go filter d flags true t).0 else t)
    visit (namespace d ds) flags s =
        once d s λ t. if is_none flags then visit_all ds flags t else none
    visit (linkage_spec d ds) flags s =
        once d s λ t. if is_none flags then visit_all ds flags t else none
    visit (var_template d ds) flags s = once d s λ t.
        visit_all ds (set_specialization flags)
          (if templates then (go filter d (set_template flags) true t).0 else t)
    visit (function_template d ds) flags s = once d s λ t.
        visit_all ds (set_specialization flags)
          (if templates then (go filter d (set_template flags) true t).0 else t)
    visit (class_template d decl ds) flags s = once d s λ t.
        (if templates then visit decl (set_template flags) t else some t)
        >>= visit_all ds (set_specialization flags)
    visit (friend d decl) flags s = once d s λ t. visit decl flags t
    visit (friend_type d) flags s = once d s some

    pub visit_all : Decls → Flags → Builder → Option Builder
    visit_all nil flags s = some s
    visit_all (cons d ds) flags s = visit d flags s >>= visit_all ds flags

  -- `VisitTranslationUnitDecl`, called by `build_module` with no flags.
  unfoldable pub build_module : Decls → Module → SpecCollector → Option Builder
  unfolding visit is_none
  build_module ds m specs =
      if is_none no_flags
      then visit_all ds no_flags (record { module_ = m; specs = specs; visited = [] })
      else none
