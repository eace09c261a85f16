-- ===== src/Module.antt =====
-- include/ModuleBuilder.hpp and the end of src/ModuleBuilder.cpp: the declarations that are going to
-- be printed, by their `Decl::getID()`, in four lists and a list of static assertions.
use bri_ck.Prelude.{ℕ, Bool, true, false, ◌&&◌, not, List, [], ◌∷◌, ◌++◌, if◌then◌else◌}

pub record Flags : Type 0 where
  pub in_template : Bool
  pub in_specialization : Bool

unfoldable pub set_template : Flags → Flags
set_template f = record { in_template = true; in_specialization = f.in_specialization }

unfoldable pub set_specialization : Flags → Flags
set_specialization f = record { in_template = f.in_template; in_specialization = true }

unfoldable pub is_none : Flags → Bool
is_none f = not f.in_template && not f.in_specialization

abbrev pub no_flags : Flags
no_flags = record { in_template = false; in_specialization = false }

pub record Module : Type 0 where
  pub declarations : List ℕ
  pub definitions : List ℕ
  pub template_declarations : List ℕ
  pub template_definitions : List ℕ
  pub asserts : List ℕ

abbrev pub empty : Module
empty = record {
  declarations = [];
  definitions = [];
  template_declarations = [];
  template_definitions = [];
  asserts = [];
}

-- The two lists after `add_decl(decls, tdecls, d, flags)`.
unfoldable pub add_decl : List ℕ → List ℕ → ℕ → Flags → List ℕ × List ℕ
add_decl decls tdecls d flags =
    if flags.in_template
    then (decls, tdecls ++ d ∷ [])
    else if flags.in_specialization
    then (decls ++ d ∷ [], tdecls ++ d ∷ [])
    else (decls ++ d ∷ [], tdecls)

unfoldable pub add_definition : ℕ → Flags → Module → Module
unfolding add_decl
add_definition d flags m =
    let (decls, tdecls) = add_decl m.definitions m.template_definitions d flags in
    record m { definitions = decls; template_definitions = tdecls }

unfoldable pub add_declaration : ℕ → Flags → Module → Module
unfolding add_decl
add_declaration d flags m =
    let (decls, tdecls) = add_decl m.declarations m.template_declarations d flags in
    record m { declarations = decls; template_declarations = tdecls }

unfoldable pub add_assert : ℕ → Module → Module
add_assert d m = record m { asserts = m.asserts ++ d ∷ [] }
