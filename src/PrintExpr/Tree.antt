-- ===== src/PrintExpr/Tree.antt =====
-- src/PrintExpr.cpp: the tree of an expression, with one constructor for each kind of node that has its
-- own `Visit…` method, and the visitor.
use bri_ck.Prelude.{ℕ, Bool, Option, List, Text}
use bri_ck.CoqPrinter.{pure, aborts}
use bri_ck.PrintExpr.{Info, Var, Operator, Sequencing, UnaryOp, Trait, Printers}
use bri_ck.PrintExpr.Parts.{Cast, NamedCast, Operation, Method, OperatorMethod, IntegerValue}
use bri_ck.PrintExpr.Visit.{
  P, Pointer, visit_unsupported, visit_sequencing, visit_binary, visit_addr_of, visit_unary,
  visit_enum_ref, visit_decl_ref, visit_unresolved_lookup, visit_call, visit_operator_method,
  visit_constructor_conversion, visit_user_cast, visit_cast, visit_builtin, visit_named_cast,
  visit_integer, visit_character, visit_string, visit_predefined, visit_bool, visit_floating,
  visit_static_data, visit_static_method, visit_member, visit_subscript,
}
use bri_ck.PrintExpr.Objects.{
  visit_construct, visit_inherited, visit_member_call, visit_pointer_call, visit_wrapped,
  visit_conditional, visit_binary_conditional, visit_paren_list, visit_init_list, visit_this,
  visit_null_ptr, trait_name, visit_trait_type, visit_trait_expr, visit_offset_of, visit_new,
  visit_delete, visit_materialize, visit_opaque, visit_atomic, visit_va_arg, visit_lambda,
  visit_implicit_value, visit_pseudo_destructor, visit_answer, visit_scalar_value, visit_array_loop,
  visit_array_index, print_missing, print_present, print_before, print_bracketed, print_nil,
}

mutual
  pub data Expr (T N : Type 0) : Type 0 where
    unsupported : Info T → Expr T N
    recovery : Info T → Expr T N
    sequencing : Sequencing → Bool → Expr T N → Expr T N → Expr T N
    binary : Info T → Operator → Expr T N → Expr T N → Expr T N
    addr_of : Expr T N → Expr T N
    unary : Info T → UnaryOp → Expr T N → Expr T N
    enum_ref : Info T → N → Option T → Expr T N
    decl_ref : Info T → Var N → Bool → Expr T N
    unresolved_lookup : Info T → Option Text → Expr T N
    call : Info T → Bool → Expr T N → Exprs T N → Expr T N
    operator_method : Info T → OperatorMethod T N → Expr T N → Exprs T N → Expr T N
    -- an operator that is neither a method nor a function
    operator_other : Expr T N
    constructor_conversion : Expr T N → Expr T N
    user_cast : Info T → N → Expr T N → Expr T N
    cast : Info T → Cast N → Expr T N → Expr T N
    builtin : Info T → N → Expr T N
    named_cast : Info T → NamedCast T N → Expr T N → Expr T N
    integer : Info T → IntegerValue → Expr T N
    character : Info T → Text → Expr T N
    string : ℕ → List ℕ → Option T → Expr T N
    predefined : Text → Option T → Expr T N
    bool : Bool → Expr T N
    floating : Info T → Text → Expr T N
    static_data : Info T → Var N → Bool → Expr T N → Expr T N
    static_method : Var N → T → Expr T N → Expr T N
    member : Info T → N → Bool → Option T → Bool → Expr T N → Expr T N
    subscript : Info T → Expr T N → Expr T N → Expr T N
    construct : Info T → N → Exprs T N → Expr T N
    inherited : Info T → N → List T → Expr T N
    member_call : Info T → Method T N → Option T → Expr T N → Exprs T N → Expr T N
    pointer_call : Info T → Pointer T → Expr T N → Expr T N → Exprs T N → Expr T N
    -- a member call that names no member and no pointer to one
    other_call : Expr T N
    default_arg : Expr T N → Expr T N
    conditional : Info T → Expr T N → Expr T N → Expr T N → Expr T N
    binary_conditional : Info T → ℕ → Expr T N → Expr T N → Expr T N → Expr T N → Expr T N
    -- constants, parentheses, replaced parameters of templates and bound temporaries
    transparent : Expr T N → Expr T N
    paren_list : Info T → Bool → Exprs T N → Expr T N
    -- a transparent list of initialisers, which must be one
    transparent_init : Exprs T N → Expr T N
    init_list : Info T → Exprs T N → OptExpr T N → Expr T N
    this : Info T → Expr T N
    null_ptr : Expr T N
    trait_type : Info T → Trait → T → Expr T N
    trait_expr : Info T → Trait → Expr T N → Expr T N
    offset_of : Info T → Bool → Option N → Expr T N
    new : Option (Operation T N) → T → Exprs T N → OptExpr T N → OptExpr T N → Expr T N
    delete : Bool → Option (Operation T N) → T → Expr T N → Expr T N
    cleanups : Expr T N → Expr T N
    materialize : Info T → Bool → Expr T N → Expr T N
    opaque : Info T → ℕ → Expr T N
    atomic : Info T → Text → Exprs T N → Expr T N
    default_init : Expr T N → Expr T N
    va_arg : Info T → Expr T N → Expr T N
    lambda : Info T → Expr T N
    implicit_value : Info T → Expr T N
    pseudo_destructor : T → Expr T N → Expr T N
    answer : Bool → Expr T N
    scalar_value : T → Expr T N
    array_loop : Info T → ℕ → Text → Expr T N → Expr T N → Expr T N
    array_index : Info T → Expr T N

  pub data Exprs (T N : Type 0) : Type 0 where
    nil : Exprs T N
    cons : Expr T N → Exprs T N → Exprs T N

  pub data OptExpr (T N : Type 0) : Type 0 where
    absent : OptExpr T N
    present : Expr T N → OptExpr T N

module _ {T N : Type 0} (pr : Printers T N) where
  unfoldable mutual
    pub print_expr : Expr T N → P
    print_expr (unsupported i) = visit_unsupported pr i
    print_expr (recovery i) = visit_unsupported pr i
    print_expr (sequencing op fits l r) = visit_sequencing pr op fits (print_expr l) (print_expr r)
    print_expr (binary i op l r) = visit_binary pr i op (print_expr l) (print_expr r)
    print_expr (addr_of e) = visit_addr_of pr (print_expr e)
    print_expr (unary i op e) = visit_unary pr i op (print_expr e)
    print_expr (enum_ref i d type) = visit_enum_ref pr i d type
    print_expr (decl_ref i x is_reference) = visit_decl_ref pr i x is_reference
    print_expr (unresolved_lookup i name) = visit_unresolved_lookup pr i name
    print_expr (call i is_dependent f es) =
        visit_call pr i is_dependent (print_expr f) (print_list es)
    print_expr (operator_method i m e es) =
        visit_operator_method pr i m (print_expr e) (print_list es)
    print_expr operator_other = pure
    print_expr (constructor_conversion e) = visit_constructor_conversion pr (print_expr e)
    print_expr (user_cast i d e) = visit_user_cast pr i d (print_expr e)
    print_expr (cast i c e) = visit_cast pr i c (print_expr e)
    print_expr (builtin i d) = visit_builtin pr i d
    print_expr (named_cast i c e) = visit_named_cast pr i c (print_expr e)
    print_expr (integer i value) = visit_integer pr i value
    print_expr (character i value) = visit_character pr i value
    print_expr (string width bytes element) = visit_string pr width bytes element
    print_expr (predefined name element) = visit_predefined pr name element
    print_expr (bool b) = visit_bool pr b
    print_expr (floating i value) = visit_floating pr i value
    print_expr (static_data i x is_reference e) =
        visit_static_data pr i x is_reference (print_expr e)
    print_expr (static_method x type e) = visit_static_method pr x type (print_expr e)
    print_expr (member i d is_reference arrow fits e) =
        visit_member pr i d is_reference arrow fits (print_expr e)
    print_expr (subscript i l r) = visit_subscript pr i (print_expr l) (print_expr r)
    print_expr (construct i d es) = visit_construct pr i d (print_list es)
    print_expr (inherited i d types) = visit_inherited pr i d types
    print_expr (member_call i m arrow e es) =
        visit_member_call pr i m arrow (print_expr e) (print_list es)
    print_expr (pointer_call i kind m e es) =
        visit_pointer_call pr i kind (print_expr m) (print_expr e) (print_list es)
    print_expr other_call = λ s. aborts
    print_expr (default_arg e) = visit_wrapped pr "Eimplicit" (print_expr e)
    print_expr (conditional i c l r) =
        visit_conditional pr i (print_expr c) (print_expr l) (print_expr r)
    print_expr (binary_conditional i d common c l r) =
        visit_binary_conditional pr i d (print_expr common) (print_expr c) (print_expr l)
          (print_expr r)
    print_expr (transparent e) = print_expr e
    print_expr (paren_list i is_dependent es) = visit_paren_list pr i is_dependent (print_list es)
    print_expr (transparent_init es) = print_only es
    print_expr (init_list i es filler) = visit_init_list pr i (print_list es) (print_option filler)
    print_expr (this i) = visit_this pr i
    print_expr null_ptr = visit_null_ptr pr
    print_expr (trait_type i k type) = visit_trait_type pr i (trait_name pr k) type
    print_expr (trait_expr i k e) = visit_trait_expr pr i (trait_name pr k) (print_expr e)
    print_expr (offset_of i is_one d) = visit_offset_of pr i is_one d
    print_expr (new f type es size init) =
        visit_new pr f type (print_list es) (print_option size) (print_option init)
    print_expr (delete is_array f type e) = visit_delete pr is_array f type (print_expr e)
    print_expr (cleanups e) = visit_wrapped pr "Eandclean" (print_expr e)
    print_expr (materialize i is_extended e) = visit_materialize pr i is_extended (print_expr e)
    print_expr (opaque i d) = visit_opaque pr i d
    print_expr (atomic i op es) = visit_atomic pr i op (print_bracketed (print_rest es))
    print_expr (default_init e) = visit_wrapped pr "Edefault_init_expr" (print_expr e)
    print_expr (va_arg i e) = visit_va_arg pr i (print_expr e)
    print_expr (lambda i) = visit_lambda pr i
    print_expr (implicit_value i) = visit_implicit_value pr i
    print_expr (pseudo_destructor type e) = visit_pseudo_destructor pr type (print_expr e)
    print_expr (answer b) = visit_answer pr b
    print_expr (scalar_value type) = visit_scalar_value pr type
    print_expr (array_loop i d size source e) =
        visit_array_loop pr i d size (print_expr source) (print_expr e)
    print_expr (array_index i) = visit_array_index pr i

    -- `CoqPrinter::list` over expressions
    pub print_list : Exprs T N → P
    print_list nil = print_nil
    print_list (cons e es) = print_bracketed (print_before (print_expr e) (print_rest es))

    pub print_rest : Exprs T N → P
    print_rest nil = pure
    print_rest (cons e es) = print_before (print_expr e) (print_rest es)

    -- The one expression of a list; another number of them is a failed `assert`.
    pub print_only : Exprs T N → P
    print_only nil = λ s. aborts
    print_only (cons e nil) = print_expr e
    print_only (cons e (cons f es)) = λ s. aborts

    pub print_option : OptExpr T N → P
    print_option absent = print_missing pr
    print_option (present e) = print_present pr (print_expr e)
