-- ===== src/Names/Level.antt =====
-- The printers of names restore the depth of the formatter.
use bri_ck.Prelude.{
  ℕ, suc, ◌-◌, Bool, true, false, not, ◌&&◌, ◌||◌, ◌==◌, ltb, length, take, drop, Option, none,
  some, Text, String,
}
use bri_ck.CoqPrinter.Moves.{
  ◌then◌, IsLevel, Moves->>=, Moves-if, Moves-pure, Moves-out, Moves-digits, Moves-str, Moves-space,
  Moves-ctor_inline, Moves-end, stops,
}
use bri_ck.PrintExpr.PartLevel.{assert-IsLevel}
use bri_ck.Names.{
  RecordName, identifier, typedef_name, first_field, no_field, EnumName, enum_identifier,
  first_enumerator, no_enumerator, Scope, unit, specialization, namespace, record_, enum, function,
  linkage, unknown, print_identifier, print_record_name, print_enum_name, print_namespace_name,
  print_if, print_end, print_specialization, print_function, print_context, TypeDecl, scoped,
  c_record, other_type, ValueDecl, enumerator, destructor, mangled, plain, Member, field,
  unnamed_field, method, variable, other_member, Param, named_param, unnamed_param,
  parameter_number, print_type_name, print_obj_name, print_field, print_number, print_param_name,
}

module _ (decimal : ℕ → Text) where
  identifier-IsLevel : (name : Text) → IsLevel (print_identifier decimal name)
  unfolding print_identifier
  identifier-IsLevel name i = Moves-digits (decimal (length name)) then Moves-digits name

  record_name-IsLevel : (name : RecordName) → IsLevel (print_record_name decimal name)
  unfolding print_record_name
  record_name-IsLevel (identifier name) i = identifier-IsLevel name i
  record_name-IsLevel (typedef_name name) i = identifier-IsLevel name i
  record_name-IsLevel (first_field name) i = Moves-out "." then Moves-digits name
  record_name-IsLevel no_field i = Moves-out "~<empty>"

  enum_name-IsLevel : (name : EnumName) → IsLevel (print_enum_name decimal name)
  unfolding print_enum_name
  enum_name-IsLevel (enum_identifier name) i = identifier-IsLevel name i
  enum_name-IsLevel (first_enumerator name) i = Moves-out "~" then Moves-digits name
  enum_name-IsLevel no_enumerator i = Moves-out "~<empty-enum>"

  namespace_name-IsLevel :
      (name : Option Text) (is_empty : Bool) → IsLevel (print_namespace_name decimal name is_empty)
  unfolding print_namespace_name
  namespace_name-IsLevel (some name) is_empty i = identifier-IsLevel name i
  namespace_name-IsLevel none false i = Moves-out "~<TODO>"
  namespace_name-IsLevel none true i = Moves-out "~<empty>"

  if-IsLevel : (b : Bool) (w : String) → IsLevel (print_if decimal b w)
  unfolding print_if
  if-IsLevel true w i = Moves-out w
  if-IsLevel false w i = Moves-out ""

  end-IsLevel : (r k : ℕ) → IsLevel (print_end decimal r k)
  unfolding print_end
  end-IsLevel r k i = Moves-if (r == 0 && ltb 0 k) (Moves-out "E") Moves-pure

  specialization-IsLevel :
      (in_unit : Bool) (sout : Text) (r : ℕ) → IsLevel (print_specialization decimal in_unit sout r)
  unfolding print_specialization
  specialization-IsLevel in_unit sout r i =
      Moves-if (not in_unit || ltb 0 r)
        (Moves-digits sout then if-IsLevel (r == 0) "E" i then Moves-pure)
        (Moves-if (ltb (length sout) 3) stops
          (Moves-out "_Z" then Moves-digits (drop 3 sout) then Moves-pure))

  function-IsLevel :
      (in_unit : Bool) (sout : Text) (r : ℕ) → IsLevel (print_function decimal in_unit sout r)
  unfolding print_function
  function-IsLevel true sout r i = Moves-digits sout then Moves-pure
  function-IsLevel false sout r i = Moves-digits sout then if-IsLevel (r == 0) "E" i then Moves-pure

  context-IsLevel : (s : Scope) (r : ℕ) → IsLevel (print_context decimal s r)
  unfolding print_context
  context-IsLevel unit r i = Moves-out "_Z" then if-IsLevel (ltb 1 r) "N" i then Moves-pure
  context-IsLevel (specialization none in_unit q) r i = Moves-digits q then Moves-pure
  context-IsLevel (specialization (some name) in_unit q) r i =
      assert-IsLevel (ltb 3 (length name)) i
      then specialization-IsLevel in_unit (take (length name - 4) name) r i
  context-IsLevel (namespace name is_empty s) r i =
      Moves->>= (context-IsLevel s (suc r) i)
        λ k. namespace_name-IsLevel name is_empty i then end-IsLevel r k i then Moves-pure
  context-IsLevel (record_ name s) r i =
      Moves->>= (context-IsLevel s (suc r) i)
        λ k. record_name-IsLevel name i then end-IsLevel r k i then Moves-pure
  context-IsLevel (enum name s) r i =
      Moves->>= (context-IsLevel s (suc r) i)
        λ k. enum_name-IsLevel name i then end-IsLevel r k i then Moves-pure
  context-IsLevel (function name in_unit) r i =
      assert-IsLevel (ltb 3 (length name)) i then function-IsLevel in_unit name r i
  context-IsLevel (linkage s) r i = context-IsLevel s r i
  context-IsLevel unknown r i = stops

  pub type_name-IsLevel : (d : TypeDecl) → IsLevel (print_type_name decimal d)
  unfolding print_type_name
  type_name-IsLevel (scoped s) i =
      Moves-out "\"" then Moves->>= (context-IsLevel s 0 i) λ k. Moves-out "\""
  type_name-IsLevel (c_record name) i = Moves-out "\"" then Moves-digits name then Moves-out "\""
  type_name-IsLevel other_type i = stops

  pub obj_name-IsLevel : (d : ValueDecl) → IsLevel (print_obj_name decimal d)
  unfolding print_obj_name
  obj_name-IsLevel (enumerator type name) i =
      Moves-ctor_inline "Cenum_const"
      then type_name-IsLevel type (suc i)
      then Moves-out " \""
      then Moves-digits name
      then Moves-out "\""
      then Moves-end
  obj_name-IsLevel (destructor type) i =
      Moves-ctor_inline "DTOR" then type_name-IsLevel type (suc i) then Moves-end
  obj_name-IsLevel (mangled name) i = Moves-out "\"" then Moves-digits name then Moves-out "\""
  obj_name-IsLevel (plain name) i = Moves-out "\"" then Moves-digits name then Moves-out "\""

  pub field-IsLevel : (d : Member) → IsLevel (print_field decimal d)
  unfolding print_field
  field-IsLevel (field parent name) i =
      Moves-ctor_inline "Build_field"
      then type_name-IsLevel parent (suc i)
      then Moves-space
      then Moves-str name
      then Moves-end
  field-IsLevel (unnamed_field parent none) i = stops
  field-IsLevel (unnamed_field parent (some type)) i =
      Moves-ctor_inline "Build_field"
      then type_name-IsLevel parent (suc i)
      then Moves-space
      then Moves-ctor_inline "Nanon"
      then type_name-IsLevel type (suc (suc i))
      then Moves-end
      then Moves-end
  field-IsLevel (method parent name) i =
      Moves-ctor_inline "Build_field"
      then type_name-IsLevel parent (suc i)
      then Moves-space
      then Moves-out "\""
      then Moves-digits name
      then Moves-out "\""
      then Moves-end
  field-IsLevel variable i = Moves-pure
  field-IsLevel other_member i = stops

  number-IsLevel : (o : Option ℕ) → IsLevel (print_number decimal o)
  unfolding print_number
  number-IsLevel none i = stops
  number-IsLevel (some n) i = Moves-out "#" then Moves-digits (decimal n)

  pub param_name-IsLevel : (d : Param) → IsLevel (print_param_name decimal d)
  unfolding print_param_name
  param_name-IsLevel (named_param name) i =
      Moves-out "\"" then Moves-digits name then Moves-out "\""
  param_name-IsLevel (unnamed_param d none) i = stops
  param_name-IsLevel (unnamed_param d (some ps)) i =
      Moves-out "\"" then number-IsLevel (parameter_number 0 d ps) i then Moves-out "\""
