-- ===== src/Translator/Scans.antt =====
-- The faults that crates/polygraph/src/translator/cypher/semantics.rs searches an expression for.
use rs_polygraph.Base.{
  String, Bool, true, false, not, ◌||◌, Option, none, some, List, [], ◌∷◌, if◌then◌else◌,
}
use rs_polygraph.Base.Dict.{Dict, get}
use rs_polygraph.Base.Eq.{string_eq}
use rs_polygraph.Base.Names.{has, eq_ignore_ascii_case}
use rs_polygraph.Base.Any.{any}
use rs_polygraph.Ast
use rs_polygraph.Ast.{Expression, OptExpression, Expressions, MapLiteral, Pattern, PatternElement}
use rs_polygraph.Ast.Views.{elements_of, element_variable, is_relationship}
use rs_polygraph.Translator.Aggregation.{expr_contains_aggregate}

-- `Kind` of `validate_semantics`
pub data Kind : Type 0 where
  node rel path scalar var_list : Kind

abbrev pub Kinds : Type 0
Kinds = Dict String Kind

abbrev pub is_path : Option Kind → Bool
is_path (some path) = true
is_path _ = false

abbrev pub is_entity : Option Kind → Bool
is_entity (some node) = true
is_entity (some rel) = true
is_entity _ = false

-- `kinds.contains_key(name)`
abbrev pub contains_key : Kinds → String → Bool
contains_key kinds v = elim (get v kinds) [ none ↦ false | some _ ↦ true ]

-- `a.or_else(|| b)`
abbrev or_else : Option String → Option String → Option String
or_else none b = b
or_else (some a) b = some a

-- the fault of a first argument of `size`
unfoldable pub size_argument : Kinds → Expressions → Option String
size_argument kinds (Ast.cons (Ast.pattern_predicate _) _) = some "UnexpectedSyntax"
size_argument kinds (Ast.cons (Ast.variable v) _) =
    if is_path (get v kinds) then some "InvalidArgumentType" else none
size_argument kinds _ = none

unfoldable mutual
  unfolding size_argument

  pub scan_invalid_size : Kinds → Expression → Option String
  scan_invalid_size kinds (Ast.function_call name _ args) =
      let inner = first_invalid_size kinds args in
      if eq_ignore_ascii_case name "size" then size_argument kinds args else inner
  scan_invalid_size kinds (Ast.or a b) =
      or_else (scan_invalid_size kinds a) (scan_invalid_size kinds b)
  scan_invalid_size kinds (Ast.and a b) =
      or_else (scan_invalid_size kinds a) (scan_invalid_size kinds b)
  scan_invalid_size kinds (Ast.add a b) =
      or_else (scan_invalid_size kinds a) (scan_invalid_size kinds b)
  scan_invalid_size kinds (Ast.subtract a b) =
      or_else (scan_invalid_size kinds a) (scan_invalid_size kinds b)
  scan_invalid_size kinds (Ast.multiply a b) =
      or_else (scan_invalid_size kinds a) (scan_invalid_size kinds b)
  scan_invalid_size kinds (Ast.divide a b) =
      or_else (scan_invalid_size kinds a) (scan_invalid_size kinds b)
  scan_invalid_size kinds (Ast.comparison a _ b) =
      or_else (scan_invalid_size kinds a) (scan_invalid_size kinds b)
  scan_invalid_size kinds (Ast.not e) = scan_invalid_size kinds e
  scan_invalid_size kinds (Ast.negate e) = scan_invalid_size kinds e
  scan_invalid_size kinds (Ast.is_null e) = scan_invalid_size kinds e
  scan_invalid_size kinds (Ast.is_not_null e) = scan_invalid_size kinds e
  scan_invalid_size kinds _ = none

  pub first_invalid_size : Kinds → Expressions → Option String
  first_invalid_size kinds Ast.nil = none
  first_invalid_size kinds (Ast.cons e es) =
      or_else (scan_invalid_size kinds e) (first_invalid_size kinds es)

unfoldable mutual
  unfolding expr_contains_aggregate

  pub contains_agg_in_list_comp : Expression → Bool
  contains_agg_in_list_comp (Ast.list_comprehension _ _ _ (Ast.present projection)) =
      expr_contains_aggregate projection
  contains_agg_in_list_comp (Ast.or a b) =
      contains_agg_in_list_comp a || contains_agg_in_list_comp b
  contains_agg_in_list_comp (Ast.and a b) =
      contains_agg_in_list_comp a || contains_agg_in_list_comp b
  contains_agg_in_list_comp (Ast.add a b) =
      contains_agg_in_list_comp a || contains_agg_in_list_comp b
  contains_agg_in_list_comp (Ast.subtract a b) =
      contains_agg_in_list_comp a || contains_agg_in_list_comp b
  contains_agg_in_list_comp (Ast.multiply a b) =
      contains_agg_in_list_comp a || contains_agg_in_list_comp b
  contains_agg_in_list_comp (Ast.divide a b) =
      contains_agg_in_list_comp a || contains_agg_in_list_comp b
  contains_agg_in_list_comp (Ast.comparison a _ b) =
      contains_agg_in_list_comp a || contains_agg_in_list_comp b
  contains_agg_in_list_comp (Ast.not e) = contains_agg_in_list_comp e
  contains_agg_in_list_comp (Ast.negate e) = contains_agg_in_list_comp e
  contains_agg_in_list_comp (Ast.is_null e) = contains_agg_in_list_comp e
  contains_agg_in_list_comp (Ast.is_not_null e) = contains_agg_in_list_comp e
  contains_agg_in_list_comp (Ast.list_of es) = any_agg_in_list_comp es
  contains_agg_in_list_comp (Ast.function_call _ _ es) = any_agg_in_list_comp es
  contains_agg_in_list_comp _ = false

  pub any_agg_in_list_comp : Expressions → Bool
  any_agg_in_list_comp Ast.nil = false
  any_agg_in_list_comp (Ast.cons e es) = contains_agg_in_list_comp e || any_agg_in_list_comp es

-- whether the base of a property access is a path variable
abbrev is_path_variable : Kinds → Expression → Bool
is_path_variable kinds (Ast.variable v) = is_path (get v kinds)
is_path_variable kinds _ = false

unfoldable pub check_path_prop : Kinds → Expression → Bool
check_path_prop kinds (Ast.property base _) =
    is_path_variable kinds base || check_path_prop kinds base
check_path_prop kinds (Ast.or a b) = check_path_prop kinds a || check_path_prop kinds b
check_path_prop kinds (Ast.and a b) = check_path_prop kinds a || check_path_prop kinds b
check_path_prop kinds (Ast.comparison a _ b) = check_path_prop kinds a || check_path_prop kinds b
check_path_prop kinds (Ast.not e) = check_path_prop kinds e
check_path_prop kinds (Ast.is_null e) = check_path_prop kinds e
check_path_prop kinds (Ast.is_not_null e) = check_path_prop kinds e
check_path_prop kinds _ = false

-- `bound.contains(v) || kinds.contains_key(v)`
abbrev pub is_known : List String → Kinds → String → Bool
is_known bound kinds v = has v bound || contains_key kinds v

abbrev undefined_name : List String → Kinds → String → Option String
undefined_name bound kinds v = if is_known bound kinds v then none else some v

unfoldable pub undefined_element : List String → Kinds → List PatternElement → Option String
undefined_element bound kinds [] = none
undefined_element bound kinds (e ∷ es) = elim (element_variable e) [
  | none ↦ undefined_element bound kinds es
  | some v ↦ or_else (undefined_name bound kinds v) (undefined_element bound kinds es)
]

-- the first variable that is not defined; `found` is the result
unfoldable mutual
  unfolding undefined_element

  pub check_undef_where : List String → Kinds → Expression → Option String
  check_undef_where bound kinds (Ast.variable v) = undefined_name bound kinds v
  check_undef_where bound kinds (Ast.property base _) = check_undef_where bound kinds base
  check_undef_where bound kinds (Ast.or a b) =
      or_else (check_undef_where bound kinds a) (check_undef_where bound kinds b)
  check_undef_where bound kinds (Ast.and a b) =
      or_else (check_undef_where bound kinds a) (check_undef_where bound kinds b)
  check_undef_where bound kinds (Ast.xor a b) =
      or_else (check_undef_where bound kinds a) (check_undef_where bound kinds b)
  check_undef_where bound kinds (Ast.add a b) =
      or_else (check_undef_where bound kinds a) (check_undef_where bound kinds b)
  check_undef_where bound kinds (Ast.subtract a b) =
      or_else (check_undef_where bound kinds a) (check_undef_where bound kinds b)
  check_undef_where bound kinds (Ast.multiply a b) =
      or_else (check_undef_where bound kinds a) (check_undef_where bound kinds b)
  check_undef_where bound kinds (Ast.divide a b) =
      or_else (check_undef_where bound kinds a) (check_undef_where bound kinds b)
  check_undef_where bound kinds (Ast.comparison a _ b) =
      or_else (check_undef_where bound kinds a) (check_undef_where bound kinds b)
  check_undef_where bound kinds (Ast.not e) = check_undef_where bound kinds e
  check_undef_where bound kinds (Ast.negate e) = check_undef_where bound kinds e
  check_undef_where bound kinds (Ast.is_null e) = check_undef_where bound kinds e
  check_undef_where bound kinds (Ast.is_not_null e) = check_undef_where bound kinds e
  check_undef_where bound kinds (Ast.function_call _ _ args) = first_undef_where bound kinds args
  check_undef_where bound kinds (Ast.pattern_predicate p) =
      undefined_element bound kinds (elements_of p)
  check_undef_where bound kinds _ = none

  pub first_undef_where : List String → Kinds → Expressions → Option String
  first_undef_where bound kinds Ast.nil = none
  first_undef_where bound kinds (Ast.cons e es) =
      or_else (check_undef_where bound kinds e) (first_undef_where bound kinds es)

unfoldable pub check_invalid_pattern : Kinds → Expression → Bool
check_invalid_pattern kinds (Ast.pattern_predicate p) = not (any is_relationship (elements_of p))
check_invalid_pattern kinds (Ast.variable v) = is_entity (get v kinds)
check_invalid_pattern kinds (Ast.not e) = check_invalid_pattern kinds e
check_invalid_pattern kinds (Ast.or a b) =
    check_invalid_pattern kinds a || check_invalid_pattern kinds b
check_invalid_pattern kinds (Ast.and a b) =
    check_invalid_pattern kinds a || check_invalid_pattern kinds b
check_invalid_pattern kinds _ = false

unfoldable mutual
  pub contains_pattern_expr : Expression → Bool
  contains_pattern_expr (Ast.pattern_comprehension _ _ _ _) = true
  contains_pattern_expr (Ast.pattern_predicate _) = true
  contains_pattern_expr (Ast.function_call _ _ es) = any_pattern_expr es
  contains_pattern_expr (Ast.property base _) = contains_pattern_expr base
  contains_pattern_expr (Ast.subscript a b) = contains_pattern_expr a || contains_pattern_expr b
  contains_pattern_expr (Ast.list_slice l a b) =
      contains_pattern_expr l || opt_pattern_expr a || opt_pattern_expr b
  contains_pattern_expr (Ast.list_comprehension _ l p j) =
      contains_pattern_expr l || opt_pattern_expr p || opt_pattern_expr j
  contains_pattern_expr (Ast.quantifier_expr _ _ l p) =
      contains_pattern_expr l || opt_pattern_expr p
  contains_pattern_expr (Ast.add a b) = contains_pattern_expr a || contains_pattern_expr b
  contains_pattern_expr (Ast.subtract a b) = contains_pattern_expr a || contains_pattern_expr b
  contains_pattern_expr (Ast.multiply a b) = contains_pattern_expr a || contains_pattern_expr b
  contains_pattern_expr (Ast.divide a b) = contains_pattern_expr a || contains_pattern_expr b
  contains_pattern_expr (Ast.comparison a _ b) = contains_pattern_expr a || contains_pattern_expr b
  contains_pattern_expr (Ast.and a b) = contains_pattern_expr a || contains_pattern_expr b
  contains_pattern_expr (Ast.or a b) = contains_pattern_expr a || contains_pattern_expr b
  contains_pattern_expr (Ast.not e) = contains_pattern_expr e
  contains_pattern_expr (Ast.negate e) = contains_pattern_expr e
  contains_pattern_expr (Ast.is_null e) = contains_pattern_expr e
  contains_pattern_expr (Ast.is_not_null e) = contains_pattern_expr e
  contains_pattern_expr (Ast.list_of es) = any_pattern_expr es
  contains_pattern_expr (Ast.map_of ps) = map_pattern_expr ps
  contains_pattern_expr _ = false

  pub any_pattern_expr : Expressions → Bool
  any_pattern_expr Ast.nil = false
  any_pattern_expr (Ast.cons e es) = contains_pattern_expr e || any_pattern_expr es

  pub map_pattern_expr : MapLiteral → Bool
  map_pattern_expr Ast.no_pair = false
  map_pattern_expr (Ast.pair _ e es) = contains_pattern_expr e || map_pattern_expr es

  pub opt_pattern_expr : OptExpression → Bool
  opt_pattern_expr Ast.absent = false
  opt_pattern_expr (Ast.present e) = contains_pattern_expr e
