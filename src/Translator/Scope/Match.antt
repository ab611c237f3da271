-- ===== src/Translator/Scope/Match.antt =====
-- The arm of `Clause::Match` in `validate_semantics`
-- (crates/polygraph/src/translator/cypher/semantics.rs).
use Prim.Native.String.{◌++◌}
use rs_polygraph.Base.{String, true, Option, none, some, List, []}
use rs_polygraph.Base.Dict.{get}
use rs_polygraph.Base.Eq.{string_eq}
use rs_polygraph.Base.Names.{has, insert}
use rs_polygraph.Ast
use rs_polygraph.Ast.{OptExpression, Pattern, PatternList, PatternElement}
use rs_polygraph.Ast.Views.{patterns, path_variable, elements_of}
use rs_polygraph.Results.{Result, ok, err, translation, ◌>>=◌}
use rs_polygraph.Results.Checks.{reject, each, try_fold, ◌>>◌}
use rs_polygraph.Translator.Aggregation.{expr_contains_aggregate}
use rs_polygraph.Translator.Scans.{
  Kind, contains_key, check_path_prop, check_undef_where, check_invalid_pattern,
}
use rs_polygraph.Translator.Scans
use rs_polygraph.Translator.Scope.{Scope, bind, already_bound, undefined}

abbrev register_path_variable : Scope → Option String → Result Scope
register_path_variable s none = ok s
register_path_variable s (some v) =
    reject (contains_key s.kinds v) (already_bound v) >> ok (bind v Scans.path s)

-- the pre-scan for path variables
unfoldable pub register_path : Scope → Pattern → Result Scope
register_path s p = register_path_variable s (path_variable p)

-- a repeated relationship variable of one pattern; the state is `rel_vars_in_pattern`
unfoldable pub unique_rel : List String → PatternElement → Result (List String)
unique_rel seen (Ast.relationship (some v) _ _ _ _) =
    reject (has v seen)
      ("RelationshipUniquenessViolation: '" ++ (v ++ "' used more than once in the same pattern"))
    >> ok (insert v seen)
unique_rel seen _ = ok seen

unfoldable pub check_unique_rels : Pattern → Result (Unit {0})
unfolding unique_rel
check_unique_rels p = try_fold unique_rel [] (elements_of p) >>= λ _. ok tt

abbrev conflict : String → String → Result Scope
conflict v how = err (translation ("VariableTypeConflict: '" ++ (v ++ ("' " ++ how))))

-- a node variable, given its kind so far
abbrev pub register_node : Scope → String → Option Kind → Result Scope
register_node s v (some Scans.rel) = conflict v "used as both relationship/path and node"
register_node s v (some Scans.path) = conflict v "used as both relationship/path and node"
register_node s v (some Scans.scalar) = conflict v "is a non-node value used as a node"
register_node s v (some Scans.var_list) = conflict v "is a non-node value used as a node"
register_node s v _ = ok (bind v Scans.node s)

-- a relationship variable, given its kind so far
abbrev pub register_rel : Scope → String → Option Kind → Result Scope
register_rel s v (some Scans.node) = conflict v "used as both node/path and relationship"
register_rel s v (some Scans.path) = conflict v "used as both node/path and relationship"
register_rel s v (some Scans.scalar) = conflict v "is a scalar used as a relationship"
register_rel s v _ = ok (bind v Scans.rel s)

unfoldable pub register_element : Scope → PatternElement → Result Scope
register_element s (Ast.node (some v) _ _) = register_node s v (get v s.kinds)
register_element s (Ast.relationship (some v) _ _ _ _) = register_rel s v (get v s.kinds)
register_element s _ = ok s

unfoldable pub register_pattern : Scope → Pattern → Result Scope
unfolding register_element
register_pattern s p = try_fold register_element s (elements_of p)

-- the checks of a `WHERE` before the elements are registered
unfoldable pub check_where_before : Scope → OptExpression → Result (Unit {0})
check_where_before s Ast.absent = ok tt
check_where_before s (Ast.present e) =
    reject (expr_contains_aggregate e) "InvalidAggregation: aggregate function in WHERE clause"
    >> reject (check_path_prop s.kinds e) "InvalidArgumentType: property access on a path variable"

unfoldable pub undefined_fault : Option String → Result (Unit {0})
undefined_fault none = ok tt
undefined_fault (some v) = err (translation (undefined v))

-- and those after
unfoldable pub check_where_after : Scope → OptExpression → Result (Unit {0})
check_where_after s Ast.absent = ok tt
check_where_after s (Ast.present e) =
    reject (check_invalid_pattern s.kinds e)
      "InvalidArgumentType: node/relationship variable cannot be used as a boolean predicate"
    >> undefined_fault (check_undef_where s.bound_vars s.kinds e)

unfoldable pub check_match : Scope → PatternList → OptExpression → Result Scope
unfolding register_path check_unique_rels undefined_fault register_pattern check_where_before
    check_where_after
check_match s list condition = do
  s₁ ← try_fold register_path (record s { seen_match = true }) (patterns list)
  check_where_before s₁ condition
  each check_unique_rels (patterns list)
  s₂ ← try_fold register_pattern s₁ (patterns list)
  check_where_after s₂ condition
  ok s₂
