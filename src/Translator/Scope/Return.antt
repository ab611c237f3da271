-- ===== src/Translator/Scope/Return.antt =====
-- The arm of `Clause::Return` in `validate_semantics`
-- (crates/polygraph/src/translator/cypher/semantics.rs). It reads the scope and leaves it.
use Prim.Native.String.{◌++◌}
use rs_polygraph.Base.{
  String, Bool, true, false, not, ◌&&◌, ◌||◌, Option, none, some, List, [], ◌∷◌, if◌then◌else◌,
}
use rs_polygraph.Base.Any.{any}
use rs_polygraph.Base.Names.{has}
use rs_polygraph.Ast
use rs_polygraph.Ast.{Expression, ReturnItems, OptOrderBy}
use rs_polygraph.Ast.Views.{ReturnItem, items_of, sort_keys}
use rs_polygraph.Ast.Equality.{same_expression}
use rs_polygraph.Results.{Result, ok}
use rs_polygraph.Results.Checks.{reject, each, ◌>>◌}
use rs_polygraph.Translator.Aggregation.{
  expr_contains_aggregate, expr_has_free_var_outside_agg, agg_has_nested_aggregate,
}
use rs_polygraph.Translator.Collect.{collect_free_vars}
use rs_polygraph.Translator.Scans.{is_known, scan_invalid_size, contains_agg_in_list_comp}
use rs_polygraph.Translator.Scope.{Scope, require_known, undefined}
use rs_polygraph.Translator.Scope.With.{
  is_pattern_predicate, aliases, projection_has_agg, is_ambiguous_key, is_ambiguous_item,
}

abbrev is_all : ReturnItems → Bool
is_all Ast.all_items = true
is_all (Ast.explicit _) = false

abbrev pub explicit_items : ReturnItems → List ReturnItem
explicit_items Ast.all_items = []
explicit_items (Ast.explicit list) = items_of list

abbrev pub order_keys : OptOrderBy → List Expression
order_keys Ast.unordered = []
order_keys (Ast.order_by keys) = sort_keys keys

unfoldable pub size_fault : Option String → Result (Unit {0})
size_fault none = ok tt
size_fault (some fault) = reject true (fault ++ ": invalid argument to size()")

-- the check of aggregates in a projected expression
unfoldable pub check_return_item : List ReturnItem → Expression → Result (Unit {0})
unfolding is_ambiguous_item agg_has_nested_aggregate
check_return_item items (Ast.aggregate a) =
    reject (agg_has_nested_aggregate a) "NestedAggregation: aggregate inside aggregate argument"
check_return_item items e =
    reject (is_ambiguous_item items e)
      "AmbiguousAggregationExpression: mix of aggregate and non-aggregate in RETURN expression"

-- The source's test before the loop, `seen_match || !bound_vars.is_empty() || !free_vars.is_empty()`,
-- follows from the `continue` above it.
unfoldable pub check_return_vars : Scope → List ReturnItem → Result (Unit {0})
unfolding require_known
check_return_vars s = each (λ i. require_known s (collect_free_vars i.expression))

-- `proj_vars`: the bare variables, then the aliases
unfoldable pub projected_vars : List ReturnItem → List String
projected_vars [] = []
projected_vars (i ∷ is) = elim i.expression [
  | Ast.variable v ↦ v ∷ projected_vars is
  | _ ↦ projected_vars is
]

unfoldable pub is_projected_var : List ReturnItem → String → Bool
unfolding projected_vars aliases
is_projected_var items v = has v (projected_vars items) || has v (aliases items)

-- a sort key of a `DISTINCT` that is not projected: the property of a known variable
unfoldable pub distinct_fault : Scope → List ReturnItem → Expression → Result (Unit {0})
unfolding is_projected_var
distinct_fault s items (Ast.property (Ast.variable v) k) =
    reject
      (not (any (λ i. same_expression i.expression (Ast.property (Ast.variable v) k)) items)
        && not (is_projected_var items v)
        && is_known s.bound_vars s.kinds v)
      (undefined v)
distinct_fault s items _ = ok tt

unfoldable pub check_distinct_order : Scope → Bool → ReturnItems → OptOrderBy → Result (Unit {0})
unfolding distinct_fault
check_distinct_order s true (Ast.explicit list) (Ast.order_by keys) =
    each (distinct_fault s (items_of list)) (sort_keys keys)
check_distinct_order s _ _ _ = ok tt

-- aggregates in the `ORDER BY`
unfoldable pub check_return_order : List ReturnItem → List Expression → Result (Unit {0})
unfolding projection_has_agg is_ambiguous_key
check_return_order items keys =
    if projection_has_agg items
    then each
        (λ key.
          reject
            (expr_contains_aggregate key
              && expr_has_free_var_outside_agg key
              && is_ambiguous_key items key)
            "AmbiguousAggregationExpression: ORDER BY expression is ambiguous")
        keys
    else each
        (λ key.
          reject (expr_contains_aggregate key) "InvalidAggregation: aggregate function in ORDER BY")
        keys

unfoldable pub check_return : Scope → Bool → ReturnItems → OptOrderBy → Result (Unit {0})
unfolding size_fault check_return_item check_return_vars check_distinct_order check_return_order
check_return s distinct returned order =
    let items = explicit_items returned in
    do
      reject (is_all returned && s.seen_match && not (any (λ _. true) s.bound_vars))
          "NoVariablesInScope: RETURN * with no variables in scope"
      each
          (λ i.
            reject (is_pattern_predicate i.expression)
              "UnexpectedSyntax: pattern predicate not allowed in RETURN")
          items
      each (λ i. size_fault (scan_invalid_size s.kinds i.expression)) items
      each (λ i. check_return_item items i.expression) items
      check_return_vars s items
      check_distinct_order s distinct returned order
      each
          (λ i.
            reject (contains_agg_in_list_comp i.expression)
              "InvalidAggregation: aggregate inside list comprehension")
          items
      check_return_order items (order_keys order)
