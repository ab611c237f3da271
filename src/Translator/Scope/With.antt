-- ===== src/Translator/Scope/With.antt =====
-- The arm of `Clause::With` in `validate_semantics`
-- (crates/polygraph/src/translator/cypher/semantics.rs).
use Prim.Native.String.{◌++◌}
use rs_polygraph.Base.{
  String, Bool, true, false, not, ◌&&◌, ◌||◌, Option, none, some, List, [], ◌∷◌, map, if◌then◌else◌,
}
use rs_polygraph.Base.Any.{any, filter}
use rs_polygraph.Base.Dict.{get}
use rs_polygraph.Base.Eq.{◌==◌, string_eq}
use rs_polygraph.Base.Names.{has, insert}
use rs_polygraph.Ast
use rs_polygraph.Ast.{Expression, ReturnItems, OptOrderBy}
use rs_polygraph.Ast.Views.{ReturnItem, items_of, sort_keys, expressions}
use rs_polygraph.Ast.Equality.{same_expression}
use rs_polygraph.Results.{Result, ok, err, translation, ◌>>=◌}
use rs_polygraph.Results.Checks.{reject, each, try_fold, ◌>>◌}
use rs_polygraph.Translator.Aggregation.{
  expr_contains_aggregate, expr_has_free_var_outside_agg, atomic_free_terms, contains_expression,
  is_ambiguous_aggregation,
}
use rs_polygraph.Translator.Collect.{collect_free_vars_ob}
use rs_polygraph.Translator.Scans.{Kind, Kinds, contains_key}
use rs_polygraph.Translator.Scans
use rs_polygraph.Translator.Unions.{column_name}
use rs_polygraph.Translator.Scope.{Scope, put}

abbrev pub is_pattern_predicate : Expression → Bool
is_pattern_predicate (Ast.pattern_predicate _) = true
is_pattern_predicate _ = false

abbrev is_variable : Expression → Bool
is_variable (Ast.variable _) = true
is_variable _ = false

abbrev pub is_aggregate : Expression → Bool
is_aggregate (Ast.aggregate _) = true
is_aggregate _ = false

-- `binding_kind`
unfoldable pub binding_kind : Kinds → Expression → Option Kind
binding_kind kinds (Ast.literal (Ast.integer _)) = some Scans.scalar
binding_kind kinds (Ast.literal (Ast.float _)) = some Scans.scalar
binding_kind kinds (Ast.literal (Ast.string _)) = some Scans.scalar
binding_kind kinds (Ast.literal (Ast.boolean _)) = some Scans.scalar
binding_kind kinds (Ast.map_of _) = some Scans.scalar
binding_kind kinds (Ast.list_of Ast.nil) = some Scans.scalar
binding_kind kinds (Ast.list_of (Ast.cons e es)) =
    if any (λ x. not (is_variable x)) (expressions (Ast.cons e es))
    then some Scans.scalar
    else some Scans.var_list
binding_kind kinds (Ast.variable v) = get v kinds
binding_kind kinds _ = none

-- `projected_names` and `projected_kinds`
pub record Projected : Type 0 where
  pub names : List String
  pub kinds : Kinds

abbrev pub note_kind : String → Option Kind → Kinds → Kinds
note_kind v none kinds = kinds
note_kind v (some kind) kinds = put v kind kinds

abbrev pub project_name : Kinds → Projected → Expression → Option String → Result Projected
project_name kinds p e none =
    err (translation "NoExpressionAlias: expression in WITH must have an alias")
project_name kinds p e (some v) =
    ok (record { names = insert v p.names; kinds = note_kind v (binding_kind kinds e) p.kinds })

-- one round of the loop over the items
unfoldable pub project_item : Kinds → Projected → ReturnItem → Result Projected
unfolding binding_kind
project_item kinds p i = project_name kinds p i.expression (column_name i)

unfoldable pub project_items : Kinds → List ReturnItem → Result Projected
unfolding project_item
project_items kinds = try_fold (project_item kinds) (record { names = []; kinds = [] })

unfoldable pub projection_has_agg : List ReturnItem → Bool
projection_has_agg = any (λ i. expr_contains_aggregate i.expression)

unfoldable pub aliases : List ReturnItem → List String
aliases [] = []
aliases (i ∷ is) = elim i.alias [ none ↦ aliases is | some a ↦ a ∷ aliases is ]

unfoldable pub non_agg_exprs : List ReturnItem → List Expression
non_agg_exprs items =
    map (λ (i : ReturnItem). i.expression)
      (filter (λ i. not (expr_contains_aggregate i.expression)) items)

-- `e` is the variable `v`, or a property of it
abbrev mentions : String → Expression → Bool
mentions v (Ast.variable u) = u == v
mentions v (Ast.property (Ast.variable u) _) = u == v
mentions v _ = false

-- `covered`
unfoldable pub covered : Scope → List String → List ReturnItem → String → Bool
unfolding projection_has_agg aliases non_agg_exprs
covered s names items v =
    if projection_has_agg items
    then has v (aliases items) || any (mentions v) (non_agg_exprs items)
    else has v s.bound_vars || has v names || has v (aliases items)

unfoldable pub check_order_scope :
    Scope → List String → List ReturnItem → List Expression → Result (Unit {0})
unfolding covered
check_order_scope s names items = each λ key.
    if expr_contains_aggregate key
    then ok tt
    else each
        (λ v.
          reject (not (covered s names items v))
            ("UndefinedVariable: variable '" ++ (v ++ "' not defined in ORDER BY")))
        (collect_free_vars_ob key)

-- a free term of an `ORDER BY` that neither an item nor an alias covers
abbrev uncovered : List ReturnItem → Expression → Bool
uncovered items (Ast.variable v) =
    not (contains_expression (non_agg_exprs items) (Ast.variable v)) && not (has v (aliases items))
uncovered items term = not (contains_expression (non_agg_exprs items) term)

unfoldable pub is_ambiguous_key : List ReturnItem → Expression → Bool
unfolding aliases non_agg_exprs
is_ambiguous_key items key = any (uncovered items) (atomic_free_terms key)

-- `alias_covers || expr_in_proj`
unfoldable pub is_projected_aggregate : List ReturnItem → Expression → Bool
unfolding aliases
is_projected_aggregate items (Ast.variable v) =
    has v (aliases items) || any (λ i. same_expression i.expression (Ast.variable v)) items
is_projected_aggregate items key = any (λ i. same_expression i.expression key) items

unfoldable pub check_order_aggregate : List ReturnItem → Expression → Result (Unit {0})
unfolding is_ambiguous_key is_projected_aggregate
check_order_aggregate items key =
    if expr_has_free_var_outside_agg key
    then reject (is_ambiguous_key items key)
        "AmbiguousAggregationExpression: ORDER BY expression is ambiguous"
    else reject (not (is_projected_aggregate items key))
        "UndefinedVariable: aggregate in ORDER BY is not in the projection"

unfoldable pub check_order_aggregates : List ReturnItem → List Expression → Result (Unit {0})
unfolding projection_has_agg check_order_aggregate
check_order_aggregates items keys =
    if projection_has_agg items
    then each
        (λ key. if expr_contains_aggregate key then check_order_aggregate items key else ok tt) keys
    else each
        (λ key.
          reject (expr_contains_aggregate key) "InvalidAggregation: aggregate function in ORDER BY")
        keys

-- the items without an aggregate, for the check of the others
unfoldable pub non_agg_items : List ReturnItem → List Expression
non_agg_items items =
    map (λ (i : ReturnItem). i.expression)
      (filter (λ i. not (expr_contains_aggregate i.expression))
        (filter (λ i. not (is_aggregate i.expression)) items))

unfoldable pub is_ambiguous_item : List ReturnItem → Expression → Bool
unfolding non_agg_items
is_ambiguous_item items e =
    not (is_aggregate e)
    && expr_contains_aggregate e
    && expr_has_free_var_outside_agg e
    && is_ambiguous_aggregation e (non_agg_items items)

-- `kinds.retain(|k, _| projected_kinds.contains_key(k))`
unfoldable pub retain : Kinds → Kinds → Kinds
retain kept [] = []
retain kept ((k, kind) ∷ m) =
    let rest = retain kept m in if contains_key kept k then (k, kind) ∷ rest else rest

-- `for (k, v) in projected_kinds { kinds.insert(k, v); }`
unfoldable pub insert_all : Kinds → Kinds → Kinds
insert_all [] kinds = kinds
insert_all ((k, kind) ∷ m) kinds = insert_all m (put k kind kinds)

-- after a `WITH`, only the projected variables are in scope
unfoldable pub replace_scope : Projected → Scope → Scope
unfolding retain insert_all
replace_scope p s = record s {
  kinds = insert_all p.kinds (retain p.kinds s.kinds);
  bound_vars = p.names;
}

unfoldable pub check_with_order :
    Scope → List String → List ReturnItem → OptOrderBy → Result (Unit {0})
unfolding check_order_scope check_order_aggregates
check_with_order s names items Ast.unordered = ok tt
check_with_order s names items (Ast.order_by keys) =
    (if any (λ _. true) s.bound_vars
      then check_order_scope s names items (sort_keys keys)
      else ok tt)
    >> check_order_aggregates items (sort_keys keys)

unfoldable pub check_with : Scope → ReturnItems → OptOrderBy → Result Scope
unfolding project_items check_with_order is_ambiguous_item replace_scope
check_with s Ast.all_items order = ok s
check_with s (Ast.explicit list) order =
    let items = items_of list in
    do
      each
          (λ i.
            reject (is_pattern_predicate i.expression)
              "UnexpectedSyntax: pattern predicate not allowed in WITH")
          items
      p ← project_items s.kinds items
      check_with_order s p.names items order
      each
          (λ i.
            reject (is_ambiguous_item items i.expression)
              "AmbiguousAggregationExpression: mix of aggregate and non-aggregate in WITH expression")
          items
      ok (replace_scope p s)
