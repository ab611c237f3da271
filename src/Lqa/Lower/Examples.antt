-- ===== src/Lqa/Lower/Examples.antt =====
-- The lowering of small queries.
use rs_polygraph.Lqa.Lower.Outcomes.{ok, err}
use rs_polygraph.Base.{
  String, Bool, true, false, Option, none, some, List, [], ◌∷◌, ◌≡◌, refl, arith,
}
use rs_polygraph.Base.Any.{any}
use rs_polygraph.Base.Int.{pos, negsuc}
use rs_polygraph.Base.Dict.{get, upsert}
use rs_polygraph.Base.Names.{has, eq_ignore_ascii_case}
use rs_polygraph.Base.Decimal.{to_string}
use rs_polygraph.Results.{PolygraphError, translation}
use rs_polygraph.Ast
use rs_polygraph.Ast.{Clause, CypherQuery, ItemList, PatternList}
use rs_polygraph.Lqa.Syntax
use rs_polygraph.Lqa.Syntax.{Expr, Op, ProjItems}
use rs_polygraph.Lqa.Syntax.Build.{var, int}
use rs_polygraph.Lqa.Aggregates.{expr_contains_aggregate}
use rs_polygraph.Lqa.Aggregates.Keys.{aliases}
use rs_polygraph.Lqa.Write.{contains_write, strip_writes}
use rs_polygraph.Lqa.Lower.State.{AstLowerer, new, pure, ◌>>=◌, visit, insert_const, next_name}
use rs_polygraph.Lqa.Lower.Terms.{
  lower_literal, node_start, node_end, check_labels, scan_of, join_match, substitute_list, unite,
  is_definitely_non_boolean,
}
use rs_polygraph.Lqa.Lower.Items.{
  Items, is_list, push_item, item_alias, item_kind, add_item, take_item, note_list,
  is_size_null_ne_listcomp, expr_natural_alias, no_items,
}
use rs_polygraph.Lqa.Lower.Folding.{Texts}
use rs_polygraph.Lqa.Lower.Steps.{node_names, append_nodes, append_edges}
use rs_polygraph.Lqa.Lower.Queries.{
  lower_expr, lower_whens, lower_all, lower_opt, apply_prop_predicates, lower_elements,
  lower_pattern, lower_pattern_list, lower_products, lower_items, lower_return_items,
  maybe_order_by_with_aggs, lower_create_pattern, lower_create_elements, lower_clause,
  lower_opt_bindings,
}
use rs_polygraph.Lqa.Lower.Writes.{is_updating}
use rs_polygraph.Lqa.Lower.Updating.{
  lower_query-contains_write, lower_query-strip_writes, lower_query-IsTranslation,
  lower_query-OnlyLists,
}
use rs_polygraph.Lqa.Lower.Splits.{
  cut_positions, drop, take, arms_at, lower_pipeline, unite_arms, lower_cuts, lower_clauses,
  lower_query,
}
use rs_polygraph.Lqa.Lower.Cases.{lower_expr-simple_case}
use rs_polygraph.Lqa.Lower.Total.{alternates, lower_pattern_total}
use rs_polygraph.Lqa.Lower.Progressions.{literals, progression, lower_expr-range}
use rs_polygraph.Lqa.Normalize.{simple_case_to_searched}
use rs_polygraph.Lqa.Lower.Columns.{Columns, lower_return_items-Columns}

-- texts that are never folded
abbrev plain_texts : Texts
plain_texts = record {
  from_map = λ k m. none;
  parse = λ k s. some s;
  components = λ e. none;
  iso_components = λ s. none;
  apply_overrides = λ m c. c;
  duration_of = λ k v w. none;
  epoch_text = λ n k. "";
  millis_text = λ n. "";
}

abbrev same_variable : Expr → Expr → Bool
same_variable (Expr.variable _ _) (Expr.variable _ _) = true
same_variable _ _ = false

abbrev node : String → List String → PatternList
node x labels =
    Ast.also
      (Ast.pattern_of none (Ast.element (Ast.node (some x) labels Ast.no_map) Ast.no_element))
      Ast.no_pattern

abbrev match : PatternList → Clause
match ps = Ast.match false ps Ast.absent

abbrev returns : ItemList → Clause
returns is = Ast.return false (Ast.explicit is) Ast.unordered Ast.absent Ast.absent

abbrev one_item : Ast.Expression → Option String → ItemList
one_item e a = Ast.item e a Ast.no_item

abbrev query_of : List Clause → CypherQuery
query_of cs = record { clauses = cs }

-- MATCH (n:Person) CREATE (m:Robot)
abbrev creating : CypherQuery
creating = query_of (match (node "n" ("Person" ∷ [])) ∷ Ast.create (node "m" ("Robot" ∷ [])) ∷ [])

abbrev seen : List String → AstLowerer
seen xs = record { counter = 0; seen_vars = xs; list_const_map = [] }

abbrev created : Op
created =
    Op.create (Op.scan "n" (some "Person") [])
      (Syntax.node (some "m") ("Robot" ∷ []) Syntax.no_binding Syntax.no_node) Syntax.no_edge

creating_run : lower_query plain_texts same_variable creating new ≡ ok (created, seen ("n" ∷ []))
unfolding lower_query lower_clauses lower_cuts cut_positions drop take arms_at lower_pipeline
    unite_arms lower_clause lower_pattern_list lower_pattern node_names lower_elements next_name
    visit has apply_prop_predicates node_start node_end scan_of lower_products lower_opt join_match
    lower_create_pattern lower_create_elements lower_opt_bindings append_nodes append_edges unite
creating_run = refl

lower_query-contains_write_example : contains_write created ≡ any is_updating creating.clauses
lower_query-contains_write_example =
    lower_query-contains_write plain_texts same_variable creating new created (seen ("n" ∷ []))
      creating_run

abbrev item_of : String → ProjItems
item_of x = Syntax.item (var x) x none Syntax.no_item

-- MATCH (n) RETURN n UNION MATCH (n) RETURN n
abbrev united : CypherQuery
united = query_of (
    match (node "n" [])
    ∷ returns (one_item (Ast.variable "n") none)
    ∷ Ast.union false
    ∷ match (node "n" [])
    ∷ returns (one_item (Ast.variable "n") none)
    ∷ [])

-- The second arm has no scan: `n` was seen in the first.
abbrev second_unscanned : Op
second_unscanned =
    Op.union (Op.projection (Op.scan "n" none []) (item_of "n") false)
      (Op.projection Op.unit (item_of "n") false)

united_run :
    lower_query plain_texts same_variable united new ≡ ok (second_unscanned, seen ("n" ∷ []))
unfolding lower_query lower_clauses lower_cuts cut_positions drop take arms_at lower_pipeline
    unite_arms lower_clause lower_pattern_list lower_pattern node_names lower_elements next_name
    visit has apply_prop_predicates node_start node_end scan_of check_labels lower_products
    lower_opt join_match unite lower_return_items lower_items lower_expr maybe_order_by_with_aggs
    take_item item_alias item_kind add_item push_item note_list is_size_null_ne_listcomp
    expr_contains_aggregate expr_natural_alias
united_run = refl

lower_query-strip_writes_example : strip_writes second_unscanned ≡ second_unscanned
unfolding any
lower_query-strip_writes_example =
    lower_query-strip_writes plain_texts same_variable united new second_unscanned (seen ("n" ∷ []))
      united_run refl

-- WITH [1] AS xs WITH x AS xs UNWIND xs AS y
abbrev rebound : CypherQuery
rebound = query_of (
    Ast.with_items false
      (Ast.explicit
        (one_item (Ast.list_of (Ast.cons (Ast.literal (Ast.integer (pos 1))) Ast.nil)) (some "xs")))
      Ast.absent Ast.unordered Ast.absent Ast.absent
    ∷ Ast.with_items false (Ast.explicit (one_item (Ast.variable "x") (some "xs"))) Ast.absent
        Ast.unordered Ast.absent Ast.absent
    ∷ Ast.unwind (Ast.variable "xs") "y"
    ∷ [])

abbrev one_list : Expr
one_list = Expr.list_of (Syntax.cons (int (pos 1)) Syntax.nil)

abbrev kept : AstLowerer
kept = record { counter = 0; seen_vars = []; list_const_map = ("xs", one_list) ∷ [] }

-- The list that `xs` no longer stands for is unwound.
abbrev stale_list : Op
stale_list =
    Op.unwind
      (Op.projection (Op.projection Op.unit (Syntax.item one_list "xs" none Syntax.no_item) false)
        (Syntax.item (var "x") "xs" none Syntax.no_item) false)
      one_list "y"

rebound_run : lower_query plain_texts same_variable rebound new ≡ ok (stale_list, kept)
unfolding lower_query lower_clauses lower_cuts cut_positions drop take arms_at lower_pipeline
    unite_arms lower_clause lower_return_items lower_items lower_expr lower_all
    maybe_order_by_with_aggs take_item item_alias item_kind add_item push_item note_list
    is_size_null_ne_listcomp expr_contains_aggregate expr_natural_alias lower_opt insert_const
    upsert get substitute_list lower_literal unite
rebound_run = refl

lower_query-OnlyLists_example : is_list one_list ≡ true
unfolding get
lower_query-OnlyLists_example =
    lower_query-OnlyLists plain_texts same_variable rebound stale_list kept rebound_run "xs"
      one_list refl

-- RETURN NOT 1
abbrev negated_number : CypherQuery
negated_number =
    query_of (returns (one_item (Ast.not (Ast.literal (Ast.integer (pos 1)))) none) ∷ [])

abbrev not_boolean : PolygraphError
not_boolean =
    translation
      "Type mismatch: expected Boolean, but was given {} for input in NOT; fall back for SyntaxError"

negated_number_fails : lower_query plain_texts same_variable negated_number new ≡ err not_boolean
unfolding lower_query lower_clauses lower_cuts cut_positions drop take arms_at lower_pipeline
    unite_arms lower_clause lower_return_items lower_items lower_expr is_definitely_non_boolean
negated_number_fails = refl

lower_query-IsTranslation_example : (message : String) × (not_boolean ≡ translation message)
lower_query-IsTranslation_example =
    lower_query-IsTranslation plain_texts same_variable negated_number new not_boolean
      negated_number_fails

-- n, 1
abbrev two_items : ItemList
two_items = Ast.item (Ast.variable "n") none (one_item (Ast.literal (Ast.integer (pos 1))) none)

abbrev two_columns : Items
two_columns = record no_items {
  proj = Syntax.item (var "n") "n" none (Syntax.item (int (pos 1)) "_gen_0" none Syntax.no_item);
  gen_counter = 1;
}

two_items_run :
    lower_return_items plain_texts same_variable (Ast.explicit two_items) new
    ≡ ok (two_columns, new)
unfolding lower_return_items lower_items lower_expr lower_literal take_item item_alias item_kind
    add_item push_item note_list is_size_null_ne_listcomp expr_contains_aggregate expr_natural_alias
    to_string
two_items_run = refl

lower_return_items-Columns_example : Columns two_items (aliases two_columns.proj)
lower_return_items-Columns_example =
    lower_return_items-Columns plain_texts same_variable two_items new new two_columns two_items_run

-- (n {age: 1})-[:KNOWS]->()
abbrev known : Ast.PatternElements
known =
    Ast.element
      (Ast.node (some "n") []
        (Ast.some_map (Ast.pair "age" (Ast.literal (Ast.integer (pos 1))) Ast.no_pair)))
      (Ast.element (Ast.relationship none Ast.right ("KNOWS" ∷ []) Ast.no_map none)
        (Ast.element (Ast.node none [] Ast.no_map) Ast.no_element))

lower_pattern_total_example :
    (r : Op × AstLowerer) × (lower_pattern plain_texts same_variable (Ast.pattern_of none known) new
      ≡ ok r)
unfolding alternates lower_expr lower_literal
lower_pattern_total_example =
    lower_pattern_total plain_texts same_variable none known new refl
      (((λ s. ((int (pos 1), s), refl)), tt), (tt, (tt, tt)))

-- CASE n WHEN 1 THEN n END
lower_expr-simple_case_example :
    lower_expr plain_texts same_variable
      (Ast.case_expression
        (Ast.present (Ast.variable "n"))
        (Ast.when_then (Ast.literal (Ast.integer (pos 1))) (Ast.variable "n") Ast.no_when)
        Ast.absent)
      new
    ≡ (do
      x ← lower_expr plain_texts same_variable (Ast.variable "n")
      bs ←
          lower_whens plain_texts same_variable
            (Ast.when_then (Ast.literal (Ast.integer (pos 1))) (Ast.variable "n") Ast.no_when)
      e ← lower_opt plain_texts same_variable Ast.absent
      pure (simple_case_to_searched x bs e))
        new
lower_expr-simple_case_example =
    lower_expr-simple_case plain_texts same_variable (Ast.variable "n")
      (Ast.when_then (Ast.literal (Ast.integer (pos 1))) (Ast.variable "n") Ast.no_when) Ast.absent
      new

-- Range(10, 1, -4)
lower_expr-range_example :
    lower_expr plain_texts same_variable
      (Ast.function_call "Range" false (literals (pos 10) (pos 1) (negsuc 3)))
      new
    ≡ ok (
      Expr.list_of (
          Syntax.cons
            (int (pos 10))
            (Syntax.cons (int (pos 6)) (Syntax.cons (int (pos 2)) Syntax.nil))),
      new,
    )
unfolding progression eq_ignore_ascii_case
lower_expr-range_example =
    lower_expr-range plain_texts same_variable "Range" false (pos 10) (pos 1) (negsuc 3) new refl
      refl (omega arith, omega arith) (omega arith, omega arith)
