-- ===== src/Lqa/Lower/Queries.antt =====
-- The walk of `AstLowerer` over clauses, patterns and expressions
-- (crates/polygraph/src/lqa/lower.rs). They hold one another, so it is one block. The split of a query
-- at its UNIONs is fused with the loop over the clauses. `PartialEq` of `Expr`, which the compiler
-- derives, is the parameter `same_expr`.
use rs_polygraph.Base.{suc, zero, ℕ, String, Bool, true, false, ◌||◌, Option, none, some, List}
use rs_polygraph.Base.Int.{neg}
use rs_polygraph.Ast
use rs_polygraph.Ast.{
  Expression, OptExpression, Expressions, MapLiteral, OptMapLiteral, Whens, AggregateExpr, Pattern,
  PatternList, PatternElement, PatternElements, ItemList, ReturnItems, SortItems, OptOrderBy,
  SetItem, MergeActions, Clause, Clauses,
}
use rs_polygraph.Lqa.Syntax
use rs_polygraph.Lqa.Syntax.{
  Expr, OptExpr, Exprs, Bindings, Branches, Op, Literal, CmpOp, UnaryOp, AggKind, SetItems,
  SortKeys, CreateNodes, CreateEdges,
}
use rs_polygraph.Lqa.Syntax.Build.{var, bool}
use rs_polygraph.Lqa.Lower.State.{
  Lowering, pure, ◌>>=◌, fail, fail_if, visit, nested, next_name, or_fail,
}
use rs_polygraph.Lqa.Lower.Terms.{
  lower_literal, is_definitely_non_boolean, is_bad_in, lower_direction, lower_range, lower_kind,
  lower_comparison, lower_xor, key_equals, select_opt, or_unit, node_start, node_end, join_match,
  lower_remove_items, extend_sets, lower_dir, unite, rewrite_aggs_to_vars,
}
use rs_polygraph.Lqa.Lower.Items.{Items, no_items, star_items, take_item}
use rs_polygraph.Lqa.Lower.Ranges.{range_of}
use rs_polygraph.Lqa.Lower.Folding.{Texts, lower_call}
use rs_polygraph.Lqa.Lower.Steps.{
  lower_match_pattern, lower_with, lower_return, lower_merge_clause, node_names, Walk, append_nodes,
  append_edges, first_label, or_empty, position, count_all, lower_two, lower_one, aggregate_of,
  range_list, lowered_item, substituted,
}

module _ (t : Texts) (same_expr : Expr → Expr → Bool) where
  unfoldable mutual
    unfolding lower_call take_item

    pub lower_expr : Expression → Lowering Expr
    lower_expr (Ast.variable v) = pure (var v)
    lower_expr (Ast.literal l) = pure (Expr.literal (lower_literal l))
    lower_expr (Ast.property base key) = lower_one (λ b. Expr.property b key) (lower_expr base)
    lower_expr (Ast.add a b) = lower_two Expr.add (lower_expr a) (lower_expr b)
    lower_expr (Ast.subtract a b) = lower_two Expr.sub (lower_expr a) (lower_expr b)
    lower_expr (Ast.multiply a b) = lower_two Expr.mul (lower_expr a) (lower_expr b)
    lower_expr (Ast.divide a b) = lower_two Expr.div (lower_expr a) (lower_expr b)
    lower_expr (Ast.modulo a b) = lower_two Expr.modulo (lower_expr a) (lower_expr b)
    lower_expr (Ast.power a b) = lower_two Expr.pow (lower_expr a) (lower_expr b)
    lower_expr (Ast.negate (Ast.literal (Ast.integer n))) =
        pure (Expr.literal (Literal.integer (neg n)))
    lower_expr (Ast.negate a) = lower_one (Expr.unary UnaryOp.neg) (lower_expr a)
    lower_expr (Ast.not a) =
        fail_if (is_definitely_non_boolean a)
          "Type mismatch: expected Boolean, but was given {} for input in NOT; fall back for SyntaxError"
          (lower_one Expr.not (lower_expr a))
    lower_expr (Ast.is_null a) = lower_one Expr.is_null (lower_expr a)
    lower_expr (Ast.is_not_null a) = lower_one Expr.is_not_null (lower_expr a)
    lower_expr (Ast.or a b) =
        fail_if (is_definitely_non_boolean a || is_definitely_non_boolean b)
          "Type mismatch: expected Boolean, but was given non-boolean value for input in OR"
          (lower_two Expr.or (lower_expr a) (lower_expr b))
    lower_expr (Ast.and a b) =
        fail_if (is_definitely_non_boolean a || is_definitely_non_boolean b)
          "Type mismatch: expected Boolean, but was given non-boolean value for input in AND"
          (lower_two Expr.and (lower_expr a) (lower_expr b))
    lower_expr (Ast.xor a b) =
        fail_if (is_definitely_non_boolean a || is_definitely_non_boolean b)
          "Type mismatch: expected Boolean, but was given non-boolean value for input in XOR"
          (lower_two lower_xor (lower_expr a) (lower_expr b))
    lower_expr (Ast.comparison a op b) =
        fail_if (is_bad_in op b)
          "Type mismatch: expected a list but got a non-list value for IN operator"
          (lower_two (lower_comparison op) (lower_expr a) (lower_expr b))
    lower_expr (Ast.function_call name distinct args) = elim (range_of name args) [
      | some items ↦ range_list items
      | none ↦ do lowered ← lower_all args; pure (lower_call t name distinct args lowered)
    ]
    lower_expr (Ast.aggregate agg) = lower_agg agg
    lower_expr (Ast.label_check x labels) = pure (Expr.label_check (var x) labels)
    lower_expr (Ast.list_of items) = do es ← lower_all items; pure (Expr.list_of es)
    lower_expr (Ast.map_of pairs) = do ps ← lower_bindings pairs; pure (Expr.map_of ps)
    lower_expr (Ast.subscript (Ast.list_of items) (Ast.literal (Ast.integer i))) =
        elim (position (count_all items) i) [
          | none ↦ pure (Expr.literal Literal.null)
          | some k ↦ lower_nth k items
        ]
    lower_expr (Ast.subscript a b) = lower_two Expr.subscript (lower_expr a) (lower_expr b)
    lower_expr (Ast.list_slice list start end) = do
      l ← lower_expr list
      s ← lower_opt start
      e ← lower_opt end
      pure (Expr.list_slice l s e)
    lower_expr (Ast.quantifier_expr kind x list predicate) = do
      p ← lower_predicate predicate
      l ← lower_expr list
      pure (Expr.quantifier (lower_kind kind) x l p)
    lower_expr (Ast.list_comprehension x list predicate projection) = do
      l ← lower_expr list
      p ← lower_opt predicate
      r ← lower_opt projection
      pure (Expr.list_comprehension x l p r)
    lower_expr (Ast.pattern_comprehension _ pattern predicate projection) = do
      op ← lower_pattern pattern
      p ← lower_opt predicate
      r ← lower_expr projection
      pure (Expr.pattern_comprehension none (select_opt op p) Syntax.absent r)
    lower_expr (Ast.case_expression Ast.absent whens else_expr) = do
      bs ← lower_whens whens
      e ← lower_opt else_expr
      pure (Expr.case_searched bs e)
    lower_expr (Ast.case_expression (Ast.present subject) whens else_expr) = do
      x ← lower_expr subject
      bs ← lower_simple_whens x whens
      e ← lower_opt else_expr
      pure (Expr.case_searched bs e)
    lower_expr (Ast.exists_subquery patterns where_) = do
      op ← lower_pattern_list patterns
      p ← lower_opt where_
      pure (Expr.exists (select_opt op p))
    lower_expr (Ast.exists_full_subquery clauses) = do
      op ← nested (lower_arms none Op.unit clauses)
      pure (Expr.exists op)
    lower_expr (Ast.pattern_predicate pattern) = do
      op ← lower_pattern pattern
      pure (Expr.exists op)

    -- an element of a literal list; past its end, null
    pub lower_nth : ℕ → Expressions → Lowering Expr
    lower_nth k Ast.nil = pure (Expr.literal Literal.null)
    lower_nth zero (Ast.cons e es) = lower_expr e
    lower_nth (suc k) (Ast.cons e es) = lower_nth k es

    pub lower_opt : OptExpression → Lowering OptExpr
    lower_opt Ast.absent = pure Syntax.absent
    lower_opt (Ast.present e) = do a ← lower_expr e; pure (Syntax.present a)

    -- a predicate that is left out is `true`
    pub lower_predicate : OptExpression → Lowering Expr
    lower_predicate Ast.absent = pure (bool true)
    lower_predicate (Ast.present e) = lower_expr e

    pub lower_all : Expressions → Lowering Exprs
    lower_all Ast.nil = pure Syntax.nil
    lower_all (Ast.cons e es) = do a ← lower_expr e; as' ← lower_all es; pure (Syntax.cons a as')

    pub lower_bindings : MapLiteral → Lowering Bindings
    lower_bindings Ast.no_pair = pure Syntax.no_binding
    lower_bindings (Ast.pair key e m) = do
      a ← lower_expr e
      b ← lower_bindings m
      pure (Syntax.binding key a b)

    pub lower_opt_bindings : OptMapLiteral → Lowering Bindings
    lower_opt_bindings Ast.no_map = pure Syntax.no_binding
    lower_opt_bindings (Ast.some_map m) = lower_bindings m

    pub lower_whens : Whens → Lowering Branches
    lower_whens Ast.no_when = pure Syntax.no_branch
    lower_whens (Ast.when_then w r ws) = do
      a ← lower_expr w
      b ← lower_expr r
      bs ← lower_whens ws
      pure (Syntax.branch a b bs)

    pub lower_simple_whens : Expr → Whens → Lowering Branches
    lower_simple_whens x Ast.no_when = pure Syntax.no_branch
    lower_simple_whens x (Ast.when_then w r ws) = do
      a ← lower_expr w
      b ← lower_expr r
      bs ← lower_simple_whens x ws
      pure (Syntax.branch (Expr.comparison CmpOp.eq x a) b bs)

    pub lower_agg : AggregateExpr → Lowering Expr
    lower_agg (Ast.count distinct e) = do
      a ← lower_opt e
      pure (Expr.aggregate AggKind.count distinct a)
    lower_agg (Ast.sum distinct e) = aggregate_of AggKind.sum distinct (lower_expr e)
    lower_agg (Ast.avg distinct e) = aggregate_of AggKind.avg distinct (lower_expr e)
    lower_agg (Ast.min distinct e) = aggregate_of AggKind.min distinct (lower_expr e)
    lower_agg (Ast.max distinct e) = aggregate_of AggKind.max distinct (lower_expr e)
    lower_agg (Ast.collect distinct e) = aggregate_of AggKind.collect distinct (lower_expr e)

    -- a selection for each property
    pub apply_pairs : String → MapLiteral → Op → Lowering Op
    apply_pairs x Ast.no_pair acc = pure acc
    apply_pairs x (Ast.pair key e m) acc = do
      a ← lower_expr e
      apply_pairs x m (Op.selection acc (key_equals x key a))

    pub apply_prop_predicates : String → OptMapLiteral → Op → Lowering Op
    apply_prop_predicates x Ast.no_map acc = pure acc
    apply_prop_predicates x (Ast.some_map m) acc = apply_pairs x m acc

    pub lower_elements : Option String → PatternElements → Walk → Lowering Op
    lower_elements path Ast.no_element w = pure (or_unit w.op)
    lower_elements path (Ast.element (Ast.node _ labels properties) es) w = do
      (x, names) ← next_name w.names
      seen ← visit x
      op ← apply_prop_predicates x properties (node_start (w.after_rel || seen) x labels w.op)
      lower_elements path es (record {
        op = some (node_end (w.after_rel || seen) w.op op);
        names = names;
        last_src = some x;
        after_rel = false;
      })
    lower_elements path (Ast.element (Ast.relationship x direction types properties range) es) w =
        do
          from ← or_fail w.last_src "relationship pattern without preceding node variable"
          (to, _) ← next_name w.names
          op ← lower_relationship x properties (
              Op.expand (or_unit w.op) from x to types (lower_direction direction)
                (lower_range range) path)
          lower_elements path es (record w { op = some op; after_rel = true })

    -- the property predicates of a relationship that has a variable
    pub lower_relationship : Option String → OptMapLiteral → Op → Lowering Op
    lower_relationship x Ast.no_map op = pure op
    lower_relationship x (Ast.some_map m) op = elim x [
      | none ↦ pure op
      | some y ↦ apply_pairs y m op
    ]

    pub lower_pattern : Pattern → Lowering Op
    lower_pattern (Ast.pattern_of path es) = do
      names ← node_names es
      lower_elements path es
          (record { op = none; names = names; last_src = none; after_rel = false })

    pub lower_pattern_list : PatternList → Lowering Op
    lower_pattern_list Ast.no_pattern = fail "empty pattern list"
    lower_pattern_list (Ast.also p ps) = do op ← lower_pattern p; lower_products op ps

    pub lower_products : Op → PatternList → Lowering Op
    lower_products acc Ast.no_pattern = pure acc
    lower_products acc (Ast.also p ps) = do
      op ← lower_pattern p
      lower_products (Op.cartesian_product acc op) ps

    pub lower_items : ItemList → Items → Lowering Items
    lower_items Ast.no_item acc = pure acc
    lower_items (Ast.item e alias is) acc = do
      a ← lower_expr e
      acc' ← lowered_item e alias a acc
      lower_items is acc'

    pub lower_return_items : ReturnItems → Lowering Items
    lower_return_items Ast.all_items = pure star_items
    lower_return_items (Ast.explicit is) = lower_items is no_items

    pub lower_sort_keys : Syntax.AggItems → SortItems → Lowering SortKeys
    lower_sort_keys aggs Ast.no_sort = pure Syntax.no_key
    lower_sort_keys aggs (Ast.sort e descending ss) = do
      a ← lower_expr e
      ks ← lower_sort_keys aggs ss
      pure (Syntax.key (rewrite_aggs_to_vars same_expr aggs a) (lower_dir descending) ks)

    pub maybe_order_by_with_aggs : Op → OptOrderBy → Syntax.AggItems → Lowering Op
    maybe_order_by_with_aggs op Ast.unordered aggs = pure op
    maybe_order_by_with_aggs op (Ast.order_by ss) aggs = do
      ks ← lower_sort_keys aggs ss
      pure (Op.order_by op ks)

    pub lower_create_elements :
        PatternElements → List String → Option String → Lowering (CreateNodes × CreateEdges)
    lower_create_elements Ast.no_element names last_src = pure (Syntax.no_node, Syntax.no_edge)
    lower_create_elements (Ast.element (Ast.node _ labels properties) es) names last_src = do
      (x, names') ← next_name names
      ps ← lower_opt_bindings properties
      (nodes, edges) ← lower_create_elements es names' (some x)
      pure (Syntax.node (some x) labels ps nodes, edges)
    lower_create_elements (Ast.element (Ast.relationship x direction types properties _) es) names
          last_src =
        do
          (to, _) ← next_name names
          ps ← lower_opt_bindings properties
          (nodes, edges) ← lower_create_elements es names last_src
          pure (
            nodes,
            Syntax.edge x (or_empty last_src) to (first_label types) (lower_direction direction) ps
                edges,
          )

    pub lower_create_pattern : PatternList → Lowering (CreateNodes × CreateEdges)
    lower_create_pattern Ast.no_pattern = pure (Syntax.no_node, Syntax.no_edge)
    lower_create_pattern (Ast.also (Ast.pattern_of _ es) ps) = do
      names ← node_names es
      (nodes, edges) ← lower_create_elements es names none
      (nodes', edges') ← lower_create_pattern ps
      pure (append_nodes nodes nodes', append_edges edges edges')

    pub lower_set_item : SetItem → Lowering SetItems
    lower_set_item (Ast.set_property x key e) = do
      a ← lower_expr e
      pure (Syntax.set_property x key a Syntax.no_set)
    lower_set_item (Ast.merge_map x m) = do
      ps ← lower_bindings m
      pure (Syntax.set_merge_map x (Expr.map_of ps) Syntax.no_set)
    lower_set_item (Ast.node_replace x e) = do
      a ← lower_expr e
      pure (Syntax.set_replace x a Syntax.no_set)
    lower_set_item (Ast.set_label x labels) = pure (Syntax.set_label x labels Syntax.no_set)

    pub lower_set_items : Ast.SetItems → Lowering SetItems
    lower_set_items Ast.no_set = pure Syntax.no_set
    lower_set_items (Ast.then_set i is) = do
      a ← lower_set_item i
      as' ← lower_set_items is
      pure (extend_sets a as')

    -- `on_match` and `on_create` so far
    pub lower_actions : MergeActions → SetItems → SetItems → Lowering (SetItems × SetItems)
    lower_actions Ast.no_action on_match on_create = pure (on_match, on_create)
    lower_actions (Ast.action true is as') on_match on_create = do
      items ← lower_set_items is
      lower_actions as' on_match (extend_sets on_create items)
    lower_actions (Ast.action false is as') on_match on_create = do
      items ← lower_set_items is
      lower_actions as' (extend_sets on_match items) on_create

    pub lower_clause : Op → Clause → Lowering Op
    lower_clause current (Ast.match optional patterns where_) = do
      op ← lower_match_pattern (lower_pattern_list patterns) (lower_opt where_)
      pure (join_match optional current op)
    lower_clause current (Ast.with_items distinct items where_ order skip limit) =
        lower_with current distinct (lower_return_items items) (lower_opt where_)
          (λ op aggs. maybe_order_by_with_aggs op order aggs) (lower_opt skip) (lower_opt limit)
    lower_clause current (Ast.return distinct items order skip limit) =
        lower_return current distinct (lower_return_items items)
          (λ op aggs. maybe_order_by_with_aggs op order aggs) (lower_opt skip) (lower_opt limit)
    lower_clause current (Ast.unwind e x) = do list ← lower_expr e; substituted current list x
    lower_clause current (Ast.create patterns) = do
      (nodes, edges) ← lower_create_pattern patterns
      pure (Op.create current nodes edges)
    lower_clause current (Ast.set items) = do is ← lower_set_items items; pure (Op.set current is)
    lower_clause current (Ast.delete detach es) = do
      as' ← lower_all es
      pure (Op.delete current detach as')
    lower_clause current (Ast.remove items) = pure (Op.remove current (lower_remove_items items))
    lower_clause current (Ast.merge pattern actions) = do
      c ←
          lower_merge_clause (lower_pattern pattern)
            (lower_actions actions Syntax.no_set Syntax.no_set)
      pure (Op.merge current c)
    lower_clause current (Ast.call procedure args yields) = do
      as' ← lower_all args
      pure (Op.call current procedure as' yields)
    lower_clause current (Ast.union _) = fail "unexpected UNION inside lower_clause"

    -- what precedes the last UNION, the arm so far, and the clauses left
    pub lower_arms : Option (Op × Bool) → Op → Clauses → Lowering Op
    lower_arms before current Ast.no_clause = pure (unite before current)
    lower_arms before current (Ast.clause (Ast.union all) cs) =
        lower_arms (some (unite before current, all)) Op.unit cs
    lower_arms before current (Ast.clause c cs) = do
      op ← lower_clause current c
      lower_arms before op cs
