-- ===== src/Lqa/Lower/Walks.antt =====
-- The walk of the lowering from clause to clause: the writes of what it builds, the names it uses up
-- and its errors (crates/polygraph/src/lqa/lower.rs).
use rs_polygraph.Base.{
  zero, suc, ℕ, String, Bool, true, false, ◌||◌, Option, none, some, List, ◌≡◌, refl, ◌∙◌, arith,
}
use rs_polygraph.Ast
use rs_polygraph.Ast.{
  Expression, OptExpression, Expressions, MapLiteral, OptMapLiteral, Whens, AggregateExpr, Pattern,
  PatternList, PatternElement, PatternElements, ItemList, ReturnItems, SortItems, OptOrderBy,
  SetItem, MergeActions, Clause, Clauses,
}
use rs_polygraph.Lqa.Syntax
use rs_polygraph.Lqa.Syntax.{OptExpr, Expr, Exprs, Op, SetItems, AggKind, UnaryOp}
use rs_polygraph.Lqa.Write.{contains_write}
use rs_polygraph.Lqa.Lower.State.{pure, ◌>>=◌}
use rs_polygraph.Lqa.Lower.Terms.{or_unit, unite, lower_xor, lower_comparison}
use rs_polygraph.Lqa.Lower.Items.{Items, no_items, star_items}
use rs_polygraph.Lqa.Lower.Ranges.{range_of}
use rs_polygraph.Lqa.Lower.Folding.{Texts, lower_call}
use rs_polygraph.Lqa.Lower.Steps.{Walk, position, count_all, range_list}
use rs_polygraph.Lqa.Lower.Queries.{
  lower_expr, lower_nth, lower_opt, lower_predicate, lower_all, lower_bindings, lower_opt_bindings,
  lower_whens, lower_simple_whens, lower_agg, apply_pairs, apply_prop_predicates, lower_elements,
  lower_relationship, lower_pattern, lower_pattern_list, lower_products, lower_items,
  lower_return_items, lower_sort_keys, maybe_order_by_with_aggs, lower_create_elements,
  lower_create_pattern, lower_set_item, lower_set_items, lower_actions, lower_clause, lower_arms,
}
use rs_polygraph.Lqa.Lower.Yields.{
  Yields-pure, Yields-fail, Yields-bind, Fine, Fine-pure, ◌▹◌, Fine-fail_if, Fine-visit,
  Fine-next_name, Fine-or_fail, Fine-nested,
}
use rs_polygraph.Lqa.Lower.Writes.{
  is_updating, any_updating, before_writes, write-node_start, write-node_end, write-join_match,
  write-unite,
}
use rs_polygraph.Lqa.Lower.Actions.{
  Writing, Fine-node_names, Fine-lower_two, Fine-lower_one, Fine-aggregate_of, Fine-lowered_item,
  Writing-substituted, Fine-range_list, Fine-of, Writing-as, Writing-match_pattern,
  Fine-merge_clause, Writing-with, Writing-return, or_regroup, or_step,
}

module _ (t : Texts) (same_expr : Expr → Expr → Bool) where
  mutual
    unfolding lower_expr lower_nth lower_opt lower_predicate lower_all lower_bindings
        lower_opt_bindings lower_whens lower_simple_whens lower_agg apply_pairs
        apply_prop_predicates lower_elements lower_relationship lower_pattern lower_pattern_list
        lower_products lower_items lower_return_items lower_sort_keys maybe_order_by_with_aggs
        lower_create_elements lower_create_pattern lower_set_item lower_set_items lower_actions
        lower_clause lower_arms contains_write

    pub Fine-expr : (e : Expression) → Fine (lower_expr t same_expr e)
    Fine-expr (Ast.variable v) = Fine-pure _
    Fine-expr (Ast.literal l) = Fine-pure _
    Fine-expr (Ast.property base key) = Fine-lower_one (λ b. Expr.property b key) (Fine-expr base)
    Fine-expr (Ast.add a b) = Fine-lower_two Expr.add (Fine-expr a) (Fine-expr b)
    Fine-expr (Ast.subtract a b) = Fine-lower_two Expr.sub (Fine-expr a) (Fine-expr b)
    Fine-expr (Ast.multiply a b) = Fine-lower_two Expr.mul (Fine-expr a) (Fine-expr b)
    Fine-expr (Ast.divide a b) = Fine-lower_two Expr.div (Fine-expr a) (Fine-expr b)
    Fine-expr (Ast.modulo a b) = Fine-lower_two Expr.modulo (Fine-expr a) (Fine-expr b)
    Fine-expr (Ast.power a b) = Fine-lower_two Expr.pow (Fine-expr a) (Fine-expr b)
    Fine-expr (Ast.negate (Ast.literal (Ast.integer n))) = Fine-pure _
    Fine-expr (Ast.negate a) = Fine-lower_one (Expr.unary UnaryOp.neg) (Fine-expr a)
    Fine-expr (Ast.not a) = Fine-fail_if _ _ (Fine-lower_one Expr.not (Fine-expr a))
    Fine-expr (Ast.is_null a) = Fine-lower_one Expr.is_null (Fine-expr a)
    Fine-expr (Ast.is_not_null a) = Fine-lower_one Expr.is_not_null (Fine-expr a)
    Fine-expr (Ast.or a b) = Fine-fail_if _ _ (Fine-lower_two Expr.or (Fine-expr a) (Fine-expr b))
    Fine-expr (Ast.and a b) = Fine-fail_if _ _ (Fine-lower_two Expr.and (Fine-expr a) (Fine-expr b))
    Fine-expr (Ast.xor a b) =
        Fine-fail_if _ _ (Fine-lower_two lower_xor (Fine-expr a) (Fine-expr b))
    Fine-expr (Ast.comparison a op b) =
        Fine-fail_if _ _ (Fine-lower_two (lower_comparison op) (Fine-expr a) (Fine-expr b))
    Fine-expr (Ast.function_call name distinct args) =
        elim (range_of name args)
          as (λ r. Fine (elim r [
            | some items ↦ range_list items
            | none ↦ do
              lowered ← lower_all t same_expr args
              pure (lower_call t name distinct args lowered)
          ])) [ some items ↦ Fine-range_list items | none ↦ Fine-all args ▹ λ lowered. Fine-pure _ ]
    Fine-expr (Ast.aggregate agg) = Fine-agg agg
    Fine-expr (Ast.label_check x labels) = Fine-pure _
    Fine-expr (Ast.list_of items) = Fine-all items ▹ λ es. Fine-pure _
    Fine-expr (Ast.map_of pairs) = Fine-bindings pairs ▹ λ ps. Fine-pure _
    Fine-expr (Ast.subscript (Ast.list_of items) (Ast.literal (Ast.integer i))) =
        elim (position (count_all items) i)
          as (λ o. Fine (elim o [
            | none ↦ pure (Expr.literal Syntax.null)
            | some k ↦ lower_nth t same_expr k items
          ])) [ none ↦ Fine-pure _ | some k ↦ Fine-nth k items ]
    Fine-expr (Ast.subscript a b) = Fine-lower_two Expr.subscript (Fine-expr a) (Fine-expr b)
    Fine-expr (Ast.list_slice list start end) =
        Fine-expr list ▹ λ l. Fine-opt start ▹ λ s. Fine-opt end ▹ λ e. Fine-pure _
    Fine-expr (Ast.quantifier_expr kind x list predicate) =
        Fine-predicate predicate ▹ λ p. Fine-expr list ▹ λ l. Fine-pure _
    Fine-expr (Ast.list_comprehension x list predicate projection) =
        Fine-expr list ▹ λ l. Fine-opt predicate ▹ λ p. Fine-opt projection ▹ λ r. Fine-pure _
    Fine-expr (Ast.pattern_comprehension _ pattern predicate projection) =
        Yields-bind (Writing-pattern pattern)
          λ op _. Fine-opt predicate ▹ λ p. Fine-expr projection ▹ λ r. Fine-pure _
    Fine-expr (Ast.case_expression Ast.absent whens else_expr) =
        Fine-whens whens ▹ λ bs. Fine-opt else_expr ▹ λ e. Fine-pure _
    Fine-expr (Ast.case_expression (Ast.present subject) whens else_expr) = Fine-expr subject ▹ λ x.
        Fine-simple_whens x whens ▹ λ bs. Fine-opt else_expr ▹ λ e. Fine-pure _
    Fine-expr (Ast.exists_subquery patterns where_) =
        Yields-bind (Writing-pattern_list patterns) λ op _. Fine-opt where_ ▹ λ p. Fine-pure _
    Fine-expr (Ast.exists_full_subquery clauses) =
        Fine-nested (Fine-of (Writing-arms none Op.unit clauses)) ▹ λ op. Fine-pure _
    Fine-expr (Ast.pattern_predicate pattern) =
        Yields-bind (Writing-pattern pattern) λ op _. Fine-pure _

    Fine-nth : (k : ℕ) (es : Expressions) → Fine (lower_nth t same_expr k es)
    Fine-nth k Ast.nil = Fine-pure _
    Fine-nth zero (Ast.cons e es) = Fine-expr e
    Fine-nth (suc k) (Ast.cons e es) = Fine-nth k es

    Fine-opt : (e : OptExpression) → Fine (lower_opt t same_expr e)
    Fine-opt Ast.absent = Fine-pure _
    Fine-opt (Ast.present e) = Fine-expr e ▹ λ a. Fine-pure _

    Fine-predicate : (e : OptExpression) → Fine (lower_predicate t same_expr e)
    Fine-predicate Ast.absent = Fine-pure _
    Fine-predicate (Ast.present e) = Fine-expr e

    Fine-all : (es : Expressions) → Fine (lower_all t same_expr es)
    Fine-all Ast.nil = Fine-pure _
    Fine-all (Ast.cons e es) = Fine-expr e ▹ λ a. Fine-all es ▹ λ as'. Fine-pure _

    Fine-bindings : (m : MapLiteral) → Fine (lower_bindings t same_expr m)
    Fine-bindings Ast.no_pair = Fine-pure _
    Fine-bindings (Ast.pair key e m) = Fine-expr e ▹ λ a. Fine-bindings m ▹ λ b. Fine-pure _

    Fine-opt_bindings : (m : OptMapLiteral) → Fine (lower_opt_bindings t same_expr m)
    Fine-opt_bindings Ast.no_map = Fine-pure _
    Fine-opt_bindings (Ast.some_map m) = Fine-bindings m

    Fine-whens : (ws : Whens) → Fine (lower_whens t same_expr ws)
    Fine-whens Ast.no_when = Fine-pure _
    Fine-whens (Ast.when_then w r ws) =
        Fine-expr w ▹ λ a. Fine-expr r ▹ λ b. Fine-whens ws ▹ λ bs. Fine-pure _

    Fine-simple_whens : (x : Expr) (ws : Whens) → Fine (lower_simple_whens t same_expr x ws)
    Fine-simple_whens x Ast.no_when = Fine-pure _
    Fine-simple_whens x (Ast.when_then w r ws) =
        Fine-expr w ▹ λ a. Fine-expr r ▹ λ b. Fine-simple_whens x ws ▹ λ bs. Fine-pure _

    Fine-agg : (agg : AggregateExpr) → Fine (lower_agg t same_expr agg)
    Fine-agg (Ast.count distinct e) = Fine-opt e ▹ λ a. Fine-pure _
    Fine-agg (Ast.sum distinct e) = Fine-aggregate_of _ _ (Fine-expr e)
    Fine-agg (Ast.avg distinct e) = Fine-aggregate_of _ _ (Fine-expr e)
    Fine-agg (Ast.min distinct e) = Fine-aggregate_of _ _ (Fine-expr e)
    Fine-agg (Ast.max distinct e) = Fine-aggregate_of _ _ (Fine-expr e)
    Fine-agg (Ast.collect distinct e) = Fine-aggregate_of _ _ (Fine-expr e)

    Writing-pairs :
        (x : String) (m : MapLiteral) (acc : Op)
        → Writing (contains_write acc) (apply_pairs t same_expr x m acc)
    Writing-pairs x Ast.no_pair acc = Yields-pure refl
    Writing-pairs x (Ast.pair key e m) acc = Fine-expr e ▹ λ a. Writing-pairs x m _

    Writing-properties :
        (x : String) (m : OptMapLiteral) (acc : Op)
        → Writing (contains_write acc) (apply_prop_predicates t same_expr x m acc)
    Writing-properties x Ast.no_map acc = Yields-pure refl
    Writing-properties x (Ast.some_map m) acc = Writing-pairs x m acc

    Writing-relationship :
        (x : Option String) (m : OptMapLiteral) (acc : Op)
        → Writing (contains_write acc) (lower_relationship t same_expr x m acc)
    Writing-relationship x Ast.no_map acc = Yields-pure refl
    Writing-relationship none (Ast.some_map m) acc = Yields-pure refl
    Writing-relationship (some y) (Ast.some_map m) acc = Writing-pairs y m acc

    Writing-elements :
        (path : Option String) (es : PatternElements) (w : Walk)
        → contains_write (or_unit w.op) ≡ false
        → Writing false (lower_elements t same_expr path es w)
    Writing-elements path Ast.no_element w h = Yields-pure h
    Writing-elements path (Ast.element (Ast.node _ labels properties) es) w h =
        Fine-next_name w.names ▹ λ q. Fine-visit q.0 ▹ λ seen.
        Yields-bind (Writing-properties q.0 properties _) λ op g. Writing-elements path es _ (
          write-node_end (w.after_rel || seen) w.op op h
            (g ∙ write-node_start (w.after_rel || seen) q.0 labels w.op h))
    Writing-elements path (Ast.element (Ast.relationship x direction types properties range) es) w
          h =
        Fine-or_fail w.last_src _ ▹ λ from. Fine-next_name w.names ▹ λ q.
        Yields-bind (Writing-relationship x properties _) λ op g. Writing-elements path es _ (g ∙ h)

    Writing-pattern : (p : Pattern) → Writing false (lower_pattern t same_expr p)
    Writing-pattern (Ast.pattern_of path es) =
        Fine-node_names es ▹ λ names. Writing-elements path es _ refl

    Writing-pattern_list : (ps : PatternList) → Writing false (lower_pattern_list t same_expr ps)
    Writing-pattern_list Ast.no_pattern = Yields-fail _
    Writing-pattern_list (Ast.also p ps) =
        Yields-bind (Writing-pattern p) λ op h. Writing-products op ps h

    Writing-products :
        (acc : Op) (ps : PatternList)
        → contains_write acc ≡ false
        → Writing false (lower_products t same_expr acc ps)
    Writing-products acc Ast.no_pattern h = Yields-pure h
    Writing-products acc (Ast.also p ps) h =
        Yields-bind (Writing-pattern p) λ op g. Writing-products _ ps (ground (arith, g, h))

    Fine-items : (is : ItemList) (acc : Items) → Fine (lower_items t same_expr is acc)
    Fine-items Ast.no_item acc = Fine-pure acc
    Fine-items (Ast.item e alias is) acc =
        Fine-expr e ▹ λ a. Fine-lowered_item e alias a acc ▹ λ acc'. Fine-items is acc'

    Fine-return_items : (is : ReturnItems) → Fine (lower_return_items t same_expr is)
    Fine-return_items Ast.all_items = Fine-pure star_items
    Fine-return_items (Ast.explicit is) = Fine-items is no_items

    Fine-sort_keys :
        (aggs : Syntax.AggItems) (ss : SortItems) → Fine (lower_sort_keys t same_expr aggs ss)
    Fine-sort_keys aggs Ast.no_sort = Fine-pure _
    Fine-sort_keys aggs (Ast.sort e descending ss) =
        Fine-expr e ▹ λ a. Fine-sort_keys aggs ss ▹ λ ks. Fine-pure _

    Writing-order :
        (op : Op) (o : OptOrderBy) (aggs : Syntax.AggItems)
        → Writing (contains_write op) (maybe_order_by_with_aggs t same_expr op o aggs)
    Writing-order op Ast.unordered aggs = Yields-pure refl
    Writing-order op (Ast.order_by ss) aggs = Fine-sort_keys aggs ss ▹ λ ks. Yields-pure refl

    Fine-create_elements :
        (es : PatternElements) (names : List String) (last_src : Option String)
        → Fine (lower_create_elements t same_expr es names last_src)
    Fine-create_elements Ast.no_element names last_src = Fine-pure _
    Fine-create_elements (Ast.element (Ast.node _ labels properties) es) names last_src =
        Fine-next_name names ▹ λ q. Fine-opt_bindings properties ▹ λ ps.
        Fine-create_elements es q.1 (some q.0) ▹ λ r. Fine-pure _
    Fine-create_elements (Ast.element (Ast.relationship x direction types properties _) es) names
          last_src =
        Fine-next_name names ▹ λ q. Fine-opt_bindings properties ▹ λ ps.
        Fine-create_elements es names last_src ▹ λ r. Fine-pure _

    Fine-create_pattern : (ps : PatternList) → Fine (lower_create_pattern t same_expr ps)
    Fine-create_pattern Ast.no_pattern = Fine-pure _
    Fine-create_pattern (Ast.also (Ast.pattern_of _ es) ps) = Fine-node_names es ▹ λ names.
        Fine-create_elements es names none ▹ λ q. Fine-create_pattern ps ▹ λ r. Fine-pure _

    Fine-set_item : (i : SetItem) → Fine (lower_set_item t same_expr i)
    Fine-set_item (Ast.set_property x key e) = Fine-expr e ▹ λ a. Fine-pure _
    Fine-set_item (Ast.merge_map x m) = Fine-bindings m ▹ λ ps. Fine-pure _
    Fine-set_item (Ast.node_replace x e) = Fine-expr e ▹ λ a. Fine-pure _
    Fine-set_item (Ast.set_label x labels) = Fine-pure _

    Fine-set_items : (is : Ast.SetItems) → Fine (lower_set_items t same_expr is)
    Fine-set_items Ast.no_set = Fine-pure _
    Fine-set_items (Ast.then_set i is) = Fine-set_item i ▹ λ a. Fine-set_items is ▹ λ b. Fine-pure _

    Fine-actions :
        (as' : MergeActions) (on_match on_create : SetItems)
        → Fine (lower_actions t same_expr as' on_match on_create)
    Fine-actions Ast.no_action on_match on_create = Fine-pure _
    Fine-actions (Ast.action true is as') on_match on_create =
        Fine-set_items is ▹ λ items. Fine-actions as' _ _
    Fine-actions (Ast.action false is as') on_match on_create =
        Fine-set_items is ▹ λ items. Fine-actions as' _ _

    Writing-clause :
        (current : Op) (c : Clause)
        → Writing (contains_write current || is_updating c) (lower_clause t same_expr current c)
    Writing-clause current (Ast.match optional patterns where_) =
        Yields-bind (Writing-match_pattern (Writing-pattern_list patterns) (Fine-opt where_))
          λ op h. Yields-pure (write-join_match optional current _ h)
    Writing-clause current (Ast.with_items distinct items where_ order skip limit) =
        Writing-with current distinct (Fine-return_items items) (Fine-opt where_)
          (λ op aggs. Writing-order op order aggs) (Fine-opt skip) (Fine-opt limit)
    Writing-clause current (Ast.return distinct items order skip limit) =
        Writing-return current distinct (Fine-return_items items)
          (λ op aggs. Writing-order op order aggs) (Fine-opt skip) (Fine-opt limit)
    Writing-clause current (Ast.unwind e x) =
        Fine-expr e ▹ λ list. Writing-substituted current list x
    Writing-clause current (Ast.create patterns) =
        Fine-create_pattern patterns ▹ λ q. Yields-pure (ground arith)
    Writing-clause current (Ast.set items) = Fine-set_items items ▹ λ is. Yields-pure (ground arith)
    Writing-clause current (Ast.delete detach es) = Fine-all es ▹ λ as'. Yields-pure (ground arith)
    Writing-clause current (Ast.remove items) = Yields-pure (ground arith)
    Writing-clause current (Ast.merge pattern actions) =
        Fine-merge_clause (Writing-pattern pattern) (Fine-actions actions _ _) ▹ λ c.
        Yields-pure (ground arith)
    Writing-clause current (Ast.call procedure args yields) =
        Fine-all args ▹ λ as'. Yields-pure (ground arith)
    Writing-clause current (Ast.union _) = Yields-fail _

    pub Writing-arms :
        (before : Option (Op × Bool)) (current : Op) (cs : Clauses)
        → Writing
            (before_writes before || (contains_write current || any_updating cs))
            (lower_arms t same_expr before current cs)
    Writing-arms before current Ast.no_clause =
        Yields-pure (write-unite before current ∙ ground arith)
    Writing-arms before current (Ast.clause (Ast.union all) cs) =
        Writing-as
          (or_regroup _ (before_writes before) (contains_write current) (any_updating cs)
            (write-unite before current))
          (Writing-arms (some (unite before current, all)) Op.unit cs)
    Writing-arms before current (Ast.clause c cs) = Yields-bind (Writing-clause current c) λ op h.
        Writing-as
          (or_step (before_writes before) (contains_write op) (contains_write current)
            (is_updating c) (any_updating cs) h)
          (Writing-arms before op cs)
