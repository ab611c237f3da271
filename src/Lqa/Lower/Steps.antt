-- ===== src/Lqa/Lower/Steps.antt =====
-- What the walk of `AstLowerer` does at an element, an item or an operand whose parts are lowered
-- (crates/polygraph/src/lqa/lower.rs).
use rs_polygraph.Base.{
  suc, zero, ◌-◌, ℕ, String, Bool, true, false, Option, none, some, List, [], ◌∷◌,
}
use rs_polygraph.Base.Int.{ℤ, pos, negsuc}
use rs_polygraph.Lqa.Lower.Outcomes
use rs_polygraph.Ast
use rs_polygraph.Ast.{
  Expression, OptExpression, Expressions, MapLiteral, OptMapLiteral, Whens, AggregateExpr, Pattern,
  PatternList, PatternElement, PatternElements, ItemList, ReturnItems, SortItems, OptOrderBy,
  SetItem, MergeActions, Clause, Clauses,
}
use rs_polygraph.Lqa.Syntax
use rs_polygraph.Lqa.Syntax.{
  Expr, OptExpr, Exprs, Bindings, Branches, Op, Literal, CmpOp, UnaryOp, AggKind, SetItems,
  SortKeys, CreateNodes, CreateEdges,
}
use rs_polygraph.Lqa.Lower.State.{Lowering, pure, ◌>>=◌, fresh}
use rs_polygraph.Lqa.Lower.Terms.{select_opt, substitute_list}
use rs_polygraph.Lqa.Lower.Items.{Items, take_item, item_alias, item_kind, note_list, project}

-- the names of the nodes of a pattern, new ones for the nodes without
unfoldable pub node_names : PatternElements → Lowering (List String)
unfolding fresh
node_names Ast.no_element = pure []
node_names (Ast.element (Ast.node (some x) _ _) es) = do xs ← node_names es; pure (x ∷ xs)
node_names (Ast.element (Ast.node none _ _) es) = do
  x ← fresh "anon"
  xs ← node_names es
  pure (x ∷ xs)
node_names (Ast.element (Ast.relationship _ _ _ _ _) es) = node_names es

-- the locals of the loop over the elements of a pattern
pub record Walk : Type 0 where
  pub op : Option Op
  pub names : List String
  pub last_src : Option String
  pub after_rel : Bool

unfoldable pub append_nodes : CreateNodes → CreateNodes → CreateNodes
append_nodes Syntax.no_node bs = bs
append_nodes (Syntax.node x ls ps as') bs = Syntax.node x ls ps (append_nodes as' bs)

unfoldable pub append_edges : CreateEdges → CreateEdges → CreateEdges
append_edges Syntax.no_edge bs = bs
append_edges (Syntax.edge x f t r d ps as') bs = Syntax.edge x f t r d ps (append_edges as' bs)

abbrev pub first_label : List String → String
first_label [] = ""
first_label (l ∷ ls) = l

abbrev pub or_empty : Option String → String
or_empty none = ""
or_empty (some x) = x

-- the position that a literal index means, if it is in a list of that length
abbrev pub position : ℕ → ℤ → Option ℕ
position n (pos i) = some i
position n (negsuc i) = elim (n - i) [ zero ↦ none | suc k ↦ some k ]

abbrev pub count_all : Expressions → ℕ
count_all Ast.nil = 0
count_all (Ast.cons _ es) = suc (count_all es)

abbrev pub lower_two : (Expr → Expr → Expr) → Lowering Expr → Lowering Expr → Lowering Expr
lower_two f m k = do a ← m; b ← k; pure (f a b)

abbrev pub lower_one : (Expr → Expr) → Lowering Expr → Lowering Expr
lower_one f m = do a ← m; pure (f a)

abbrev pub aggregate_of : AggKind → Bool → Lowering Expr → Lowering Expr
aggregate_of kind distinct m = do a ← m; pure (Expr.aggregate kind distinct (Syntax.present a))

abbrev pub skip_opt : Op → OptExpr → Op
skip_opt op Syntax.absent = op
skip_opt op (Syntax.present e) = Op.skip op e

abbrev pub limit_opt : Op → OptExpr → Op
limit_opt op Syntax.absent = op
limit_opt op (Syntax.present e) = Op.limit op e

abbrev pub distinct_if : Bool → Op → Op
distinct_if true op = Op.distinct op
distinct_if false op = op

-- a pattern with its WHERE
abbrev pub lower_match_pattern : Lowering Op → Lowering OptExpr → Lowering Op
lower_match_pattern patterns where_ = do op ← patterns; p ← where_; pure (select_opt op p)

-- The items, the WHERE, the ORDER BY, SKIP and LIMIT are lowered in the order of the clause.
abbrev pub lower_with :
    Op
    → Bool
    → Lowering Items
    → Lowering OptExpr
    → (Op → Syntax.AggItems → Lowering Op)
    → Lowering OptExpr
    → Lowering OptExpr
    → Lowering Op
lower_with inner distinct items where_ order skip limit = do
  is ← items
  p ← where_
  op ← order (select_opt (project inner distinct is) p) is.aggs
  k ← skip
  l ← limit
  pure (limit_opt (skip_opt op k) l)

abbrev pub lower_return :
    Op
    → Bool
    → Lowering Items
    → (Op → Syntax.AggItems → Lowering Op)
    → Lowering OptExpr
    → Lowering OptExpr
    → Lowering Op
lower_return inner distinct items order skip limit = do
  is ← items
  op ← order (project inner distinct is) is.aggs
  k ← skip
  l ← limit
  pure (distinct_if distinct (limit_opt (skip_opt op k) l))

-- the pattern, then `on_match` and `on_create`
abbrev pub lower_merge_clause :
    Lowering Op → Lowering (SetItems × SetItems) → Lowering Syntax.MergeClause
lower_merge_clause pattern actions = do
  op ← pattern
  (on_match, on_create) ← actions
  pure (Syntax.merge_clause op on_match on_create)

-- a loop that is not done after its rounds
abbrev pub range_list : Option Exprs → Lowering Expr
range_list none s = Outcomes.overflowed
range_list (some items) s = pure (Expr.list_of items) s

-- the item of a projection, noted if it is a literal list
abbrev pub lowered_item : Expression → Option String → Expr → Items → Lowering Items
lowered_item e alias lowered acc s = Outcomes.ok (
  take_item e alias lowered acc,
  note_list (item_kind lowered) lowered (item_alias alias e acc.gen_counter).0 s,
)

abbrev pub substituted : Op → Expr → String → Lowering Op
substituted current list x s =
    Outcomes.ok (Op.unwind current (substitute_list s.list_const_map list) x, s)

-- `Vec<Clause>` is the list type of the block
abbrev pub clauses_of : List Clause → Clauses
clauses_of [] = Ast.no_clause
clauses_of (c ∷ cs) = Ast.clause c (clauses_of cs)
