-- ===== src/Lqa/Lower/Terms.antt =====
-- What the lowering builds from lowered parts, and its tests of the syntax tree
-- (crates/polygraph/src/lqa/lower.rs).
use rs_polygraph.Base.{
  ℕ, String, Bool, true, false, Option, none, some, List, [], ◌∷◌, if◌then◌else◌,
}
use rs_polygraph.Base.Int.{ℤ}
use rs_polygraph.Base.Eq.{string_eq}
use rs_polygraph.Base.Dict.{Dict, get}
use rs_polygraph.Ast
use rs_polygraph.Lqa.Syntax
use rs_polygraph.Lqa.Syntax.{
  Expr, OptExpr, Exprs, Op, Literal, CmpOp, Direction, PathRange, QuantKind, RemoveItem, SetItems,
  AggItems, SortDir,
}
use rs_polygraph.Lqa.Syntax.Build.{var}

unfoldable pub lower_literal : Ast.Literal → Literal
lower_literal (Ast.integer n) = Literal.integer n
lower_literal (Ast.float f) = Literal.float f
lower_literal (Ast.string s) = Literal.string s
lower_literal (Ast.boolean b) = Literal.boolean b
lower_literal Ast.null = Literal.null

unfoldable pub is_definitely_non_boolean : Ast.Expression → Bool
is_definitely_non_boolean (Ast.literal (Ast.integer _)) = true
is_definitely_non_boolean (Ast.literal (Ast.float _)) = true
is_definitely_non_boolean (Ast.literal (Ast.string _)) = true
is_definitely_non_boolean (Ast.list_of _) = true
is_definitely_non_boolean (Ast.map_of _) = true
is_definitely_non_boolean (Ast.negate _) = true
is_definitely_non_boolean _ = false

unfoldable pub is_definitely_non_list : Ast.Expression → Bool
is_definitely_non_list (Ast.literal (Ast.boolean _)) = true
is_definitely_non_list (Ast.literal (Ast.integer _)) = true
is_definitely_non_list (Ast.literal (Ast.float _)) = true
is_definitely_non_list (Ast.literal (Ast.string _)) = true
is_definitely_non_list (Ast.map_of _) = true
is_definitely_non_list _ = false

-- `IN` with a right side that is no list
unfoldable pub is_bad_in : Ast.CompOp → Ast.Expression → Bool
is_bad_in Ast.in_list b = is_definitely_non_list b
is_bad_in _ b = false

abbrev pub is_integer : Ast.Expression → Option ℤ
is_integer (Ast.literal (Ast.integer n)) = some n
is_integer _ = none

unfoldable pub lower_direction : Ast.Direction → Direction
lower_direction Ast.right = Direction.outgoing
lower_direction Ast.left = Direction.incoming
lower_direction Ast.both = Direction.undirected

abbrev pub or_one : Option ℕ → ℕ
or_one none = 1
or_one (some n) = n

unfoldable pub lower_range : Option Ast.RangeQuantifier → Option PathRange
lower_range none = none
lower_range (some r) = some (record { lower = or_one r.lower; upper = r.upper })

unfoldable pub lower_kind : Ast.QuantifierKind → QuantKind
lower_kind Ast.all = QuantKind.all
lower_kind Ast.any = QuantKind.any
lower_kind Ast.no_one = QuantKind.no_one
lower_kind Ast.single = QuantKind.single

abbrev pub call_of : String → Expr → Expr → Expr
call_of name a b = Expr.function_call name false (Syntax.cons a (Syntax.cons b Syntax.nil))

unfoldable pub lower_comparison : Ast.CompOp → Expr → Expr → Expr
lower_comparison Ast.eq a b = Expr.comparison CmpOp.eq a b
lower_comparison Ast.ne a b = Expr.comparison CmpOp.ne a b
lower_comparison Ast.lt a b = Expr.comparison CmpOp.lt a b
lower_comparison Ast.le a b = Expr.comparison CmpOp.le a b
lower_comparison Ast.gt a b = Expr.comparison CmpOp.gt a b
lower_comparison Ast.ge a b = Expr.comparison CmpOp.ge a b
lower_comparison Ast.in_list a b = Expr.comparison CmpOp.in_list a b
lower_comparison Ast.starts_with a b = call_of "startsWith" a b
lower_comparison Ast.ends_with a b = call_of "endsWith" a b
lower_comparison Ast.contains a b = call_of "contains" a b
lower_comparison Ast.regex_match a b = call_of "regex" a b

-- `(a OR b) AND NOT (a AND b)`
abbrev pub lower_xor : Expr → Expr → Expr
lower_xor a b = Expr.and (Expr.or a b) (Expr.not (Expr.and a b))

-- `x.key = value`
abbrev pub key_equals : String → String → Expr → Expr
key_equals x key value = Expr.comparison CmpOp.eq (Expr.property (var x) key) value

abbrev pub select_opt : Op → OptExpr → Op
select_opt op Syntax.absent = op
select_opt op (Syntax.present e) = Op.selection op e

abbrev pub or_unit : Option Op → Op
or_unit none = Op.unit
or_unit (some op) = op

-- a selection for each label
unfoldable pub check_labels : String → List String → Op → Op
check_labels x [] acc = acc
check_labels x (l ∷ ls) acc =
    check_labels x ls (Op.selection acc (Expr.label_check (var x) (l ∷ [])))

unfoldable pub scan_of : String → List String → Op
scan_of x [] = Op.scan x none []
scan_of x (l ∷ ls) = Op.scan x (some l) ls

-- What the property predicates of a node are put on: what precedes it when the node is bound
-- already, and else a scan.
unfoldable pub node_start : Bool → String → List String → Option Op → Op
unfolding check_labels scan_of
node_start true x labels op = check_labels x labels (or_unit op)
node_start false x labels op = scan_of x labels

-- and the product of that scan with what precedes it
unfoldable pub node_end : Bool → Option Op → Op → Op
node_end false (some prev) op = Op.cartesian_product prev op
node_end _ _ op = op

-- the operator of a `MATCH` after what precedes it
unfoldable pub join_match : Bool → Op → Op → Op
join_match true current op = Op.left_outer_join current op Syntax.absent
join_match false Op.unit op = op
join_match false current op = Op.cartesian_product current op

-- a list that was bound by a projection, in place of its variable
unfoldable pub substitute_list : Dict String Expr → Expr → Expr
unfolding get
substitute_list m (Expr.variable x t) = elim (get x m) [ none ↦ Expr.variable x t | some e ↦ e ]
substitute_list m (Expr.subscript (Expr.variable x t) i) = elim (get x m) [
  | none ↦ Expr.subscript (Expr.variable x t) i
  | some e ↦ Expr.subscript e i
]
substitute_list m list = list

unfoldable pub lower_remove_item : Ast.RemoveItem → RemoveItem
lower_remove_item (Ast.remove_property x key) = Syntax.remove_property x key
lower_remove_item (Ast.remove_label x labels) = Syntax.remove_label x labels

unfoldable pub lower_remove_items : List Ast.RemoveItem → List RemoveItem
unfolding lower_remove_item
lower_remove_items [] = []
lower_remove_items (r ∷ rs) = lower_remove_item r ∷ lower_remove_items rs

-- `on_create.extend(items)`
unfoldable pub extend_sets : SetItems → SetItems → SetItems
extend_sets Syntax.no_set bs = bs
extend_sets (Syntax.set_property x k e as') bs = Syntax.set_property x k e (extend_sets as' bs)
extend_sets (Syntax.set_merge_map x e as') bs = Syntax.set_merge_map x e (extend_sets as' bs)
extend_sets (Syntax.set_replace x e as') bs = Syntax.set_replace x e (extend_sets as' bs)
extend_sets (Syntax.set_label x ls as') bs = Syntax.set_label x ls (extend_sets as' bs)

abbrev pub lower_dir : Bool → SortDir
lower_dir true = SortDir.desc
lower_dir false = SortDir.asc

-- the two halves of a union
unfoldable pub unite : Option (Op × Bool) → Op → Op
unite none op = op
unite (some (left, true)) op = Op.union_all left op
unite (some (left, false)) op = Op.union left op

module _ (same_expr : Expr → Expr → Bool) where
  -- the alias of the first aggregate that equals the expression
  unfoldable pub agg_alias : AggItems → Expr → Expr
  agg_alias Syntax.no_agg e = e
  agg_alias (Syntax.agg e' alias rest) e = if same_expr e' e then var alias else agg_alias rest e

  unfoldable pub rewrite_aggs_to_vars : AggItems → Expr → Expr
  unfolding agg_alias
  rewrite_aggs_to_vars aggs (Expr.aggregate kind d arg) = agg_alias aggs (Expr.aggregate kind d arg)
  rewrite_aggs_to_vars aggs (Expr.add a b) =
      Expr.add (rewrite_aggs_to_vars aggs a) (rewrite_aggs_to_vars aggs b)
  rewrite_aggs_to_vars aggs (Expr.sub a b) =
      Expr.sub (rewrite_aggs_to_vars aggs a) (rewrite_aggs_to_vars aggs b)
  rewrite_aggs_to_vars aggs (Expr.mul a b) =
      Expr.mul (rewrite_aggs_to_vars aggs a) (rewrite_aggs_to_vars aggs b)
  rewrite_aggs_to_vars aggs (Expr.div a b) =
      Expr.div (rewrite_aggs_to_vars aggs a) (rewrite_aggs_to_vars aggs b)
  rewrite_aggs_to_vars aggs (Expr.modulo a b) =
      Expr.modulo (rewrite_aggs_to_vars aggs a) (rewrite_aggs_to_vars aggs b)
  rewrite_aggs_to_vars aggs e = e
