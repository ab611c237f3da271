-- ===== src/Ast/Equality.antt =====
-- The derived `PartialEq` of the abstract syntax (crates/opencypher-parser/src/ast/cypher.rs): field
-- by field in the order of the fields, and on an `f64` the comparison of IEEE 754, where a NaN is not
-- equal to itself and the two zeros are equal.
use rs_polygraph.Base.{
  ℕ, ◌*◌, ◌^◌, ◌%◌, String, Bool, true, false, not, ◌&&◌, ◌||◌, Option, none, some, List, [], ◌∷◌,
  nat_beq, ltb,
}
use rs_polygraph.Base.Int.{eq_ℤ}
use rs_polygraph.Base.Eq.{◌==◌, string_eq}
use rs_polygraph.Ast
use rs_polygraph.Ast.{
  Literal, CompOp, QuantifierKind, Direction, RangeQuantifier, RemoveItem, Expression,
  OptExpression, Expressions, MapLiteral, OptMapLiteral, Whens, AggregateExpr, Pattern, PatternList,
  PatternElement, PatternElements, ItemList, ReturnItems, SortItems, OptOrderBy, SetItem, SetItems,
  MergeActions, Clause, Clauses,
}

-- the pattern without its sign bit, and the patterns above infinity
abbrev magnitude : ℕ → ℕ
magnitude x = x % 2 ^ 63

abbrev pub is_nan : ℕ → Bool
is_nan x = ltb (2047 * 2 ^ 52) (magnitude x)

abbrev pub same_float : ℕ → ℕ → Bool
same_float x y =
    not (is_nan x)
    && not (is_nan y)
    && (nat_beq x y || (nat_beq (magnitude x) 0 && nat_beq (magnitude y) 0))

abbrev pub same_bool : Bool → Bool → Bool
same_bool true y = y
same_bool false y = not y

unfoldable pub same_literal : Literal → Literal → Bool
same_literal (Ast.integer x) (Ast.integer y) = eq_ℤ x y
same_literal (Ast.float x) (Ast.float y) = same_float x y
same_literal (Ast.string x) (Ast.string y) = x == y
same_literal (Ast.boolean x) (Ast.boolean y) = same_bool x y
same_literal Ast.null Ast.null = true
same_literal _ _ = false

same_opt_name : Option String → Option String → Bool
same_opt_name none none = true
same_opt_name (some x) (some y) = x == y
same_opt_name _ _ = false

same_names : List String → List String → Bool
same_names [] [] = true
same_names (x ∷ xs) (y ∷ ys) = x == y && same_names xs ys
same_names _ _ = false

same_bound : Option ℕ → Option ℕ → Bool
same_bound none none = true
same_bound (some x) (some y) = nat_beq x y
same_bound _ _ = false

same_range : Option RangeQuantifier → Option RangeQuantifier → Bool
unfolding same_bound
same_range none none = true
same_range (some x) (some y) = same_bound x.lower y.lower && same_bound x.upper y.upper
same_range _ _ = false

abbrev pub same_op : CompOp → CompOp → Bool
same_op Ast.eq Ast.eq = true
same_op Ast.ne Ast.ne = true
same_op Ast.lt Ast.lt = true
same_op Ast.le Ast.le = true
same_op Ast.gt Ast.gt = true
same_op Ast.ge Ast.ge = true
same_op Ast.in_list Ast.in_list = true
same_op Ast.starts_with Ast.starts_with = true
same_op Ast.ends_with Ast.ends_with = true
same_op Ast.contains Ast.contains = true
same_op Ast.regex_match Ast.regex_match = true
same_op _ _ = false

abbrev pub same_kind : QuantifierKind → QuantifierKind → Bool
same_kind Ast.all Ast.all = true
same_kind Ast.any Ast.any = true
same_kind Ast.no_one Ast.no_one = true
same_kind Ast.single Ast.single = true
same_kind _ _ = false

abbrev pub same_direction : Direction → Direction → Bool
same_direction Ast.right Ast.right = true
same_direction Ast.left Ast.left = true
same_direction Ast.both Ast.both = true
same_direction _ _ = false

same_remove : RemoveItem → RemoveItem → Bool
unfolding same_names
same_remove (Ast.remove_property x0 x1) (Ast.remove_property y0 y1) = x0 == y0 && x1 == y1
same_remove (Ast.remove_label x0 x1) (Ast.remove_label y0 y1) = x0 == y0 && same_names x1 y1
same_remove _ _ = false

same_removes : List RemoveItem → List RemoveItem → Bool
unfolding same_remove
same_removes [] [] = true
same_removes (x ∷ xs) (y ∷ ys) = same_remove x y && same_removes xs ys
same_removes _ _ = false

unfoldable mutual
  unfolding same_names same_opt_name same_range same_removes

  pub same_expression : Expression → Expression → Bool
  same_expression (Ast.or x0 x1) (Ast.or y0 y1) = same_expression x0 y0 && same_expression x1 y1
  same_expression (Ast.xor x0 x1) (Ast.xor y0 y1) = same_expression x0 y0 && same_expression x1 y1
  same_expression (Ast.and x0 x1) (Ast.and y0 y1) = same_expression x0 y0 && same_expression x1 y1
  same_expression (Ast.not x0) (Ast.not y0) = same_expression x0 y0
  same_expression (Ast.comparison x0 x1 x2) (Ast.comparison y0 y1 y2) =
      same_expression x0 y0 && same_op x1 y1 && same_expression x2 y2
  same_expression (Ast.is_null x0) (Ast.is_null y0) = same_expression x0 y0
  same_expression (Ast.is_not_null x0) (Ast.is_not_null y0) = same_expression x0 y0
  same_expression (Ast.add x0 x1) (Ast.add y0 y1) = same_expression x0 y0 && same_expression x1 y1
  same_expression (Ast.subtract x0 x1) (Ast.subtract y0 y1) =
      same_expression x0 y0 && same_expression x1 y1
  same_expression (Ast.multiply x0 x1) (Ast.multiply y0 y1) =
      same_expression x0 y0 && same_expression x1 y1
  same_expression (Ast.divide x0 x1) (Ast.divide y0 y1) =
      same_expression x0 y0 && same_expression x1 y1
  same_expression (Ast.modulo x0 x1) (Ast.modulo y0 y1) =
      same_expression x0 y0 && same_expression x1 y1
  same_expression (Ast.negate x0) (Ast.negate y0) = same_expression x0 y0
  same_expression (Ast.power x0 x1) (Ast.power y0 y1) =
      same_expression x0 y0 && same_expression x1 y1
  same_expression (Ast.property x0 x1) (Ast.property y0 y1) = same_expression x0 y0 && x1 == y1
  same_expression (Ast.variable x0) (Ast.variable y0) = x0 == y0
  same_expression (Ast.literal x0) (Ast.literal y0) = same_literal x0 y0
  same_expression (Ast.list_of x0) (Ast.list_of y0) = same_expressions x0 y0
  same_expression (Ast.map_of x0) (Ast.map_of y0) = same_map x0 y0
  same_expression (Ast.aggregate x0) (Ast.aggregate y0) = same_aggregate x0 y0
  same_expression (Ast.function_call x0 x1 x2) (Ast.function_call y0 y1 y2) =
      x0 == y0 && same_bool x1 y1 && same_expressions x2 y2
  same_expression (Ast.label_check x0 x1) (Ast.label_check y0 y1) = x0 == y0 && same_names x1 y1
  same_expression (Ast.pattern_predicate x0) (Ast.pattern_predicate y0) = same_pattern x0 y0
  same_expression (Ast.exists_subquery x0 x1) (Ast.exists_subquery y0 y1) =
      same_patterns x0 y0 && same_opt x1 y1
  same_expression (Ast.exists_full_subquery x0) (Ast.exists_full_subquery y0) = same_clauses x0 y0
  same_expression (Ast.case_expression x0 x1 x2) (Ast.case_expression y0 y1 y2) =
      same_opt x0 y0 && same_whens x1 y1 && same_opt x2 y2
  same_expression (Ast.quantifier_expr x0 x1 x2 x3) (Ast.quantifier_expr y0 y1 y2 y3) =
      same_kind x0 y0 && x1 == y1 && same_expression x2 y2 && same_opt x3 y3
  same_expression (Ast.subscript x0 x1) (Ast.subscript y0 y1) =
      same_expression x0 y0 && same_expression x1 y1
  same_expression (Ast.list_slice x0 x1 x2) (Ast.list_slice y0 y1 y2) =
      same_expression x0 y0 && same_opt x1 y1 && same_opt x2 y2
  same_expression (Ast.list_comprehension x0 x1 x2 x3) (Ast.list_comprehension y0 y1 y2 y3) =
      x0 == y0 && same_expression x1 y1 && same_opt x2 y2 && same_opt x3 y3
  same_expression (Ast.pattern_comprehension x0 x1 x2 x3) (Ast.pattern_comprehension y0 y1 y2 y3) =
      same_opt_name x0 y0 && same_pattern x1 y1 && same_opt x2 y2 && same_expression x3 y3
  same_expression _ _ = false

  same_opt : OptExpression → OptExpression → Bool
  same_opt Ast.absent Ast.absent = true
  same_opt (Ast.present x0) (Ast.present y0) = same_expression x0 y0
  same_opt _ _ = false

  same_expressions : Expressions → Expressions → Bool
  same_expressions Ast.nil Ast.nil = true
  same_expressions (Ast.cons x0 x1) (Ast.cons y0 y1) =
      same_expression x0 y0 && same_expressions x1 y1
  same_expressions _ _ = false

  same_map : MapLiteral → MapLiteral → Bool
  same_map Ast.no_pair Ast.no_pair = true
  same_map (Ast.pair x0 x1 x2) (Ast.pair y0 y1 y2) =
      x0 == y0 && same_expression x1 y1 && same_map x2 y2
  same_map _ _ = false

  same_opt_map : OptMapLiteral → OptMapLiteral → Bool
  same_opt_map Ast.no_map Ast.no_map = true
  same_opt_map (Ast.some_map x0) (Ast.some_map y0) = same_map x0 y0
  same_opt_map _ _ = false

  same_whens : Whens → Whens → Bool
  same_whens Ast.no_when Ast.no_when = true
  same_whens (Ast.when_then x0 x1 x2) (Ast.when_then y0 y1 y2) =
      same_expression x0 y0 && same_expression x1 y1 && same_whens x2 y2
  same_whens _ _ = false

  same_aggregate : AggregateExpr → AggregateExpr → Bool
  same_aggregate (Ast.count x0 x1) (Ast.count y0 y1) = same_bool x0 y0 && same_opt x1 y1
  same_aggregate (Ast.sum x0 x1) (Ast.sum y0 y1) = same_bool x0 y0 && same_expression x1 y1
  same_aggregate (Ast.avg x0 x1) (Ast.avg y0 y1) = same_bool x0 y0 && same_expression x1 y1
  same_aggregate (Ast.min x0 x1) (Ast.min y0 y1) = same_bool x0 y0 && same_expression x1 y1
  same_aggregate (Ast.max x0 x1) (Ast.max y0 y1) = same_bool x0 y0 && same_expression x1 y1
  same_aggregate (Ast.collect x0 x1) (Ast.collect y0 y1) = same_bool x0 y0 && same_expression x1 y1
  same_aggregate _ _ = false

  same_pattern : Pattern → Pattern → Bool
  same_pattern (Ast.pattern_of x0 x1) (Ast.pattern_of y0 y1) =
      same_opt_name x0 y0 && same_elements x1 y1

  same_patterns : PatternList → PatternList → Bool
  same_patterns Ast.no_pattern Ast.no_pattern = true
  same_patterns (Ast.also x0 x1) (Ast.also y0 y1) = same_pattern x0 y0 && same_patterns x1 y1
  same_patterns _ _ = false

  same_element : PatternElement → PatternElement → Bool
  same_element (Ast.node x0 x1 x2) (Ast.node y0 y1 y2) =
      same_opt_name x0 y0 && same_names x1 y1 && same_opt_map x2 y2
  same_element (Ast.relationship x0 x1 x2 x3 x4) (Ast.relationship y0 y1 y2 y3 y4) =
      same_opt_name x0 y0
      && same_direction x1 y1
      && same_names x2 y2
      && same_opt_map x3 y3
      && same_range x4 y4
  same_element _ _ = false

  same_elements : PatternElements → PatternElements → Bool
  same_elements Ast.no_element Ast.no_element = true
  same_elements (Ast.element x0 x1) (Ast.element y0 y1) = same_element x0 y0 && same_elements x1 y1
  same_elements _ _ = false

  same_items : ItemList → ItemList → Bool
  same_items Ast.no_item Ast.no_item = true
  same_items (Ast.item x0 x1 x2) (Ast.item y0 y1 y2) =
      same_expression x0 y0 && same_opt_name x1 y1 && same_items x2 y2
  same_items _ _ = false

  same_return_items : ReturnItems → ReturnItems → Bool
  same_return_items Ast.all_items Ast.all_items = true
  same_return_items (Ast.explicit x0) (Ast.explicit y0) = same_items x0 y0
  same_return_items _ _ = false

  same_sort_items : SortItems → SortItems → Bool
  same_sort_items Ast.no_sort Ast.no_sort = true
  same_sort_items (Ast.sort x0 x1 x2) (Ast.sort y0 y1 y2) =
      same_expression x0 y0 && same_bool x1 y1 && same_sort_items x2 y2
  same_sort_items _ _ = false

  same_order_by : OptOrderBy → OptOrderBy → Bool
  same_order_by Ast.unordered Ast.unordered = true
  same_order_by (Ast.order_by x0) (Ast.order_by y0) = same_sort_items x0 y0
  same_order_by _ _ = false

  same_set_item : SetItem → SetItem → Bool
  same_set_item (Ast.set_property x0 x1 x2) (Ast.set_property y0 y1 y2) =
      x0 == y0 && x1 == y1 && same_expression x2 y2
  same_set_item (Ast.merge_map x0 x1) (Ast.merge_map y0 y1) = x0 == y0 && same_map x1 y1
  same_set_item (Ast.node_replace x0 x1) (Ast.node_replace y0 y1) =
      x0 == y0 && same_expression x1 y1
  same_set_item (Ast.set_label x0 x1) (Ast.set_label y0 y1) = x0 == y0 && same_names x1 y1
  same_set_item _ _ = false

  same_set_items : SetItems → SetItems → Bool
  same_set_items Ast.no_set Ast.no_set = true
  same_set_items (Ast.then_set x0 x1) (Ast.then_set y0 y1) =
      same_set_item x0 y0 && same_set_items x1 y1
  same_set_items _ _ = false

  same_actions : MergeActions → MergeActions → Bool
  same_actions Ast.no_action Ast.no_action = true
  same_actions (Ast.action x0 x1 x2) (Ast.action y0 y1 y2) =
      same_bool x0 y0 && same_set_items x1 y1 && same_actions x2 y2
  same_actions _ _ = false

  same_clause : Clause → Clause → Bool
  same_clause (Ast.match x0 x1 x2) (Ast.match y0 y1 y2) =
      same_bool x0 y0 && same_patterns x1 y1 && same_opt x2 y2
  same_clause (Ast.with_items x0 x1 x2 x3 x4 x5) (Ast.with_items y0 y1 y2 y3 y4 y5) =
      same_bool x0 y0
      && same_return_items x1 y1
      && same_opt x2 y2
      && same_order_by x3 y3
      && same_opt x4 y4
      && same_opt x5 y5
  same_clause (Ast.return x0 x1 x2 x3 x4) (Ast.return y0 y1 y2 y3 y4) =
      same_bool x0 y0
      && same_return_items x1 y1
      && same_order_by x2 y2
      && same_opt x3 y3
      && same_opt x4 y4
  same_clause (Ast.unwind x0 x1) (Ast.unwind y0 y1) = same_expression x0 y0 && x1 == y1
  same_clause (Ast.create x0) (Ast.create y0) = same_patterns x0 y0
  same_clause (Ast.merge x0 x1) (Ast.merge y0 y1) = same_pattern x0 y0 && same_actions x1 y1
  same_clause (Ast.set x0) (Ast.set y0) = same_set_items x0 y0
  same_clause (Ast.delete x0 x1) (Ast.delete y0 y1) = same_bool x0 y0 && same_expressions x1 y1
  same_clause (Ast.remove x0) (Ast.remove y0) = same_removes x0 y0
  same_clause (Ast.call x0 x1 x2) (Ast.call y0 y1 y2) =
      x0 == y0 && same_expressions x1 y1 && same_names x2 y2
  same_clause (Ast.union x0) (Ast.union y0) = same_bool x0 y0
  same_clause _ _ = false

  same_clauses : Clauses → Clauses → Bool
  same_clauses Ast.no_clause Ast.no_clause = true
  same_clauses (Ast.clause x0 x1) (Ast.clause y0 y1) = same_clause x0 y0 && same_clauses x1 y1
  same_clauses _ _ = false
