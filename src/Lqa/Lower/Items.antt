-- ===== src/Lqa/Lower/Items.antt =====
-- The items of a RETURN or WITH: `lower_return_items` and its helpers
-- (crates/polygraph/src/lqa/lower.rs).
use Prim.Native.String.{◌++◌}
use rs_polygraph.Base.{
  ℕ, suc, String, Bool, true, false, ◌||◌, ◌&&◌, Option, none, some, List, [], ◌∷◌, if◌then◌else◌,
}
use rs_polygraph.Base.Decimal.{to_string}
use rs_polygraph.Base.Int.{pos}
use rs_polygraph.Base.Eq.{◌==◌, string_eq}
use rs_polygraph.Base.Names.{eq_ignore_ascii_case}
use rs_polygraph.Ast
use rs_polygraph.Lqa.Syntax
use rs_polygraph.Lqa.Syntax.{Expr, Op, CmpOp, AggKind, AggItems, ProjItems, Literal}
use rs_polygraph.Lqa.Syntax.Build.{var, int}
use rs_polygraph.Lqa.Aggregates.{expr_contains_aggregate, extract_nested_aggregates, push}
use rs_polygraph.Lqa.Aggregates.Keys.{proj_cols_keys}
use rs_polygraph.Lqa.Lower.State.{AstLowerer, insert_const}

-- `args.join(", ")`
abbrev pub join_comma : List String → String
join_comma [] = ""
join_comma (s ∷ []) = s
join_comma (s ∷ ss) = s ++ (", " ++ join_comma ss)

abbrev pub dotted : Option String → String → Option String
dotted none key = none
dotted (some base) key = some (base ++ ("." ++ key))

abbrev pub called : String → Option (List String) → Option String
called name none = none
called name (some args) = some (name ++ ("(" ++ (join_comma args ++ ")")))

abbrev pub cons_opt : Option String → Option (List String) → Option (List String)
cons_opt (some s) (some ss) = some (s ∷ ss)
cons_opt _ _ = none

unfoldable mutual
  pub expr_natural_alias : Ast.Expression → Option String
  expr_natural_alias (Ast.variable v) = some v
  expr_natural_alias (Ast.property base key) = dotted (expr_natural_alias base) key
  expr_natural_alias (Ast.function_call name _ args) = called name (natural_aliases args)
  expr_natural_alias _ = none

  pub natural_aliases : Ast.Expressions → Option (List String)
  natural_aliases Ast.nil = some []
  natural_aliases (Ast.cons e es) = cons_opt (expr_natural_alias e) (natural_aliases es)

abbrev pub is_variable : Expr → String → Bool
is_variable (Expr.variable v _) x = v == x
is_variable _ x = false

abbrev pub is_null_literal : Expr → Bool
is_null_literal (Expr.literal Literal.null) = true
is_null_literal _ = false

unfoldable pub is_null_ne_pred_lqa : Expr → String → Bool
is_null_ne_pred_lqa (Expr.comparison CmpOp.ne a b) x =
    (is_variable a x && is_null_literal b) || (is_null_literal a && is_variable b x)
is_null_ne_pred_lqa _ x = false

unfoldable pub is_size_null_ne_listcomp : Expr → Bool
is_size_null_ne_listcomp
      (Expr.function_call name _
        (Syntax.cons (Expr.list_comprehension x _ (Syntax.present p) Syntax.absent) Syntax.nil)) =
    eq_ignore_ascii_case name "size" && is_null_ne_pred_lqa p x
is_size_null_ne_listcomp _ = false

abbrev pub is_aggregate : Expr → Bool
is_aggregate (Expr.aggregate _ _ _) = true
is_aggregate _ = false

abbrev pub is_list : Expr → Bool
is_list (Expr.list_of _) = true
is_list _ = false

-- the locals of the loop
pub record Items : Type 0 where
  pub proj : ProjItems
  pub aggs : AggItems
  pub gen_counter : ℕ
  pub post_group_aliases : List String

abbrev pub no_items : Items
no_items = record {
  proj = Syntax.no_item;
  aggs = Syntax.no_agg;
  gen_counter = 0;
  post_group_aliases = [];
}

-- `proj.push(…)`
unfoldable pub push_item : ProjItems → Expr → String → Option String → ProjItems
push_item Syntax.no_item e x n = Syntax.item e x n Syntax.no_item
push_item (Syntax.item e' x' n' is) e x n = Syntax.item e' x' n' (push_item is e x n)

-- `post_group_aliases.push(…)`
abbrev pub push_name : List String → String → List String
push_name [] x = x ∷ []
push_name (y ∷ ys) x = y ∷ push_name ys x

-- `*`
abbrev pub star_items : Items
star_items = record no_items { proj = Syntax.item (var "*") "*" none Syntax.no_item }

-- the alias of an item, with the counter after it
unfoldable pub item_alias : Option String → Ast.Expression → ℕ → String × ℕ
item_alias (some alias) e n = (alias, n)
item_alias none (Ast.variable v) n = (v, n)
item_alias none e n = ("_gen_" ++ to_string n, suc n)

abbrev pub natural_name : Option String → Ast.Expression → Option String
natural_name (some alias) e = some alias
natural_name none e = expr_natural_alias e

-- the name of the column, where it is not the alias
abbrev pub display_name : Option String → String → Option String
display_name none alias = none
display_name (some name) alias = if name == alias then none else some name

pub data ItemKind : Type 0 where
  size_of_nothing aggregate_item compound plain : ItemKind

-- the order of the tests
unfoldable pub item_kind : Expr → ItemKind
unfolding is_size_null_ne_listcomp expr_contains_aggregate
item_kind e =
    if is_size_null_ne_listcomp e
    then size_of_nothing
    else if is_aggregate e
    then aggregate_item
    else if expr_contains_aggregate e
    then compound
    else plain

-- a lowered item with its alias and the name of its column
unfoldable pub add_item : ItemKind → Expr → String → Option String → Items → Items
unfolding push push_item extract_nested_aggregates
add_item size_of_nothing e alias display s = record {
  proj = push_item s.proj (int (pos 0)) alias display;
  aggs =
      push s.aggs (Expr.aggregate AggKind.count_star false Syntax.absent)
        ("_dummy_agg_" ++ to_string s.gen_counter);
  gen_counter = suc s.gen_counter;
  post_group_aliases = push_name s.post_group_aliases alias;
}
add_item aggregate_item e alias display s = record s {
  proj = push_item s.proj (var alias) alias display;
  aggs = push s.aggs e alias;
}
add_item compound e alias display s =
    let r = extract_nested_aggregates e (record { aggs = s.aggs; counter = s.gen_counter }) in
    record {
      proj = push_item s.proj r.0 alias display;
      aggs = r.1.aggs;
      gen_counter = r.1.counter;
      post_group_aliases = push_name s.post_group_aliases alias;
    }
add_item plain e alias display s = record s { proj = push_item s.proj e alias display }

-- one round of the loop, given the lowered expression
unfoldable pub take_item : Ast.Expression → Option String → Expr → Items → Items
unfolding item_alias item_kind add_item expr_natural_alias
take_item e alias lowered s =
    let a = item_alias alias e s.gen_counter in
    add_item (item_kind lowered) lowered a.0 (display_name (natural_name alias e) a.0)
      (record s { gen_counter = a.1 })

-- a plain item that is a literal list is kept for `UNWIND`
unfoldable pub note_list : ItemKind → Expr → String → AstLowerer → AstLowerer
unfolding insert_const
note_list plain e alias s = if is_list e then insert_const alias e s else s
note_list _ e alias s = s

abbrev pub agg_aliases : AggItems → List String
agg_aliases Syntax.no_agg = []
agg_aliases (Syntax.agg _ alias rest) = alias ∷ agg_aliases rest

-- the grouping, if there are aggregates
abbrev pub group : Op → Items → Op
group inner s = elim s.aggs [
  | Syntax.no_agg ↦ inner
  | Syntax.agg e alias rest ↦
      Op.group_by inner
        (proj_cols_keys s.proj (agg_aliases (Syntax.agg e alias rest)) s.post_group_aliases)
        (Syntax.agg e alias rest)
]

abbrev pub project : Op → Bool → Items → Op
project inner distinct s = Op.projection (group inner s) s.proj distinct
