-- ===== src/Lqa/Normalize.antt =====
-- The desugaring rules of crates/polygraph/src/lqa/normalize.rs.
pub mod Truth
pub mod Alias
use Prim.Native.String.{◌++◌}
use rs_polygraph.Base.{ℕ, suc, String, Bool, true, false, Option, none, some, List, [], ◌∷◌}
use rs_polygraph.Base.Decimal.{to_string}
use rs_polygraph.Lqa.Syntax
use rs_polygraph.Lqa.Syntax.{Expr, OptExpr, Branches, ProjItems, Op, Literal, CmpOp}
use rs_polygraph.Lqa.Syntax.Build.{bool}

-- each `WHEN value` becomes `WHEN subject = value`
unfoldable pub searched_branches : Expr → Branches → Branches
searched_branches subject Syntax.no_branch = Syntax.no_branch
searched_branches subject (Syntax.branch value result rest) =
    Syntax.branch (Expr.comparison CmpOp.eq subject value) result (searched_branches subject rest)

unfoldable pub simple_case_to_searched : Expr → Branches → OptExpr → Expr
unfolding searched_branches
simple_case_to_searched subject branches else_expr =
    Expr.case_searched (searched_branches subject branches) else_expr

pub record AliasGen : Type 0 where
  pub counter : ℕ

abbrev new : AliasGen
new = record { counter = 0 }

abbrev pub gen_name : ℕ → String
gen_name n = "?gen_" ++ to_string n

unfoldable pub next : AliasGen → String × AliasGen
next gen = (gen_name gen.counter, record { counter = suc gen.counter })

-- `alias.unwrap_or_else(|| gen.next())`
unfoldable pub alias_or_next : Option String → AliasGen → String × AliasGen
unfolding next
alias_or_next (some alias) gen = (alias, gen)
alias_or_next none gen = next gen

unfoldable pub desugar_implicit_alias :
    List (Expr × Option String) → AliasGen → ProjItems × AliasGen
unfolding alias_or_next
desugar_implicit_alias [] gen = (Syntax.no_item, gen)
desugar_implicit_alias ((expr, alias) ∷ items) gen =
    let (name, gen') = alias_or_next alias gen in
    let (rest, gen'') = desugar_implicit_alias items gen' in
    (Syntax.item expr name none rest, gen'')

unfoldable pub flatten_double_not : Expr → Expr
flatten_double_not (Expr.not (Expr.not e)) = flatten_double_not e
flatten_double_not (Expr.not e) = Expr.not (flatten_double_not e)
flatten_double_not e = e

unfoldable pub fold_null_checks : Expr → Expr
fold_null_checks (Expr.is_null (Expr.literal Literal.null)) = bool true
fold_null_checks (Expr.is_null (Expr.literal _)) = bool false
fold_null_checks (Expr.is_not_null (Expr.literal Literal.null)) = bool false
fold_null_checks (Expr.is_not_null (Expr.literal _)) = bool true
fold_null_checks e = e

unfoldable pub normalize_expr : Expr → Expr
unfolding flatten_double_not fold_null_checks
normalize_expr e = fold_null_checks (flatten_double_not e)

unfoldable pub normalize_items : ProjItems → ProjItems
unfolding normalize_expr
normalize_items Syntax.no_item = Syntax.no_item
normalize_items (Syntax.item expr alias display_name rest) =
    Syntax.item (normalize_expr expr) alias display_name (normalize_items rest)

unfoldable pub normalize_op : Op → Op
unfolding normalize_items
normalize_op (Op.selection inner predicate) = Op.selection inner (normalize_expr predicate)
normalize_op (Op.projection inner items distinct) =
    Op.projection inner (normalize_items items) distinct
normalize_op op = op
