-- ===== src/Lqa/Normalize/Truth.antt =====
-- The rewrites of crates/polygraph/src/lqa/normalize.rs keep the three-valued truth of a predicate.
use rs_polygraph.Base.{Bool, true, false, Option, none, some, ◌≡◌, refl, ap, ◌∙◌, arith, ap₂}
use rs_polygraph.Lqa.Syntax
use rs_polygraph.Lqa.Syntax.{Expr, OptExpr, Branches, ProjItems, Op, Literal, CmpOp}
use rs_polygraph.Lqa.Normalize.{
  searched_branches, simple_case_to_searched, flatten_double_not, fold_null_checks, normalize_expr,
  normalize_items, normalize_op,
}
use rs_polygraph.Lqa.Write.{contains_write}

-- A truth value of Cypher: `none` is null.
abbrev pub Truth : Type 0
Truth = Option Bool

abbrev pub not3 : Truth → Truth
not3 none = none
not3 (some true) = some false
not3 (some false) = some true

abbrev pub and3 : Truth → Truth → Truth
and3 (some false) _ = some false
and3 (some true) b = b
and3 none (some false) = some false
and3 none _ = none

abbrev pub or3 : Truth → Truth → Truth
or3 (some true) _ = some true
or3 (some false) b = b
or3 none (some true) = some true
or3 none _ = none

abbrev pub xor3 : Truth → Truth → Truth
xor3 none _ = none
xor3 (some true) b = not3 b
xor3 (some false) b = b

-- The truth of a predicate by the rules of openCypher, over the truth of everything else.
pub truth : (Expr → Truth) → Expr → Truth
truth env (Expr.literal (Literal.boolean b)) = some b
truth env (Expr.literal Literal.null) = none
truth env (Expr.not e) = not3 (truth env e)
truth env (Expr.and a b) = and3 (truth env a) (truth env b)
truth env (Expr.or a b) = or3 (truth env a) (truth env b)
truth env (Expr.xor a b) = xor3 (truth env a) (truth env b)
truth env (Expr.is_null (Expr.literal Literal.null)) = some true
truth env (Expr.is_null (Expr.literal _)) = some false
truth env (Expr.is_not_null (Expr.literal Literal.null)) = some false
truth env (Expr.is_not_null (Expr.literal _)) = some true
truth env e = env e

not3-not3 : (t : Truth) → not3 (not3 t) ≡ t
not3-not3 t = ground arith

module _ (env : Expr → Truth) where
  truth-flatten_double_not : (e : Expr) → truth env (flatten_double_not e) ≡ truth env e
  unfolding truth flatten_double_not
  truth-flatten_double_not (Expr.not (Expr.not e)) =
      truth-flatten_double_not e ∙ ground (arith, not3-not3 (truth env e))
  truth-flatten_double_not (Expr.not e) = refl
  truth-flatten_double_not e = refl

  truth-fold_null_checks : (e : Expr) → truth env (fold_null_checks e) ≡ truth env e
  unfolding truth fold_null_checks
  truth-fold_null_checks (Expr.is_null (Expr.literal Literal.null)) = refl
  truth-fold_null_checks (Expr.is_null (Expr.literal l)) = refl
  truth-fold_null_checks (Expr.is_not_null (Expr.literal Literal.null)) = refl
  truth-fold_null_checks (Expr.is_not_null (Expr.literal l)) = refl
  truth-fold_null_checks e = refl

  -- Normalising a predicate keeps its truth value, null included.
  pub truth-normalize_expr : (e : Expr) → truth env (normalize_expr e) ≡ truth env e
  unfolding normalize_expr
  truth-normalize_expr e =
      truth-fold_null_checks (flatten_double_not e) ∙ truth-flatten_double_not e

  -- The result and default of a searched CASE: the first branch whose condition is true.
  pub searched_choice : Branches → OptExpr → OptExpr
  searched_choice Syntax.no_branch else_expr = else_expr
  searched_choice (Syntax.branch condition result rest) else_expr = elim (truth env condition) [
    | some true ↦ Syntax.present result
    | _ ↦ searched_choice rest else_expr
  ]

  -- The choice that a CASE expression makes.
  pub case_choice : Expr → OptExpr
  unfolding searched_choice
  case_choice (Expr.case_searched branches else_expr) = searched_choice branches else_expr
  case_choice _ = Syntax.absent

  -- The result of a simple CASE: the first branch whose value equals the subject.
  pub simple_choice : Expr → Branches → OptExpr → OptExpr
  simple_choice subject Syntax.no_branch else_expr = else_expr
  simple_choice subject (Syntax.branch value result rest) else_expr =
      elim (env (Expr.comparison CmpOp.eq subject value)) [
        | some true ↦ Syntax.present result
        | _ ↦ simple_choice subject rest else_expr
      ]

  searched_choice-searched_branches :
      (subject : Expr) (branches : Branches) (else_expr : OptExpr)
      → searched_choice (searched_branches subject branches) else_expr
        ≡ simple_choice subject branches else_expr
  unfolding searched_choice simple_choice searched_branches truth
  searched_choice-searched_branches subject Syntax.no_branch else_expr = refl
  searched_choice-searched_branches subject (Syntax.branch value result rest) else_expr =
      ground (arith, searched_choice-searched_branches subject rest else_expr)

  -- The searched CASE that a simple CASE becomes chooses as the simple CASE does.
  pub case_choice-simple_case_to_searched :
      (subject : Expr) (branches : Branches) (else_expr : OptExpr)
      → case_choice (simple_case_to_searched subject branches else_expr)
        ≡ simple_choice subject branches else_expr
  unfolding case_choice simple_case_to_searched
  case_choice-simple_case_to_searched = searched_choice-searched_branches

flatten_double_not_idem :
    (e : Expr) → flatten_double_not (flatten_double_not e) ≡ flatten_double_not e
unfolding flatten_double_not
flatten_double_not_idem (Expr.not (Expr.not e)) = flatten_double_not_idem e
flatten_double_not_idem (Expr.not e) = refl
flatten_double_not_idem e = refl

-- an expression that neither rule changes at its head
abbrev IsNormal : Expr → Type 0
IsNormal e = (flatten_double_not e ≡ e) × (fold_null_checks e ≡ e)

fold_null_checks-IsNormal : (e : Expr) → flatten_double_not e ≡ e → IsNormal (fold_null_checks e)
unfolding flatten_double_not fold_null_checks
fold_null_checks-IsNormal (Expr.is_null (Expr.literal Literal.null)) h = (refl, refl)
fold_null_checks-IsNormal (Expr.is_null (Expr.literal _)) h = (refl, refl)
fold_null_checks-IsNormal (Expr.is_not_null (Expr.literal Literal.null)) h = (refl, refl)
fold_null_checks-IsNormal (Expr.is_not_null (Expr.literal _)) h = (refl, refl)
fold_null_checks-IsNormal (Expr.not (Expr.not e)) h = (h, refl)
fold_null_checks-IsNormal e h = (h, refl)

-- Normalising a second time changes nothing.
pub normalize_expr_idem : (e : Expr) → normalize_expr (normalize_expr e) ≡ normalize_expr e
unfolding normalize_expr
normalize_expr_idem e =
    let (flat, folded) =
      fold_null_checks-IsNormal (flatten_double_not e) (flatten_double_not_idem e) in
    ap fold_null_checks flat ∙ folded

normalize_items_idem :
    (items : ProjItems) → normalize_items (normalize_items items) ≡ normalize_items items
unfolding normalize_items
normalize_items_idem Syntax.no_item = refl
normalize_items_idem (Syntax.item e a d rest) =
    ap₂ (λ x y. Syntax.item x a d y) (normalize_expr_idem e) (normalize_items_idem rest)

-- Normalising an operator twice is normalising it once, and neither adds nor removes a write.
normalize_op_stable :
    (op : Op)
    → (normalize_op (normalize_op op) ≡ normalize_op op)
      × (contains_write (normalize_op op) ≡ contains_write op)
unfolding normalize_op contains_write
normalize_op_stable (Op.selection inner p) = (ap (Op.selection inner) (normalize_expr_idem p), refl)
normalize_op_stable (Op.projection inner items d) =
    (ap (λ x. Op.projection inner x d) (normalize_items_idem items), refl)
normalize_op_stable op = (refl, refl)
