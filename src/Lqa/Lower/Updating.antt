-- ===== src/Lqa/Lower/Updating.antt =====
-- What a query that is lowered writes, and how the lowering of a query may end
-- (crates/polygraph/src/lqa/lower.rs, with `strip_writes` of write.rs).
use rs_polygraph.Lqa.Lower.Outcomes.{ok, err, Ensures, of_ok, of_err, weaken}
use rs_polygraph.Base.{
  String, Bool, true, false, none, some, arith, ◌||◌, List, [], ◌∷◌, ◌≡◌, refl, ap, ◌∙◌,
}
use rs_polygraph.Base.Any.{any}
use rs_polygraph.Base.Dict.{get}
use rs_polygraph.Base.Eq.{string_eq}
use rs_polygraph.Lqa.Lower.Items.{is_list}
use rs_polygraph.Results.{PolygraphError, translation}
use rs_polygraph.Ast.{Clause, CypherQuery}
use rs_polygraph.Lqa.Syntax.{Expr, Op}
use rs_polygraph.Lqa.Write.{contains_write, strip_writes}
use rs_polygraph.Lqa.Write.Strip.{strip_writes_of_read}
use rs_polygraph.Lqa.Lower.State.{AstLowerer, new}
use rs_polygraph.Lqa.Lower.Folding.{Texts}
use rs_polygraph.Lqa.Lower.Steps.{clauses_of}
use rs_polygraph.Lqa.Lower.Splits.{lower_query}
use rs_polygraph.Lqa.Lower.Unions.{lower_query-lower_arms}
use rs_polygraph.Lqa.Lower.Yields.{Later}
use rs_polygraph.Lqa.Lower.Writes.{is_updating, any_updating}
use rs_polygraph.Lqa.Lower.Walks.{Writing-arms}

any_updating-clauses_of : (cs : List Clause) → any_updating (clauses_of cs) ≡ any is_updating cs
unfolding any
any_updating-clauses_of [] = refl
any_updating-clauses_of (c ∷ cs) = ap (λ b. is_updating c || b) (any_updating-clauses_of cs)

module _ (t : Texts) (same_expr : Expr → Expr → Bool) (q : CypherQuery) (s : AstLowerer) where
  lower_query_lem :
      Ensures
        (λ r. (contains_write r.0 ≡ any is_updating q.clauses) × Later s r.1)
        (lower_query t same_expr q s)
  unfolding contains_write any
  lower_query_lem = rw (lower_query-lower_arms t same_expr q s) (
      weaken (λ r p. (p.0 ∙ any_updating-clauses_of q.clauses, p.1))
        ((Writing-arms t same_expr none Op.unit (clauses_of q.clauses)).at s))

  -- A query that is lowered has a write operator exactly when one of its clauses writes or calls a
  -- procedure.
  pub lower_query-contains_write :
      (op : Op) (s' : AstLowerer)
      → lower_query t same_expr q s ≡ ok (op, s')
      → contains_write op ≡ any is_updating q.clauses
  lower_query-contains_write op s' e = (of_ok (rw e at lower_query_lem)).0

  -- The operator of a query that is lowered and has no clause that writes or calls a procedure is what
  -- strip_writes makes of it.
  pub lower_query-strip_writes :
      (op : Op) (s' : AstLowerer)
      → lower_query t same_expr q s ≡ ok (op, s')
      → any is_updating q.clauses ≡ false
      → strip_writes op ≡ op
  lower_query-strip_writes op s' e h =
      strip_writes_of_read op (lower_query-contains_write op s' e ∙ h)

  lower_query-Later :
      (op : Op) (s' : AstLowerer) → lower_query t same_expr q s ≡ ok (op, s') → Later s s'
  lower_query-Later op s' e = (of_ok (rw e at lower_query_lem)).1

  -- A query that is refused with an error is refused with a translation error, never with another kind.
  pub lower_query-IsTranslation :
      (e : PolygraphError)
      → lower_query t same_expr q s ≡ err e
      → (message : String) × (e ≡ translation message)
  lower_query-IsTranslation e h = of_err (rw h at lower_query_lem)

-- After a query is lowered by a new lowerer, every constant it kept for UNWIND is a literal list.
pub lower_query-OnlyLists :
    (t : Texts) (same_expr : Expr → Expr → Bool) (q : CypherQuery) (op : Op) (s' : AstLowerer)
    → lower_query t same_expr q new ≡ ok (op, s')
    → (x : String) (e : Expr) → get x s'.list_const_map ≡ some e
    → is_list e ≡ true
unfolding get
lower_query-OnlyLists t same_expr q op s' h =
    (lower_query-Later t same_expr q new op s' h).lists (λ x e g. absurd (ground (arith, g)))
