-- ===== src/Lqa/Lower/Actions.antt =====
-- What the steps of the lowering keep: the writes of the operators, the state, and the kind of error
-- (crates/polygraph/src/lqa/lower.rs).
use rs_polygraph.Lqa.Lower.Outcomes.{passes, overflows}
use rs_polygraph.Base.{String, Bool, false, ◌||◌, Option, none, some, [], ◌∷◌, ◌≡◌, ◌∙◌, arith}
use rs_polygraph.Ast
use rs_polygraph.Ast.{
  Expression, OptExpression, Expressions, MapLiteral, OptMapLiteral, Whens, AggregateExpr, Pattern,
  PatternList, PatternElement, PatternElements, ItemList, ReturnItems, SortItems, OptOrderBy,
  SetItem, MergeActions, Clause, Clauses,
}
use rs_polygraph.Lqa.Syntax
use rs_polygraph.Lqa.Syntax.{OptExpr, Expr, Exprs, Op, SetItems, AggKind, UnaryOp}
use rs_polygraph.Lqa.Write.{contains_write}
use rs_polygraph.Lqa.Lower.State.{Lowering}
use rs_polygraph.Lqa.Lower.Items.{Items}
use rs_polygraph.Lqa.Lower.Steps.{
  lower_match_pattern, lower_with, lower_return, lower_merge_clause, node_names, lower_two,
  lower_one, aggregate_of, range_list, lowered_item, substituted,
}
use rs_polygraph.Lqa.Lower.Yields.{
  Yields, Yields-pure, Yields-weaken, Yields-bind, Fine, Fine-pure, ◌▹◌, Fine-fresh,
  note_list-Later, Later-refl,
}
use rs_polygraph.Lqa.Lower.Writes.{
  write-select_opt, write-skip_opt, write-limit_opt, write-distinct_if, write-project,
}

-- an operator that writes as the test says
abbrev pub Writing : Bool → Lowering Op → Type 0
Writing b m = Yields (λ op. contains_write op ≡ b) m

pub Fine-node_names : (es : PatternElements) → Fine (node_names es)
unfolding node_names
Fine-node_names Ast.no_element = Fine-pure []
Fine-node_names (Ast.element (Ast.node (some x) _ _) es) =
    Fine-node_names es ▹ λ xs. Fine-pure (x ∷ xs)
Fine-node_names (Ast.element (Ast.node none _ _) es) =
    Fine-fresh "anon" ▹ λ x. Fine-node_names es ▹ λ xs. Fine-pure (x ∷ xs)
Fine-node_names (Ast.element (Ast.relationship _ _ _ _ _) es) = Fine-node_names es

pub Fine-lower_two :
    (f : Expr → Expr → Expr) {m k : Lowering Expr} → Fine m → Fine k → Fine (lower_two f m k)
Fine-lower_two f h g = h ▹ λ a. g ▹ λ b. Fine-pure (f a b)

pub Fine-lower_one : (f : Expr → Expr) {m : Lowering Expr} → Fine m → Fine (lower_one f m)
Fine-lower_one f h = h ▹ λ a. Fine-pure (f a)

pub Fine-aggregate_of :
    (kind : AggKind) (d : Bool) {m : Lowering Expr} → Fine m → Fine (aggregate_of kind d m)
Fine-aggregate_of kind d h = h ▹ λ a. Fine-pure (Expr.aggregate kind d (Syntax.present a))

pub Fine-lowered_item :
    (e : Expression) (alias : Option String) (a : Expr) (acc : Items)
    → Fine (lowered_item e alias a acc)
Fine-lowered_item e alias a acc = record { at = λ s. passes (tt, note_list-Later _ a _ s) }

pub Writing-substituted :
    (current : Op) (list : Expr) (x : String)
    → Writing (contains_write current || false) (substituted current list x)
unfolding contains_write
Writing-substituted current list x = record { at = λ s. passes (ground arith, Later-refl s) }

pub Fine-range_list : (items : Option Exprs) → Fine (range_list items)
Fine-range_list none = record { at = λ s. overflows }
Fine-range_list (some items) = record { at = λ s. passes (tt, Later-refl s) }

pub Fine-of : {A : Type 0} {P : A → Type 0} {m : Lowering A} → Yields P m → Fine m
Fine-of h = Yields-weaken (λ _ _. tt) h

pub Writing-as : {b c : Bool} {m : Lowering Op} → b ≡ c → Writing b m → Writing c m
Writing-as e h = Yields-weaken (λ _ p. p ∙ e) h

pub Writing-match_pattern :
    {ps : Lowering Op} {where_ : Lowering OptExpr}
    → Writing false ps
    → Fine where_
    → Writing false (lower_match_pattern ps where_)
Writing-match_pattern h f = Yields-bind h λ op e. f ▹ λ p. Yields-pure (write-select_opt op p ∙ e)

pub Fine-merge_clause :
    {p : Lowering Op} {actions : Lowering (SetItems × SetItems)}
    → Writing false p
    → Fine actions
    → Fine (lower_merge_clause p actions)
Fine-merge_clause h f = Fine-of h ▹ λ op. f ▹ λ q. Fine-pure _

module _ (inner : Op) (distinct : Bool) where
  pub Writing-with :
      {items : Lowering Items} {where_ : Lowering OptExpr}
      {order : Op → Syntax.AggItems → Lowering Op} {skip limit : Lowering OptExpr}
      → Fine items
      → Fine where_
      → ((op : Op) (aggs : Syntax.AggItems) → Writing (contains_write op) (order op aggs))
      → Fine skip
      → Fine limit
      → Writing
          (contains_write inner || false)
          (lower_with inner distinct items where_ order skip limit)
  Writing-with fi fw ho fs fl = fi ▹ λ is. fw ▹ λ p. Yields-bind (ho _ is.aggs) λ op h. fs ▹ λ k.
      fl ▹ λ l. Yields-pure (
        write-limit_opt _ l
        ∙ (write-skip_opt op k ∙ (h ∙ (write-select_opt _ p ∙ write-project inner distinct is))))

  pub Writing-return :
      {items : Lowering Items} {order : Op → Syntax.AggItems → Lowering Op}
      {skip limit : Lowering OptExpr}
      → Fine items
      → ((op : Op) (aggs : Syntax.AggItems) → Writing (contains_write op) (order op aggs))
      → Fine skip
      → Fine limit
      → Writing (contains_write inner || false) (lower_return inner distinct items order skip limit)
  Writing-return fi ho fs fl = fi ▹ λ is. Yields-bind (ho _ is.aggs) λ op h. fs ▹ λ k. fl ▹ λ l.
      Yields-pure (
        write-distinct_if distinct _
        ∙ (write-limit_opt _ l ∙ (write-skip_opt op k ∙ (h ∙ write-project inner distinct is))))

pub or_regroup : (u b c d : Bool) → u ≡ (b || c) → (u || (false || d)) ≡ (b || (c || (false || d)))
or_regroup u b c d e = ground (arith, e)

pub or_step : (b op c w d : Bool) → op ≡ (c || w) → (b || (op || d)) ≡ (b || (c || (w || d)))
or_step b op c w d e = ground (arith, e)
