-- ===== src/Lqa/Lower/Columns.antt =====
-- The columns of a RETURN or WITH (`lower_return_items` of crates/polygraph/src/lqa/lower.rs).
use Prim.Native.String.{◌++◌}
use mathlib.Core.List.{append-nil, append_assoc}
use mathlib.Core.List
use mathlib.Core.Path.{subst}
use rs_polygraph.Lqa.Lower.Outcomes.{ok, passes, of_ok}
use rs_polygraph.Base.{ℕ, String, Bool, Option, none, some, List, [], ◌∷◌, ◌≡◌, refl, sym, ap, ◌∙◌}
use rs_polygraph.Base.Decimal.{to_string}
use rs_polygraph.Ast
use rs_polygraph.Ast.{Expression, ItemList}
use rs_polygraph.Lqa.Syntax
use rs_polygraph.Lqa.Syntax.{Expr, ProjItems}
use rs_polygraph.Lqa.Aggregates.Keys.{aliases}
use rs_polygraph.Lqa.Lower.State.{AstLowerer}
use rs_polygraph.Lqa.Lower.Items.{
  Items, no_items, ItemKind, size_of_nothing, aggregate_item, compound, plain, push_item, add_item,
  take_item, item_alias,
}
use rs_polygraph.Lqa.Lower.Folding.{Texts}
use rs_polygraph.Lqa.Lower.Steps.{lowered_item}
use rs_polygraph.Lqa.Lower.Queries.{lower_items, lower_return_items}
use rs_polygraph.Lqa.Lower.Yields.{
  Yields, Yields-pure, Yields-weaken, Yields-bind, ◌▹◌, note_list-Later,
}
use rs_polygraph.Lqa.Lower.Walks.{Fine-expr}

-- the name of an item's column: its alias, or the variable that it is, or else a generated name
abbrev pub Column : Option String → Expression → String → Type 0
Column (some a) e x = x ≡ a
Column none (Ast.variable v) x = x ≡ v
Column none e x = (n : ℕ) × (x ≡ "_gen_" ++ to_string n)

-- one column for each item, in order
abbrev pub Columns : ItemList → List String → Type 0
Columns Ast.no_item [] = Unit
Columns (Ast.item e a is) (x ∷ xs) = Column a e x × Columns is xs
Columns _ _ = ⊥

item_alias-Column : (a : Option String) (e : Expression) (n : ℕ) → Column a e (item_alias a e n).0
unfolding item_alias
item_alias-Column (some a) e n = refl
item_alias-Column none (Ast.variable v) n = refl
item_alias-Column none e n = (n, refl)

aliases-push_item :
    (p : ProjItems) (e : Expr) (x : String) (d : Option String)
    → aliases (push_item p e x d) ≡ List.◌++◌ (aliases p) (x ∷ [])
unfolding push_item
aliases-push_item Syntax.no_item e x d = refl
aliases-push_item (Syntax.item e' y d' p) e x d = ap (λ ys. y ∷ ys) (aliases-push_item p e x d)

aliases-add_item :
    (kind : ItemKind) (e : Expr) (x : String) (d : Option String) (acc : Items)
    → aliases (add_item kind e x d acc).proj ≡ List.◌++◌ (aliases acc.proj) (x ∷ [])
unfolding add_item
aliases-add_item size_of_nothing e x d acc = aliases-push_item acc.proj _ x d
aliases-add_item aggregate_item e x d acc = aliases-push_item acc.proj _ x d
aliases-add_item compound e x d acc = aliases-push_item acc.proj _ x d
aliases-add_item plain e x d acc = aliases-push_item acc.proj e x d

-- the columns that a walk adds
abbrev Adds : (List String → Type 0) → Items → Items → Type 0
Adds P acc acc' = (xs : List String) × (aliases acc'.proj ≡ List.◌++◌ (aliases acc.proj) xs) × P xs

Adds-item :
    (e : Expression) (a : Option String) (lowered : Expr) (acc : Items)
    → Yields
        (λ acc'.
          (x : String) × (aliases acc'.proj ≡ List.◌++◌ (aliases acc.proj) (x ∷ [])) × Column a e x)
        (lowered_item e a lowered acc)
unfolding take_item
Adds-item e a lowered acc = record {
  at = λ s. passes (
    (
      (item_alias a e acc.gen_counter).0,
      aliases-add_item _ lowered _ _ _,
      item_alias-Column a e acc.gen_counter,
    ),
    note_list-Later _ lowered _ s,
  );
}

module _ (t : Texts) (same_expr : Expr → Expr → Bool) where
  lower_items-Adds :
      (is : ItemList) (acc : Items)
      → Yields (Adds (Columns is) acc) (lower_items t same_expr is acc)
  unfolding lower_items
  lower_items-Adds Ast.no_item acc = Yields-pure ([], sym (append-nil (aliases acc.proj)), tt)
  lower_items-Adds (Ast.item e a is) acc = Fine-expr t same_expr e ▹ λ lowered.
      Yields-bind (Adds-item e a lowered acc) λ acc' h.
        Yields-weaken
          (λ acc'' g. (
            h.0 ∷ g.0,
            g.1
                ∙ (ap (λ ys. List.◌++◌ ys g.0) h.1
                    ∙ append_assoc (aliases acc.proj) (h.0 ∷ []) g.0),
            (h.2, g.2),
          ))
          (lower_items-Adds is acc')

  -- The items of a RETURN or WITH become one projected column each, in their order: under the alias of
  -- the item, else under the variable that it is, else under a generated name.
  pub lower_return_items-Columns :
      (is : ItemList) (s s' : AstLowerer) (items : Items)
      → lower_return_items t same_expr (Ast.explicit is) s ≡ ok (items, s')
      → Columns is (aliases items.proj)
  unfolding lower_return_items
  lower_return_items-Columns is s s' items e =
      let e' : lower_items t same_expr is no_items s ≡ ok (items, s') = e in
      let h = (of_ok (rw e' at ((lower_items-Adds is no_items).at s))).0 in
      subst (Columns is) (sym h.1) h.2
