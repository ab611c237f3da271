-- ===== src/Lqa/Lower/Total.antt =====
-- Patterns that are always lowered: `lower_pattern` of crates/polygraph/src/lqa/lower.rs.
use rs_polygraph.Lqa.Lower.Outcomes.{ok}
use rs_polygraph.Base.{
  ℕ, suc, String, Bool, true, false, Option, none, some, List, [], ◌∷◌, length, ◌≡◌, refl, ap, ◌∙◌,
  arith,
}
use rs_polygraph.Ast
use rs_polygraph.Ast.{
  Expression, MapLiteral, OptMapLiteral, Pattern, PatternElement, PatternElements,
}
use rs_polygraph.Lqa.Syntax.{Expr, Op}
use rs_polygraph.Lqa.Lower.State.{
  AstLowerer, Lowering, pure, ◌>>=◌, fresh, visit, next_name, or_fail,
}
use rs_polygraph.Lqa.Lower.Folding.{Texts}
use rs_polygraph.Lqa.Lower.Steps.{node_names, Walk}
use rs_polygraph.Lqa.Lower.Queries.{
  lower_expr, apply_pairs, apply_prop_predicates, lower_relationship, lower_elements, lower_pattern,
}

-- an action that returns, with a property of its value
record Total {A : Type 0} (P : A → Type 0) (m : Lowering A) : Type 0 where
  at : (s : AstLowerer) → (r : A × AstLowerer) × (m s ≡ ok r) × P r.0

Total-pure : {A : Type 0} {P : A → Type 0} {a : A} → P a → Total P (pure a)
Total-pure {a = a} h = record { at = λ s. ((a, s), refl, h) }

Total-bind :
    {A B : Type 0} {P : A → Type 0} {Q : B → Type 0} {m : Lowering A} {f : A → Lowering B}
    → Total P m
    → ((a : A) → P a → Total Q (f a))
    → Total Q (m >>= f)
Total-bind h k = record {
  at = λ s. let p = h.at s in let q = (k p.0.0 p.2).at p.0.1 in (q.0, rw p.1 q.1, q.2);
}

abbrev nodes : PatternElements → ℕ
nodes Ast.no_element = 0
nodes (Ast.element (Ast.node _ _ _) es) = suc (nodes es)
nodes (Ast.element (Ast.relationship _ _ _ _ _) es) = nodes es

-- A pattern is a node, or a node, a relationship and a pattern.
unfoldable mutual
  pub alternates : PatternElements → Bool
  alternates (Ast.element (Ast.node _ _ _) es) = links es
  alternates _ = false

  pub links : PatternElements → Bool
  links Ast.no_element = true
  links (Ast.element (Ast.relationship _ _ _ _ _) es) = alternates es
  links _ = false

Total-fresh : (prefix : String) → Total (λ _. Unit {0}) (fresh prefix)
unfolding fresh
Total-fresh prefix = record { at = λ s. (_, refl, tt) }

Total-visit : (x : String) → Total (λ _. Unit {0}) (visit x)
unfolding visit
Total-visit x = record { at = λ s. (_, refl, tt) }

Total-next_name :
    (xs : List String) (n : ℕ) → length xs ≡ suc n → Total (λ r. length r.1 ≡ n) (next_name xs)
unfolding next_name
Total-next_name [] n h = absurd (omega (arith, h))
Total-next_name (x ∷ xs) n h = Total-pure (omega (arith, h))

Total-node_names : (es : PatternElements) → Total (λ xs. length xs ≡ nodes es) (node_names es)
unfolding node_names
Total-node_names Ast.no_element = Total-pure refl
Total-node_names (Ast.element (Ast.node (some x) _ _) es) =
    Total-bind (Total-node_names es) λ xs h. Total-pure (ap suc h)
Total-node_names (Ast.element (Ast.node none _ _) es) =
    Total-bind {f = λ x. node_names es >>= λ xs. pure (x ∷ xs)} (Total-fresh "anon")
      λ x _. Total-bind (Total-node_names es) λ xs h. Total-pure (ap suc h)
Total-node_names (Ast.element (Ast.relationship _ _ _ _ _) es) = Total-node_names es

Total-or_fail :
    {A : Type 0} {o : Option A} {a : A} (message : String)
    → o ≡ some a
    → Total (λ _. Unit {0}) (or_fail o message)
unfolding or_fail
Total-or_fail {a = a} message h = rw h (Total-pure tt)

-- the nodes of a pattern after its first
abbrev rest_nodes : PatternElements → ℕ
rest_nodes Ast.no_element = 0
rest_nodes (Ast.element (Ast.node _ _ _) es) = nodes es
rest_nodes (Ast.element _ es) = rest_nodes es

alternates-nodes : (es : PatternElements) → alternates es ≡ true → nodes es ≡ suc (rest_nodes es)
unfolding alternates
alternates-nodes (Ast.element (Ast.node _ _ _) es) h = refl
alternates-nodes Ast.no_element h = ground (arith, h)
alternates-nodes (Ast.element (Ast.relationship _ _ _ _ _) es) h = ground (arith, h)

module _ (t : Texts) (same_expr : Expr → Expr → Bool) where
  -- an expression that is lowered in every state
  abbrev pub AlwaysLowered : Expression → Type 0
  AlwaysLowered e = (s : AstLowerer) → (r : Expr × AstLowerer) × (lower_expr t same_expr e s ≡ ok r)

  abbrev pub PairsLowered : MapLiteral → Type 0
  PairsLowered Ast.no_pair = Unit
  PairsLowered (Ast.pair _ e m) = AlwaysLowered e × PairsLowered m

  abbrev pub PropertiesLowered : OptMapLiteral → Type 0
  PropertiesLowered Ast.no_map = Unit
  PropertiesLowered (Ast.some_map m) = PairsLowered m

  -- The values of all properties are.
  abbrev pub ValuesLowered : PatternElements → Type 0
  ValuesLowered Ast.no_element = Unit
  ValuesLowered (Ast.element (Ast.node _ _ m) es) = PropertiesLowered m × ValuesLowered es
  ValuesLowered (Ast.element (Ast.relationship _ _ _ m _) es) =
      PropertiesLowered m × ValuesLowered es

  Total-pairs :
      (x : String) (m : MapLiteral) (acc : Op)
      → PairsLowered m
      → Total (λ _. Unit {0}) (apply_pairs t same_expr x m acc)
  unfolding apply_pairs
  Total-pairs x Ast.no_pair acc h = Total-pure tt
  Total-pairs x (Ast.pair key e m) acc h =
      Total-bind (record { at = λ s. ((h.0 s).0, (h.0 s).1, tt) })
        λ a (_ : Unit {0}). Total-pairs x m _ h.1

  Total-properties :
      (x : String) (m : OptMapLiteral) (acc : Op)
      → PropertiesLowered m
      → Total (λ _. Unit {0}) (apply_prop_predicates t same_expr x m acc)
  unfolding apply_prop_predicates
  Total-properties x Ast.no_map acc h = Total-pure tt
  Total-properties x (Ast.some_map m) acc h = Total-pairs x m acc h

  Total-relationship :
      (x : Option String) (m : OptMapLiteral) (acc : Op)
      → PropertiesLowered m
      → Total (λ _. Unit {0}) (lower_relationship t same_expr x m acc)
  unfolding lower_relationship
  Total-relationship x Ast.no_map acc h = Total-pure tt
  Total-relationship none (Ast.some_map m) acc h = Total-pure tt
  Total-relationship (some y) (Ast.some_map m) acc h = Total-pairs y m acc h

  -- where a node is next, and where a relationship is or the pattern ends
  mutual
    unfolding lower_elements alternates or_fail

    Total-elements :
        (path : Option String) (es : PatternElements) (w : Walk)
        → alternates es ≡ true
        → length w.names ≡ nodes es
        → ValuesLowered es
        → Total (λ _. Unit {0}) (lower_elements t same_expr path es w)
    Total-elements path (Ast.element (Ast.node _ labels m) es) w h n v =
        Total-bind (Total-next_name w.names (nodes es) n) λ q l.
          Total-bind (Total-visit q.0) λ seen _.
            Total-bind (Total-properties q.0 m _ v.0) λ op _. Total-links path es _ q.0 refl h l v.1
    Total-elements path Ast.no_element w h n v = ground (arith, h)
    Total-elements path (Ast.element (Ast.relationship _ _ _ _ _) es) w h n v = ground (arith, h)

    Total-links :
        (path : Option String) (es : PatternElements) (w : Walk) (x : String)
        → w.last_src ≡ some x
        → links es ≡ true
        → length w.names ≡ nodes es
        → ValuesLowered es
        → Total (λ _. Unit {0}) (lower_elements t same_expr path es w)
    Total-links path Ast.no_element w x l h n v = Total-pure tt
    Total-links path (Ast.element (Ast.relationship y direction types m range) es) w x l h n v =
        Total-bind (Total-or_fail _ l) λ from _.
          Total-bind (Total-next_name w.names (rest_nodes es) (n ∙ alternates-nodes es h)) λ q _.
            Total-bind (Total-relationship y m _ v.0) λ op _. Total-elements path es _ h n v.1
    Total-links path (Ast.element (Ast.node _ _ _) es) w x l h n v = ground (arith, h)

  -- A pattern in which nodes and relationships alternate, from a node to a node, is lowered in every
  -- state if the values of its properties are.
  pub lower_pattern_total :
      (path : Option String) (es : PatternElements) (s : AstLowerer)
      → alternates es ≡ true
      → ValuesLowered es
      → (r : Op × AstLowerer) × (lower_pattern t same_expr (Ast.pattern_of path es) s ≡ ok r)
  unfolding lower_pattern
  lower_pattern_total path es s h v =
      let p =
        (Total-bind (Total-node_names es) (λ names n.
            Total-elements path es
              (record { op = none; names = names; last_src = none; after_rel = false }) h n v)).at
          s in
      (p.0, p.1)
