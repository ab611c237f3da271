-- ===== src/Translator/Validate/Kinds.antt =====
-- The kinds that `MATCH` gives to its variables (crates/polygraph/src/translator/cypher/semantics.rs).
use rs_polygraph.Base.{
  String, true, Option, none, some, List, [], ◌∷◌, ◌≡◌, refl, arith, All, if◌then◌else◌,
}
use rs_polygraph.Base.Dict.{get, get-upsert}
use rs_polygraph.Base.Eq.{◌==◌, string_eq}
use rs_polygraph.Ast
use rs_polygraph.Ast.{Pattern, PatternList, PatternElement, OptExpression}
use rs_polygraph.Ast.Views.{patterns, elements_of}
use rs_polygraph.Results.{ok}
use rs_polygraph.Results.Checks.{
  Ensures, passes, fails, ◌⟫◌, try_fold, try_fold_inv, try_fold-All, of_ok, skim, both, reject_lem,
  each_lem,
}
use rs_polygraph.Translator.Scans.{Kind, Kinds}
use rs_polygraph.Translator.Scans
use rs_polygraph.Translator.Scope.{Scope, put}
use rs_polygraph.Translator.Scope.Binds.{check_where_before_passes, check_where_after_passes}
use rs_polygraph.Translator.Scope.Relations.{Distinct, rel_names, check_unique_rels-Distinct}
use rs_polygraph.Translator.Scope.Match.{
  register_path, check_unique_rels, register_node, register_rel, register_element, register_pattern,
  check_match,
}

-- the variable, if there is one, has the kind
abbrev pub HasKind : Kind → Option String → Scope → Type 0
HasKind kind none s = Unit
HasKind kind (some v) s = get v s.kinds ≡ some kind

-- The variable of a node has the kind of nodes, that of a relationship the kind of relationships.
abbrev pub Typed : PatternElement → Scope → Type 0
Typed (Ast.node v _ _) s = HasKind Scans.node v s
Typed (Ast.relationship v _ _ _ _) s = HasKind Scans.rel v s

get-put :
    (v x : String) (kind : Kind) (m : Kinds)
    → get x (put v kind m) ≡ (if v == x then some kind else get x m)
get-put v x kind m = ground (arith, get-upsert v x kind (λ (_ : Kind). kind) m)

get-put_self : (v : String) (kind : Kind) (m : Kinds) → get v (put v kind m) ≡ some kind
get-put_self v kind m = ground (arith, get-put v v kind m, string_eq.decides v v)

-- a binding of one kind keeps another variable's kind, where the variable had none or a weaker one
get-put_other :
    (v x : String) (kind had : Kind) (m : Kinds)
    → get x m ≡ some had
    → (get v m ≡ some had → kind ≡ had)
    → get x (put v kind m) ≡ some had
get-put_other v x kind had m h agree =
    ground (arith, get-put v x kind m, string_eq.decides v x, agree)

register_node-HasKind :
    (s : Scope) (v : String) (kind : Option Kind)
    → Ensures (HasKind Scans.node (some v)) (register_node s v kind)
register_node-HasKind s v (some Scans.rel) = fails _
register_node-HasKind s v (some Scans.path) = fails _
register_node-HasKind s v (some Scans.scalar) = fails _
register_node-HasKind s v (some Scans.var_list) = fails _
register_node-HasKind s v (some Scans.node) = passes (get-put_self v Scans.node s.kinds)
register_node-HasKind s v none = passes (get-put_self v Scans.node s.kinds)

register_rel-HasKind :
    (s : Scope) (v : String) (kind : Option Kind)
    → Ensures (HasKind Scans.rel (some v)) (register_rel s v kind)
register_rel-HasKind s v (some Scans.node) = fails _
register_rel-HasKind s v (some Scans.path) = fails _
register_rel-HasKind s v (some Scans.scalar) = fails _
register_rel-HasKind s v (some Scans.rel) = passes (get-put_self v Scans.rel s.kinds)
register_rel-HasKind s v (some Scans.var_list) = passes (get-put_self v Scans.rel s.kinds)
register_rel-HasKind s v none = passes (get-put_self v Scans.rel s.kinds)

register_element-Typed : (s : Scope) (e : PatternElement) → Ensures (Typed e) (register_element s e)
unfolding register_element
register_element-Typed s (Ast.node none _ _) = passes tt
register_element-Typed s (Ast.node (some v) _ _) = register_node-HasKind s v _
register_element-Typed s (Ast.relationship none _ _ _ _) = passes tt
register_element-Typed s (Ast.relationship (some v) _ _ _ _) = register_rel-HasKind s v _

-- the kinds of nodes and relationships
data IsEntity : Kind → Type 0 where
  node : IsEntity Scans.node
  rel : IsEntity Scans.rel

-- Once a variable is a node or a relationship, later elements leave it so.
register_node-keeps :
    {had : Kind} (s : Scope) (x v : String) (kind : Option Kind)
    → IsEntity had
    → get v s.kinds ≡ kind
    → get x s.kinds ≡ some had
    → Ensures (λ s'. get x s'.kinds ≡ some had) (register_node s v kind)
register_node-keeps s x v (some Scans.rel) i e h = fails _
register_node-keeps s x v (some Scans.path) i e h = fails _
register_node-keeps s x v (some Scans.scalar) i e h = fails _
register_node-keeps s x v (some Scans.var_list) i e h = fails _
register_node-keeps {had} s x v (some Scans.node) i e h =
    passes (get-put_other v x Scans.node had s.kinds h (ground (arith, e)))
register_node-keeps {had} s x v none i e h =
    passes (get-put_other v x Scans.node had s.kinds h (ground (arith, e)))

register_rel-keeps :
    {had : Kind} (s : Scope) (x v : String) (kind : Option Kind)
    → IsEntity had
    → get v s.kinds ≡ kind
    → get x s.kinds ≡ some had
    → Ensures (λ s'. get x s'.kinds ≡ some had) (register_rel s v kind)
register_rel-keeps s x v (some Scans.node) i e h = fails _
register_rel-keeps s x v (some Scans.path) i e h = fails _
register_rel-keeps s x v (some Scans.scalar) i e h = fails _
register_rel-keeps {had} s x v (some Scans.rel) i e h =
    passes (get-put_other v x Scans.rel had s.kinds h (ground (arith, e)))
register_rel-keeps s x v (some Scans.var_list) IsEntity.node e h =
    passes (get-put_other v x Scans.rel Scans.node s.kinds h (ground (arith, e)))
register_rel-keeps s x v (some Scans.var_list) IsEntity.rel e h =
    passes (get-put_other v x Scans.rel Scans.rel s.kinds h (ground (arith, e)))
register_rel-keeps {had} s x v none i e h =
    passes (get-put_other v x Scans.rel had s.kinds h (ground (arith, e)))

register_element-keeps :
    {had : Kind} (x : String)
    → IsEntity had
    → (s : Scope) (b : PatternElement) → get x s.kinds ≡ some had
    → Ensures (λ s'. get x s'.kinds ≡ some had) (register_element s b)
unfolding register_element
register_element-keeps x i s (Ast.node none _ _) h = passes h
register_element-keeps x i s (Ast.node (some v) _ _) h = register_node-keeps s x v _ i refl h
register_element-keeps x i s (Ast.relationship none _ _ _ _) h = passes h
register_element-keeps x i s (Ast.relationship (some v) _ _ _ _) h =
    register_rel-keeps s x v _ i refl h

register_element-Typed_keeps :
    (s : Scope) (a b : PatternElement) → Typed a s → Ensures (Typed a) (register_element s b)
register_element-Typed_keeps s (Ast.node none _ _) b h = skim (register_element-Typed s b)
register_element-Typed_keeps s (Ast.node (some v) _ _) b h =
    register_element-keeps v IsEntity.node s b h
register_element-Typed_keeps s (Ast.relationship none _ _ _ _) b h =
    skim (register_element-Typed s b)
register_element-Typed_keeps s (Ast.relationship (some v) _ _ _ _) b h =
    register_element-keeps v IsEntity.rel s b h

-- all elements of the pattern
abbrev pub PatternTyped : Pattern → Scope → Type 0
PatternTyped p s = All (λ e. Typed e s) (elements_of p)

register_pattern-PatternTyped :
    (s : Scope) (p : Pattern) → Ensures (PatternTyped p) (register_pattern s p)
unfolding register_pattern
register_pattern-PatternTyped s p =
    try_fold-All Typed register_element register_element-Typed register_element-Typed_keeps s
      (elements_of p)

register_pattern-keeps :
    (s : Scope) (p q : Pattern) → PatternTyped p s → Ensures (PatternTyped p) (register_pattern s q)
unfolding register_pattern
register_pattern-keeps s p q = keep (elements_of p)
  where
    keep :
        (es : List PatternElement)
        → All (λ e. Typed e s) es
        → Ensures (λ s'. All (λ e. Typed e s') es) (try_fold register_element s (elements_of q))
    keep [] h =
        try_fold_inv (λ _. Unit) register_element (λ t b _. skim (register_element-Typed t b)) s
          (elements_of q) tt
    keep (e ∷ es) h =
        both
          (try_fold_inv (Typed e) register_element (λ t b. register_element-Typed_keeps t e b) s
            (elements_of q) h.0)
          (keep es h.1)

register_path_passes : (s : Scope) (p : Pattern) → Ensures (λ _. Unit {0}) (register_path s p)
unfolding register_path
register_path_passes s (Ast.pattern_of none _) = passes tt
register_path_passes s (Ast.pattern_of (some v) _) = reject_lem _ _ ⟫ λ _ _. passes tt

check_match-Ensures :
    (s : Scope) (list : PatternList) (condition : OptExpression)
    → Ensures
        (λ s'.
          All (λ p. PatternTyped p s') (patterns list)
          × All (λ p. Distinct (rel_names (elements_of p))) (patterns list))
        (check_match s list condition)
unfolding check_match
check_match-Ensures s list condition =
    try_fold_inv (λ _. Unit) register_path (λ t p _. register_path_passes t p)
      (record s { seen_match = true }) (patterns list) tt
    ⟫ λ s₁ _. check_where_before_passes s₁ condition ⟫ λ _ _.
        each_lem (λ p. Distinct (rel_names (elements_of p))) check_unique_rels
          check_unique_rels-Distinct (patterns list)
        ⟫ λ _ distinct.
            try_fold-All PatternTyped register_pattern register_pattern-PatternTyped
              register_pattern-keeps s₁ (patterns list)
            ⟫ λ s₂ typed. check_where_after_passes s₂ condition ⟫ λ _ _. passes (typed, distinct)

-- After a `MATCH` that passes, every node variable of its patterns has the kind of nodes and every
-- relationship variable that of relationships, so no variable is used as both.
pub check_match-Typed :
    (s s' : Scope) (list : PatternList) (condition : OptExpression)
    → check_match s list condition ≡ ok s'
    → All (λ p. PatternTyped p s') (patterns list)
check_match-Typed s s' list condition e = (of_ok (rw e at (check_match-Ensures s list condition))).0

-- No relationship variable stands twice in one pattern of a `MATCH` that passes.
pub check_match-Distinct :
    (s s' : Scope) (list : PatternList) (condition : OptExpression)
    → check_match s list condition ≡ ok s'
    → All (λ p. Distinct (rel_names (elements_of p))) (patterns list)
check_match-Distinct s s' list condition e =
    (of_ok (rw e at (check_match-Ensures s list condition))).1
