-- ===== src/Translator/Scope/Binds.antt =====
-- The scopes after the clauses that bind variables by patterns
-- (crates/polygraph/src/translator/cypher/semantics.rs).
use rs_polygraph.Base.{String, true, Option, none, some, List, [], ◌∷◌, ◌++◌, ◌≡◌, refl}
use rs_polygraph.Base.Eq.{string_eq}
use rs_polygraph.Ast
use rs_polygraph.Ast.{
  Pattern, PatternList, PatternElement, OptExpression, OptMapLiteral, MergeActions,
}
use rs_polygraph.Ast.Views.{patterns, elements_of}
use rs_polygraph.Results.Checks.{
  Ensures, Passes, passes, fails, ◌⟫◌, weaken, skim, reject_lem, each_lem,
}
use rs_polygraph.Translator.Scans.{Kind, is_known, check_undef_where}
use rs_polygraph.Translator.Scans
use rs_polygraph.Translator.Scope.{Scope}
use rs_polygraph.Translator.Scope.Known.{
  Known, Extended, same-Extended, bind-Extended, then-Extended, gather, try_fold-Extended,
}
use rs_polygraph.Translator.Scope.Visible.{element_names, path_names, pattern_names}
use rs_polygraph.Translator.Scope.Relations.{check_unique_rels-Distinct}
use rs_polygraph.Translator.Scope.Match.{
  register_path, register_node, register_rel, register_element, undefined_fault, register_pattern,
  check_unique_rels, check_where_before, check_where_after, check_match,
}

register_path-Extended :
    (s : Scope) (p : Pattern) → Known s → Ensures (Extended s (path_names p)) (register_path s p)
unfolding register_path
register_path-Extended s (Ast.pattern_of none _) known = passes (same-Extended known)
register_path-Extended s (Ast.pattern_of (some v) _) known =
    reject_lem _ _ ⟫ λ _ _. passes (bind-Extended s v Scans.path known)

register_node-Extended :
    (s : Scope) (v : String) (kind : Option Kind)
    → Known s
    → Ensures (Extended s (v ∷ [])) (register_node s v kind)
register_node-Extended s v (some Scans.rel) known = fails _
register_node-Extended s v (some Scans.path) known = fails _
register_node-Extended s v (some Scans.scalar) known = fails _
register_node-Extended s v (some Scans.var_list) known = fails _
register_node-Extended s v (some Scans.node) known = passes (bind-Extended s v Scans.node known)
register_node-Extended s v none known = passes (bind-Extended s v Scans.node known)

register_rel-Extended :
    (s : Scope) (v : String) (kind : Option Kind)
    → Known s
    → Ensures (Extended s (v ∷ [])) (register_rel s v kind)
register_rel-Extended s v (some Scans.node) known = fails _
register_rel-Extended s v (some Scans.path) known = fails _
register_rel-Extended s v (some Scans.scalar) known = fails _
register_rel-Extended s v (some Scans.rel) known = passes (bind-Extended s v Scans.rel known)
register_rel-Extended s v (some Scans.var_list) known = passes (bind-Extended s v Scans.rel known)
register_rel-Extended s v none known = passes (bind-Extended s v Scans.rel known)

register_element-Extended :
    (s : Scope) (e : PatternElement)
    → Known s
    → Ensures (Extended s (element_names e)) (register_element s e)
unfolding register_element
register_element-Extended s (Ast.node none _ _) known = passes (same-Extended known)
register_element-Extended s (Ast.node (some v) _ _) known = register_node-Extended s v _ known
register_element-Extended s (Ast.relationship none _ _ _ _) known = passes (same-Extended known)
register_element-Extended s (Ast.relationship (some v) _ _ _ _) known =
    register_rel-Extended s v _ known

register_pattern-Extended :
    (s : Scope) (p : Pattern)
    → Known s
    → Ensures (Extended s (pattern_names p)) (register_pattern s p)
unfolding register_pattern pattern_names
register_pattern-Extended s p =
    try_fold-Extended element_names register_element register_element-Extended s (elements_of p)

pub check_where_before_passes :
    (s : Scope) (e : OptExpression) → Passes (check_where_before s e) (Unit {0})
unfolding check_where_before
check_where_before_passes s Ast.absent = passes tt
check_where_before_passes s (Ast.present e) =
    reject_lem _ _ ⟫ λ _ _. weaken (λ _ _. tt) (reject_lem _ _)

undefined_fault_passes : (v : Option String) → Passes (undefined_fault v) (v ≡ none)
unfolding undefined_fault
undefined_fault_passes none = passes refl
undefined_fault_passes (some v) = fails _

pub check_where_after_passes :
    (s : Scope) (e : OptExpression) → Passes (check_where_after s e) (Unit {0})
unfolding check_where_after
check_where_after_passes s Ast.absent = passes tt
check_where_after_passes s (Ast.present e) =
    reject_lem _ _ ⟫ λ _ _. weaken (λ _ _. tt) (undefined_fault_passes _)

-- A `MATCH` adds the path variables and the variables of the patterns.
pub check_match-Extended :
    (s : Scope) (list : PatternList) (condition : OptExpression)
    → Known s
    → Ensures
        (Extended s (gather path_names (patterns list) ++ gather pattern_names (patterns list)))
        (check_match s list condition)
unfolding check_match
check_match-Extended s list condition known =
    try_fold-Extended path_names register_path register_path-Extended
      (record s { seen_match = true }) (patterns list) known
    ⟫ λ s₁ p. check_where_before_passes s₁ condition ⟫ λ _ _.
        each_lem (λ _. Unit {0}) check_unique_rels (λ p. skim (check_unique_rels-Distinct p))
          (patterns list)
        ⟫ λ _ _.
            try_fold-Extended pattern_names register_pattern register_pattern-Extended s₁
              (patterns list) p.known
            ⟫ λ s₂ q.
                check_where_after_passes s₂ condition ⟫ λ _ _. passes (seen (then-Extended p q))
  where
    seen :
        {t : Scope} {names : List String}
        → Extended (record s { seen_match = true }) names t
        → Extended s names t
    seen e = record { known = e.known; grows = e.grows }
