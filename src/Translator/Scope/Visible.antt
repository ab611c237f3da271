-- ===== src/Translator/Scope/Visible.antt =====
-- The scope rules of the language, stated apart from `validate_semantics`: which variables a clause
-- leaves in scope (crates/polygraph/src/translator/cypher/semantics.rs).
use rs_polygraph.Base.{String, Bool, false, ◌||◌, Option, none, some, List, [], ◌∷◌, ◌++◌}
use rs_polygraph.Base.Names.{has}
use rs_polygraph.Ast
use rs_polygraph.Ast.{Pattern, PatternElement, Clause}
use rs_polygraph.Ast.Views.{
  ReturnItem, items_of, patterns, path_variable, elements_of, element_variable,
}
use rs_polygraph.Translator.Unions.{column_name}
use rs_polygraph.Translator.Scope.Known.{gather}

abbrev pub name : Option String → List String
name none = []
name (some v) = v ∷ []

abbrev pub item_names : ReturnItem → List String
item_names i = name (column_name i)

abbrev pub element_names : PatternElement → List String
element_names e = name (element_variable e)

abbrev pub path_names : Pattern → List String
path_names p = name (path_variable p)

-- the node and relationship variables of a pattern
unfoldable pub pattern_names : Pattern → List String
unfolding gather
pattern_names p = gather element_names (elements_of p)

-- the variables that a clause adds
unfoldable pub added : Clause → List String
unfolding gather pattern_names
added (Ast.match _ list _) =
    gather path_names (patterns list) ++ gather pattern_names (patterns list)
added (Ast.unwind _ v) = v ∷ []
added (Ast.create list) = gather path_names (patterns list) ++ gather pattern_names (patterns list)
added (Ast.merge p _) = pattern_names p ++ path_names p
added (Ast.call _ _ yields) = yields
added _ = []

-- whether a variable is in scope after a clause, given which were before
unfoldable pub visible_after : Clause → (String → Bool) → String → Bool
unfolding added gather
visible_after (Ast.with_items _ (Ast.explicit list) _ _ _ _) before x =
    has x (gather item_names (items_of list))
visible_after (Ast.union _) before x = false
visible_after c before x = before x || has x (added c)

unfoldable pub visible_from : (String → Bool) → List Clause → String → Bool
unfolding visible_after
visible_from before [] x = before x
visible_from before (c ∷ cs) x = visible_from (visible_after c before) cs x

-- whether a variable is in scope after the clauses
unfoldable pub visible : List Clause → String → Bool
unfolding visible_from
visible = visible_from (λ _. false)
