-- ===== src/Ast/Views.antt =====
-- The vectors and options of the abstract syntax as lists and options, for the loops of
-- crates/polygraph/src/translator/cypher over them.
use rs_polygraph.Base.{String, Bool, true, false, Option, none, some, List, [], ◌∷◌}
use rs_polygraph.Ast
use rs_polygraph.Ast.{
  Expression, OptExpression, absent, present, Expressions, nil, cons, MapLiteral, no_pair, pair,
  OptMapLiteral, no_map, some_map, Pattern, pattern_of, PatternList, no_pattern, also,
  PatternElement, PatternElements, no_element, element, ItemList, no_item, item, SortItems, no_sort,
  sort, SetItem, SetItems, no_set, then_set, MergeActions, no_action, action, AggregateExpr,
}

abbrev pub opt : OptExpression → Option Expression
opt absent = none
opt (present e) = some e

abbrev pub expressions : Expressions → List Expression
expressions nil = []
expressions (cons e es) = e ∷ expressions es

-- the values of a map literal
abbrev pub map_values : MapLiteral → List Expression
map_values no_pair = []
map_values (pair _ e m) = e ∷ map_values m

-- the values of an optional map literal
abbrev pub opt_values : OptMapLiteral → List Expression
opt_values no_map = []
opt_values (some_map m) = map_values m

abbrev pub is_some_map : OptMapLiteral → Bool
is_some_map no_map = false
is_some_map (some_map _) = true

abbrev pub patterns : PatternList → List Pattern
patterns no_pattern = []
patterns (also p ps) = p ∷ patterns ps

abbrev pub elements : PatternElements → List PatternElement
elements no_element = []
elements (element e es) = e ∷ elements es

abbrev pub path_variable : Pattern → Option String
path_variable (pattern_of v _) = v

abbrev pub elements_of : Pattern → List PatternElement
elements_of (pattern_of _ es) = elements es

-- `ReturnItem`
pub record ReturnItem : Type 0 where
  pub expression : Expression
  pub alias : Option String

abbrev pub items_of : ItemList → List ReturnItem
items_of no_item = []
items_of (item e a is) = record { expression = e; alias = a } ∷ items_of is

-- the expressions of an `ORDER BY`; no loop reads `descending`
abbrev pub sort_keys : SortItems → List Expression
sort_keys no_sort = []
sort_keys (sort e _ s) = e ∷ sort_keys s

abbrev pub set_items : SetItems → List SetItem
set_items no_set = []
set_items (then_set i is) = i ∷ set_items is

-- the assignments of all actions of a `MERGE`, in order
abbrev pub action_items : MergeActions → List (List SetItem)
action_items no_action = []
action_items (action _ is rest) = set_items is ∷ action_items rest

-- the argument of an aggregate
abbrev pub argument : AggregateExpr → Option Expression
argument (Ast.count _ e) = opt e
argument (Ast.sum _ e) = some e
argument (Ast.avg _ e) = some e
argument (Ast.min _ e) = some e
argument (Ast.max _ e) = some e
argument (Ast.collect _ e) = some e

abbrev pub element_variable : PatternElement → Option String
element_variable (Ast.node v _ _) = v
element_variable (Ast.relationship v _ _ _ _) = v

abbrev pub is_relationship : PatternElement → Bool
is_relationship (Ast.node _ _ _) = false
is_relationship (Ast.relationship _ _ _ _ _) = true
