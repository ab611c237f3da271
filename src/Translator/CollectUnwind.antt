-- ===== src/Translator/CollectUnwind.antt =====
-- `eliminate_collect_unwind` and `collect_pattern_vars`
-- (crates/polygraph/src/translator/cypher/util.rs).
pub mod Others
use rs_polygraph.Base.{String, Option, none, some, List, [], ◌∷◌, ◌++◌, if◌then◌else◌}
use rs_polygraph.Base.Eq.{◌==◌, string_eq, option_eq}
use rs_polygraph.Ast
use rs_polygraph.Ast.{Expression, ItemList, PatternList, PatternElement, Clause}
use rs_polygraph.Ast.Views.{patterns, elements_of, element_variable}

-- the inner expression of a `collect(…)` whose alias is the list variable
abbrev collected : String → Expression → Option String → Option Expression
collected list (Ast.aggregate (Ast.collect _ e)) alias = if alias == some list then some e else none
collected list _ alias = none

-- The first such item, with the other items; `position` and the filter by index.
unfoldable pub take_collect : String → ItemList → Option (Expression × ItemList)
take_collect list Ast.no_item = none
take_collect list (Ast.item e alias rest) = elim (collected list e alias) [
  | some inner ↦ some (inner, rest)
  | none ↦ elim (take_collect list rest) [
    | none ↦ none
    | some (inner, others) ↦ some (inner, Ast.item e alias others)
  ]
]

-- `new_items.push(…)`
unfoldable pub push_item : ItemList → Expression → Option String → ItemList
push_item Ast.no_item e alias = Ast.item e alias Ast.no_item
push_item (Ast.item f a rest) e alias = Ast.item f a (push_item rest e alias)

-- the projection that stands for a `WITH` and the `UNWIND` after it
unfoldable pub fuse : Clause → Clause → Option Clause
unfolding take_collect push_item
fuse (Ast.with_items distinct (Ast.explicit items) condition order skip limit)
      (Ast.unwind (Ast.variable list) v) =
    elim (take_collect list items) [
      | none ↦ none
      | some (inner, others) ↦ some (
          Ast.with_items distinct (Ast.explicit (push_item others inner (some v))) condition order
            skip limit)
    ]
fuse _ _ = none

unfoldable pub eliminate_collect_unwind : List Clause → List Clause
unfolding fuse
eliminate_collect_unwind [] = []
eliminate_collect_unwind (c ∷ []) = c ∷ []
eliminate_collect_unwind (c ∷ d ∷ cs) = elim (fuse c d) [
  | some fused ↦ fused ∷ eliminate_collect_unwind cs
  | none ↦ c ∷ eliminate_collect_unwind (d ∷ cs)
]

-- the named variables of a pattern list, in order
unfoldable pub element_vars : List PatternElement → List String
element_vars [] = []
element_vars (e ∷ es) = elim (element_variable e) [
  | none ↦ element_vars es
  | some v ↦ v ∷ element_vars es
]

unfoldable pub all_element_vars : List Ast.Pattern → List String
unfolding element_vars
all_element_vars [] = []
all_element_vars (p ∷ ps) = element_vars (elements_of p) ++ all_element_vars ps

unfoldable pub collect_pattern_vars : PatternList → List String
unfolding all_element_vars
collect_pattern_vars list = all_element_vars (patterns list)
