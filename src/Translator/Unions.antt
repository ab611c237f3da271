-- ===== src/Translator/Unions.antt =====
-- The checks of `UNION` queries: `segment_columns` and the first part of `validate_semantics`
-- (crates/polygraph/src/translator/cypher/semantics.rs).
pub mod Passing
use mathlib.Core.List.{reverse}
use rs_polygraph.Base.{
  String, Bool, true, false, not, ◌&&◌, ◌||◌, Option, none, some, List, [], ◌∷◌, ◌++◌, map,
  if◌then◌else◌,
}
use rs_polygraph.Base.Any.{any}
use rs_polygraph.Base.Eq.{◌==◌, string_eq, list_eq, option_eq}
use rs_polygraph.Ast
use rs_polygraph.Ast.{Expression, ReturnItems, Clause}
use rs_polygraph.Ast.Views.{ReturnItem, items_of}
use rs_polygraph.Results.{Result, ok}
use rs_polygraph.Results.Checks.{reject, each, ◌>>◌}

-- `i.alias.clone().or_else(|| …)`: the alias, else the name of a bare variable
abbrev or_variable : Option String → Expression → Option String
or_variable (some a) e = some a
or_variable none (Ast.variable v) = some v
or_variable none _ = none

abbrev pub column_name : ReturnItem → Option String
column_name i = or_variable i.alias i.expression

abbrev unwrap_or_default : Option String → String
unwrap_or_default none = ""
unwrap_or_default (some a) = a

unfoldable pub item_columns : ReturnItems → Option (List String)
item_columns Ast.all_items = none
item_columns (Ast.explicit is) = some (map (λ i. unwrap_or_default (column_name i)) (items_of is))

-- the loop over the clauses from the last one on
unfoldable pub first_columns : List Clause → Option (List String)
unfolding item_columns
first_columns [] = none
first_columns (Ast.return _ items _ _ _ ∷ cs) = item_columns items
first_columns (Ast.with_items _ items _ _ _ _ ∷ cs) = item_columns items
first_columns (_ ∷ cs) = first_columns cs

unfoldable pub segment_columns : List Clause → Option (List String)
unfolding first_columns
segment_columns seg = first_columns (reverse seg)

abbrev pub is_union : Clause → Bool
is_union (Ast.union _) = true
is_union _ = false

-- the arms, with the clauses of the current one
unfoldable pub segments : List Clause → List Clause → List (List Clause)
segments current [] = current ∷ []
segments current (Ast.union _ ∷ cs) = current ∷ segments [] cs
segments current (c ∷ cs) = segments (current ++ c ∷ []) cs

-- `all_flags`
unfoldable pub all_flags : List Clause → List Bool
all_flags [] = []
all_flags (Ast.union all ∷ cs) = all ∷ all_flags cs
all_flags (c ∷ cs) = all_flags cs

unfoldable pub check_columns : List (List Clause) → Result (Unit {0})
unfolding segment_columns
check_columns [] = ok tt
check_columns (first ∷ rest) =
    each
      (λ seg.
        reject (not (segment_columns first == segment_columns seg))
          "DifferentColumnsInUnion: UNION arms must return the same column names")
      rest

unfoldable pub check_unions : List Clause → Result (Unit {0})
unfolding segments all_flags check_columns
check_unions clauses =
    if any is_union clauses
    then (reject (any not (all_flags clauses) && any (λ a. a) (all_flags clauses))
          "InvalidClauseComposition: cannot mix UNION and UNION ALL"
        >> check_columns (segments [] clauses))
    else ok tt
