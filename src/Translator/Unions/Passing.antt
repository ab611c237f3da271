-- ===== src/Translator/Unions/Passing.antt =====
-- How the checks of `UNION` queries may end
-- (crates/polygraph/src/translator/cypher/semantics.rs).
use rs_polygraph.Base.{List, [], ◌∷◌, inl, inr, Bool-cases}
use rs_polygraph.Base.Any.{any}
use rs_polygraph.Ast.{Clause}
use rs_polygraph.Results.Checks.{Passes, passes, ◌⟫◌, skim, reject_lem, each_skim}
use rs_polygraph.Translator.Unions.{segments, is_union, check_columns, check_unions}

check_columns_passes : (segs : List (List Clause)) → Passes (check_columns segs) (Unit {0})
unfolding check_columns
check_columns_passes [] = passes tt
check_columns_passes (first ∷ rest) = each_skim _ (λ _. skim (reject_lem _ _)) rest

pub check_unions_passes : (cs : List Clause) → Passes (check_unions cs) (Unit {0})
unfolding check_unions
check_unions_passes cs = elim (Bool-cases (any is_union cs)) [
  | inl some_union ↦ rw some_union (reject_lem _ _ ⟫ λ _ _. check_columns_passes (segments [] cs))
  | inr no_union ↦ rw no_union (passes tt)
]
