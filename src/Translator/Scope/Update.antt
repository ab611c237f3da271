-- ===== src/Translator/Scope/Update.antt =====
-- The arms of `Clause::Unwind`, `Clause::Delete` and `Clause::Set` in `validate_semantics`
-- (crates/polygraph/src/translator/cypher/semantics.rs).
use rs_polygraph.Base.{String, Bool, true, false, not, ◌&&◌, ◌||◌, if◌then◌else◌}
use rs_polygraph.Base.Any.{any}
use rs_polygraph.Base.Names.{insert}
use rs_polygraph.Ast
use rs_polygraph.Ast.{Expression, Expressions, SetItem, SetItems}
use rs_polygraph.Ast.Views.{expressions, set_items}
use rs_polygraph.Results.{Result, ok, err, translation}
use rs_polygraph.Results.Checks.{reject, each, ◌>>◌}
use rs_polygraph.Translator.Collect.{collect_set_rhs_vars}
use rs_polygraph.Translator.Scans.{is_known, contains_pattern_expr}
use rs_polygraph.Translator.Scope.{Scope, undefined, require_known}

unfoldable pub check_unwind : Scope → String → Scope
check_unwind s v = record s { bound_vars = insert v s.bound_vars }

-- `seen_match || !bound_vars.is_empty()`
abbrev pub has_context : Scope → Bool
has_context s = s.seen_match || any (λ _. true) s.bound_vars

abbrev pub not_deletable : Result (Unit {0})
not_deletable = err (
    translation
      "InvalidArgumentType: DELETE requires a node or relationship, not a literal or arithmetic expression")

unfoldable pub check_deleted : Scope → Expression → Result (Unit {0})
check_deleted s (Ast.label_check _ _) =
    err (translation "InvalidDelete: cannot delete a label predicate; use REMOVE to remove labels")
check_deleted s (Ast.literal _) = not_deletable
check_deleted s (Ast.add _ _) = not_deletable
check_deleted s (Ast.subtract _ _) = not_deletable
check_deleted s (Ast.multiply _ _) = not_deletable
check_deleted s (Ast.divide _ _) = not_deletable
check_deleted s (Ast.variable v) =
    reject (has_context s && not (is_known s.bound_vars s.kinds v)) (undefined v)
check_deleted s _ = ok tt

unfoldable pub check_delete : Scope → Expressions → Result (Unit {0})
unfolding check_deleted
check_delete s deleted = each (check_deleted s) (expressions deleted)

abbrev is_map : Expression → Bool
is_map (Ast.map_of _) = true
is_map _ = false

-- a property cannot be a map or a list with a map
abbrev pub is_invalid_property : Expression → Bool
is_invalid_property (Ast.map_of _) = true
is_invalid_property (Ast.list_of es) = any is_map (expressions es)
is_invalid_property _ = false

unfoldable pub check_set_rhs : Scope → Expression → Result (Unit {0})
unfolding require_known
check_set_rhs s e = if has_context s then require_known s (collect_set_rhs_vars e) else ok tt

unfoldable pub check_set_item : Scope → SetItem → Result (Unit {0})
unfolding check_set_rhs
check_set_item s (Ast.set_property _ _ e) = do
  reject (is_invalid_property e)
      "TypeError: InvalidPropertyType: property values cannot be maps or lists of maps"
  reject (contains_pattern_expr e)
      "SyntaxError: UnexpectedSyntax: patterns are not allowed inside SET RHS expressions"
  check_set_rhs s e
check_set_item s (Ast.node_replace _ e) = check_set_rhs s e
check_set_item s (Ast.merge_map _ _) = ok tt
check_set_item s (Ast.set_label _ _) = ok tt

unfoldable pub check_set : Scope → SetItems → Result (Unit {0})
unfolding check_set_item
check_set s items = each (check_set_item s) (set_items items)
