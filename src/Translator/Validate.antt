-- ===== src/Translator/Validate.antt =====
-- `validate_semantics`, the semantic pass that runs before either path of the translation, and
-- `check_semantics`, its public name (crates/polygraph/src/translator/cypher/semantics.rs and mod.rs).
pub mod Passing
pub mod Scopes
pub mod Kinds
pub mod Creation
use rs_polygraph.Base.{false, List, []}
use rs_polygraph.Ast
use rs_polygraph.Ast.{Clause, CypherQuery}
use rs_polygraph.Results.{Result, ok, ◌>>=◌}
use rs_polygraph.Results.Checks.{try_fold, ◌>>◌}
use rs_polygraph.Translator.Unions.{check_unions}
use rs_polygraph.Translator.Scope.{Scope}
use rs_polygraph.Translator.Scope.With.{check_with}
use rs_polygraph.Translator.Scope.Return.{check_return}
use rs_polygraph.Translator.Scope.Match.{check_match}
use rs_polygraph.Translator.Scope.Create.{check_create, check_merge}
use rs_polygraph.Translator.Scope.Update.{check_unwind, check_delete, check_set}

-- the body of the loop over the clauses
unfoldable pub check_clause : Scope → Clause → Result Scope
check_clause s (Ast.with_items _ items _ order _ _) = check_with s items order
check_clause s (Ast.return distinct items order _ _) = check_return s distinct items order >> ok s
check_clause s (Ast.match _ list condition) = check_match s list condition
check_clause s (Ast.unwind _ v) = ok (check_unwind s v)
check_clause s (Ast.delete _ deleted) = check_delete s deleted >> ok s
check_clause s (Ast.set items) = check_set s items >> ok s
check_clause s (Ast.create list) = check_create s list
check_clause s (Ast.merge p actions) = check_merge s p actions
check_clause s _ = ok s

abbrev pub initial : Scope
initial = record { kinds = []; bound_vars = []; seen_match = false }

-- the scope after the clauses
unfoldable pub check_clauses : List Clause → Result Scope
unfolding check_clause
check_clauses = try_fold check_clause initial

unfoldable pub validate_semantics : CypherQuery → Result (Unit {0})
unfolding check_clauses
validate_semantics query = do check_unions query.clauses; _ ← check_clauses query.clauses; ok tt

unfoldable pub check_semantics : CypherQuery → Result (Unit {0})
check_semantics query = validate_semantics query
