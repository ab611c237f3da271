-- ===== src/Lqa/Syntax/Build.antt =====
-- The constructors for common expressions, and the test for write operators
-- (crates/polygraph/src/lqa/expr.rs and op.rs).
use rs_polygraph.Base.{String, Bool, true, false, none}
use rs_polygraph.Base.Int.{ℤ}
use rs_polygraph.Lqa.Syntax.{
  Expr, Op, variable, literal, integer, string, boolean, create, merge, set, delete, remove,
}

abbrev pub var : String → Expr
var name = variable name none

abbrev pub int : ℤ → Expr
int v = literal (integer v)

abbrev pub str : String → Expr
str s = literal (string s)

abbrev pub bool : Bool → Expr
bool b = literal (boolean b)

unfoldable pub is_write : Op → Bool
is_write (create _ _ _) = true
is_write (merge _ _) = true
is_write (set _ _) = true
is_write (delete _ _ _) = true
is_write (remove _ _) = true
is_write _ = false
