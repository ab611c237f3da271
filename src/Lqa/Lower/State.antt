-- ===== src/Lqa/Lower/State.antt =====
-- The state of the lowering, and the actions on it: `AstLowerer` of crates/polygraph/src/lqa/lower.rs.
-- An action may fail, and the state after a failure is never read. The counter, a `u32`, is taken not
-- to wrap.
use Prim.Native.String.{◌++◌}
use rs_polygraph.Lqa.Lower.Outcomes.{Outcome, ok, err, panicked}
use rs_polygraph.Base.{ℕ, suc, String, Bool, true, Option, none, some, List, [], ◌∷◌}
use rs_polygraph.Base.Decimal.{to_string}
use rs_polygraph.Base.Eq.{string_eq}
use rs_polygraph.Base.Dict.{Dict, upsert}
use rs_polygraph.Base.Names.{has, insert}
use rs_polygraph.Lqa.Lower.Outcomes
use rs_polygraph.Results.{translation}
use rs_polygraph.Lqa.Syntax.{Expr}

pub record AstLowerer : Type 0 where
  pub counter : ℕ
  pub seen_vars : List String
  pub list_const_map : Dict String Expr

abbrev pub new : AstLowerer
new = record { counter = 0; seen_vars = []; list_const_map = [] }

-- `&mut self` and the outcome
abbrev pub Lowering : Type 0 → Type 0
Lowering A = AstLowerer → Outcome (A × AstLowerer)

abbrev pub pure : {A : Type 0} → A → Lowering A
pure a s = ok (a, s)

infixl 5 ◌>>=◌
abbrev pub ◌>>=◌ : {A B : Type 0} → Lowering A → (A → Lowering B) → Lowering B
◌>>=◌ m f s = Outcomes.◌>>=◌ (m s) (λ r. f r.0 r.1)

-- `Err(PolygraphError::Translation { message })`
abbrev pub fail : {A : Type 0} → String → Lowering A
fail message s = err (translation message)

-- `if test { return Err(…) }`, then the rest of the function
abbrev pub fail_if : {A : Type 0} → Bool → String → Lowering A → Lowering A
fail_if test message m = elim test [ true ↦ fail message | _ ↦ m ]

abbrev pub fresh_name : String → ℕ → String
fresh_name prefix n = "_lqa_" ++ (prefix ++ ("_" ++ to_string n))

unfoldable pub fresh : String → Lowering String
fresh prefix s = ok (fresh_name prefix s.counter, record s { counter = suc s.counter })

-- `self.seen_vars.contains(&var)`, and then `self.seen_vars.insert(var)`
unfoldable pub visit : String → Lowering Bool
visit x s = ok (has x s.seen_vars, record s { seen_vars = insert x s.seen_vars })

-- `self.list_const_map.insert(alias, expr)`
unfoldable pub insert_const : String → Expr → AstLowerer → AstLowerer
insert_const x e s = record s { list_const_map = upsert x e (λ _. e) s.list_const_map }

-- a lowerer of its own for a nested query
abbrev pub nested : {A : Type 0} → Lowering A → Lowering A
nested m s = Outcomes.◌>>=◌ (m new) (λ r. ok (r.0, s))

-- `node_names[node_idx]` with the rest of the names
unfoldable pub next_name : List String → Lowering (String × List String)
next_name [] s = panicked
next_name (x ∷ xs) s = pure (x, xs) s

-- `ok_or_else`
unfoldable pub or_fail : {A : Type 0} → Option A → String → Lowering A
or_fail none message = fail message
or_fail (some a) message = pure a
