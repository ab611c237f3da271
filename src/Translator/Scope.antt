-- ===== src/Translator/Scope.antt =====
-- The state of `validate_semantics` (crates/polygraph/src/translator/cypher/semantics.rs): the kinds
-- of the variables, the names in scope, and whether a `MATCH` has been seen.
pub mod With
pub mod Return
pub mod Match
pub mod Create
pub mod Update
pub mod Known
pub mod Visible
pub mod Tracked
pub mod Relations
pub mod Binds
pub mod Creates
pub mod Replaces
use Prim.Native.String.{◌++◌}
use rs_polygraph.Base.{String, Bool, not, List, ◌∷◌, []}
use rs_polygraph.Base.Dict.{Dict, upsert}
use rs_polygraph.Base.Eq.{string_eq}
use rs_polygraph.Base.Names.{insert}
use rs_polygraph.Results.{Result}
use rs_polygraph.Results.Checks.{reject, each}
use rs_polygraph.Translator.Scans.{Kind, Kinds, is_known}

pub record Scope : Type 0 where
  pub kinds : Kinds
  pub bound_vars : List String
  pub seen_match : Bool

-- `kinds.insert(v, kind)`
abbrev pub put : String → Kind → Kinds → Kinds
put v kind kinds = upsert v kind (λ _. kind) kinds

-- `kinds.insert(v, kind); bound_vars.insert(v)`
abbrev pub bind : String → Kind → Scope → Scope
bind v kind s = record s { kinds = put v kind s.kinds; bound_vars = insert v s.bound_vars }

abbrev pub already_bound : String → String
already_bound v = "VariableAlreadyBound: '" ++ (v ++ "' is already bound")

abbrev pub undefined : String → String
undefined v = "UndefinedVariable: variable '" ++ (v ++ "' not defined")

-- the loop over collected variables that must be in scope
unfoldable pub require_known : Scope → List String → Result (Unit {0})
require_known s = each (λ v. reject (not (is_known s.bound_vars s.kinds v)) (undefined v))
