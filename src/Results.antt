-- ===== src/Results.antt =====
-- What a transpilation returns and how its results are read (crates/polygraph/src/result_mapping,
-- runtime.rs and error.rs).
pub mod Values
pub mod Xsd
pub mod Mapper
pub mod Output
pub mod Checks
mod Examples
use rs_polygraph.Base.{String}

-- `PolygraphError` of error.rs
pub data PolygraphError : Type 0 where
  parse : String → String → PolygraphError
  unsupported_feature : String → PolygraphError
  unsupported : String → String → String → PolygraphError
  translation : String → PolygraphError
  result_mapping : String → PolygraphError

-- `Result<A, PolygraphError>`
pub data Result {ℓ} (A : Type ℓ) : Type ℓ where
  ok : A → Result A
  err : PolygraphError → Result A

-- `r?`, then the rest of the function
infixl 10 ◌>>=◌
abbrev pub ◌>>=◌ {ℓ κ} : {A : Type ℓ} {B : Type κ} → Result A → (A → Result B) → Result B
ok a >>= f = f a
err e >>= f = err e

-- `ParseError` of the parser crate, and the conversion from it
pub data ParseError : Type 0 where
  syntax : String → String → ParseError
  unsupported_syntax : String → ParseError

unfoldable pub from_parse_error : ParseError → PolygraphError
from_parse_error (syntax span message) = parse span message
from_parse_error (unsupported_syntax feature) = unsupported_feature feature
