-- ===== src/Results/Xsd.antt =====
-- crates/polygraph/src/result_mapping/xsd.rs. `str::parse::<i64>` and `str::strip_prefix` are
-- written out; `str::parse::<f64>` is the parameter `parse_f64`.
pub mod Integers
use Prim.Native.Char.{Char, code}
use Prim.Native.String.{[] as empty, ◌∷◌ as ◌◂◌}
use rs_polygraph.Base.{
  ℕ, suc, ◌+◌, ◌-◌, ◌*◌, ◌^◌, Bool, true, false, ◌&&◌, ◌||◌, String, Option, none, some, leb,
  nat_beq, if◌then◌else◌,
}
use rs_polygraph.Base.Int.{ℤ, pos, sub_ℕ}
use rs_polygraph.Base.Decimal.{digits}
use rs_polygraph.Base.Eq.{◌==◌, string_eq}
use rs_polygraph.Results.Values.{CypherValue, RdfTerm, iri, literal, blank_node}

-- `i64::MAX + 1`
abbrev pub i64_bound : ℕ
i64_bound = 2 ^ 63

-- a text of one digit or more
unfoldable pub digits_of : String → Option ℕ
unfolding digits
digits_of empty = none
digits_of s = digits 0 s

abbrev below_bound : ℕ → Option ℕ → Option ℤ
below_bound limit (some n) = if leb n limit then some (pos n) else none
below_bound limit none = none

abbrev negated : Option ℕ → Option ℤ
negated (some n) = if leb n i64_bound then some (sub_ℕ 0 n) else none
negated none = none

-- `value.parse::<i64>().ok()`: a sign at most, then one digit or more, in range
unfoldable pub parse_i64 : String → Option ℤ
unfolding digits_of
parse_i64 empty = none
parse_i64 (c ◂ s) =
    if nat_beq (code c) 45
    then negated (digits_of s)
    else if nat_beq (code c) 43
    then below_bound (i64_bound - 1) (digits_of s)
    else below_bound (i64_bound - 1) (digits_of (c ◂ s))

-- `s.strip_prefix(p)`
unfoldable pub strip_prefix : String → String → Option String
strip_prefix empty s = some s
strip_prefix (c ◂ p) empty = none
strip_prefix (c ◂ p) (d ◂ s) = if nat_beq (code c) (code d) then strip_prefix p s else none

-- the datatypes the conversion knows, by what it does with them
pub data Datatype : Type 0 where
  integral floating logical other : Datatype

abbrev pub xsd_integer : String
xsd_integer = "http://www.w3.org/2001/XMLSchema#integer"

unfoldable pub datatype_of : String → Datatype
datatype_of d =
    if d == "http://www.w3.org/2001/XMLSchema#integer"
    then integral
    else if d == "http://www.w3.org/2001/XMLSchema#long"
    then integral
    else if d == "http://www.w3.org/2001/XMLSchema#int"
    then integral
    else if d == "http://www.w3.org/2001/XMLSchema#short"
    then integral
    else if d == "http://www.w3.org/2001/XMLSchema#double"
    then floating
    else if d == "http://www.w3.org/2001/XMLSchema#float"
    then floating
    else if d == "http://www.w3.org/2001/XMLSchema#decimal"
    then floating
    else if d == "http://www.w3.org/2001/XMLSchema#boolean"
    then logical
    else other

unfoldable pub to_boolean : String → CypherValue
to_boolean value =
    if value == "true"
    then CypherValue.boolean true
    else if value == "1"
    then CypherValue.boolean true
    else if value == "false"
    then CypherValue.boolean false
    else if value == "0"
    then CypherValue.boolean false
    else CypherValue.string value

module _ (parse_f64 : String → Option ℕ) where
  unfoldable pub rdf_term_to_cypher : RdfTerm → String → CypherValue
  unfolding parse_i64 strip_prefix datatype_of to_boolean
  rdf_term_to_cypher (iri i) base_iri = elim (strip_prefix base_iri i) [
    | some local ↦ CypherValue.string local
    | none ↦ CypherValue.string i
  ]
  rdf_term_to_cypher (blank_node label) base_iri = CypherValue.string label
  rdf_term_to_cypher (literal value none _) base_iri = CypherValue.string value
  rdf_term_to_cypher (literal value (some d) _) base_iri = elim (datatype_of d) [
    | integral ↦ elim (parse_i64 value) [
      | some n ↦ CypherValue.integer n
      | none ↦ CypherValue.string value
    ]
    | floating ↦ elim (parse_f64 value) [
      | some x ↦ CypherValue.float x
      | none ↦ CypherValue.string value
    ]
    | logical ↦ to_boolean value
    | other ↦ CypherValue.string value
  ]
