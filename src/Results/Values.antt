-- ===== src/Results/Values.antt =====
-- crates/polygraph/src/result_mapping/types.rs and schema.rs. A `BTreeMap` is a `Dict`: its order is
-- not observed. `CypherValue` holds lists and maps of itself, so these are types of the same block.
-- An `f64` stands by its 64-bit pattern.
use rs_polygraph.Base.{ℕ, String, Bool, List, Option}
use rs_polygraph.Base.Int.{ℤ}
use rs_polygraph.Base.Dict.{Dict, upsert}
use rs_polygraph.Base.Eq.{string_eq}

mutual
  pub data CypherValue : Type 0 where
    null : CypherValue
    boolean : Bool → CypherValue
    integer : ℤ → CypherValue
    float : ℕ → CypherValue
    string : String → CypherValue
    list : Values → CypherValue
    map : Fields → CypherValue
    node : CypherNode → CypherValue
    relationship : CypherRelationship → CypherValue

  pub data Values : Type 0 where
    no_values : Values
    values : CypherValue → Values → Values

  pub data Fields : Type 0 where
    no_fields : Fields
    fields : String → CypherValue → Fields → Fields

  -- id, labels, properties
  pub data CypherNode : Type 0 where
    cypher_node : String → List String → Fields → CypherNode

  -- id, type, start node, end node, properties
  pub data CypherRelationship : Type 0 where
    cypher_relationship : String → String → String → String → Fields → CypherRelationship

abbrev pub CypherRow : Type 0
CypherRow = Dict String CypherValue

-- A literal has a value, a datatype and a language.
pub data RdfTerm : Type 0 where
  iri : String → RdfTerm
  literal : String → Option String → Option String → RdfTerm
  blank_node : String → RdfTerm

abbrev pub SparqlSolution : Type 0
SparqlSolution = Dict String (Option RdfTerm)

pub data ColumnKind : Type 0 where
  scalar : String → ColumnKind
  node_column : String → ColumnKind
  -- source variable, destination variable, type
  relationship_column : String → String → String → ColumnKind

pub record ProjectedColumn : Type 0 where
  pub name : String
  pub kind : ColumnKind

pub record ProjectionSchema : Type 0 where
  pub columns : List ProjectedColumn
  pub distinct : Bool
  pub base_iri : String
  pub rdf_star : Bool

-- `row.insert(k, v)`
abbrev pub row_insert : String → CypherValue → CypherRow → CypherRow
row_insert k v row = upsert k v (λ _. v) row
