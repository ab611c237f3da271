-- ===== src/Results/Mapper.antt =====
-- crates/polygraph/src/result_mapping/mapper.rs.
pub mod Rows
use rs_polygraph.Base.{ℕ, String, Option, none, some, List, [], ◌∷◌}
use rs_polygraph.Base.Dict.{get}
use rs_polygraph.Base.Eq.{string_eq}
use rs_polygraph.Results.{Result, ok, err, ◌>>=◌}
use rs_polygraph.Results.Values.{
  CypherValue, CypherRow, SparqlSolution, RdfTerm, ProjectedColumn, ProjectionSchema, scalar,
  node_column, relationship_column, row_insert,
}
use rs_polygraph.Results.Xsd.{rdf_term_to_cypher}

module _ (parse_f64 : String → Option ℕ) where
  -- the arm of a scalar or a node: the term bound to the variable, or null
  unfoldable pub map_binding : Option (Option RdfTerm) → String → CypherValue
  unfolding rdf_term_to_cypher
  map_binding (some (some term)) base_iri = rdf_term_to_cypher parse_f64 term base_iri
  map_binding (some none) base_iri = CypherValue.null
  map_binding none base_iri = CypherValue.null

  unfoldable pub map_column : ProjectedColumn → SparqlSolution → String → Result CypherValue
  unfolding map_binding get
  map_column col solution base_iri = elim col.kind [
    | scalar var ↦ ok (map_binding (get var solution) base_iri)
    | node_column iri_var ↦ ok (map_binding (get iri_var solution) base_iri)
    | relationship_column src_var dst_var type_info ↦ ok (CypherValue.string type_info)
  ]

  -- the inner loop
  unfoldable pub map_columns :
      List ProjectedColumn → SparqlSolution → String → CypherRow → Result CypherRow
  unfolding map_column
  map_columns [] solution base_iri row = ok row
  map_columns (col ∷ columns) solution base_iri row = map_column col solution base_iri >>= λ value.
      map_columns columns solution base_iri (row_insert col.name value row)

  unfoldable pub map_results : List SparqlSolution → ProjectionSchema → Result (List CypherRow)
  unfolding map_columns
  map_results [] schema = ok []
  map_results (solution ∷ solutions) schema =
      map_columns schema.columns solution schema.base_iri [] >>= λ row.
      map_results solutions schema >>= λ rows. ok (row ∷ rows)
