-- ===== src/Results/Mapper/Rows.antt =====
-- The rows of crates/polygraph/src/result_mapping/mapper.rs.
use rs_polygraph.Base.{
  ℕ, String, Option, none, some, List, [], ◌∷◌, map, ◌≡◌, refl, ap, ◌∙◌, arith, if◌then◌else◌,
}
use rs_polygraph.Base.Dict.{get, get-upsert}
use rs_polygraph.Base.Eq.{◌==◌, string_eq}
use rs_polygraph.Results.{ok}
use rs_polygraph.Results.Values.{
  CypherValue, CypherRow, SparqlSolution, ProjectedColumn, ProjectionSchema, scalar, node_column,
  relationship_column, row_insert,
}
use rs_polygraph.Results.Mapper.{map_binding, map_column, map_columns, map_results}

module _ (parse_f64 : String → Option ℕ) where
  -- what a column shows of a solution
  abbrev pub shown : String → SparqlSolution → ProjectedColumn → CypherValue
  shown base_iri solution col = elim col.kind [
    | scalar var ↦ map_binding parse_f64 (get var solution) base_iri
    | node_column iri_var ↦ map_binding parse_f64 (get iri_var solution) base_iri
    | relationship_column _ _ type_info ↦ CypherValue.string type_info
  ]

  -- the value of the last column that has the name, or else what stood there
  abbrev pub cell :
      String
      → SparqlSolution
      → List ProjectedColumn
      → String
      → Option CypherValue
      → Option CypherValue
  cell base_iri solution [] name before = before
  cell base_iri solution (col ∷ columns) name before =
      cell base_iri solution columns name
        (if col.name == name then some (shown base_iri solution col) else before)

  map_column-shown :
      (col : ProjectedColumn) (solution : SparqlSolution) (base_iri : String)
      → map_column parse_f64 col solution base_iri ≡ ok (shown base_iri solution col)
  unfolding map_column
  map_column-shown col solution base_iri = ground arith

  insert_cell :
      (col : ProjectedColumn) (value : CypherValue) (row : CypherRow) (name : String)
      → get name (row_insert col.name value row)
        ≡ (if col.name == name then some value else get name row)
  insert_cell col value row name = get-upsert col.name name value (λ _. value) row

  map_columns_lem :
      (columns : List ProjectedColumn) (solution : SparqlSolution) (base_iri : String)
      (row : CypherRow)
      → (row' : CypherRow) × ((map_columns parse_f64 columns solution base_iri row ≡ ok row')
          × ((name : String) → get name row' ≡ cell base_iri solution columns name (get name row)))
  unfolding map_columns
  map_columns_lem [] solution base_iri row = (row, (refl, λ _. refl))
  map_columns_lem (col ∷ columns) solution base_iri row =
      let value = shown base_iri solution col in
      let (row', (e, cells)) =
        map_columns_lem columns solution base_iri (row_insert col.name value row) in
      (
        row',
        (
          rw (map_column-shown col solution base_iri) e,
          λ name.
              cells name
              ∙ ap (cell base_iri solution columns name) (insert_cell col value row name),
        ),
      )

  get_absent : (name : String) → get {V = CypherValue} name [] ≡ none
  unfolding get
  get_absent name = refl

  -- Mapping never fails. It gives one row per solution, in order, and a row has under each name the
  -- value that the schema's last column of that name shows of the solution, and nothing under a
  -- name that no column has.
  pub map_results_lem :
      (solutions : List SparqlSolution) (schema : ProjectionSchema)
      → (rows : List CypherRow) × ((map_results parse_f64 solutions schema ≡ ok rows)
          × ((name : String)
              → map (get name) rows
                ≡ map (λ s. cell schema.base_iri s schema.columns name none) solutions))
  unfolding map_results
  map_results_lem [] schema = ([], (refl, λ _. refl))
  map_results_lem (solution ∷ solutions) schema =
      let (row, (e, cells)) = map_columns_lem schema.columns solution schema.base_iri [] in
      let (rows, (e', rest)) = map_results_lem solutions schema in
      (row ∷ rows, (rw (e, e') refl, λ name. cc (cells name, rest name, get_absent name)))
