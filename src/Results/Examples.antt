-- ===== src/Results/Examples.antt =====
-- The theorems on results, at small schemas and outputs.
use rs_polygraph.Base.{
  ℕ, String, false, Option, none, some, List, [], ◌∷◌, map, ◌≡◌, refl, arith, if◌then◌else◌,
}
use rs_polygraph.Base.Int.{pos, negsuc}
use rs_polygraph.Base.Dict.{get, upsert}
use rs_polygraph.Base.Eq.{◌==◌, string_eq}
use rs_polygraph.Results.{translation, Result, ok, err}
use rs_polygraph.Results.Values.{
  CypherValue, CypherRow, SparqlSolution, literal, ProjectionSchema, scalar, node_column,
}
use rs_polygraph.Results.Xsd.{rdf_term_to_cypher, xsd_integer}
use rs_polygraph.Results.Xsd.Integers.{integer_text, rdf_term_to_cypher-integer}
use rs_polygraph.Results.Mapper.{map_results}
use rs_polygraph.Results.Mapper.Rows.{cell, map_results_lem}
use rs_polygraph.Results.Output.{BindingRow, drive}
use rs_polygraph.Results.Output.Drive.{Phase, pipeline, resume, in_turn, drive-pipeline}

abbrev no_float : String → Option ℕ
no_float _ = none

rdf_term_to_cypher-integer_example :
    rdf_term_to_cypher no_float
      (literal (integer_text (negsuc 41)) (some xsd_integer) none)
      "http://e/"
    ≡ CypherValue.integer (negsuc 41)
rdf_term_to_cypher-integer_example =
    rdf_term_to_cypher-integer no_float (negsuc 41) none "http://e/" (omega arith) (omega arith)

abbrev two_columns : ProjectionSchema
two_columns = record {
  columns =
      record { name = "n"; kind = node_column "n" }
      ∷ record { name = "age"; kind = scalar "a" }
      ∷ [];
  distinct = false;
  base_iri = "http://e/";
  rdf_star = false;
}

abbrev one_solution : List SparqlSolution
one_solution = (("a", some (literal "7" (some xsd_integer) none)) ∷ ("n", none) ∷ []) ∷ []

one_row :
    map_results no_float one_solution two_columns
    ≡ ok ((("n", CypherValue.null) ∷ ("age", CypherValue.integer (pos 7)) ∷ []) ∷ [])
unfolding map_results upsert
one_row = refl

map_results_lem_example :
    (rows : List CypherRow) × ((map_results no_float one_solution two_columns ≡ ok rows)
      × ((name : String)
          → map (get name) rows
            ≡ map
                (λ s. cell no_float two_columns.base_iri s two_columns.columns name none)
                one_solution))
map_results_lem_example = map_results_lem no_float one_solution two_columns

abbrev answers : String → Result (List BindingRow)
answers sparql =
    if sparql == "SELECT 1"
    then ok ((("x", some "1") ∷ []) ∷ [])
    else err (translation "no such query")

-- the query again, if there was a row
abbrev again : Phase
again [] = err (translation "no rows")
again (row ∷ rows) = ok "SELECT 1"

drive-pipeline_example :
    drive answers (resume two_columns) 3 (pipeline two_columns "SELECT 1" (again ∷ again ∷ []))
    ≡ some (in_turn answers "SELECT 1" (again ∷ again ∷ []))
drive-pipeline_example = drive-pipeline answers two_columns "SELECT 1" (again ∷ again ∷ [])
