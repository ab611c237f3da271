-- ===== src/Results/Output.antt =====
-- `TranspileOutput` of crates/polygraph/src/result_mapping/mod.rs and `drive` of runtime.rs. The
-- executor is a trait that callers implement: a function here.
pub mod Drive
use rs_polygraph.Base.{ℕ, zero, suc, String, Bool, true, false, Option, none, some, List}
use rs_polygraph.Results.{PolygraphError, unsupported_feature, Result, ok, err}
use rs_polygraph.Results.Values.{CypherRow, SparqlSolution, ProjectionSchema}
use rs_polygraph.Results.Mapper

abbrev pub BindingRow : Type 0
BindingRow = List (String × Option String)

-- `K` is the type of the closures: nothing is known of them but what they return. `Select` is the
-- optional select of a write, which holds an output, so it is a type of the same block.
mutual
  pub data TranspileOutput (K : Type 0) : Type 0 where
    complete : String → ProjectionSchema → TranspileOutput K
    continuation : TranspileOutput K → K → TranspileOutput K
    write : List String → Select K → TranspileOutput K

  pub data Select (K : Type 0) : Type 0 where
    no_select : Select K
    select : TranspileOutput K → Select K

unfoldable pub is_complete : {K : Type 0} → TranspileOutput K → Bool
is_complete (complete _ _) = true
is_complete _ = false

-- `none` is a panic.
unfoldable pub unwrap_complete :
    {K : Type 0} → TranspileOutput K → Option (String × ProjectionSchema)
unwrap_complete (complete sparql schema) = some (sparql, schema)
unwrap_complete (continuation _ _) = none
unwrap_complete (write _ _) = none

-- `none` is a panic.
abbrev into_sparql : {K : Type 0} → TranspileOutput K → Option String
unfolding unwrap_complete
into_sparql output = elim (unwrap_complete output) [ some (sparql, _) ↦ some sparql | none ↦ none ]

unfoldable pub output_sparql : {K : Type 0} → TranspileOutput K → Option String
output_sparql (complete sparql _) = some sparql
output_sparql _ = none

unfoldable pub output_schema : {K : Type 0} → TranspileOutput K → Option ProjectionSchema
output_schema (complete _ schema) = some schema
output_schema _ = none

unfoldable pub map_output :
    {K : Type 0}
    → (String → Option ℕ)
    → TranspileOutput K
    → List SparqlSolution
    → Result (List CypherRow)
unfolding Mapper.map_results
map_output parse_f64 (complete _ schema) solutions = Mapper.map_results parse_f64 solutions schema
map_output parse_f64 (continuation _ _) solutions = err (
    unsupported_feature
      "map_results() called on a Continuation output; use the runtime driver instead")
map_output parse_f64 (write _ _) solutions = err (
    unsupported_feature
      "map_results() called on a Write output; execute the updates first, then call map_results() on the select")

abbrev pub write_refused : PolygraphError
write_refused =
    unsupported_feature
      "drive() cannot execute Write outputs; use cypher_to_sparql_update() to obtain the update strings"

module _ {K : Type 0} (execute : String → Result (List BindingRow))
    (continue_fn : K → List BindingRow → Result (TranspileOutput K)) where
  -- `drive`, for at most `fuel` calls one in another. `none` is a drive that is not done: closures may
  -- return continuations without end.
  unfoldable pub drive : ℕ → TranspileOutput K → Option (Result (List BindingRow))
  drive zero output = none
  drive (suc fuel) (complete sparql schema) = some (execute sparql)
  drive (suc fuel) (continuation phase1 k) = elim (drive fuel phase1) [
    | none ↦ none
    | some (err e) ↦ some (err e)
    | some (ok phase1_rows) ↦ elim (continue_fn k phase1_rows) [
      | err e ↦ some (err e)
      | ok next ↦ drive fuel next
    ]
  ]
  drive (suc fuel) (write _ _) = some (err write_refused)
