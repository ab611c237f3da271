-- ===== src/Results/Output/Drive.antt =====
-- Pipelines of queries as outputs, and what `drive` makes of them
-- (crates/polygraph/src/runtime.rs).
use rs_polygraph.Base.{suc, String, Option, some, List, [], ◌∷◌, length, ◌≡◌, refl}
use rs_polygraph.Results.{Result, ok, err, ◌>>=◌}
use rs_polygraph.Results.Values.{ProjectionSchema}
use rs_polygraph.Results.Output.{TranspileOutput, complete, continuation, BindingRow, drive}

-- the query of a phase, from the rows of the phase before it
abbrev pub Phase : Type 0
Phase = List BindingRow → Result String

-- a closure of a pipeline: its phase, and those after it
abbrev pub Rest : Type 0
Rest = Phase × List Phase

-- a query and the phases after it
unfoldable pub pipeline : ProjectionSchema → String → List Phase → TranspileOutput Rest
pipeline schema sparql [] = complete sparql schema
pipeline schema sparql (f ∷ fs) = continuation (complete sparql schema) (f, fs)

unfoldable pub resume : ProjectionSchema → Rest → List BindingRow → Result (TranspileOutput Rest)
unfolding pipeline
resume schema (f, fs) rows = f rows >>= λ sparql. ok (pipeline schema sparql fs)

module _ (execute : String → Result (List BindingRow)) where
  -- the queries one after the other, up to the first error
  unfoldable pub in_turn : String → List Phase → Result (List BindingRow)
  in_turn sparql [] = execute sparql
  in_turn sparql (f ∷ fs) = execute sparql >>= λ rows. f rows >>= λ next. in_turn next fs

  -- With a call for each phase, drive ends on a pipeline of phases, and returns what executing the
  -- query, making the next query of its rows, and so on to the last phase or the first error returns.
  pub drive-pipeline :
      (schema : ProjectionSchema) (sparql : String) (fs : List Phase)
      → drive execute (resume schema) (suc (length fs)) (pipeline schema sparql fs)
        ≡ some (in_turn sparql fs)
  unfolding drive pipeline resume in_turn
  drive-pipeline schema sparql [] = refl
  drive-pipeline schema sparql (f ∷ fs) =
      elim (execute sparql)
        as (λ r.
          (elim (some r) [
            | Option.none ↦ Option.none
            | some (err e) ↦ some (err e)
            | some (ok rows) ↦ elim (resume schema (f, fs) rows) [
              | err e ↦ some (err e)
              | ok next ↦ drive execute (resume schema) (suc (length fs)) next
            ]
          ])
          ≡ some (r >>= λ rows. f rows >>= λ next. in_turn next fs)) [
            | err e ↦ refl
            | ok rows ↦
                elim (f rows)
                  as (λ n.
                    (elim (n >>= λ next. ok (pipeline schema next fs))
                      as (λ _. Option (Result (List BindingRow))) [
                        | ok next ↦ drive execute (resume schema) (suc (length fs)) next
                        | err e ↦ some (err e)
                      ])
                    ≡ some (n >>= λ next. in_turn next fs)) [
                      | ok next ↦ drive-pipeline schema next fs
                      | err e ↦ refl
                    ]
          ]
