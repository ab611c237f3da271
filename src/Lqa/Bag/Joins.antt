-- ===== src/Lqa/Bag/Joins.antt =====
-- The hash joins and the grouping of crates/polygraph/src/lqa/bag.rs against nested loops.
use mathlib.Core.List.{append_assoc}
use rs_polygraph.Base.{
  Option, none, some, List, [], ◌∷◌, ◌++◌, map, ◌≡◌, refl, ap, ◌∙◌, inl, inr, arith, Bool-cases,
  if◌then◌else◌,
}
use rs_polygraph.Base.Eq.{Eq, ◌==◌}
use rs_polygraph.Base.Dict.{Dict, or_else, get, upsert, get-upsert}
use rs_polygraph.Lqa.Bag.{
  group_into, group_by, join_rows, natural_join, outer_rows, left_outer_join,
}

-- the group of some rows: none of no rows
abbrev pub group_of {ℓ} : {T : Type ℓ} → List T → Option (List T)
group_of [] = none
group_of rows = some rows

module _ {ℓ} {T K : Type ℓ} ⦃e : Eq K⦄ (key : T → K) where
  -- the rows with one key, in order
  pub with_key : K → List T → List T
  with_key k [] = []
  with_key k (row ∷ rows) = if key row == k then row ∷ with_key k rows else with_key k rows

  -- rows added to a group that may not be there
  abbrev extend : Option (List T) → List T → Option (List T)
  extend group [] = group
  extend group (row ∷ rows) = some (or_else [] group ++ row ∷ rows)

  new_group : (rows : List T) → extend none rows ≡ group_of rows
  new_group [] = refl
  new_group (row ∷ rows) = refl

  extend-cons :
      (o : Option (List T)) (row : T) (rows : List T)
      → extend (some (or_else [] o ++ row ∷ [])) rows ≡ extend o (row ∷ rows)
  extend-cons o row [] = refl
  extend-cons o row (r ∷ rows) = ap some (append_assoc (or_else [] o) (row ∷ []) (r ∷ rows))

  get-group_into :
      (rows : List T) (m : Dict K (List T)) (k : K)
      → get k (group_into key rows m) ≡ extend (get k m) (with_key k rows)
  unfolding group_into with_key
  get-group_into [] m k = refl
  get-group_into (row ∷ rows) m k =
      get-group_into rows (upsert (key row) [] (λ rows'. rows' ++ row ∷ []) m) k
      ∙ elim (Bool-cases (key row == k)) [
        | inl same ↦
            rw (get-upsert, same)
              (rw (((e.decides (key row) k).0 same)) (extend-cons (get k m) row (with_key k rows)))
        | inr other ↦ rw (get-upsert, other)
      ]

  -- The group of a key holds the rows with that key, in order; a key without rows has no group.
  get-group_by : (bag : List T) (k : K) → get k (group_by bag key) ≡ group_of (with_key k bag)
  unfolding group_by get
  get-group_by bag k = get-group_into bag [] k ∙ new_group (with_key k bag)

module _ {ℓ} {L R K O : Type ℓ} ⦃e : Eq K⦄ (left_key : L → K) (right_key : R → K)
    (combine : L → R → O) where
  -- every pair of a left and a right row with equal keys, by two nested loops
  pub nested_join : List L → List R → List O
  nested_join [] right = []
  nested_join (l ∷ left) right =
      map (combine l) (with_key right_key (left_key l) right) ++ nested_join left right

  -- what one left row gives to an outer join
  pub outer_row : (L → O) → L → List R → List O
  outer_row null_combine l [] = null_combine l ∷ []
  outer_row null_combine l (r ∷ rows) = map (combine l) (r ∷ rows)

  -- a left row without partner gives one row
  pub nested_outer_join : (L → O) → List L → List R → List O
  nested_outer_join null_combine [] right = []
  nested_outer_join null_combine (l ∷ left) right =
      outer_row null_combine l (with_key right_key (left_key l) right)
      ++ nested_outer_join null_combine left right

  join_rows_lem :
      (left : List L) (right : List R)
      → join_rows left_key right_key combine (group_by right right_key) left
        ≡ nested_join left right
  unfolding join_rows nested_join
  join_rows_lem [] right = refl
  join_rows_lem (l ∷ left) right =
      ground (arith, get-group_by right_key right (left_key l), join_rows_lem left right)

  outer_rows_lem :
      (null_combine : L → O) (left : List L) (right : List R)
      → outer_rows left_key right_key combine null_combine (group_by right right_key) left
        ≡ nested_outer_join null_combine left right
  unfolding outer_rows nested_outer_join outer_row
  outer_rows_lem null_combine [] right = refl
  outer_rows_lem null_combine (l ∷ left) right =
      ground
        (arith, get-group_by right_key right (left_key l), outer_rows_lem null_combine left right)

  -- The hash join gives the rows of the nested loops, in the same order.
  pub natural_join-eq-nested :
      (left : List L) (right : List R)
      → natural_join left_key right_key combine left right ≡ nested_join left right
  unfolding natural_join
  natural_join-eq-nested = join_rows_lem

  -- So does the left outer join, which keeps each left row without partner once.
  pub left_outer_join-eq-nested :
      (null_combine : L → O) (left : List L) (right : List R)
      → left_outer_join left_key right_key combine null_combine left right
        ≡ nested_outer_join null_combine left right
  unfolding left_outer_join
  left_outer_join-eq-nested = outer_rows_lem
