-- ===== src/Lqa/Bag.antt =====
-- The bag combinators of crates/polygraph/src/lqa/bag.rs. A type with `Eq + Hash` is one with an
-- instance of `Eq`; a hash map is a `Dict`.
pub mod Joins
pub mod Equality
pub mod Dedup
use rs_polygraph.Base.{
  ℕ, zero, suc, ◌+◌, Bool, true, false, ◌&&◌, not, Option, none, some, List, [], ◌∷◌, ◌++◌, map,
  length, nat_beq, if◌then◌else◌,
}
use rs_polygraph.Base.Int.{ℤ, pos, negsuc, ◌+ℤ◌, ◌-ℤ◌, ltb_ℤ, eq_ℤ}
use rs_polygraph.Base.Eq.{Eq, ◌==◌}
use rs_polygraph.Base.Dict.{Dict, get, upsert, all_values}

module _ {ℓ} {A : Type ℓ} where
  unfoldable pub union_all : List A → List A → List A
  union_all left right = left ++ right

  -- `filter(|row| predicate(row) == Some(true))`
  unfoldable pub select : List A → (A → Option Bool) → List A
  select [] predicate = []
  select (row ∷ rows) predicate =
      let rest = select rows predicate in elim (predicate row) [ some true ↦ row ∷ rest | _ ↦ rest ]

module _ {ℓ} {A B : Type ℓ} where
  unfoldable pub cross : List A → List B → List (A × B)
  cross [] right = []
  cross (l ∷ left) right = map (λ r. (l, r)) right ++ cross left right

  unfoldable pub project : List A → (A → B) → List B
  project bag f = map f bag

module _ {ℓ} {A : Type ℓ} ⦃e : Eq A⦄ where
  unfoldable pub bag_contains : List A → A → Bool
  bag_contains [] r = false
  bag_contains (x ∷ bag) r = if x == r then true else bag_contains bag r

  -- `filter(|x| *x == item).count()`
  unfoldable pub multiplicity : List A → A → ℕ
  multiplicity [] item = 0
  multiplicity (x ∷ bag) item =
      if x == item then suc (multiplicity bag item) else multiplicity bag item

  -- The loop of `union_distinct`: the items seen, and the output so far.
  unfoldable pub visit : A → List A × List A → List A × List A
  unfolding bag_contains
  visit item (seen, out) =
      if bag_contains seen item then (seen, out) else (item ∷ seen, out ++ item ∷ [])

  unfoldable pub dedup_loop : List A → List A × List A → List A × List A
  unfolding visit
  dedup_loop [] state = state
  dedup_loop (item ∷ items) state = dedup_loop items (visit item state)

  unfoldable pub union_distinct : List A → List A → List A
  unfolding dedup_loop
  union_distinct left right = (dedup_loop (left ++ right) ([], [])).1

  -- the first loop of `bag_equal`
  unfoldable pub count_up : List A → Dict A ℤ → Dict A ℤ
  count_up [] counts = counts
  count_up (item ∷ items) counts = count_up items (upsert item (pos 0) (λ c. c +ℤ pos 1) counts)

  -- The second loop: `none` is the `return false` inside it.
  unfoldable pub count_down : List A → Dict A ℤ → Option (Dict A ℤ)
  count_down [] counts = some counts
  count_down (item ∷ items) counts =
      let counts' = upsert item (pos 0) (λ c. c -ℤ pos 1) counts in
      elim (get item counts') [ some (negsuc _) ↦ none | _ ↦ count_down items counts' ]

  unfoldable pub balanced : Option (Dict A ℤ) → Bool
  unfolding all_values
  balanced none = false
  balanced (some counts) = all_values (λ c. eq_ℤ c (pos 0)) counts

  unfoldable pub bag_equal : List A → List A → Bool
  unfolding count_up count_down balanced
  bag_equal left right =
      if nat_beq (length left) (length right)
      then balanced (count_down right (count_up left []))
      else false

module _ {ℓ} {T K : Type ℓ} ⦃e : Eq K⦄ where
  -- `for row in bag { map.entry(key(row)).or_default().push(row) }`
  unfoldable pub group_into : (T → K) → List T → Dict K (List T) → Dict K (List T)
  group_into key [] m = m
  group_into key (row ∷ rows) m =
      group_into key rows (upsert (key row) [] (λ rows'. rows' ++ row ∷ []) m)

  unfoldable pub group_by : List T → (T → K) → Dict K (List T)
  unfolding group_into
  group_by bag key = group_into key bag []

module _ {ℓ} {L R K O : Type ℓ} ⦃e : Eq K⦄ (left_key : L → K) (right_key : R → K)
    (combine : L → R → O) where
  unfoldable pub join_rows : Dict K (List R) → List L → List O
  join_rows index [] = []
  join_rows index (l ∷ left) = elim (get (left_key l) index) [
    | some matching ↦ map (combine l) matching ++ join_rows index left
    | none ↦ join_rows index left
  ]

  unfoldable pub natural_join : List L → List R → List O
  unfolding join_rows group_by
  natural_join left right = join_rows (group_by right right_key) left

  module _ (null_combine : L → O) where
    unfoldable pub outer_rows : Dict K (List R) → List L → List O
    outer_rows index [] = []
    outer_rows index (l ∷ left) = elim (get (left_key l) index) [
      | some matching ↦ map (combine l) matching ++ outer_rows index left
      | none ↦ null_combine l ∷ outer_rows index left
    ]

    unfoldable pub left_outer_join : List L → List R → List O
    unfolding outer_rows group_by
    left_outer_join left right = outer_rows (group_by right right_key) left
