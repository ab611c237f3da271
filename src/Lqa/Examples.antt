-- ===== src/Lqa/Examples.antt =====
-- The theorems on the query algebra, at small queries and bags.
use mathlib.Core.List.{Perm}
use mathlib.Core.List.{Memᴰ}
use rs_polygraph.Base.{
  ◌≢◌, String, ℕ, ◌+◌, true, false, none, some, List, [], ◌∷◌, ◌≡◌, refl, ◌↔◌, arith, if◌then◌else◌,
  ◌++◌, ◌%◌,
}
use rs_polygraph.Base.Int.{pos}
use rs_polygraph.Base.Eq.{nat_eq, string_eq}
use rs_polygraph.Lqa.Kind.{Kind}
use rs_polygraph.Lqa.Kind.Lattice.{Sub}
use rs_polygraph.Lqa.Syntax
use rs_polygraph.Lqa.Syntax.{Expr, Op, OptExpr, Exprs, Branches, count}
use rs_polygraph.Lqa.Syntax.Build.{var, int}
use rs_polygraph.Lqa.Write.{contains_write, strip_writes}
use rs_polygraph.Lqa.Write.Strip.{contains_write-strip_writes}
use rs_polygraph.Lqa.Normalize.{
  AliasGen, normalize_expr, simple_case_to_searched, desugar_implicit_alias,
}
use rs_polygraph.Lqa.Normalize.Truth.{
  Truth, truth, truth-normalize_expr, case_choice, simple_choice,
  case_choice-simple_case_to_searched,
}
use rs_polygraph.Lqa.Normalize.Alias.{Item, fresh_aliases, Distinct, fresh_aliases-Distinct}
use rs_polygraph.Lqa.Aggregates.{Extraction, expr_contains_aggregate, extract_nested_aggregates}
use rs_polygraph.Lqa.Aggregates.Extract.{Extractable, extract_nested_aggregates_free}
use rs_polygraph.Lqa.Aggregates.Keys.{proj_cols_keys, aliases, multiplicity-proj_cols_keys}
use rs_polygraph.Lqa.Aggregates.Fresh.{IsFresh, extract_nested_aggregates-IsFresh}
use rs_polygraph.Lqa.Bag.{
  multiplicity, bag_contains, bag_equal, union_distinct, natural_join, left_outer_join,
}
use rs_polygraph.Lqa.Bag.Dedup.{multiplicity-union_distinct}
use rs_polygraph.Lqa.Bag.Equality.{bag_equal-Perm}
use rs_polygraph.Lqa.Bag.Joins.{
  nested_join, nested_outer_join, natural_join-eq-nested, left_outer_join-eq-nested,
}

-- MATCH (n) CREATE (m) MERGE (p) RETURN n
abbrev matched : Op
matched = Op.scan "n" none []

abbrev created : Op
created =
    Op.merge
      (Op.create matched (Syntax.node (some "m") [] Syntax.no_binding Syntax.no_node)
        Syntax.no_edge)
      (Syntax.merge_clause (Op.scan "p" none []) Syntax.no_set Syntax.no_set)

abbrev returned : Op
returned = Op.projection created (Syntax.item (var "n") "n" none Syntax.no_item) false

contains_write-strip_writes_example : contains_write (strip_writes returned) ≡ false
contains_write-strip_writes_example = contains_write-strip_writes returned

-- count(n) + 1, under NOT NOT and in a comparison
abbrev counted : Expr
counted = Expr.add (Expr.aggregate count false (Syntax.present (var "n"))) (int (pos 1))

abbrev doubled : Expr
doubled = Expr.not (Expr.not (Expr.is_null (var "n")))

abbrev start : Extraction
start = record { aggs = Syntax.no_agg; counter = 3 }

extract_nested_aggregates_free_example :
    expr_contains_aggregate (extract_nested_aggregates counted start).0 ≡ false
unfolding Extractable expr_contains_aggregate
extract_nested_aggregates_free_example = extract_nested_aggregates_free counted start (tt, refl)

extract_nested_aggregates-IsFresh_example : IsFresh (extract_nested_aggregates counted start).1
extract_nested_aggregates-IsFresh_example =
    extract_nested_aggregates-IsFresh counted start (record { avoids = tt; distinct = tt })

-- n, count(n) AS c, *
abbrev grouped : Syntax.ProjItems
grouped =
    Syntax.item (var "n") "n" none
      (Syntax.item (var "c") "c" none (Syntax.item (var "*") "*" none Syntax.no_item))

keys_run : proj_cols_keys grouped ("c" ∷ []) [] ≡ "n" ∷ []
unfolding proj_cols_keys
keys_run = refl

multiplicity-proj_cols_keys_example :
    let name : String = "n" in
    let wildcard : String = "*" in
    let keys = multiplicity (proj_cols_keys grouped ("c" ∷ []) []) name in
    (name ≡ wildcard → keys ≡ 0)
    × ((Memᴰ name ("c" ∷ []) → keys ≡ 0)
        × ((Memᴰ name [] → keys ≡ 0)
            × (name ≢ wildcard
                → ¬ Memᴰ name ("c" ∷ [])
                → ¬ Memᴰ name []
                → keys ≡ multiplicity (aliases grouped) name)))
multiplicity-proj_cols_keys_example = multiplicity-proj_cols_keys grouped ("c" ∷ []) [] "n"

-- n IS NULL is taken for true
abbrev all_true : Expr → Truth
all_true _ = some true

truth-normalize_expr_example : truth all_true (normalize_expr doubled) ≡ truth all_true doubled
truth-normalize_expr_example = truth-normalize_expr all_true doubled

-- CASE n WHEN 1 THEN 10 WHEN 2 THEN 20 END
abbrev two_branches : Branches
two_branches =
    Syntax.branch (int (pos 1)) (int (pos 10))
      (Syntax.branch (int (pos 2)) (int (pos 20)) Syntax.no_branch)

case_choice-simple_case_to_searched_example :
    case_choice all_true (simple_case_to_searched (var "n") two_branches Syntax.absent)
    ≡ simple_choice all_true (var "n") two_branches Syntax.absent
case_choice-simple_case_to_searched_example =
    case_choice-simple_case_to_searched all_true (var "n") two_branches Syntax.absent

abbrev three_items : List Item
three_items = (counted, none) ∷ (var "n", some "n") ∷ (doubled, none) ∷ []

abbrev from_three : AliasGen
from_three = record { counter = 3 }

fresh_aliases-Distinct_example :
    Distinct (fresh_aliases three_items (desugar_implicit_alias three_items from_three).0)
fresh_aliases-Distinct_example = fresh_aliases-Distinct three_items from_three

abbrev ones_and_two : List ℕ
ones_and_two = 1 ∷ 2 ∷ 1 ∷ []

abbrev one_two : List ℕ
one_two = 1 ∷ 2 ∷ []

abbrev two_three : List ℕ
two_three = 2 ∷ 3 ∷ []

abbrev two_ones : List ℕ
two_ones = 1 ∷ 1 ∷ 2 ∷ []

multiplicity-union_distinct_example :
    multiplicity (union_distinct one_two two_three) 2
    ≡ (if bag_contains (one_two ++ two_three) 2 then 1 else 0)
multiplicity-union_distinct_example = multiplicity-union_distinct one_two two_three 2

bag_equal-Perm_example : (bag_equal ones_and_two two_ones ≡ true) ↔ Perm ones_and_two two_ones
bag_equal-Perm_example = bag_equal-Perm ones_and_two two_ones

abbrev parity : ℕ → ℕ
parity n = n % 2

abbrev five : List ℕ
five = 1 ∷ 2 ∷ 3 ∷ 4 ∷ 5 ∷ []

natural_join-eq-nested_example :
    natural_join parity parity (λ l r. l + r) five (3 ∷ [])
    ≡ nested_join parity parity (λ l r. l + r) five (3 ∷ [])
natural_join-eq-nested_example = natural_join-eq-nested parity parity (λ l r. l + r) five (3 ∷ [])

left_outer_join-eq-nested_example :
    left_outer_join parity parity (λ l r. l + r) (λ l. l) five (3 ∷ [])
    ≡ nested_outer_join parity parity (λ l r. l + r) (λ l. l) five (3 ∷ [])
left_outer_join-eq-nested_example =
    left_outer_join-eq-nested parity parity (λ l r. l + r) (λ l. l) five (3 ∷ [])

string_boolean : ¬ Sub Kind.string Kind.boolean
string_boolean (Sub.same e) = ground (arith, e)
string_boolean (Sub.bottom e) = ground (arith, e)
string_boolean (Sub.top e) = ground (arith, e)
string_boolean (Sub.widen e f) = ground (arith, e)
string_boolean (Sub.to_float e f) = ground (arith, f)

boolean_string : ¬ Sub Kind.boolean Kind.string
boolean_string (Sub.same e) = ground (arith, e)
boolean_string (Sub.bottom e) = ground (arith, e)
boolean_string (Sub.top e) = ground (arith, e)
boolean_string (Sub.widen e f) = ground (arith, e)
boolean_string (Sub.to_float e f) = ground (arith, f)
