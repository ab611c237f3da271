-- ===== src/Translator/Examples.antt =====
-- Runs of the checks and helpers of crates/polygraph/src/translator/cypher on small queries.
use rs_polygraph.Base.{
  ℕ, String, Bool, true, false, Option, none, some, List, [], ◌∷◌, ◌≡◌, refl, All, arith, ◌+◌,
}
use rs_polygraph.Base.Any.{any}
use rs_polygraph.Base.Dict.{get, upsert}
use rs_polygraph.Base.Int.{pos}
use rs_polygraph.Base.Names.{has}
use rs_polygraph.Ast
use rs_polygraph.Ast.{Expression, Clause, CypherQuery, PatternList, ItemList}
use rs_polygraph.Ast.Views.{patterns, elements_of}
use rs_polygraph.Results.{ok, err, translation}
use rs_polygraph.Results.Checks.{reject, each, try_fold}
use rs_polygraph.Translator.Scans
use rs_polygraph.Translator.Scans.{contains_key, scan_invalid_size, contains_agg_in_list_comp}
use rs_polygraph.Translator.Collect.{collect_free_vars, collect_prop_vars}
use rs_polygraph.Translator.Unions.{check_unions, segment_columns}
use rs_polygraph.Translator.Scope.{Scope}
use rs_polygraph.Translator.Scope.Create.{check_create, is_standalone}
use rs_polygraph.Translator.Scope.Match.{check_match}
use rs_polygraph.Translator.Scope.Return.{check_return}
use rs_polygraph.Translator.Scope.Relations.{Distinct, rel_names}
use rs_polygraph.Translator.Scope.Visible.{visible}
use rs_polygraph.Translator.Validate.{check_clauses, initial, validate_semantics}
use rs_polygraph.Translator.Validate.Scopes.{
  IsTranslation, check_clauses-visible, validate_semantics-IsTranslation,
}
use rs_polygraph.Translator.Validate.Kinds.{PatternTyped, check_match-Typed, check_match-Distinct}
use rs_polygraph.Translator.Validate.Creation.{CreatableElement, check_create-Creatable}
use rs_polygraph.Translator.Substitution.{substitute_var_in_expr}
use rs_polygraph.Translator.Substitution.Meaning.{
  Algebra, Environment, assign, meaning, Substitutable,
}
use rs_polygraph.Translator.Substitution.Correct.{substitute_var_in_expr-meaning}
use rs_polygraph.Translator.References.{expr_references_var, expr_references_prop}
use rs_polygraph.Translator.CollectUnwind.{eliminate_collect_unwind}

abbrev named : String → Expression
named = Ast.variable

abbrev person : String → Ast.PatternElement
person v = Ast.node (some v) ("Person" ∷ []) Ast.no_map

abbrev knows : Option String → Ast.PatternElement
knows v = Ast.relationship v Ast.right ("KNOWS" ∷ []) Ast.no_map none

abbrev path : Ast.PatternElement → Ast.PatternElement → Ast.PatternElement → PatternList
path a r b =
    Ast.also (Ast.pattern_of none (Ast.element a (Ast.element r (Ast.element b Ast.no_element))))
      Ast.no_pattern

abbrev match_of : PatternList → Clause
match_of list = Ast.match false list Ast.absent

abbrev return_of : ItemList → Clause
return_of items = Ast.return false (Ast.explicit items) Ast.unordered Ast.absent Ast.absent

-- MATCH (n:Person)-[r:KNOWS]->(m:Person)
abbrev friends : PatternList
friends = path (person "n") (knows (some "r")) (person "m")

-- n, m.name AS name
abbrev names : ItemList
names =
    Ast.item (named "n") none (Ast.item (Ast.property (named "m") "name") (some "name") Ast.no_item)

abbrev query_of : List Clause → CypherQuery
query_of clauses = record { clauses = clauses }

-- the scope after `MATCH (n:Person)-[r:KNOWS]->(m:Person)`
abbrev friends_scope : Scope
friends_scope = record {
  kinds = ("n", Scans.node) ∷ ("r", Scans.rel) ∷ ("m", Scans.node) ∷ [];
  bound_vars = "m" ∷ "r" ∷ "n" ∷ [];
  seen_match = true;
}

friends_run : check_clauses (match_of friends ∷ []) ≡ ok friends_scope
unfolding check_clauses check_match try_fold each reject has get upsert
friends_run = refl

friends_match : check_match initial friends Ast.absent ≡ ok friends_scope
unfolding check_match try_fold each reject has get upsert
friends_match = refl

abbrev InScope : Scope → List Clause → Type 0
InScope s cs =
    ((x : String) → has x s.bound_vars ≡ visible cs x)
    × ((x : String) → contains_key s.kinds x ≡ true → visible cs x ≡ true)

check_clauses-visible_example : InScope friends_scope (match_of friends ∷ [])
check_clauses-visible_example =
    check_clauses-visible (match_of friends ∷ []) friends_scope (tt, tt) friends_run

check_match-Typed_example : All (λ p. PatternTyped p friends_scope) (patterns friends)
check_match-Typed_example = check_match-Typed initial friends_scope friends Ast.absent friends_match

check_match-Distinct_example : All (λ p. Distinct (rel_names (elements_of p))) (patterns friends)
check_match-Distinct_example =
    check_match-Distinct initial friends_scope friends Ast.absent friends_match

-- RETURN x
abbrev return_x : CypherQuery
return_x = query_of (return_of (Ast.item (named "x") none Ast.no_item) ∷ [])

return_x_fails :
    validate_semantics return_x ≡ err (translation "UndefinedVariable: variable 'x' not defined")
unfolding validate_semantics check_unions any try_fold check_match each reject has get upsert
    check_return scan_invalid_size collect_free_vars contains_agg_in_list_comp check_create
    segment_columns collect_prop_vars
return_x_fails = refl

validate_semantics-IsTranslation_example :
    IsTranslation (translation "UndefinedVariable: variable 'x' not defined")
validate_semantics-IsTranslation_example =
    validate_semantics-IsTranslation return_x _ return_x_fails

-- CREATE (a:Person)-[r:KNOWS]->(b:Person)
abbrev friendship : PatternList
friendship = path (person "a") (knows (some "r")) (person "b")

abbrev created_scope : Scope
created_scope = record { kinds = []; bound_vars = "a" ∷ "r" ∷ "b" ∷ []; seen_match = false }

friendship_run : check_create initial friendship ≡ ok created_scope
unfolding check_create try_fold each reject has get upsert collect_prop_vars
friendship_run = refl

check_create-Creatable_example :
    All
      (λ p. All (CreatableElement initial (is_standalone p)) (elements_of p))
      (patterns friendship)
check_create-Creatable_example =
    check_create-Creatable initial created_scope friendship friendship_run

-- RETURN 1 AS a
abbrev one_as : String → Clause
one_as a = return_of (Ast.item (Ast.literal (Ast.integer (pos 1))) (some a) Ast.no_item)

mixed_unions :
    check_unions (one_as "a" ∷ Ast.union true ∷ one_as "a" ∷ Ast.union false ∷ one_as "a" ∷ [])
    ≡ err (translation "InvalidClauseComposition: cannot mix UNION and UNION ALL")
unfolding check_unions any reject
mixed_unions = refl

different_columns :
    check_unions (one_as "a" ∷ Ast.union true ∷ one_as "b" ∷ [])
    ≡ err (translation "DifferentColumnsInUnion: UNION arms must return the same column names")
unfolding check_unions any reject each segment_columns
different_columns = refl

-- A path variable of `CREATE` is not registered, so `CREATE p = (a:Person) RETURN p` is refused.
created_path_unseen :
    validate_semantics (
      query_of (
        Ast.create (
          Ast.also
            (Ast.pattern_of (some "p") (Ast.element (person "a") Ast.no_element))
            Ast.no_pattern)
        ∷ return_of (Ast.item (named "p") none Ast.no_item)
        ∷ []))
    ≡ err (translation "UndefinedVariable: variable 'p' not defined")
unfolding validate_semantics check_unions any try_fold check_match each reject has get upsert
    check_return scan_invalid_size collect_free_vars contains_agg_in_list_comp check_create
    segment_columns collect_prop_vars
created_path_unseen = refl

-- A created node has no kind, so `CREATE (a:Person)-[r:KNOWS]->(b:Person)` may be followed by
-- `MATCH (x:Person)-[a:KNOWS]->(y:Person)`.
created_node_as_relationship :
    validate_semantics (
      query_of
        (Ast.create friendship ∷ match_of (path (person "x") (knows (some "a")) (person "y")) ∷ []))
    ≡ ok tt
unfolding validate_semantics check_unions any try_fold check_match each reject has get upsert
    check_return scan_invalid_size collect_free_vars contains_agg_in_list_comp check_create
    segment_columns collect_prop_vars
created_node_as_relationship = refl

-- `x` in the list of a binder of `x` is not replaced.
shadowed_list_kept :
    substitute_var_in_expr
      (Ast.quantifier_expr Ast.any "x" (named "x") Ast.absent)
      "x"
      (Ast.list_of Ast.nil)
    ≡ Ast.quantifier_expr Ast.any "x" (named "x") Ast.absent
unfolding substitute_var_in_expr
shadowed_list_kept = refl

-- A subscript hides its variables.
subscript_unseen :
    expr_references_var (Ast.subscript (named "x") (Ast.literal (Ast.integer (pos 0)))) "x" ≡ false
unfolding expr_references_var
subscript_unseen = refl

-- WITH collect(n) AS l UNWIND l AS m, with or without DISTINCT
abbrev regrouped : Bool → List Clause
regrouped distinct =
    Ast.with_items false
      (Ast.explicit
        (Ast.item (Ast.aggregate (Ast.collect distinct (named "n"))) (some "l") Ast.no_item))
      Ast.absent Ast.unordered Ast.absent Ast.absent
    ∷ Ast.unwind (named "l") "m"
    ∷ []

distinct_lost :
    eliminate_collect_unwind (regrouped true) ≡ eliminate_collect_unwind (regrouped false)
unfolding eliminate_collect_unwind
distinct_lost = refl

-- n.age > 3
abbrev adult : Expression
adult = Ast.comparison (Ast.property (named "n") "age") Ast.gt (Ast.literal (Ast.integer (pos 3)))

adult_age : expr_references_prop adult "n" "age" ≡ true
unfolding expr_references_prop
adult_age = refl

-- A meaning in the numbers: a literal is its value, an operator adds one to the sum of its operands.
sum_all : List ℕ → ℕ
sum_all [] = 1
sum_all (n ∷ ns) = n + sum_all ns

number : Ast.Literal → ℕ
number (Ast.integer (pos n)) = n
number _ = 0

abbrev sums : Algebra
sums = record {
  Value = ℕ;
  constant = number;
  operate = λ _ values. sum_all values;
  slice = λ l _ _. l;
  choose = λ _ _ _. 0;
  quantify = λ _ l _. l;
  comprehend = λ l _ _. l;
  other = λ _ _. 0;
}

abbrev five : Expression
five = Ast.literal (Ast.integer (pos 5))

abbrev no_variables : Environment sums
no_variables _ = 0

-- any(y IN x WHERE y > x), with 5 for x
abbrev above : Expression
above =
    Ast.quantifier_expr Ast.any "y" (named "x")
      (Ast.present (Ast.comparison (named "y") Ast.gt (named "x")))

five_fixed : (env : Environment sums) → meaning sums five env ≡ 5
unfolding meaning number
five_fixed env = refl

above-Substitutable : Substitutable sums "x" five 5 above
unfolding Substitutable
above-Substitutable = (tt, (tt, tt), λ h. absurd (ground (arith, h)))

substitute_var_in_expr-meaning_example :
    meaning sums (substitute_var_in_expr above "x" five) no_variables
    ≡ meaning sums above (assign sums "x" 5 no_variables)
substitute_var_in_expr-meaning_example =
    substitute_var_in_expr-meaning sums "x" five 5 five_fixed above above-Substitutable no_variables
