-- ===== src/Translator/Validate/Scopes.antt =====
-- The scopes that `validate_semantics` computes, against the scope rules
-- (crates/polygraph/src/translator/cypher/semantics.rs).
use rs_polygraph.Base.{String, Bool, true, false, ◌||◌, List, [], ◌∷◌, ◌≡◌, sym, ◌∙◌, arith, All}
use rs_polygraph.Base.Dict.{get}
use rs_polygraph.Base.Eq.{string_eq}
use rs_polygraph.Base.Names.{has, has-insert, has-nil}
use rs_polygraph.Ast
use rs_polygraph.Ast.{Clause, CypherQuery}
use rs_polygraph.Ast.Views.{ReturnItem}
use rs_polygraph.Results.{PolygraphError, translation, ok, err}
use rs_polygraph.Results.Checks.{Ensures, Passes, passes, ◌⟫◌, weaken, try_fold, of_ok, of_err}
use rs_polygraph.Translator.Collect.{collect_free_vars}
use rs_polygraph.Translator.Scans.{contains_key}
use rs_polygraph.Translator.Scope.{Scope}
use rs_polygraph.Translator.Scope.Known.{Known, Extended, same-Extended}
use rs_polygraph.Translator.Scope.Visible.{visible}
use rs_polygraph.Translator.Scope.Tracked.{
  registered, tracked_after, tracked_from, tracked, IsPlain, tracked-visible,
}
use rs_polygraph.Translator.Collect.Occurs.{Occurs}
use rs_polygraph.Translator.Scope.Binds.{check_match-Extended}
use rs_polygraph.Translator.Scope.Creates.{check_create-Extended, check_merge-Extended}
use rs_polygraph.Translator.Scope.Replaces.{check_with-replaces}
use rs_polygraph.Translator.Scope.Update.{check_unwind}
use rs_polygraph.Translator.Scope.With.{check_with}
use rs_polygraph.Translator.Validate.{check_clause, check_clauses, initial, validate_semantics}
use rs_polygraph.Translator.Unions.Passing.{check_unions_passes}
use rs_polygraph.Translator.Validate.Passing.{
  check_return-Closed, check_delete_passes, check_set_passes,
}

-- `s` has known kinds, and the names that `names` has.
pub record Scoped (names : String → Bool) (s : Scope) : Type 0 where
  pub known : Known s
  pub exact : (x : String) → has x s.bound_vars ≡ names x

extended :
    (names : String → Bool) (s s' : Scope) (new : List String)
    → Scoped names s
    → Extended s new s'
    → Scoped (λ x. names x || has x new) s'
extended names s s' new h e = record {
  known = e.known;
  exact = λ x. ground (arith, e.grows x, h.exact x);
}

unchanged :
    (names : String → Bool) (s : Scope) → Scoped names s → Scoped (λ x. names x || has x []) s
unchanged names s h = extended names s s [] h (same-Extended h.known)

check_unwind-Extended : (s : Scope) (v : String) → Known s → Extended s (v ∷ []) (check_unwind s v)
unfolding check_unwind has
check_unwind-Extended s v known = record {
  known = λ x k. ground (arith, has-insert x v s.bound_vars, known x k);
  grows = λ x. ground (arith, has-insert x v s.bound_vars);
}

check_clause-Scoped :
    (names : String → Bool) (s : Scope) (c : Clause)
    → Scoped names s
    → Ensures (Scoped (tracked_after c names)) (check_clause s c)
unfolding check_clause check_with tracked_after registered
check_clause-Scoped names s (Ast.with_items _ (Ast.explicit list) _ order _ _) h =
    weaken (λ s' (k, e). record { known = k; exact = e }) (check_with-replaces s list order)
check_clause-Scoped names s (Ast.with_items _ Ast.all_items _ order _ _) h =
    passes (unchanged names s h)
check_clause-Scoped names s (Ast.match _ list condition) h =
    weaken (λ s' e. extended names s s' _ h e) (check_match-Extended s list condition h.known)
check_clause-Scoped names s (Ast.return distinct items order _ _) h =
    check_return-Closed s distinct items order h.known ⟫ λ _ _. passes (unchanged names s h)
check_clause-Scoped names s (Ast.unwind _ v) h =
    passes (extended names s _ _ h (check_unwind-Extended s v h.known))
check_clause-Scoped names s (Ast.create list) h =
    weaken (λ s' e. extended names s s' _ h e) (check_create-Extended s list h.known)
check_clause-Scoped names s (Ast.merge p actions) h =
    weaken (λ s' e. extended names s s' _ h e) (check_merge-Extended s p actions h.known)
check_clause-Scoped names s (Ast.set items) h =
    check_set_passes s items h.known ⟫ λ _ _. passes (unchanged names s h)
check_clause-Scoped names s (Ast.delete _ deleted) h =
    check_delete_passes s deleted ⟫ λ _ _. passes (unchanged names s h)
check_clause-Scoped names s (Ast.remove _) h = passes (unchanged names s h)
check_clause-Scoped names s (Ast.call _ _ _) h = passes (unchanged names s h)
check_clause-Scoped names s (Ast.union _) h = passes (unchanged names s h)

fold-Scoped :
    (names : String → Bool) (s : Scope) (cs : List Clause)
    → Scoped names s
    → Ensures (Scoped (tracked_from names cs)) (try_fold check_clause s cs)
unfolding try_fold tracked_from
fold-Scoped names s [] h = passes h
fold-Scoped names s (c ∷ cs) h =
    check_clause-Scoped names s c h ⟫ λ s' h'. fold-Scoped (tracked_after c names) s' cs h'

initial-Scoped : Scoped (λ _. false) initial
unfolding get
initial-Scoped = record { known = λ x k. ground (arith, k); exact = λ x. has-nil x }

pub check_clauses-Ensures : (cs : List Clause) → Ensures (Scoped (tracked cs)) (check_clauses cs)
unfolding check_clauses tracked
check_clauses-Ensures cs = fold-Scoped (λ _. false) initial cs initial-Scoped

-- When the loop over the clauses passes, and no clause has a YIELD, is a UNION, or creates a path that
-- has a variable, the names in its scope are exactly the variables that the scope rules make visible
-- after the clauses, and every variable with a kind is among them.
pub check_clauses-visible :
    (cs : List Clause) (s : Scope)
    → All IsPlain cs
    → check_clauses cs ≡ ok s
    → ((x : String) → has x s.bound_vars ≡ visible cs x)
      × ((x : String) → contains_key s.kinds x ≡ true → visible cs x ≡ true)
check_clauses-visible cs s plain e =
    let scoped : Scoped (tracked cs) s = of_ok (rw e at (check_clauses-Ensures cs)) in
    (
      λ x. scoped.exact x ∙ tracked-visible cs plain x,
      λ x k. sym (tracked-visible cs plain x) ∙ ground (arith, scoped.exact x, scoped.known x k),
    )

-- every collected variable of the item is among the names
abbrev Collects : (String → Bool) → ReturnItem → Type 0
Collects names i = All (λ v. names v ≡ true) (collect_free_vars i.expression)

-- every variable that occurs in the item is among the names
abbrev pub Refers : (String → Bool) → ReturnItem → Type 0
Refers names i = (x : String) → Occurs x i.expression → names x ≡ true

validate_semantics-Ensures : (query : CypherQuery) → Passes (validate_semantics query) (Unit {0})
unfolding validate_semantics
validate_semantics-Ensures query = check_unions_passes query.clauses ⟫ λ _ _.
    check_clauses-Ensures query.clauses ⟫ λ _ _. passes tt

abbrev pub IsTranslation : PolygraphError → Type 0
IsTranslation e = (message : String) × (e ≡ translation message)

-- A query that does not pass is refused with a translation error, never with another kind.
pub validate_semantics-IsTranslation :
    (query : CypherQuery) (e : PolygraphError) → validate_semantics query ≡ err e → IsTranslation e
validate_semantics-IsTranslation query e h = of_err (rw h at (validate_semantics-Ensures query))
