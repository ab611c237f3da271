-- ===== src/Lqa/Aggregates/Extract.antt =====
-- Which expressions `extract_nested_aggregates` frees of aggregates
-- (crates/polygraph/src/lqa/lower.rs).
use rs_polygraph.Base.{Bool, true, false, ◌||◌, ◌≡◌, refl, ap₂, String}
use rs_polygraph.Lqa.Syntax
use rs_polygraph.Lqa.Syntax.{Expr, Exprs, OptExpr, Branches, AggItems, CmpOp}
use rs_polygraph.Lqa.Aggregates.{
  expr_contains_aggregate, any_contains_aggregate, option_contains_aggregate, Extraction,
  extract_aggregate, extract_nested_aggregates, extract_from_list, extract_from_option,
}

-- Aggregates stand only below arithmetic, NOT, function arguments and list comprehensions.
unfoldable mutual
  pub Extractable : Expr → Type 0
  Extractable (Expr.aggregate _ _ _) = Unit
  Extractable (Expr.add a b) = Extractable a × Extractable b
  Extractable (Expr.sub a b) = Extractable a × Extractable b
  Extractable (Expr.mul a b) = Extractable a × Extractable b
  Extractable (Expr.div a b) = Extractable a × Extractable b
  Extractable (Expr.modulo a b) = Extractable a × Extractable b
  Extractable (Expr.pow a b) = Extractable a × Extractable b
  Extractable (Expr.unary _ e) = Extractable e
  Extractable (Expr.not e) = Extractable e
  Extractable (Expr.function_call _ _ args) = AllExtractable args
  Extractable (Expr.list_comprehension _ list predicate projection) =
      Extractable list × OptExtractable predicate × OptExtractable projection
  Extractable e = expr_contains_aggregate e ≡ false

  pub AllExtractable : Exprs → Type 0
  AllExtractable Syntax.nil = Unit
  AllExtractable (Syntax.cons e rest) = Extractable e × AllExtractable rest

  pub OptExtractable : OptExpr → Type 0
  OptExtractable Syntax.absent = Unit
  OptExtractable (Syntax.present e) = Extractable e

or_false : {a b : Bool} → a ≡ false → b ≡ false → (a || b) ≡ false
or_false p q = ap₂ ◌||◌ p q

mutual
  unfolding expr_contains_aggregate extract_nested_aggregates Extractable extract_aggregate

  extract_free :
      (e : Expr) (s : Extraction)
      → Extractable e
      → expr_contains_aggregate (extract_nested_aggregates e s).0 ≡ false
  extract_free (Expr.aggregate _ _ _) s h = refl
  extract_free (Expr.add a b) s h =
      or_false (extract_free a s h.0) (extract_free b (extract_nested_aggregates a s).1 h.1)
  extract_free (Expr.sub a b) s h =
      or_false (extract_free a s h.0) (extract_free b (extract_nested_aggregates a s).1 h.1)
  extract_free (Expr.mul a b) s h =
      or_false (extract_free a s h.0) (extract_free b (extract_nested_aggregates a s).1 h.1)
  extract_free (Expr.div a b) s h =
      or_false (extract_free a s h.0) (extract_free b (extract_nested_aggregates a s).1 h.1)
  extract_free (Expr.modulo a b) s h =
      or_false (extract_free a s h.0) (extract_free b (extract_nested_aggregates a s).1 h.1)
  extract_free (Expr.pow a b) s h =
      or_false (extract_free a s h.0) (extract_free b (extract_nested_aggregates a s).1 h.1)
  extract_free (Expr.unary _ e) s h = extract_free e s h
  extract_free (Expr.not e) s h = extract_free e s h
  extract_free (Expr.function_call _ _ args) s h = extract_free_list args s h
  extract_free (Expr.list_comprehension _ list predicate projection) s h =
      let s1 = (extract_nested_aggregates list s).1 in
      or_false (extract_free list s h.0) (
        or_false (extract_free_option predicate s1 h.1)
          (extract_free_option projection (extract_from_option predicate s1).1 h.2))
  extract_free _ s h = h

  extract_free_list :
      (es : Exprs) (s : Extraction)
      → AllExtractable es
      → any_contains_aggregate (extract_from_list es s).0 ≡ false
  extract_free_list Syntax.nil s h = refl
  extract_free_list (Syntax.cons e rest) s h =
      or_false (extract_free e s h.0) (extract_free_list rest (extract_nested_aggregates e s).1 h.1)

  extract_free_option :
      (o : OptExpr) (s : Extraction)
      → OptExtractable o
      → option_contains_aggregate (extract_from_option o s).0 ≡ false
  extract_free_option Syntax.absent s h = refl
  extract_free_option (Syntax.present e) s h = extract_free e s h

-- After extraction no aggregate is left in an expression whose aggregates stand only below
-- arithmetic, NOT, function arguments and list comprehensions, whatever was extracted before.
pub extract_nested_aggregates_free :
    (e : Expr) (s : Extraction)
    → Extractable e
    → expr_contains_aggregate (extract_nested_aggregates e s).0 ≡ false
extract_nested_aggregates_free e s h = extract_free e s h

-- The operators that the test looks through and the extraction does not.
pub data Passed : Expr → Type 0 where
  and : (a b : Expr) → Passed (Expr.and a b)
  or : (a b : Expr) → Passed (Expr.or a b)
  xor : (a b : Expr) → Passed (Expr.xor a b)
  comparison : (op : CmpOp) (a b : Expr) → Passed (Expr.comparison op a b)
  is_null : (a : Expr) → Passed (Expr.is_null a)
  is_not_null : (a : Expr) → Passed (Expr.is_not_null a)
  property : (a : Expr) (k : String) → Passed (Expr.property a k)
  list_of : (es : Exprs) → Passed (Expr.list_of es)
  case_searched : (bs : Branches) (o : OptExpr) → Passed (Expr.case_searched bs o)

-- Below AND, OR, XOR, a comparison, a null test, a property access, a list or a CASE nothing is
-- extracted: the expression keeps its aggregates, and none is recorded.
extract_skips :
    {e : Expr} (s : Extraction)
    → Passed e
    → expr_contains_aggregate e ≡ true
    → (expr_contains_aggregate (extract_nested_aggregates e s).0 ≡ true)
      × ((extract_nested_aggregates e s).1 ≡ s)
unfolding extract_nested_aggregates
extract_skips s (and a b) h = (h, refl)
extract_skips s (or a b) h = (h, refl)
extract_skips s (xor a b) h = (h, refl)
extract_skips s (comparison op a b) h = (h, refl)
extract_skips s (is_null a) h = (h, refl)
extract_skips s (is_not_null a) h = (h, refl)
extract_skips s (property a k) h = (h, refl)
extract_skips s (list_of es) h = (h, refl)
extract_skips s (case_searched bs o) h = (h, refl)
