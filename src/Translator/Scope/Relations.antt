-- ===== src/Translator/Scope/Relations.antt =====
-- The check that a pattern uses no relationship variable twice
-- (crates/polygraph/src/translator/cypher/semantics.rs).
use rs_polygraph.Base.{String, true, false, ◌||◌, Option, none, some, List, [], ◌∷◌, ◌≡◌, arith}
use rs_polygraph.Base.Eq.{◌==◌, string_eq}
use rs_polygraph.Base.Names.{has, has-insert, has-nil}
use rs_polygraph.Ast
use rs_polygraph.Ast.{Pattern, PatternElement, Direction, OptMapLiteral, RangeQuantifier}
use rs_polygraph.Ast.Views.{elements_of}
use rs_polygraph.Results.Checks.{Ensures, Passes, passes, ◌⟫◌, weaken, reject_lem, try_fold}
use rs_polygraph.Translator.Scope.Match.{unique_rel, check_unique_rels}

-- the relationship variables, in order
pub rel_names : List PatternElement → List String
rel_names [] = []
rel_names (Ast.relationship (some v) _ _ _ _ ∷ es) = v ∷ rel_names es
rel_names (_ ∷ es) = rel_names es

abbrev pub Distinct : List String → Type 0
Distinct [] = Unit
Distinct (x ∷ xs) = (has x xs ≡ false) × Distinct xs

unique_rel-adds :
    (seen : List String) (v : String) (direction : Direction) (types : List String)
    (properties : OptMapLiteral) (range : Option RangeQuantifier)
    → Ensures
        (λ seen'. (has v seen ≡ false) × ((x : String) → has x seen' ≡ (v == x || has x seen)))
        (unique_rel seen (Ast.relationship (some v) direction types properties range))
unfolding unique_rel
unique_rel-adds seen v direction types properties range =
    reject_lem _ _ ⟫ λ _ new. passes (new, λ x. has-insert x v seen)

-- The loop refuses what was seen and what it sees twice.
unique_rel-Distinct :
    (seen : List String) (es : List PatternElement)
    → Ensures
        (λ _.
          Distinct (rel_names es)
          × ((x : String) → has x seen ≡ true → has x (rel_names es) ≡ false))
        (try_fold unique_rel seen es)
unfolding try_fold rel_names unique_rel has
unique_rel-Distinct seen [] = passes (tt, λ x h. has-nil x)
unique_rel-Distinct seen (Ast.node _ _ _ ∷ es) = unique_rel-Distinct seen es
unique_rel-Distinct seen (Ast.relationship none _ _ _ _ ∷ es) = unique_rel-Distinct seen es
unique_rel-Distinct seen (Ast.relationship (some v) way types properties range ∷ es) =
    unique_rel-adds seen v way types properties range ⟫ λ seen' (new, grows).
    weaken
      (λ _ (d, apart).
        ((later seen' (apart v) (grows v), d), λ x h. first seen' x h new (apart x) (grows x)))
      (unique_rel-Distinct seen' es)
  where
    later :
        (seen' : List String)
        → (has v seen' ≡ true → has v (rel_names es) ≡ false)
        → has v seen' ≡ (v == v || has v seen)
        → has v (rel_names es) ≡ false
    later seen' apart grows = ground (arith, apart, grows, string_eq.decides v v)

    first :
        (seen' : List String) (x : String)
        → has x seen ≡ true
        → has v seen ≡ false
        → (has x seen' ≡ true → has x (rel_names es) ≡ false)
        → has x seen' ≡ (v == x || has x seen)
        → has x (v ∷ rel_names es) ≡ false
    first seen' x h new apart grows = ground (arith, h, new, apart, grows, string_eq.decides v x)

-- A pattern that passes has distinct relationship variables.
pub check_unique_rels-Distinct :
    (p : Pattern) → Passes (check_unique_rels p) (Distinct (rel_names (elements_of p)))
unfolding check_unique_rels
check_unique_rels-Distinct p = unique_rel-Distinct [] (elements_of p) ⟫ λ _ (d, _). passes d
