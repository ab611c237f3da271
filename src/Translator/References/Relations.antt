-- ===== src/Translator/References/Relations.antt =====
-- What the searches of expressions have to do with one another
-- (crates/polygraph/src/translator/cypher/util.rs).
use rs_polygraph.Base.{String, Bool, true, false, ◌||◌, ◌&&◌, ◌≡◌, refl, arith}
use rs_polygraph.Base.Eq.{string_eq}
use rs_polygraph.Ast
use rs_polygraph.Ast.{Expression, Expressions, MapLiteral}
use rs_polygraph.Translator.References.{
  expr_references_var, any_references_var, map_references_var, expr_references_prop,
  any_references_prop, map_references_prop, predicate_uses_numeric_arithmetic, is_named,
}

or_mono :
    (a b c d : Bool)
    → (a ≡ true → c ≡ true)
    → (b ≡ true → d ≡ true)
    → (a || b) ≡ true
    → (c || d) ≡ true
or_mono true b c d f g h = ground (arith, f refl)
or_mono false b c d f g h = ground (arith, g h)

or_either :
    (a b c : Bool) → (a ≡ true → c ≡ true) → (b ≡ true → c ≡ true) → (a || b) ≡ true → c ≡ true
or_either true b c f g h = f refl
or_either false b c f g h = g h

and_right : (a b : Bool) → (a && b) ≡ true → b ≡ true
and_right true b h = h
and_right false b h = absurd (ground (arith, h))

or_inner :
    (a b c d : Bool)
    → (c ≡ true → a ≡ true)
    → (d ≡ true → b ≡ true)
    → (a || b || c || d) ≡ true
    → (a || b) ≡ true
or_inner true b c d f g h = refl
or_inner false true c d f g h = refl
or_inner false false c d f g h = or_either c d false f g h

named-references :
    (e : Expression) (x : String) → is_named e x ≡ true → expr_references_var e x ≡ true
unfolding expr_references_var
named-references (Ast.variable v) x h = h
named-references _ x h = absurd (ground (arith, h))

mutual
  unfolding expr_references_var expr_references_prop

  references_prop-var :
      (e : Expression) (x key : String)
      → expr_references_prop e x key ≡ true
      → expr_references_var e x ≡ true
  references_prop-var (Ast.property base k) x key h =
      or_either _ _ _ (λ p. named-references base x (and_right _ _ p))
        (references_prop-var base x key) h
  references_prop-var (Ast.or a b) x key h =
      or_mono _ _ _ _ (references_prop-var a x key) (references_prop-var b x key) h
  references_prop-var (Ast.and a b) x key h =
      or_mono _ _ _ _ (references_prop-var a x key) (references_prop-var b x key) h
  references_prop-var (Ast.xor a b) x key h =
      or_mono _ _ _ _ (references_prop-var a x key) (references_prop-var b x key) h
  references_prop-var (Ast.add a b) x key h =
      or_mono _ _ _ _ (references_prop-var a x key) (references_prop-var b x key) h
  references_prop-var (Ast.subtract a b) x key h =
      or_mono _ _ _ _ (references_prop-var a x key) (references_prop-var b x key) h
  references_prop-var (Ast.multiply a b) x key h =
      or_mono _ _ _ _ (references_prop-var a x key) (references_prop-var b x key) h
  references_prop-var (Ast.divide a b) x key h =
      or_mono _ _ _ _ (references_prop-var a x key) (references_prop-var b x key) h
  references_prop-var (Ast.modulo a b) x key h =
      or_mono _ _ _ _ (references_prop-var a x key) (references_prop-var b x key) h
  references_prop-var (Ast.power a b) x key h =
      or_mono _ _ _ _ (references_prop-var a x key) (references_prop-var b x key) h
  references_prop-var (Ast.comparison a _ b) x key h =
      or_mono _ _ _ _ (references_prop-var a x key) (references_prop-var b x key) h
  references_prop-var (Ast.not e) x key h = references_prop-var e x key h
  references_prop-var (Ast.negate e) x key h = references_prop-var e x key h
  references_prop-var (Ast.is_null e) x key h = references_prop-var e x key h
  references_prop-var (Ast.is_not_null e) x key h = references_prop-var e x key h
  references_prop-var (Ast.list_of es) x key h = any_references_prop-var es x key h
  references_prop-var (Ast.map_of ps) x key h = map_references_prop-var ps x key h
  references_prop-var (Ast.function_call _ _ es) x key h = any_references_prop-var es x key h
  references_prop-var _ x key h = absurd (ground (arith, h))

  any_references_prop-var :
      (es : Expressions) (x key : String)
      → any_references_prop es x key ≡ true
      → any_references_var es x ≡ true
  any_references_prop-var Ast.nil x key h = h
  any_references_prop-var (Ast.cons e es) x key h =
      or_mono _ _ _ _ (references_prop-var e x key) (any_references_prop-var es x key) h

  map_references_prop-var :
      (ps : MapLiteral) (x key : String)
      → map_references_prop ps x key ≡ true
      → map_references_var ps x ≡ true
  map_references_prop-var Ast.no_pair x key h = h
  map_references_prop-var (Ast.pair _ e ps) x key h =
      or_mono _ _ _ _ (references_prop-var e x key) (map_references_prop-var ps x key) h

-- An expression that references a property of a variable references the variable.
expr_references_prop-var :
    (e : Expression) (x key : String)
    → expr_references_prop e x key ≡ true
    → expr_references_var e x ≡ true
expr_references_prop-var e x key h = references_prop-var e x key h

-- A predicate that uses a variable in numeric arithmetic references it.
pub predicate_uses_numeric_arithmetic-var :
    (e : Expression) (x : String)
    → predicate_uses_numeric_arithmetic e x ≡ true
    → expr_references_var e x ≡ true
unfolding predicate_uses_numeric_arithmetic expr_references_var
predicate_uses_numeric_arithmetic-var (Ast.modulo a b) x h =
    or_inner _ _ _ _ (predicate_uses_numeric_arithmetic-var a x)
      (predicate_uses_numeric_arithmetic-var b x) h
predicate_uses_numeric_arithmetic-var (Ast.multiply a b) x h =
    or_inner _ _ _ _ (predicate_uses_numeric_arithmetic-var a x)
      (predicate_uses_numeric_arithmetic-var b x) h
predicate_uses_numeric_arithmetic-var (Ast.divide a b) x h =
    or_inner _ _ _ _ (predicate_uses_numeric_arithmetic-var a x)
      (predicate_uses_numeric_arithmetic-var b x) h
predicate_uses_numeric_arithmetic-var (Ast.subtract a b) x h =
    or_inner _ _ _ _ (predicate_uses_numeric_arithmetic-var a x)
      (predicate_uses_numeric_arithmetic-var b x) h
predicate_uses_numeric_arithmetic-var (Ast.power a b) x h =
    or_inner _ _ _ _ (predicate_uses_numeric_arithmetic-var a x)
      (predicate_uses_numeric_arithmetic-var b x) h
predicate_uses_numeric_arithmetic-var (Ast.comparison a _ b) x h =
    or_mono _ _ _ _ (predicate_uses_numeric_arithmetic-var a x)
      (predicate_uses_numeric_arithmetic-var b x) h
predicate_uses_numeric_arithmetic-var (Ast.or a b) x h =
    or_mono _ _ _ _ (predicate_uses_numeric_arithmetic-var a x)
      (predicate_uses_numeric_arithmetic-var b x) h
predicate_uses_numeric_arithmetic-var (Ast.and a b) x h =
    or_mono _ _ _ _ (predicate_uses_numeric_arithmetic-var a x)
      (predicate_uses_numeric_arithmetic-var b x) h
predicate_uses_numeric_arithmetic-var (Ast.xor a b) x h =
    or_mono _ _ _ _ (predicate_uses_numeric_arithmetic-var a x)
      (predicate_uses_numeric_arithmetic-var b x) h
predicate_uses_numeric_arithmetic-var (Ast.negate e) x h =
    or_either _ _ _ (λ p. p) (predicate_uses_numeric_arithmetic-var e x) h
predicate_uses_numeric_arithmetic-var _ x h = absurd (ground (arith, h))
