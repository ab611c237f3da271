-- ===== src/Translator/Quantifiers.antt =====
-- The canonical forms of quantifiers over list variables: `strip_not_chain` and
-- `quantifier_canonical` (crates/polygraph/src/translator/cypher/mod.rs) and `get_literal_int`
-- (crates/polygraph/src/translator/cypher/temporal.rs).
pub mod Counting
pub mod Truth
pub mod Sound
mod Examples
use rs_polygraph.Base.{
  ℕ, String, Bool, true, false, not, ◌&&◌, Option, none, some, List, if◌then◌else◌,
}
use rs_polygraph.Base.Int.{ℤ, pos, neg, eq_ℤ}
use rs_polygraph.Base.Eq.{◌==◌, string_eq}
use rs_polygraph.Base.Names.{has, eq_ignore_ascii_case}
use rs_polygraph.Ast
use rs_polygraph.Ast.{Expression, OptExpression, CompOp, QuantifierKind}

-- an integer literal, or the negation of one
unfoldable pub get_literal_int : Expression → Option ℤ
get_literal_int (Ast.literal (Ast.integer n)) = some n
get_literal_int (Ast.negate (Ast.literal (Ast.integer n))) = some (neg n)
get_literal_int _ = none

-- the loop, with `negated` so far
unfoldable pub strip_not_chain : Bool → Expression → Bool × Expression
strip_not_chain negated (Ast.not e) = strip_not_chain (not negated) e
strip_not_chain negated e = (negated, e)

-- kind 0 of the source is `none_of`, 1 is `some_of` and 2 is `one_of`
pub data KeyKind : Type 0 where
  none_of some_of one_of : KeyKind

-- `(list_var, kind, base_pred, pred_negated)`
pub record Key : Type 0 where
  pub list_var : String
  pub kind : KeyKind
  pub base : Expression
  pub negated : Bool

-- a predicate that is left out is `true`
abbrev pub pred_raw : OptExpression → Expression
pred_raw Ast.absent = Ast.literal (Ast.boolean true)
pred_raw (Ast.present p) = p

abbrev pub key_of : String → KeyKind → Bool × Expression → Key
key_of v kind (negated, base) = record { list_var = v; kind = kind; base = base; negated = negated }

-- the key whose predicate is negated once more
abbrev pub negated_key_of : String → KeyKind → Bool × Expression → Key
negated_key_of v kind (negated, base) = key_of v kind (not negated, base)

abbrev pub quantifier_key : QuantifierKind → String → Bool × Expression → Key
quantifier_key Ast.no_one v p = key_of v none_of p
quantifier_key Ast.any v p = key_of v some_of p
quantifier_key Ast.all v p = negated_key_of v none_of p
quantifier_key Ast.single v p = key_of v one_of p

-- `NOT none` is `any` and `NOT any` is `none`
abbrev pub swap_kind : Key → KeyKind → Option Key
swap_kind k none_of = some (record k { kind = some_of })
swap_kind k some_of = some (record k { kind = none_of })
swap_kind k one_of = none

abbrev pub not_key : Option Key → Option Key
not_key none = none
not_key (some k) = swap_kind k k.kind

-- the variable `u` of `size(u)`
unfoldable pub sized_variable : Expression → Option String
sized_variable (Ast.function_call name _ (Ast.cons (Ast.variable u) _)) =
    if eq_ignore_ascii_case name "size" then some u else none
sized_variable _ = none

abbrev pub is_just : String → Option String → Bool
is_just v none = false
is_just v (some u) = u == v

-- `size([x IN v WHERE p | …]) = rhs`, given the value of `rhs` as a literal
abbrev pub size_eq_key : String → Bool × Expression → Option ℤ → Expression → Option Key
size_eq_key v p (some n) rhs =
    if eq_ℤ n (pos 0)
    then some (key_of v none_of p)
    else if eq_ℤ n (pos 1)
    then some (key_of v one_of p)
    else none
size_eq_key v p none rhs =
    if is_just v (sized_variable rhs) then some (negated_key_of v none_of p) else none

-- `size([x IN v WHERE p | …]) > rhs`
abbrev pub size_gt_key : String → Bool × Expression → Option ℤ → Option Key
size_gt_key v p (some n) = if eq_ℤ n (pos 0) then some (key_of v some_of p) else none
size_gt_key v p none = none

abbrev pub size_key : String → Bool × Expression → CompOp → Expression → Option Key
size_key v p Ast.eq rhs = size_eq_key v p (get_literal_int rhs) rhs
size_key v p Ast.gt rhs = size_gt_key v p (get_literal_int rhs)
size_key v p _ rhs = none

unfoldable pub quantifier_canonical : Expression → List String → Option Key
unfolding get_literal_int sized_variable strip_not_chain
quantifier_canonical (Ast.quantifier_expr kind _ (Ast.variable v) p) opaque =
    if has v opaque then some (quantifier_key kind v (strip_not_chain false (pred_raw p))) else none
quantifier_canonical (Ast.not e) opaque = not_key (quantifier_canonical e opaque)
quantifier_canonical
      (Ast.comparison
        (Ast.function_call name _ (Ast.cons (Ast.list_comprehension _ (Ast.variable v) p _) _))
        op
        rhs)
      opaque =
    if eq_ignore_ascii_case name "size" && has v opaque
    then size_key v (strip_not_chain false (pred_raw p)) op rhs
    else none
quantifier_canonical _ opaque = none
