-- ===== src/Lqa/Lower/Ranges.antt =====
-- Calls of `range` with literal arguments, which the lowering computes
-- (crates/polygraph/src/lqa/lower.rs).
use rs_polygraph.Base.{
  ℕ, zero, suc, ◌+◌, ◌-◌, ◌^◌, String, Bool, true, false, ◌&&◌, ◌||◌, Option, none, some,
  if◌then◌else◌,
}
use rs_polygraph.Base.Int.{ℤ, pos, negsuc, ◌+ℤ◌, ◌-ℤ◌, neg, eq_ℤ, ltb_ℤ, leb_ℤ}
use rs_polygraph.Base.Names.{eq_ignore_ascii_case}
use rs_polygraph.Ast
use rs_polygraph.Lqa.Syntax
use rs_polygraph.Lqa.Syntax.{Expr, Exprs, Literal}
use rs_polygraph.Lqa.Syntax.Build.{int}
use rs_polygraph.Lqa.Lower.Terms.{is_integer}

-- an `i64` after a wrap around
unfoldable pub wrap_i64 : ℤ → ℤ
wrap_i64 a =
    if leb_ℤ (pos (2 ^ 63)) a
    then a -ℤ pos (2 ^ 64)
    else if ltb_ℤ a (neg (pos (2 ^ 63)))
    then a +ℤ pos (2 ^ 64)
    else a

-- whether the loop goes on
abbrev pub in_range : ℤ → ℤ → ℤ → Bool
in_range e st i = (ltb_ℤ (pos 0) st && leb_ℤ i e) || (ltb_ℤ st (pos 0) && leb_ℤ e i)

-- The loop, with `i` next, for at most `fuel` rounds. Without fuel it has no value.
unfoldable pub range_loop : ℕ → ℤ → ℤ → ℤ → Option Exprs
unfolding wrap_i64
range_loop zero e st i = none
range_loop (suc fuel) e st i = elim (in_range e st i) [
  | true ↦ elim (range_loop fuel e st (wrap_i64 (i +ℤ st))) [
    | none ↦ none
    | some rest ↦ some (Syntax.cons (int i) rest)
  ]
  | false ↦ some Syntax.nil
]

-- a round for each number from one end to the other, and one to stop
abbrev pub distance : ℤ → ℤ → ℕ
distance (pos a) (pos b) = (a - b) + (b - a)
distance (pos a) (negsuc b) = a + suc b
distance (negsuc a) (pos b) = suc a + b
distance (negsuc a) (negsuc b) = (a - b) + (b - a)

abbrev pub range_fuel : ℤ → ℤ → ℕ
range_fuel s e = suc (suc (distance s e))

-- not folded, or the outcome of the loop
abbrev pub range_items : Option ℤ → Option ℤ → Option ℤ → Option (Option Exprs)
range_items (some s) (some e) (some st) = some (range_loop (range_fuel s e) e st s)
range_items _ _ _ = none

-- a step that is no literal, or zero, is not folded
abbrev pub step_of : Option ℤ → Option ℤ
step_of none = none
step_of (some n) = if eq_ℤ n (pos 0) then none else some n

-- `range(start, end [, step])` of literals
unfoldable pub range_of : String → Ast.Expressions → Option (Option Exprs)
unfolding range_loop
range_of name (Ast.cons a (Ast.cons b Ast.nil)) =
    if eq_ignore_ascii_case name "range"
    then range_items (is_integer a) (is_integer b) (some (pos 1))
    else none
range_of name (Ast.cons a (Ast.cons b (Ast.cons c Ast.nil))) =
    if eq_ignore_ascii_case name "range"
    then range_items (is_integer a) (is_integer b) (step_of (is_integer c))
    else none
range_of name _ = none
