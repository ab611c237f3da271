-- ===== src/Lqa/Lower/Progressions.antt =====
-- The lists that calls of `range` with literal arguments become
-- (crates/polygraph/src/lqa/lower.rs).
use rs_polygraph.Lqa.Lower.Outcomes.{ok}
use rs_polygraph.Base.{
  ℕ, zero, suc, ◌+◌, ◌-◌, ◌/◌, ◌^◌, ◌≤◌, ◌<◌, Bool, true, false, none, some, ◌≡◌, refl, ◌∙◌, sym,
  ap, arith, if◌then◌else◌, inl, inr, le-or-lt, Bool-cases, String,
}
use native.Mathlib.Nat.{div-eq_of_lt, add-div_right}
use rs_polygraph.Base.Int.{ℤ, pos, negsuc, ◌+ℤ◌, neg, ◌≤ℤ◌, eq_ℤ, leb_ℤ}
use rs_polygraph.Lqa.Syntax
use rs_polygraph.Base.Names.{eq_ignore_ascii_case}
use rs_polygraph.Ast
use rs_polygraph.Lqa.Syntax.{Expr, Exprs}
use rs_polygraph.Lqa.Lower.State.{AstLowerer, Lowering, pure, ◌>>=◌}
use rs_polygraph.Lqa.Lower.Folding.{Texts, lower_call}
use rs_polygraph.Lqa.Lower.Steps.{range_list}
use rs_polygraph.Lqa.Lower.Queries.{lower_expr, lower_all}
use rs_polygraph.Lqa.Syntax.Build.{int}
use rs_polygraph.Lqa.Lower.Ranges.{range_of, wrap_i64, in_range, range_loop, distance}

-- the size of a step
abbrev size : ℤ → ℕ
size (pos n) = n
size (negsuc n) = suc n

-- `n` numbers, from `i` on
unfoldable pub progression : ℕ → ℤ → ℤ → Exprs
progression zero i st = Syntax.nil
progression (suc n) i st = Syntax.cons (int i) (progression n (i +ℤ st) st)

abbrev pub IsI64 : ℤ → Type 0
IsI64 a = (neg (pos (2 ^ 63)) ≤ℤ a) × (a ≤ℤ pos (2 ^ 63 - 1))

wrap_i64_of_fit : (a : ℤ) → IsI64 a → wrap_i64 a ≡ a
unfolding wrap_i64
wrap_i64_of_fit (pos n) h = ground (arith, h)
wrap_i64_of_fit (negsuc n) h = ground (arith, h)

steps_in :
    (e st i : ℤ)
    → in_range e st i ≡ true
    → size st ≤ distance i e
    → (in_range e st (i +ℤ st) ≡ true) × (distance (i +ℤ st) e + size st ≡ distance i e)
steps_in (pos e) (pos st) (pos i) h g = ground (arith, h, g)
steps_in (pos e) (pos st) (negsuc i) h g = ground (arith, h, g)
steps_in (negsuc e) (pos st) (pos i) h g = ground (arith, h, g)
steps_in (negsuc e) (pos st) (negsuc i) h g = ground (arith, h, g)
steps_in (pos e) (negsuc st) (pos i) h g = ground (arith, h, g)
steps_in (pos e) (negsuc st) (negsuc i) h g = ground (arith, h, g)
steps_in (negsuc e) (negsuc st) (pos i) h g = ground (arith, h, g)
steps_in (negsuc e) (negsuc st) (negsuc i) h g = ground (arith, h, g)

steps_out :
    (e st i : ℤ) → in_range e st i ≡ true → distance i e < size st → in_range e st (i +ℤ st) ≡ false
steps_out (pos e) (pos st) (pos i) h g = ground (arith, h, g)
steps_out (pos e) (pos st) (negsuc i) h g = ground (arith, h, g)
steps_out (negsuc e) (pos st) (pos i) h g = ground (arith, h, g)
steps_out (negsuc e) (pos st) (negsuc i) h g = ground (arith, h, g)
steps_out (pos e) (negsuc st) (pos i) h g = ground (arith, h, g)
steps_out (pos e) (negsuc st) (negsuc i) h g = ground (arith, h, g)
steps_out (negsuc e) (negsuc st) (pos i) h g = ground (arith, h, g)
steps_out (negsuc e) (negsuc st) (negsuc i) h g = ground (arith, h, g)

in_range-IsI64 : (e st i : ℤ) → in_range e st i ≡ true → IsI64 i → IsI64 (e +ℤ st) → IsI64 (i +ℤ st)
in_range-IsI64 (pos e) (pos st) (pos i) h f g = ground (arith, h, f, g)
in_range-IsI64 (pos e) (pos st) (negsuc i) h f g = ground (arith, h, f, g)
in_range-IsI64 (negsuc e) (pos st) (pos i) h f g = ground (arith, h, f, g)
in_range-IsI64 (negsuc e) (pos st) (negsuc i) h f g = ground (arith, h, f, g)
in_range-IsI64 (pos e) (negsuc st) (pos i) h f g = ground (arith, h, f, g)
in_range-IsI64 (pos e) (negsuc st) (negsuc i) h f g = ground (arith, h, f, g)
in_range-IsI64 (negsuc e) (negsuc st) (pos i) h f g = ground (arith, h, f, g)
in_range-IsI64 (negsuc e) (negsuc st) (negsuc i) h f g = ground (arith, h, f, g)

in_range-size : (e st i : ℤ) → in_range e st i ≡ true → 0 < size st
in_range-size e (pos st) i h = ground (arith, h)
in_range-size e (negsuc st) i h = omega arith

-- the rounds of the loop from `i` on
abbrev rounds : ℤ → ℤ → ℤ → ℕ
rounds e st i = if in_range e st i then suc (distance i e / size st) else 0

rounds_stop : (e st i : ℤ) → in_range e st i ≡ true → distance i e < size st → rounds e st i ≡ 1
rounds_stop e st i h l = rw (h, div-eq_of_lt l)

rounds_go :
    (e st i : ℤ)
    → in_range e st i ≡ true
    → size st ≤ distance i e
    → rounds e st i ≡ suc (rounds e st (i +ℤ st))
rounds_go e st i h l =
    let (b, d) = steps_in e st i h l in
    rw (h, b, ← d, add-div_right (distance (i +ℤ st) e) (in_range-size e st i h)) (omega arith)

range_loop_stops :
    (fuel : ℕ) (e st i : ℤ)
    → in_range e st i ≡ false
    → range_loop (suc fuel) e st i ≡ some Syntax.nil
unfolding range_loop
range_loop_stops fuel e st i out =
    ap
      (λ b. elim b [
        | true ↦ elim (range_loop fuel e st (wrap_i64 (i +ℤ st))) [
          | none ↦ none
          | some rest ↦ some (Syntax.cons (int i) rest)
        ]
        | false ↦ some Syntax.nil
      ])
      out

range_loop_goes :
    (fuel : ℕ) (e st i : ℤ) (rest : Exprs)
    → in_range e st i ≡ true
    → IsI64 (i +ℤ st)
    → range_loop fuel e st (i +ℤ st) ≡ some rest
    → range_loop (suc fuel) e st i ≡ some (Syntax.cons (int i) rest)
unfolding range_loop
range_loop_goes fuel e st i rest inside f h =
    ap
      (λ b. elim b [
        | true ↦ elim (range_loop fuel e st (wrap_i64 (i +ℤ st))) [
          | none ↦ none
          | some rest' ↦ some (Syntax.cons (int i) rest')
        ]
        | false ↦ some Syntax.nil
      ])
      inside
    ∙ rw (wrap_i64_of_fit (i +ℤ st) f, h) refl

range_loop_lem :
    (fuel : ℕ) (e st i : ℤ)
    → (in_range e st i ≡ true → distance i e < fuel)
    → IsI64 i
    → IsI64 (e +ℤ st)
    → range_loop (suc fuel) e st i ≡ some (progression (rounds e st i) i st)
unfolding progression
range_loop_lem zero e st i enough f g = elim (Bool-cases (in_range e st i)) [
  | inr out ↦ range_loop_stops zero e st i out ∙ rw out refl
  | inl inside ↦ elim (enough inside) [ ]
]
range_loop_lem (suc fuel) e st i enough f g = elim (Bool-cases (in_range e st i)) [
  | inr out ↦ range_loop_stops (suc fuel) e st i out ∙ rw out refl
  | inl inside ↦
      let next = in_range-IsI64 e st i inside f g in
      elim (le-or-lt (size st) (distance i e)) [
        | inl more ↦
            range_loop_goes (suc fuel) e st i _ inside next (
              range_loop_lem fuel e st (i +ℤ st)
                (λ _.
                  let d = (steps_in e st i inside more).1 in
                  let z = in_range-size e st i inside in let l = enough inside in omega arith)
                next g)
            ∙ ap (λ n. some (progression n i st)) (sym (rounds_go e st i inside more))
        | inr last ↦
            range_loop_goes (suc fuel) e st i _ inside next
              (range_loop_stops fuel e st (i +ℤ st) (steps_out e st i inside last))
            ∙ ap (λ n. some (progression n i st)) (sym (rounds_stop e st i inside last))
      ]
]

-- how many numbers there are from `i` to `e`, a step apart
abbrev pub count : ℤ → ℤ → ℤ → ℕ
count e (pos k) i = if leb_ℤ i e then suc (distance i e / k) else 0
count e (negsuc k) i = if leb_ℤ e i then suc (distance i e / suc k) else 0

in_range_up : (e : ℤ) (k : ℕ) (i : ℤ) → in_range e (pos (suc k)) i ≡ leb_ℤ i e
in_range_up e k i = ground arith

rounds-count : (e st i : ℤ) → eq_ℤ st (pos 0) ≡ false → rounds e st i ≡ count e st i
rounds-count e (pos zero) i z = ground (arith, z)
rounds-count e (pos (suc k)) i z =
    ap (λ b. if b then suc (distance i e / suc k) else 0) (in_range_up e k i)
rounds-count e (negsuc k) i z = refl

abbrev pub literals : ℤ → ℤ → ℤ → Ast.Expressions
literals a b st =
    Ast.cons (Ast.literal (Ast.integer a))
      (Ast.cons (Ast.literal (Ast.integer b)) (Ast.cons (Ast.literal (Ast.integer st)) Ast.nil))

range_of_lem :
    (name : String) (a b st : ℤ)
    → eq_ignore_ascii_case name "range" ≡ true
    → eq_ℤ st (pos 0) ≡ false
    → IsI64 a
    → IsI64 (b +ℤ st)
    → range_of name (literals a b st) ≡ some (some (progression (count b st a) a st))
unfolding range_of
range_of_lem name a b st h z f g =
    rw (h, z, ← rounds-count b st a z)
      (ap some (range_loop_lem (suc (distance a b)) b st a (λ _. omega arith) f g))

module _ (t : Texts) (same_expr : Expr → Expr → Bool) where
  -- A call of range with three integer literals, the step not zero, becomes the list of the numbers
  -- from the first on, a step apart, as many as there are up to the second. The first, and the second
  -- with a step more, fit an i64.
  pub lower_expr-range :
      (name : String) (distinct : Bool) (a b st : ℤ) (s : AstLowerer)
      → eq_ignore_ascii_case name "range" ≡ true
      → eq_ℤ st (pos 0) ≡ false
      → IsI64 a
      → IsI64 (b +ℤ st)
      → lower_expr t same_expr (Ast.function_call name distinct (literals a b st)) s
        ≡ ok (Expr.list_of (progression (count b st a) a st), s)
  unfolding lower_expr
  lower_expr-range name distinct a b st s h z f g =
      ap
        (λ r.
          (elim r as (λ _. Lowering Expr) [
            | some items ↦ range_list items
            | none ↦ do
              lowered ← lower_all t same_expr (literals a b st)
              pure (lower_call t name distinct (literals a b st) lowered)
          ])
            s)
        (range_of_lem name a b st h z f g)
