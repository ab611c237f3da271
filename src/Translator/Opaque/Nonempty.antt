-- ===== src/Translator/Opaque/Nonempty.antt =====
-- The lists that a condition proves not to be empty: `collect_nonempty_vars`
-- (crates/polygraph/src/translator/cypher/mod.rs).
use rs_polygraph.Base.{
  ℕ, String, Bool, true, false, ◌&&◌, List, ◌∷◌, if◌then◌else◌, ◌≡◌, refl, arith, ltb, Bool-cases,
  inl, inr,
}
use mathlib.Core.Path.{subst}
use rs_polygraph.Base.Int.{ℤ, pos, negsuc, ltb_ℤ, leb_ℤ}
use rs_polygraph.Base.Eq.{◌==◌, string_eq}
use rs_polygraph.Base.Names.{has, eq_ignore_ascii_case}
use rs_polygraph.Ast
use rs_polygraph.Ast.{Expression, Expressions, CompOp}
use rs_polygraph.Translator.Opaque.{asks_nonempty, collect_nonempty_vars}

-- `size(v) op n`, where `name` spells `size`
abbrev pub size_compared : String → Bool → String → Expressions → CompOp → ℤ → Expression
size_compared name distinct v args op n =
    Ast.comparison (Ast.function_call name distinct (Ast.cons (Ast.variable v) args)) op
      (Ast.literal (Ast.integer n))

and_left : (a b : Bool) → (a && b) ≡ true → a ≡ true
and_left a b h = ground (arith, h)

module _ (sizes : String → ℕ) (holds : Expression → Bool)
    (holds-and : (a b : Expression)
      → holds (Ast.and a b) ≡ true
      → (holds a ≡ true) × (holds b ≡ true))
    (holds-gt : (name : String) (d : Bool) (v : String) (args : Expressions) (n : ℤ)
      → eq_ignore_ascii_case name "size" ≡ true
      → holds (size_compared name d v args Ast.gt n) ≡ true
      → ltb_ℤ n (pos (sizes v)) ≡ true)
    (holds-ge : (name : String) (d : Bool) (v : String) (args : Expressions) (n : ℤ)
      → eq_ignore_ascii_case name "size" ≡ true
      → holds (size_compared name d v args Ast.ge n) ≡ true
      → leb_ℤ n (pos (sizes v)) ≡ true) where
  -- every listed variable has an element
  abbrev pub AllNonempty : List String → Type 0
  AllNonempty vs = (x : String) → has x vs ≡ true → ltb 0 (sizes x) ≡ true

  AllNonempty-if :
      (c : Bool) (v : String) (vs : List String)
      → (c ≡ true → ltb 0 (sizes v) ≡ true)
      → AllNonempty vs
      → AllNonempty (if c then v ∷ vs else vs)
  unfolding has
  AllNonempty-if false v vs f all x h = all x h
  AllNonempty-if true v vs f all x h = elim (Bool-cases (v == x)) [
    | inl e ↦ subst (λ y. ltb 0 (sizes y) ≡ true) ((string_eq.decides v x).0 e) (f refl)
    | inr n ↦ all x (ground (arith, h, n))
  ]

  asked :
      (name : String) (d : Bool) (v : String) (args : Expressions) (op : CompOp) (rhs : Expression)
      → holds (Ast.comparison (Ast.function_call name d (Ast.cons (Ast.variable v) args)) op rhs)
        ≡ true
      → (eq_ignore_ascii_case name "size" && asks_nonempty op rhs) ≡ true
      → ltb 0 (sizes v) ≡ true
  asked name d v args Ast.gt (Ast.literal (Ast.integer (pos n))) h e =
      ground (arith, e, holds-gt name d v args (pos n) (and_left _ _ e) h)
  asked name d v args Ast.gt (Ast.literal (Ast.integer (negsuc n))) h e = ground (arith, e)
  asked name d v args Ast.ge (Ast.literal (Ast.integer (pos n))) h e =
      ground (arith, e, holds-ge name d v args (pos n) (and_left _ _ e) h)
  asked name d v args Ast.ge (Ast.literal (Ast.integer (negsuc n))) h e = ground (arith, e)
  asked name d v args op rhs h e = ground (arith, e)

  -- When a condition holds, the variables collected from it have an element, if those collected
  -- before have.
  pub collect_nonempty_vars-AllNonempty :
      (e : Expression) (nonempty : List String)
      → holds e ≡ true
      → ((x : String) → has x nonempty ≡ true → ltb 0 (sizes x) ≡ true)
      → (x : String) → has x (collect_nonempty_vars e nonempty) ≡ true
      → ltb 0 (sizes x) ≡ true
  unfolding collect_nonempty_vars
  collect_nonempty_vars-AllNonempty
        (Ast.comparison (Ast.function_call name d (Ast.cons (Ast.variable v) args)) op rhs) nonempty
        h all =
      AllNonempty-if (eq_ignore_ascii_case name "size" && asks_nonempty op rhs) v nonempty
        (asked name d v args op rhs h) all
  collect_nonempty_vars-AllNonempty (Ast.and a b) nonempty h all =
      collect_nonempty_vars-AllNonempty b (collect_nonempty_vars a nonempty) (holds-and a b h).1
        (collect_nonempty_vars-AllNonempty a nonempty (holds-and a b h).0 all)
  collect_nonempty_vars-AllNonempty e nonempty h all = all
