-- ===== src/Lqa/Lower/Unions.antt =====
-- The split of a query at its UNIONs and the walk over its clauses that lowers them one after the other
-- (crates/polygraph/src/lqa/lower.rs).
use rs_polygraph.Base.{
  ℕ, zero, suc, ◌+◌, ◌-◌, Bool, Option, none, some, List, [], ◌∷◌, ◌++◌, ◌≡◌, refl, sym, ap, ap₂,
  ◌∙◌, arith, length, length-append,
}
use mathlib.Core.List.{append-nil, append_assoc}
use rs_polygraph.Lqa.Lower.Outcomes
use rs_polygraph.Lqa.Lower.Outcomes.{Outcome, ok, err, panicked, overflowed}
use rs_polygraph.Ast
use rs_polygraph.Ast.{Clause}
use rs_polygraph.Lqa.Syntax.{Expr, Op}
use rs_polygraph.Lqa.Lower.State.{AstLowerer, Lowering, ◌>>=◌}
use rs_polygraph.Lqa.Lower.Terms.{unite}
use rs_polygraph.Lqa.Lower.Folding.{Texts}
use rs_polygraph.Lqa.Lower.Steps.{clauses_of}
use rs_polygraph.Lqa.Lower.Queries.{lower_clause, lower_arms}
use rs_polygraph.Lqa.Lower.Splits.{
  cut_positions, drop, take, Arms, cut, arms_at, lower_pipeline, unite_arms, lower_cuts,
  lower_clauses, lower_query,
}

-- clauses before the first arm
abbrev before_arms : List Clause → Arms → Arms
before_arms cs a = record a { first = cs ++ a.first }

-- the arms, clause by clause
unfoldable arms_of : List Clause → Arms
arms_of [] = record { first = []; others = [] }
arms_of (Ast.union all ∷ cs) = cut [] all (arms_of cs)
arms_of (c ∷ cs) = before_arms (c ∷ []) (arms_of cs)

take-append : (xs ys : List Clause) → take (length xs) (xs ++ ys) ≡ xs
unfolding take
take-append [] ys = refl
take-append (x ∷ xs) ys = ap (x ∷◌) (take-append xs ys)

drop_at : (m n : ℕ) (cs : List Clause) → m ≡ n → drop m cs ≡ drop n cs
drop_at m n cs e = ap (λ n. drop n cs) e

drop-append :
    (xs : List Clause) (y : Clause) (ys : List Clause) → drop (suc (length xs)) (xs ++ y ∷ ys) ≡ ys
unfolding drop
drop-append [] y ys = refl
drop-append (x ∷ xs) y ys = drop-append xs y ys

-- what follows the UNION at the end of `seg`
drop_past :
    (clauses : List Clause) (prev : ℕ) (seg : List Clause) (y : Clause) (ys : List Clause)
    → drop prev clauses ≡ seg ++ y ∷ ys
    → drop (suc (prev + length seg)) clauses ≡ ys
unfolding drop
drop_past clauses zero seg y ys h =
    drop_at (suc (0 + length seg)) (suc (length seg)) clauses (omega arith)
    ∙ (ap (drop (suc (length seg))) h ∙ drop-append seg y ys)
drop_past [] (suc prev) [] y ys h = absurd (cc h)
drop_past [] (suc prev) (x ∷ seg) y ys h = absurd (cc h)
drop_past (c ∷ clauses) (suc prev) seg y ys h =
    drop_at (suc (suc prev + length seg)) (suc (suc (prev + length seg))) (c ∷ clauses)
      (omega arith)
    ∙ drop_past clauses prev seg y ys h

-- what is left at an index
cut_at : (m n : ℕ) (cs : List Clause) → m ≡ n → cut_positions m cs ≡ cut_positions n cs
cut_at m n cs e = ap (λ n. cut_positions n cs) e

arms_at-arms_of :
    (clauses : List Clause) (prev : ℕ) (seg rest : List Clause)
    → drop prev clauses ≡ seg ++ rest
    → arms_at clauses prev (cut_positions (prev + length seg) rest) ≡ before_arms seg (arms_of rest)
unfolding arms_at cut_positions arms_of
arms_at-arms_of clauses prev seg [] h = ap (λ cs. record { first = cs; others = [] }) h
arms_at-arms_of clauses prev seg (Ast.union all ∷ cs) h =
    let next : arms_at clauses (suc (prev + length seg))
          (cut_positions (suc (prev + length seg)) cs)
        ≡ arms_of cs =
      ap (arms_at clauses (suc (prev + length seg)))
        (cut_at (suc (prev + length seg)) (suc (prev + length seg) + 0) cs (omega arith))
      ∙ arms_at-arms_of clauses (suc (prev + length seg)) [] cs
          (drop_past clauses prev seg (Ast.union all) cs h) in
    let arm : take (prev + length seg - prev) (drop prev clauses) ≡ seg =
      ap₂ take (omega arith) h ∙ take-append seg (Ast.union all ∷ cs) in
    ap₂ (λ as' a. cut as' all a) arm next
    ∙ ap (λ as'. cut as' all (arms_of cs)) (sym (append-nil seg))
arms_at-arms_of clauses prev seg (c ∷ cs) h =
    ap (arms_at clauses prev) (
      cut_at (suc (prev + length seg)) (prev + length (seg ++ c ∷ [])) cs
        (omega (arith, length-append seg (c ∷ []))))
    ∙ (arms_at-arms_of clauses prev (seg ++ c ∷ []) cs (h ∙ sym (append_assoc seg (c ∷ []) cs))
        ∙ ap (λ cs'. record { first = cs'; others = (arms_of cs).others })
            (append_assoc seg (c ∷ []) (arms_of cs).first))

module _ (t : Texts) (same_expr : Expr → Expr → Bool) where
  lower_cut : Op → Option (Op × Bool) → Arms → Lowering Op
  lower_cut current before arms = do
    op ← lower_pipeline t same_expr current arms.first
    unite_arms t same_expr (unite before op) arms.others

  before_arms-lower :
      (c : Clause) (before : Option (Op × Bool)) (current : Op) (arms : Arms) (s : AstLowerer)
      (k : Op → Lowering Op)
      → ((op : Op) (s' : AstLowerer) → k op s' ≡ lower_cut op before arms s')
      → Outcomes.◌>>=◌ (lower_clause t same_expr current c s) (λ r. k r.0 r.1)
        ≡ lower_cut current before (before_arms (c ∷ []) arms) s
  unfolding lower_cut lower_pipeline
  before_arms-lower c before current arms s k h =
      elim (lower_clause t same_expr current c s)
        as (λ r.
          Outcomes.◌>>=◌ r (λ r. k r.0 r.1)
          ≡ Outcomes.◌>>=◌ (Outcomes.◌>>=◌ r (λ r. lower_pipeline t same_expr r.0 arms.first r.1))
              (λ r. unite_arms t same_expr (unite before r.0) arms.others r.1)) [
                | ok r ↦ h r.0 r.1
                | err e ↦ refl
                | panicked ↦ refl
                | overflowed ↦ refl
              ]

  lower_arms-cut :
      (cs : List Clause) (before : Option (Op × Bool)) (current : Op) (s : AstLowerer)
      → lower_arms t same_expr before current (clauses_of cs) s
        ≡ lower_cut current before (arms_of cs) s
  unfolding lower_arms arms_of lower_cut lower_pipeline unite_arms unite
  lower_arms-cut [] before current s = refl
  lower_arms-cut (Ast.union all ∷ cs) before current s =
      lower_arms-cut cs (some (unite before current, all)) Op.unit s
  lower_arms-cut (c ∷ cs) before current s =
      before_arms-lower c before current (arms_of cs) s
        (λ op. lower_arms t same_expr before op (clauses_of cs))
        (λ op s'. lower_arms-cut cs before op s')

  kept : (r : Outcome (Op × AstLowerer)) → r ≡ Outcomes.◌>>=◌ r (λ p. ok (p.0, p.1))
  kept (ok p) = refl
  kept (err e) = refl
  kept panicked = refl
  kept overflowed = refl

  lower_cuts-cut :
      (clauses : List Clause) (cuts : List (ℕ × Bool)) (s : AstLowerer)
      → lower_cuts t same_expr clauses cuts s ≡ lower_cut Op.unit none (arms_at clauses 0 cuts) s
  unfolding lower_cuts lower_cut arms_at drop unite_arms unite
  lower_cuts-cut clauses [] s = kept (lower_pipeline t same_expr Op.unit clauses s)
  lower_cuts-cut clauses (c ∷ cuts) s = refl

  pub lower_query-lower_arms :
      (q : Ast.CypherQuery) (s : AstLowerer)
      → lower_query t same_expr q s ≡ lower_arms t same_expr none Op.unit (clauses_of q.clauses) s
  unfolding lower_query lower_clauses drop
  lower_query-lower_arms q s =
      lower_cuts-cut q.clauses (cut_positions 0 q.clauses) s
      ∙ (ap (λ a. lower_cut Op.unit none a s) (arms_at-arms_of q.clauses 0 [] q.clauses refl)
          ∙ sym (lower_arms-cut q.clauses none Op.unit s))
