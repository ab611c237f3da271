-- ===== src/Lqa/Lower/Writes.antt =====
-- Write operators in what the lowering builds (crates/polygraph/src/lqa/lower.rs).
use rs_polygraph.Base.{
  String, Bool, true, false, ◌||◌, Option, none, some, List, [], ◌∷◌, ◌≡◌, refl, ap, ◌∙◌, arith,
}
use rs_polygraph.Ast
use rs_polygraph.Ast.{Clause, Clauses}
use rs_polygraph.Lqa.Syntax
use rs_polygraph.Lqa.Syntax.{Op, OptExpr}
use rs_polygraph.Lqa.Write.{contains_write}
use rs_polygraph.Lqa.Lower.Terms.{
  select_opt, or_unit, check_labels, scan_of, node_start, node_end, join_match, unite,
}
use rs_polygraph.Lqa.Lower.Items.{Items, project}
use rs_polygraph.Lqa.Lower.Steps.{skip_opt, limit_opt, distinct_if}

-- the clauses that write, and calls of procedures, which count as writes
abbrev pub is_updating : Clause → Bool
is_updating (Ast.create _) = true
is_updating (Ast.merge _ _) = true
is_updating (Ast.set _) = true
is_updating (Ast.delete _ _) = true
is_updating (Ast.remove _) = true
is_updating (Ast.call _ _ _) = true
is_updating _ = false

abbrev pub any_updating : Clauses → Bool
any_updating Ast.no_clause = false
any_updating (Ast.clause c cs) = is_updating c || any_updating cs

abbrev pub before_writes : Option (Op × Bool) → Bool
before_writes none = false
before_writes (some (op, _)) = contains_write op

pub write-select_opt :
    (op : Op) (p : OptExpr) → contains_write (select_opt op p) ≡ contains_write op
unfolding contains_write
write-select_opt op Syntax.absent = refl
write-select_opt op (Syntax.present e) = refl

pub write-skip_opt : (op : Op) (p : OptExpr) → contains_write (skip_opt op p) ≡ contains_write op
unfolding contains_write
write-skip_opt op Syntax.absent = refl
write-skip_opt op (Syntax.present e) = refl

pub write-limit_opt : (op : Op) (p : OptExpr) → contains_write (limit_opt op p) ≡ contains_write op
unfolding contains_write
write-limit_opt op Syntax.absent = refl
write-limit_opt op (Syntax.present e) = refl

pub write-distinct_if : (b : Bool) (op : Op) → contains_write (distinct_if b op) ≡ contains_write op
unfolding contains_write
write-distinct_if true op = refl
write-distinct_if false op = refl

write-check_labels :
    (x : String) (ls : List String) (op : Op)
    → contains_write (check_labels x ls op) ≡ contains_write op
unfolding contains_write check_labels
write-check_labels x [] op = refl
write-check_labels x (l ∷ ls) op =
    write-check_labels x ls (Op.selection op (Syntax.label_check (Syntax.variable x none) (l ∷ [])))

write-scan_of : (x : String) (ls : List String) → contains_write (scan_of x ls) ≡ false
unfolding contains_write scan_of
write-scan_of x [] = refl
write-scan_of x (l ∷ ls) = refl

pub write-node_start :
    (bound : Bool) (x : String) (ls : List String) (op : Option Op)
    → contains_write (or_unit op) ≡ false
    → contains_write (node_start bound x ls op) ≡ false
unfolding node_start
write-node_start true x ls op h = write-check_labels x ls (or_unit op) ∙ h
write-node_start false x ls op h = write-scan_of x ls

pub write-node_end :
    (bound : Bool) (prev : Option Op) (op : Op)
    → contains_write (or_unit prev) ≡ false
    → contains_write op ≡ false
    → contains_write (node_end bound prev op) ≡ false
unfolding node_end contains_write
write-node_end true prev op g h = h
write-node_end false none op g h = h
write-node_end false (some p) op g h = ground (arith, g, h)

pub write-join_match :
    (optional : Bool) (current op : Op)
    → contains_write op ≡ false
    → contains_write (join_match optional current op) ≡ (contains_write current || false)
unfolding join_match contains_write
write-join_match true current op h = ap (λ b. contains_write current || b) h
write-join_match false Op.unit op h = h
write-join_match false current op h = ap (λ b. contains_write current || b) h

pub write-project :
    (current : Op) (distinct : Bool) (is : Items)
    → contains_write (project current distinct is) ≡ (contains_write current || false)
unfolding contains_write
write-project current distinct is = grouped is.aggs
  where
    grouped :
        (aggs : Syntax.AggItems)
        → contains_write (project current distinct (record is { aggs = aggs }))
          ≡ (contains_write current || false)
    grouped Syntax.no_agg = ground arith
    grouped (Syntax.agg e x rest) = ground arith

pub write-unite :
    (before : Option (Op × Bool)) (op : Op)
    → contains_write (unite before op) ≡ (before_writes before || contains_write op)
unfolding unite contains_write
write-unite none op = refl
write-unite (some (l, true)) op = refl
write-unite (some (l, false)) op = refl
