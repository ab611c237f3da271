-- ===== src/Translator/CollectUnwind/Others.antt =====
-- What `eliminate_collect_unwind` leaves as it is
-- (crates/polygraph/src/translator/cypher/util.rs).
use rs_polygraph.Base.{
  Bool, true, false, Option, none, some, List, [], ◌∷◌, ◌≡◌, refl, sym, ap, ◌∙◌, arith,
  Option-cases, inl, inr,
}
use rs_polygraph.Base.Any.{filter}
use rs_polygraph.Ast
use rs_polygraph.Ast.{Expression, ItemList, Clause}
use rs_polygraph.Translator.CollectUnwind.{take_collect, push_item, fuse, eliminate_collect_unwind}

-- clauses other than `WITH` and `UNWIND`
abbrev pub is_other : Clause → Bool
is_other (Ast.with_items _ _ _ _ _ _) = false
is_other (Ast.unwind _ _) = false
is_other _ = true

is_other_opt : Option Clause → Bool
is_other_opt none = false
is_other_opt (some c) = is_other c

fuse-parts :
    (c d f : Clause)
    → fuse c d ≡ some f
    → (is_other c ≡ false) × (is_other d ≡ false) × (is_other f ≡ false)
unfolding fuse is_other_opt
fuse-parts (Ast.with_items distinct (Ast.explicit items) condition order skip limit)
      (Ast.unwind (Ast.variable list) v) f e =
    (refl, refl, fused (take_collect list items) e)
  where
    fused :
        (found : Option (Expression × ItemList))
        → elim found [
          | none ↦ none
          | some (inner, others) ↦ some (
              Ast.with_items distinct
                (Ast.explicit (push_item others inner (some v)))
                condition
                order
                skip
                limit)
        ]
          ≡ some f
        → is_other f ≡ false
    fused none e = absurd (ground (arith, e))
    fused (some (inner, others)) e = sym (ap is_other_opt e)
fuse-parts _ _ f e = absurd (ground (arith, e))

filter_drop :
    (c : Clause) (cs : List Clause)
    → is_other c ≡ false
    → filter is_other (c ∷ cs) ≡ filter is_other cs
unfolding filter
filter_drop c cs h = rw h refl

filter_keep :
    (c : Clause) (cs ds : List Clause)
    → filter is_other cs ≡ filter is_other ds
    → filter is_other (c ∷ cs) ≡ filter is_other (c ∷ ds)
unfolding filter
filter_keep c cs ds h = rw h refl

-- The clauses other than `WITH` and `UNWIND` stay, in their order.
eliminate_collect_unwind-others :
    (cs : List Clause) → filter is_other (eliminate_collect_unwind cs) ≡ filter is_other cs
unfolding eliminate_collect_unwind
eliminate_collect_unwind-others [] = refl
eliminate_collect_unwind-others (c ∷ []) = refl
eliminate_collect_unwind-others (c ∷ d ∷ cs) = elim (Option-cases (fuse c d)) [
  | inl apart ↦
      rw (apart, eliminate_collect_unwind)
        (filter_keep c _ (d ∷ cs) (eliminate_collect_unwind-others (d ∷ cs)))
  | inr (f, e) ↦
      let (p, q, r) = fuse-parts c d f e in
      rw (e, eliminate_collect_unwind)
        (filter_drop f _ r
          ∙ eliminate_collect_unwind-others cs
          ∙ sym (filter_drop c (d ∷ cs) p ∙ filter_drop d cs q))
]
