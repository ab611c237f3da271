-- ===== src/Lqa/Bag/Dedup.antt =====
-- Multiplicities, and the deduplicating union of crates/polygraph/src/lqa/bag.rs.
use mathlib.Core.List.{append_assoc, append-nil}
use rs_polygraph.Base.{
  ◌+◌, Bool, true, Option, some, List, [], ◌∷◌, ◌++◌, ◌≡◌, refl, sym, ap, ◌∙◌, inl, inr, arith,
  Bool-cases, if◌then◌else◌,
}
use rs_polygraph.Base.Eq.{Eq, ◌==◌}
use rs_polygraph.Lqa.Bag.{
  union_all, select, bag_contains, multiplicity, visit, dedup_loop, union_distinct,
}

module _ {ℓ} {A : Type ℓ} ⦃e : Eq A⦄ where
  -- UNION ALL adds multiplicities.
  pub multiplicity-union_all :
      (left right : List A) (x : A)
      → multiplicity (union_all left right) x ≡ multiplicity left x + multiplicity right x
  unfolding multiplicity union_all
  multiplicity-union_all [] right x = omega arith
  multiplicity-union_all (y ∷ left) right x = ground (arith, multiplicity-union_all left right x)

  -- Selection keeps a row with its multiplicity exactly if the predicate is true of it: null and
  -- false drop it.
  pub multiplicity-select :
      (bag : List A) (predicate : A → Option Bool) (x : A)
      → multiplicity (select bag predicate) x
        ≡ elim (predicate x) [ some true ↦ multiplicity bag x | _ ↦ 0 ]
  unfolding multiplicity select
  multiplicity-select [] predicate x = ground arith
  multiplicity-select (y ∷ bag) predicate x =
      ground (arith, multiplicity-select bag predicate x, e.decides y x)

  -- the list without the later occurrences of each item
  without : A → List A → List A
  without x [] = []
  without x (y ∷ l) = if x == y then without x l else y ∷ without x l

  pub first_occurrences : List A → List A
  unfolding without
  first_occurrences [] = []
  first_occurrences (x ∷ l) = x ∷ without x (first_occurrences l)

  minus : List A → List A → List A
  minus seen [] = []
  minus seen (y ∷ l) = if bag_contains seen y then minus seen l else y ∷ minus seen l

  minus-nil : (l : List A) → minus [] l ≡ l
  unfolding minus bag_contains
  minus-nil [] = refl
  minus-nil (y ∷ l) = ap (◌∷◌ y) (minus-nil l)

  minus-cons : (x : A) (seen l : List A) → minus (x ∷ seen) l ≡ minus seen (without x l)
  unfolding minus without bag_contains
  minus-cons x seen [] = refl
  minus-cons x seen (y ∷ l) = ground (arith, minus-cons x seen l)

  minus-without :
      (x : A) (seen l : List A)
      → bag_contains seen x ≡ true
      → minus seen (without x l) ≡ minus seen l
  unfolding minus without
  minus-without x seen [] h = refl
  minus-without x seen (y ∷ l) h = ground (arith, minus-without x seen l, e.decides x y)

  dedup_loop_lem :
      (items seen out : List A)
      → (dedup_loop items (seen, out)).1 ≡ out ++ minus seen (first_occurrences items)
  unfolding dedup_loop visit minus first_occurrences
  dedup_loop_lem [] seen out = sym (append-nil out)
  dedup_loop_lem (x ∷ items) seen out = elim (Bool-cases (bag_contains seen x)) [
    | inl old ↦
        rw (old, dedup_loop)
          (dedup_loop_lem items seen out
            ∙ ap (◌++◌ out) (sym (minus-without x seen (first_occurrences items) old)))
    | inr new ↦
        rw (new, dedup_loop)
          (dedup_loop_lem items (x ∷ seen) (out ++ x ∷ []) ∙ rw (append_assoc, minus-cons))
  ]

  -- UNION keeps the first occurrence of each row, in order.
  pub union_distinct-eq-first_occurrences :
      (left right : List A) → union_distinct left right ≡ first_occurrences (left ++ right)
  unfolding union_distinct
  union_distinct-eq-first_occurrences left right =
      dedup_loop_lem (left ++ right) [] [] ∙ minus-nil (first_occurrences (left ++ right))

  multiplicity-without :
      (x : A) (l : List A) (y : A)
      → multiplicity (without x l) y ≡ (if x == y then 0 else multiplicity l y)
  unfolding multiplicity without
  multiplicity-without x [] y = ground arith
  multiplicity-without x (z ∷ l) y =
      ground (arith, multiplicity-without x l y, e.decides x z, e.decides z y, e.decides x y)

  multiplicity-first_occurrences :
      (l : List A) (y : A)
      → multiplicity (first_occurrences l) y ≡ (if bag_contains l y then 1 else 0)
  unfolding multiplicity first_occurrences bag_contains
  multiplicity-first_occurrences [] y = refl
  multiplicity-first_occurrences (x ∷ l) y =
      ground
        (arith, multiplicity-first_occurrences l y, multiplicity-without x (first_occurrences l) y)

  -- Each row of either side stands in the UNION once, and no other row does.
  pub multiplicity-union_distinct :
      (left right : List A) (x : A)
      → multiplicity (union_distinct left right) x
        ≡ (if bag_contains (left ++ right) x then 1 else 0)
  multiplicity-union_distinct left right x =
      ap (λ l. multiplicity l x) (union_distinct-eq-first_occurrences left right)
      ∙ multiplicity-first_occurrences (left ++ right) x
