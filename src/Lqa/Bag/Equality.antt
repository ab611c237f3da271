-- ===== src/Lqa/Bag/Equality.antt =====
-- `bag_equal` of crates/polygraph/src/lqa/bag.rs decides whether two bags are the same up to order.
use mathlib.Core.List.{Perm, Permᴰ}
use mathlib.Core.List.Perm
use mathlib.Core.Logic.{∥∥₁_elim}
use native.Mathlib.Nat.{ℕ_set}
use rs_polygraph.Base.{
  ℕ, suc, ◌+◌, ◌-◌, ◌≤◌, ◌<◌, true, none, some, List, [], ◌∷◌, length, ◌≡◌, ◌↔◌, ◌⊎◌, refl, sym, ap,
  ◌∙◌, inl, inr, arith, Bool-cases, Option-cases, nat-cases, if◌then◌else◌,
}
use rs_polygraph.Base.Int.{ℤ, pos, ◌+ℤ◌, ◌-ℤ◌, eq_ℤ}
use rs_polygraph.Base.Eq.{Eq, ◌==◌}
use rs_polygraph.Base.Dict.{
  Dict, or_else, get, upsert, get-upsert, Unique, upsert-Unique, all_values-get, all_values_of_get,
}
use rs_polygraph.Lqa.Bag.{multiplicity, count_up, count_down, balanced, bag_equal}

module _ {ℓ} {A : Type ℓ} ⦃e : Eq A⦄ where
  abbrev value : A → Dict A ℤ → ℤ
  value x counts = or_else (pos 0) (get x counts)

  value-upsert :
      (x y : A) (f : ℤ → ℤ) (m : Dict A ℤ)
      → value y (upsert x (pos 0) f m) ≡ (if x == y then f (value x m) else value y m)
  value-upsert x y f m = ground (arith, get-upsert x y (pos 0) f m)

  -- The first loop adds the multiplicity of each item to its count.
  count_up_lem :
      (items : List A) (counts : Dict A ℤ) (f : A → ℕ)
      → ((x : A) → value x counts ≡ pos (f x))
      → Unique counts
      → ((x : A) → value x (count_up items counts) ≡ pos (f x + multiplicity items x))
        × Unique (count_up items counts)
  unfolding count_up multiplicity
  count_up_lem [] counts f h u = (λ x. h x ∙ ap pos (omega arith), u)
  count_up_lem (y ∷ items) counts f h u =
      let counts' = upsert y (pos 0) (λ c. c +ℤ pos 1) counts in
      let f' : A → ℕ = λ x. if y == x then suc (f y) else f x in
      let (values, unique) =
        count_up_lem items counts' f'
          (λ x. ground (arith, value-upsert y x (λ c. c +ℤ pos 1) counts, h x, h y, e.decides y x))
          (upsert-Unique y (pos 0) (λ c. c +ℤ pos 1) counts u) in
      (λ x. values x ∙ ground (arith, e.decides y x), unique)

  abbrev decrement : A → Dict A ℤ → Dict A ℤ
  decrement y counts = upsert y (pos 0) (λ c. c -ℤ pos 1) counts

  count_down-zero :
      (y : A) (items : List A) (counts : Dict A ℤ)
      → value y counts ≡ pos 0
      → count_down (y ∷ items) counts ≡ none
  unfolding count_down
  count_down-zero y items counts h =
      ground (arith, get-upsert y y (pos 0) (λ c. c -ℤ pos 1) counts, h, e.decides y y)

  count_down-suc :
      (y : A) (items : List A) (counts : Dict A ℤ) (n : ℕ)
      → value y counts ≡ pos (suc n)
      → count_down (y ∷ items) counts ≡ count_down items (decrement y counts)
  unfolding count_down
  count_down-suc y items counts n h =
      ground (arith, get-upsert y y (pos 0) (λ c. c -ℤ pos 1) counts, h, e.decides y y)

  -- the two ends of the second loop: a count fell below zero, or each count is what is left of it
  abbrev Exceeded : List A → (A → ℕ) → Type ℓ
  Exceeded items f = (x : A) × (f x < multiplicity items x)

  abbrev Counted : List A → (A → ℕ) → Dict A ℤ → Type ℓ
  Counted items f counts =
      ((x : A) → (multiplicity items x ≤ f x) × (value x counts ≡ pos (f x - multiplicity items x)))
      × Unique counts

  count_down-nil : (counts : Dict A ℤ) → count_down [] counts ≡ some counts
  unfolding count_down
  count_down-nil counts = refl

  count_down_lem :
      (items : List A) (counts : Dict A ℤ) (f : A → ℕ)
      → ((x : A) → value x counts ≡ pos (f x))
      → Unique counts
      → ((count_down items counts ≡ none) × Exceeded items f)
        ⊎ ((counts' : Dict A ℤ) × ((count_down items counts ≡ some counts')
              × Counted items f counts'))
  unfolding multiplicity
  count_down_lem [] counts f h u =
      inr (counts, (count_down-nil counts, ((λ x. (omega arith, h x ∙ ap pos (omega arith))), u)))
  count_down_lem (y ∷ items) counts f h u = elim (nat-cases (f y)) [
    | inl none_left ↦ inl (
      count_down-zero y items counts (h y ∙ ap pos none_left),
      (y, ground (arith, e.decides y y)),
    )
    | inr (n, left) ↦
        let f' : A → ℕ = λ x. if y == x then n else f x in
        let values : (x : A) → value x (decrement y counts) ≡ pos (f' x) =
          λ x. ground (arith, value-upsert y x (λ c. c -ℤ pos 1) counts, h x, h y, e.decides y x) in
        let step = count_down-suc y items counts n (h y ∙ ap pos left) in
        elim (count_down_lem items (decrement y counts) f' values
          (upsert-Unique y (pos 0) (λ c. c -ℤ pos 1) counts u)) [
            | inl (stops, (x, over)) ↦ inl (step ∙ stops, (x, ground (arith, e.decides y x)))
            | inr (counts', (ends, (left', unique))) ↦ inr (
              counts',
              (
                step ∙ ends,
                (
                  λ x. (
                    ground (arith, (left' x).0, e.decides y x),
                    (left' x).1 ∙ ap pos (ground (arith, e.decides y x, (left' x).0)),
                  ),
                  unique,
                ),
              ),
            )
          ]
  ]

  value-nil : (x : A) → value x [] ≡ pos 0
  unfolding get
  value-nil x = refl

  -- what is left of the counts of the first bag after the second
  loops_lem :
      (left right : List A)
      → ((count_down right (count_up left []) ≡ none) × Exceeded right (multiplicity left))
        ⊎ ((counts : Dict A ℤ) × ((count_down right (count_up left []) ≡ some counts)
              × Counted right (multiplicity left) counts))
  loops_lem left right =
      let (values, unique) = count_up_lem left [] (λ _. 0) (λ x. value-nil x) tt in
      count_down_lem right (count_up left []) (multiplicity left)
        (λ x. values x ∙ ap pos (omega arith)) unique

  zero_left : (x : A) (counts : Dict A ℤ) → balanced (some counts) ≡ true → value x counts ≡ pos 0
  unfolding balanced
  zero_left x counts h = elim (Option-cases (get x counts)) [
    | inl absent ↦ ap (or_else (pos 0)) absent
    | inr (c, found) ↦
        ap (or_else (pos 0)) found
        ∙ ground (arith, all_values-get (λ c. eq_ℤ c (pos 0)) counts x c h found)
  ]

  multiplicity-balanced :
      (left right : List A)
      → balanced (count_down right (count_up left [])) ≡ true
      → (x : A) → multiplicity left x ≡ multiplicity right x
  unfolding balanced
  multiplicity-balanced left right h x = elim (loops_lem left right) [
    | inl (stops, _) ↦ ground (arith, stops, h)
    | inr (counts, (ends, (values, _))) ↦
        ground (arith, (values x).0, (values x).1, zero_left x counts (sym (ap balanced ends) ∙ h))
  ]

  balanced_of_multiplicity :
      (left right : List A)
      → ((x : A) → multiplicity left x ≡ multiplicity right x)
      → balanced (count_down right (count_up left [])) ≡ true
  unfolding balanced
  balanced_of_multiplicity left right same = elim (loops_lem left right) [
    | inl (_, (x, over)) ↦ ground (arith, same x, over)
    | inr (counts, (ends, (values, unique))) ↦
        ap balanced ends
        ∙ all_values_of_get (λ c. eq_ℤ c (pos 0)) counts unique
            (λ x v found. ground (arith, (values x).1, same x, found))
  ]

  -- `l` without the first `x`
  remove : A → List A → List A
  remove x [] = []
  remove x (y ∷ l) = if y == x then l else y ∷ remove x l

  remove-Perm : (x : A) (l : List A) → 0 < multiplicity l x → Perm l (x ∷ remove x l)
  unfolding multiplicity remove
  remove-Perm x [] h = absurd (omega arith)
  remove-Perm x (y ∷ l) h = elim (Bool-cases (y == x)) [
    | inl same ↦ rw same (Perm.cons' ((e.decides y x).0 same) Perm.rfl)
    | inr other ↦ rw other (
        Perm.trans (Perm.cons y (remove-Perm x l (ground (arith, h, other))))
          (Perm.swap x y (remove x l)))
  ]

  multiplicity-remove :
      (x : A) (l : List A) (y : A)
      → multiplicity (remove x l) y ≡ multiplicity l y - (if x == y then 1 else 0)
  unfolding multiplicity remove
  multiplicity-remove x [] y = ground arith
  multiplicity-remove x (z ∷ l) y =
      ground (arith, multiplicity-remove x l y, e.decides x y, e.decides z x, e.decides z y)

  multiplicity-Permᴰ : {l r : List A} → Permᴰ l r → (x : A) → multiplicity l x ≡ multiplicity r x
  unfolding multiplicity
  multiplicity-Permᴰ Permᴰ.nil x = refl
  multiplicity-Permᴰ (Permᴰ.cons same p) x = ground (arith, same, multiplicity-Permᴰ p x)
  multiplicity-Permᴰ (Permᴰ.swap s t) x = ground (arith, s, t)
  multiplicity-Permᴰ (Permᴰ.trans p q) x = multiplicity-Permᴰ p x ∙ multiplicity-Permᴰ q x

  length-Permᴰ : {l r : List A} → Permᴰ l r → length l ≡ length r
  length-Permᴰ Permᴰ.nil = refl
  length-Permᴰ (Permᴰ.cons same p) = ap suc (length-Permᴰ p)
  length-Permᴰ (Permᴰ.swap s t) = refl
  length-Permᴰ (Permᴰ.trans p q) = length-Permᴰ p ∙ length-Permᴰ q

  multiplicity-Perm : (l r : List A) → Perm l r → (x : A) → multiplicity l x ≡ multiplicity r x
  multiplicity-Perm l r p x = ∥∥₁_elim p (ℕ_set _ _) (λ d. multiplicity-Permᴰ d x)

  length-Perm : (l r : List A) → Perm l r → length l ≡ length r
  length-Perm l r p = ∥∥₁_elim p (ℕ_set _ _) length-Permᴰ

  Perm_of_multiplicity : (l r : List A) → ((x : A) → multiplicity l x ≡ multiplicity r x) → Perm l r
  unfolding multiplicity
  Perm_of_multiplicity [] [] same = Perm.nil
  Perm_of_multiplicity [] (y ∷ r) same = ground (arith, same y, e.decides y y)
  Perm_of_multiplicity (x ∷ l) r same =
      Perm.trans
        (Perm.cons x (
          Perm_of_multiplicity l (remove x r)
            (λ y. ground (arith, same y, multiplicity-remove x r y))))
        (Perm.symm (remove-Perm x r (ground (arith, same x, e.decides x x))))

  -- `bag_equal` answers true exactly on two bags one of which is a permutation of the other.
  pub bag_equal-Perm : (left right : List A) → (bag_equal left right ≡ true) ↔ Perm left right
  unfolding bag_equal
  bag_equal-Perm left right = (
    (λ h. Perm_of_multiplicity left right (multiplicity-balanced left right (ground (arith, h)))),
    (λ p.
        rw (length-Perm left right p)
          (ground (arith, balanced_of_multiplicity left right (multiplicity-Perm left right p)))),
  )
