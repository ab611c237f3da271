-- ===== src/Translator/Quantifiers/Counting.antt =====
-- Counting the elements of a list that pass a test.
use rs_polygraph.Base.{
  ℕ, suc, ◌+◌, Bool, true, not, ◌&&◌, List, [], ◌∷◌, if◌then◌else◌, ◌≡◌, refl, arith, nat_beq, ltb,
}
use rs_polygraph.Base.Eq.{string_eq}
use rs_polygraph.Base.Any.{any}

module _ {A : Type 0} where
  unfoldable pub count : (A → Bool) → List A → ℕ
  count f [] = 0
  count f (a ∷ xs) = if f a then suc (count f xs) else count f xs

  unfoldable pub every_holds : (A → Bool) → List A → Bool
  every_holds f [] = true
  every_holds f (a ∷ xs) = f a && every_holds f xs

  pub count_cong :
      {f g : A → Bool} → ((a : A) → f a ≡ g a) → (xs : List A) → count f xs ≡ count g xs
  unfolding count
  count_cong h [] = refl
  count_cong h (a ∷ xs) = rw (h a) (rw (count_cong h xs) refl)

  count_parts :
      (f : A → Bool) (xs : List A) → count f xs + count (λ a. not (f a)) xs ≡ count (λ a. true) xs
  unfolding count
  count_parts f [] = refl
  count_parts f (a ∷ xs) = ground (arith, count_parts f xs)

  pub count_everything :
      (f : A → Bool) (xs : List A)
      → nat_beq (count f xs) (count (λ a. true) xs) ≡ nat_beq (count (λ a. not (f a)) xs) 0
  count_everything f xs = ground (arith, count_parts f xs)

  pub count-any : (f : A → Bool) (xs : List A) → ltb 0 (count f xs) ≡ any f xs
  unfolding count any
  count-any f [] = refl
  count-any f (a ∷ xs) = ground (arith, count-any f xs)

  pub count-every_holds :
      (f : A → Bool) (xs : List A) → nat_beq (count (λ a. not (f a)) xs) 0 ≡ every_holds f xs
  unfolding count every_holds
  count-every_holds f [] = refl
  count-every_holds f (a ∷ xs) = ground (arith, count-every_holds f xs)

pub count_zero : (n : ℕ) → nat_beq n 0 ≡ not (ltb 0 n)
count_zero n = ground arith

pub count_positive : (n : ℕ) → not (nat_beq n 0) ≡ ltb 0 n
count_positive n = ground arith
