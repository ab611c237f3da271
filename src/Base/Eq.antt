-- ===== src/Base/Eq.antt =====
-- The source's `Eq` bound: a Boolean test that decides equality. Maps and sets keyed by a type
-- (`HashMap`, `HashSet`) need nothing else of it, since their order is never observed.
use Prim.Native.Nat.{ℕ}
use Prim.Native.String.{String}
use mathlib.Core.Bool.{Bool, true, false, ◌&&◌}
use mathlib.Core.List.{List, [], ◌∷◌}
use mathlib.Core.Option.{Option, none, some}
use native.Mathlib.Omega.{arith}
use mathlib.Core.Logic.{◌↔◌}
use mathlib.Core.Path.{◌≡◌}
use rs_polygraph.Base.Tests.{nat_beq, nat_beq_iff}
use text.Mathlib.Text.{◌==◌ as same_text}
use text.Mathlib.TextEquality.{eq_iff as same_text_iff}

-- `PartialEq::eq`, and that it decides equality, which `Eq` adds
pub record Eq {ℓ} (K : Type ℓ) : Type ℓ where
  pub eq : (left right : K) → Bool
  pub decides : (left right : K) → (eq left right ≡ true) ↔ (left ≡ right)

instance abbrev pub string_eq : Eq String
string_eq = record { decides = same_text_iff; eq = same_text }

instance abbrev pub nat_eq : Eq ℕ
nat_eq = record { decides = nat_beq_iff; eq = nat_beq }

-- `left == right`
abbrev pub ◌==◌ {κ} : {K : Type κ} ⦃test : Eq K⦄ (left right : K) → Bool
◌==◌ ⦃test⦄ left right = test.eq left right

infix 50 ◌==◌
-- the derived tests of vectors and options
module _ {ℓ} {K : Type ℓ} ⦃e : Eq K⦄ where
  abbrev pub same_list : List K → List K → Bool
  same_list [] [] = true
  same_list (x ∷ xs) (y ∷ ys) = e.eq x y && same_list xs ys
  same_list _ _ = false

  pub same_list_iff : (xs ys : List K) → (same_list xs ys ≡ true) ↔ (xs ≡ ys)
  same_list_iff [] [] = ground arith
  same_list_iff [] (y ∷ ys) = ground arith
  same_list_iff (x ∷ xs) [] = ground arith
  same_list_iff (x ∷ xs) (y ∷ ys) = ground (arith, e.decides x y, same_list_iff xs ys)

  abbrev pub same_option : Option K → Option K → Bool
  same_option none none = true
  same_option (some x) (some y) = e.eq x y
  same_option _ _ = false

  pub same_option_iff : (x y : Option K) → (same_option x y ≡ true) ↔ (x ≡ y)
  same_option_iff none none = ground arith
  same_option_iff none (some y) = ground arith
  same_option_iff (some x) none = ground arith
  same_option_iff (some x) (some y) = ground (arith, e.decides x y)

  instance abbrev pub list_eq : Eq (List K)
  list_eq = record { decides = same_list_iff; eq = same_list }

  instance abbrev pub option_eq : Eq (Option K)
  option_eq = record { decides = same_option_iff; eq = same_option }
