-- ===== src/Lqa/Lower/Outcomes.antt =====
-- How a call of the lowering ends: the `Result` of crates/polygraph/src/lqa/lower.rs, or with no
-- result.
use rs_polygraph.Base.{String, ◌≡◌, refl}
use rs_polygraph.Results.{PolygraphError, translation}

-- `panicked` is an index out of bounds, and `overflowed` a `range` whose counter passes the end of
-- `i64`: it panics where overflow is checked, and where it is not, the loop goes on from the other end.
pub data Outcome (A : Type 0) : Type 0 where
  ok : A → Outcome A
  err : PolygraphError → Outcome A
  panicked overflowed : Outcome A

-- `r?`, then the rest of the function
infixl 10 ◌>>=◌
abbrev pub ◌>>=◌ : {A B : Type 0} → Outcome A → (A → Outcome B) → Outcome B
ok a >>= f = f a
err e >>= f = err e
panicked >>= f = panicked
overflowed >>= f = overflowed

-- The value of a call that returns one has the property, and an error is a translation error.
pub data Ensures {A : Type 0} (P : A → Type 0) : Outcome A → Type 0 where
  passes : {a : A} → P a → Ensures P (ok a)
  fails : (message : String) → Ensures P (err (translation message))
  panics : Ensures P panicked
  overflows : Ensures P overflowed

module _ {A : Type 0} {P : A → Type 0} where
  infixl 8 ◌⟫◌
  pub ◌⟫◌ :
      {B : Type 0} {Q : B → Type 0} {r : Outcome A} {f : A → Outcome B}
      → Ensures P r
      → ((a : A) → P a → Ensures Q (f a))
      → Ensures Q (r >>= f)
  passes {a} h ⟫ k = k a h
  fails m ⟫ k = fails m
  panics ⟫ k = panics
  overflows ⟫ k = overflows

  pub weaken : {Q : A → Type 0} {r : Outcome A} → ((a : A) → P a → Q a) → Ensures P r → Ensures Q r
  weaken g (passes h) = passes (g _ h)
  weaken g (fails m) = fails m
  weaken g panics = panics
  weaken g overflows = overflows

  pub of_ok : {a : A} → Ensures P (ok a) → P a
  of_ok (passes h) = h

  pub of_err : {e : PolygraphError} → Ensures P (err e) → (m : String) × (e ≡ translation m)
  of_err (fails m) = (m, refl)

module _ {A B : Type 0} where
  -- two binds whose first steps are one
  pub bind_cong :
      (r : Outcome A) {f g : A → Outcome B} → ((a : A) → f a ≡ g a) → (r >>= f) ≡ (r >>= g)
  bind_cong (ok a) h = h a
  bind_cong (err e) h = refl
  bind_cong panicked h = refl
  bind_cong overflowed h = refl

  pub bind_assoc :
      {C : Type 0} (r : Outcome A) (f : A → Outcome B) (g : B → Outcome C)
      → ((r >>= f) >>= g) ≡ (r >>= λ a. f a >>= g)
  bind_assoc (ok a) f g = refl
  bind_assoc (err e) f g = refl
  bind_assoc panicked f g = refl
  bind_assoc overflowed f g = refl
