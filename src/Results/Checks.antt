-- ===== src/Results/Checks.antt =====
-- Checks that return early with a translation error, loops over them, and what holds of the value of
-- a check that passes (the shape of crates/polygraph/src/translator/cypher/semantics.rs).
use rs_polygraph.Base.{String, Bool, true, false, ◌≡◌, refl, List, [], ◌∷◌, All, if◌then◌else◌}
use rs_polygraph.Results.{PolygraphError, translation, Result, ok, err, ◌>>=◌}

infixl 10 ◌>>◌
abbrev pub ◌>>◌ {ℓ} : {B : Type ℓ} → Result (Unit {0}) → Result B → Result B
m >> k = m >>= λ _. k

-- `if test { return Err(Translation { message }) }`
unfoldable pub reject : Bool → String → Result (Unit {0})
reject true message = err (translation message)
reject false message = ok tt

module _ {ℓ κ} {S : Type ℓ} {A : Type κ} where
  -- `for x in xs { s = step(s, x)?; }`
  unfoldable pub try_fold : (S → A → Result S) → S → List A → Result S
  try_fold step s [] = ok s
  try_fold step s (x ∷ xs) = step s x >>= λ s'. try_fold step s' xs

module _ {ℓ} {A : Type ℓ} where
  -- `for x in xs { check(x)?; }`
  unfoldable pub each : (A → Result (Unit {0})) → List A → Result (Unit {0})
  each check [] = ok tt
  each check (x ∷ xs) = check x >> each check xs

-- The value of a check that passes has the property, and one that fails has a translation error.
pub data Ensures {A : Type 0} (P : A → Type 0) : Result A → Type 0 where
  passes : {a : A} → P a → Ensures P (ok a)
  fails : (message : String) → Ensures P (err (translation message))

-- the property of the check alone
abbrev pub Passes : Result (Unit {0}) → Type 0 → Type 0
Passes r P = Ensures (λ _. P) r

module _ {A : Type 0} {P : A → Type 0} where
  infixl 8 ◌⟫◌
  pub ◌⟫◌ :
      {B : Type 0} {Q : B → Type 0} {r : Result A} {f : A → Result B}
      → Ensures P r
      → ((a : A) → P a → Ensures Q (f a))
      → Ensures Q (r >>= f)
  passes {a} h ⟫ k = k a h
  fails m ⟫ k = fails m

  pub weaken : {Q : A → Type 0} {r : Result A} → ((a : A) → P a → Q a) → Ensures P r → Ensures Q r
  weaken g (passes h) = passes (g _ h)
  weaken g (fails m) = fails m

  pub both :
      {Q : A → Type 0} {r : Result A} → Ensures P r → Ensures Q r → Ensures (λ a. P a × Q a) r
  both (passes p) (passes q) = passes (p, q)
  both (fails m) _ = fails m

  pub of_ok : {a : A} → Ensures P (ok a) → P a
  of_ok (passes h) = h

  pub of_err : {e : PolygraphError} → Ensures P (err e) → (m : String) × (e ≡ translation m)
  of_err (fails m) = (m, refl)

pub reject_lem : (test : Bool) (message : String) → Passes (reject test message) (test ≡ false)
unfolding reject
reject_lem true message = fails message
reject_lem false message = passes refl

pub each_lem :
    {A : Type 0} (P : A → Type 0) (check : A → Result (Unit {0}))
    → ((a : A) → Passes (check a) (P a))
    → (xs : List A) → Passes (each check xs) (All P xs)
unfolding each
each_lem P check h [] = passes tt
each_lem P check h (x ∷ xs) = h x ⟫ λ _ p. weaken (λ _ ps. (p, ps)) (each_lem P check h xs)

-- a loop keeps what each step keeps
pub try_fold_inv :
    {S A : Type 0} (P : S → Type 0) (step : S → A → Result S)
    → ((s : S) (a : A) → P s → Ensures P (step s a))
    → (s : S) (xs : List A) → P s
    → Ensures P (try_fold step s xs)
unfolding try_fold
try_fold_inv P step keep s [] h = passes h
try_fold_inv P step keep s (x ∷ xs) h = keep s x h ⟫ λ s' h'. try_fold_inv P step keep s' xs h'

-- what each step ensures of its element, and later steps keep, holds of all elements at the end
pub try_fold-All :
    {S A : Type 0} (Q : A → S → Type 0) (step : S → A → Result S)
    → ((s : S) (a : A) → Ensures (Q a) (step s a))
    → ((s : S) (a b : A) → Q a s → Ensures (Q a) (step s b))
    → (s : S) (xs : List A) → Ensures (λ s'. All (λ a. Q a s') xs) (try_fold step s xs)
unfolding try_fold
try_fold-All Q step start keep s [] = passes tt
try_fold-All Q step start keep s (x ∷ xs) = start s x ⟫ λ s' q.
    both (try_fold_inv (Q x) step (λ t b. keep t x b) s' xs q)
      (try_fold-All Q step start keep s' xs)

-- what each step ensures of its element alone
pub try_fold_each :
    {S A : Type 0} (Q : A → Type 0) (step : S → A → Result S)
    → ((s : S) (a : A) → Ensures (λ _. Q a) (step s a))
    → (s : S) (xs : List A) → Ensures (λ _. All Q xs) (try_fold step s xs)
try_fold_each Q step start =
    try_fold-All (λ a _. Q a) step start (λ s a b q. weaken (λ _ _. q) (start s b))

-- a check that is made on a condition
pub when_lem :
    {P : Type 0} (test : Bool) (m k : Result (Unit {0}))
    → Passes m P
    → Passes k P
    → Passes (if test then m else k) P
when_lem true m k p q = p
when_lem false m k p q = q

-- a check whose value does not matter
pub skim : {A : Type 0} {P : A → Type 0} {r : Result A} → Ensures P r → Ensures (λ _. Unit {0}) r
skim = weaken (λ _ _. tt)

-- a loop of checks, and one of tests, where only the errors matter
pub each_skim :
    {A : Type 0} (check : A → Result (Unit {0}))
    → ((a : A) → Passes (check a) (Unit {0}))
    → (xs : List A) → Passes (each check xs) (Unit {0})
each_skim check h xs = skim (each_lem (λ _. Unit {0}) check h xs)

pub each_reject_lem :
    {A : Type 0} (test : A → Bool) (message : A → String) (xs : List A)
    → Passes (each (λ a. reject (test a) (message a)) xs) (All (λ a. test a ≡ false) xs)
each_reject_lem test message xs = each_lem _ _ (λ a. reject_lem (test a) (message a)) xs
