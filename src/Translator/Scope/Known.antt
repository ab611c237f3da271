-- ===== src/Translator/Scope/Known.antt =====
-- The scope of `validate_semantics` (crates/polygraph/src/translator/cypher/semantics.rs): every
-- variable that has a kind is in scope, and a step adds known names to it.
use rs_polygraph.Base.{String, Bool, true, false, ◌||◌, List, [], ◌∷◌, ◌++◌, ◌≡◌, arith}
use rs_polygraph.Base.Dict.{get-upsert}
use rs_polygraph.Base.Eq.{◌==◌, string_eq}
use rs_polygraph.Base.Names.{has, has-insert, has-append}
use rs_polygraph.Results.{Result}
use rs_polygraph.Results.Checks.{Ensures, passes, ◌⟫◌, weaken, try_fold}
use rs_polygraph.Translator.Scans.{Kind, Kinds, contains_key, is_known}
use rs_polygraph.Translator.Scope.{Scope, put, bind}

abbrev pub Known : Scope → Type 0
Known s = (x : String) → contains_key s.kinds x ≡ true → has x s.bound_vars ≡ true

pub contains_key-put :
    (v x : String) (kind : Kind) (m : Kinds)
    → contains_key (put v kind m) x ≡ (v == x || contains_key m x)
contains_key-put v x kind m = ground (arith, get-upsert v x kind (λ (_ : Kind). kind) m)

-- For a scope whose kinds are known, the two tests of the source are one.
pub is_known-Known :
    (s : Scope) → Known s → (x : String) → is_known s.bound_vars s.kinds x ≡ has x s.bound_vars
is_known-Known s known x = ground (arith, known x)

-- `s'` has the names of `s` and those of `names`, and its kinds are known.
pub record Extended (s : Scope) (names : List String) (s' : Scope) : Type 0 where
  pub known : Known s'
  pub grows : (x : String) → has x s'.bound_vars ≡ (has x s.bound_vars || has x names)

or_false : (b : Bool) → b ≡ (b || false)
or_false b = ground arith

or_swap : (a b c : Bool) → ((a || b) || c) ≡ (b || (a || c))
or_swap a b c = ground arith

or_assoc : (a b c : Bool) → ((a || b) || c) ≡ (a || (b || c))
or_assoc a b c = ground arith

pub same-Extended : {s : Scope} → Known s → Extended s [] s
unfolding has
same-Extended {s} known = record { known = known; grows = λ x. or_false (has x s.bound_vars) }

pub bind-Extended :
    (s : Scope) (v : String) (kind : Kind) → Known s → Extended s (v ∷ []) (bind v kind s)
unfolding has
bind-Extended s v kind known = record {
  known = λ x h.
      ground (arith, contains_key-put v x kind s.kinds, has-insert x v s.bound_vars, known x);
  grows = λ x. ground (arith, has-insert x v s.bound_vars);
}

pub then-Extended :
    {s t u : Scope} {ns ms : List String}
    → Extended s ns t
    → Extended t ms u
    → Extended s (ns ++ ms) u
then-Extended {s} {ns = ns} {ms} p q = record {
  known = q.known;
  grows = λ x. ground (arith, p.grows x, q.grows x, has-append x ns ms);
}

-- the names of all elements, in order
unfoldable pub gather {ℓ} : {A : Type ℓ} → (A → List String) → List A → List String
gather names [] = []
gather names (x ∷ xs) = names x ++ gather names xs

-- a loop adds the names that its steps add
pub try_fold-Extended :
    {A : Type 0} (names : A → List String) (step : Scope → A → Result Scope)
    → ((s : Scope) (a : A) → Known s → Ensures (Extended s (names a)) (step s a))
    → (s : Scope) (xs : List A) → Known s
    → Ensures (Extended s (gather names xs)) (try_fold step s xs)
unfolding try_fold gather
try_fold-Extended names step one s [] known = passes (same-Extended known)
try_fold-Extended names step one s (x ∷ xs) known = one s x known ⟫ λ s' p.
    weaken (λ _ q. then-Extended p q) (try_fold-Extended names step one s' xs p.known)
