-- ===== src/Base/Dict.antt =====
-- `HashMap` as the source uses it: look-up, and update of an entry in place. The order of the
-- entries stands for the unspecified order of a hash table; no result depends on it.
use rs_polygraph.Base.Tests.{if◌then◌else◌, Bool-cases}
use rs_polygraph.Base.Eq.{Eq, ◌==◌}
use mathlib.Core.Path.{◌≡◌, refl, ap₂}
use mathlib.Core.Logic.{inl, inr}
use mathlib.Core.Bool.{Bool, true, ◌&&◌}
use mathlib.Core.Option.{Option, none, some}
use mathlib.Core.List.{List, [], ◌∷◌}
use native.Mathlib.Omega.{arith}

abbrev pub Dict {ℓ κ} : Type ℓ → Type κ → Type (ℓ ⊔ κ)
Dict K V = List (K × V)

abbrev pub or_else {ℓ} : {V : Type ℓ} → V → Option V → V
or_else d none = d
or_else d (some v) = v

module _ {ℓ κ} {K : Type ℓ} {V : Type κ} ⦃e : Eq K⦄ where
  -- `m.get(&k)`
  unfoldable pub get : K → Dict K V → Option V
  get k [] = none
  get k ((j, v) ∷ m) = if j == k then some v else get k m

  -- `let x = m.entry(k).or_insert(d); *x = f(x)`
  unfoldable pub upsert : K → V → (V → V) → Dict K V → Dict K V
  upsert k d f [] = (k, f d) ∷ []
  upsert k d f ((j, v) ∷ m) = if j == k then (j, f v) ∷ m else (j, v) ∷ upsert k d f m

  -- `m.values().all(p)`
  unfoldable pub all_values : (V → Bool) → Dict K V → Bool
  all_values p [] = true
  all_values p ((_, v) ∷ m) = p v && all_values p m

  pub get-upsert :
      (k j : K) (d : V) (f : V → V) (m : Dict K V)
      → get j (upsert k d f m) ≡ (if k == j then some (f (or_else d (get k m))) else get j m)
  unfolding get upsert
  get-upsert k j d f [] = refl
  get-upsert k j d f ((i, v) ∷ m) =
      ground (arith, e.decides k j, e.decides i k, e.decides i j, get-upsert k j d f m)

  -- No key stands twice.
  abbrev pub Unique : Dict K V → Type κ
  Unique [] = Unit
  Unique ((k, v) ∷ m) = (get k m ≡ none) × Unique m

  pub upsert-Unique :
      (k : K) (d : V) (f : V → V) (m : Dict K V) → Unique m → Unique (upsert k d f m)
  unfolding get upsert
  upsert-Unique k d f [] u = (refl, tt)
  upsert-Unique k d f ((j, v) ∷ m) u = elim (Bool-cases (j == k)) [
    | inl same ↦ rw same u
    | inr other ↦ rw other (
      ground (arith, get-upsert k j d f m, e.decides k j, e.decides j k),
      upsert-Unique k d f m u.1,
    )
  ]

  pub all_values-get :
      (p : V → Bool) (m : Dict K V) (k : K) (v : V)
      → all_values p m ≡ true
      → get k m ≡ some v
      → p v ≡ true
  unfolding get all_values
  all_values-get p [] k v h g = cc
  all_values-get p ((j, w) ∷ m) k v h g = ground (arith, all_values-get p m k v)

  pub all_values_of_get :
      (p : V → Bool) (m : Dict K V)
      → Unique m
      → ((k : K) (v : V) → get k m ≡ some v → p v ≡ true)
      → all_values p m ≡ true
  unfolding get all_values
  all_values_of_get p [] u h = refl
  all_values_of_get p ((j, w) ∷ m) u h =
      ap₂ ◌&&◌ (h j w (rw ((e.decides j j).1 refl)))
        (all_values_of_get p m u.1 (λ k v g. h k v (later k v g)))
    where
      later : (k : K) (v : V) → get k m ≡ some v → (if j == k then some w else get k m) ≡ some v
      later k v g = ground (arith, e.decides j k, u.0)
