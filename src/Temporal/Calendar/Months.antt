-- ===== src/Temporal/Calendar/Months.antt =====
-- The days of a year in its months (crates/polygraph/src/translator/cypher/temporal.rs).
use rs_polygraph.Base.{
  ℕ, zero, suc, ◌+◌, ◌≤◌, Bool, true, false, List, [], ◌∷◌, map, ◌≡◌, refl, ap, ◌∙◌, arith, length,
  ◌<◌, ◌-◌, inl, inr, le-or-lt, if◌then◌else◌,
}
use rs_polygraph.Base.Int.{ℤ, pos}
use rs_polygraph.Temporal.Calendar.{
  temporal_is_leap, temporal_dim, add_months, walk_months, month_lengths, temporal_ordinal_to_md,
}

-- the days in the first `k` of the months, and in the month after them
abbrev pub before : List ℕ → ℕ → ℕ
before ns zero = 0
before [] (suc k) = 0
before (n ∷ ns) (suc k) = n + before ns k

abbrev pub size : List ℕ → ℕ → ℕ
size [] k = 0
size (n ∷ ns) zero = n
size (n ∷ ns) (suc k) = size ns k

walk_months_lem :
    (ns : List ℕ) (k d s : ℕ)
    → 1 ≤ d
    → d ≤ size ns k
    → walk_months (map pos ns) (pos s) (pos (before ns k + d)) ≡ (pos (s + k), pos d)
unfolding walk_months
walk_months_lem [] k d s low high = absurd (omega arith)
walk_months_lem (n ∷ ns) zero d s low high = ground arith
walk_months_lem (n ∷ ns) (suc k) d s low high =
    ground (arith, walk_months_lem ns k d (suc s) low high)

abbrev pub lengths : Bool → List ℕ
lengths leap = 31 ∷ (if leap then 29 else 28) ∷ 31 ∷ 30 ∷ 31 ∷ 30 ∷ 31 ∷ 31 ∷ 30 ∷ 31 ∷ 30 ∷ 31 ∷ []

month_lengths-lengths : (leap : Bool) → month_lengths leap ≡ map pos (lengths leap)
month_lengths-lengths true = refl
month_lengths-lengths false = refl

pub dim-size :
    (y : ℤ) (k : ℕ)
    → k < 12
    → temporal_dim y (pos (suc k)) ≡ pos (size (lengths (temporal_is_leap y)) k)
unfolding temporal_dim
dim-size y zero h = refl
dim-size y (suc zero) h = ground arith
dim-size y (suc (suc zero)) h = refl
dim-size y (suc (suc (suc zero))) h = refl
dim-size y (suc (suc (suc (suc zero)))) h = refl
dim-size y (suc (suc (suc (suc (suc zero))))) h = refl
dim-size y (suc (suc (suc (suc (suc (suc zero)))))) h = refl
dim-size y (suc (suc (suc (suc (suc (suc (suc zero))))))) h = refl
dim-size y (suc (suc (suc (suc (suc (suc (suc (suc zero)))))))) h = refl
dim-size y (suc (suc (suc (suc (suc (suc (suc (suc (suc zero))))))))) h = refl
dim-size y (suc (suc (suc (suc (suc (suc (suc (suc (suc (suc zero)))))))))) h = refl
dim-size y (suc (suc (suc (suc (suc (suc (suc (suc (suc (suc (suc zero))))))))))) h = refl
dim-size y (suc (suc (suc (suc (suc (suc (suc (suc (suc (suc (suc (suc k)))))))))))) h =
    absurd (omega arith)

before-suc : (ns : List ℕ) (k : ℕ) → before ns (suc k) ≡ before ns k + size ns k
before-suc [] zero = omega arith
before-suc [] (suc k) = omega arith
before-suc (n ∷ ns) zero = omega arith
before-suc (n ∷ ns) (suc k) = omega (arith, before-suc ns k)

pub add_months_lem :
    (y : ℤ) (k n : ℕ)
    → k ≤ 12
    → add_months y k (pos n) ≡ pos (n + before (lengths (temporal_is_leap y)) k)
unfolding add_months
add_months_lem y zero n h = ap pos (omega arith)
add_months_lem y (suc k) n h =
    rw (add_months_lem y k n (omega arith), dim-size y k h)
      (ap pos (omega (arith, before-suc (lengths (temporal_is_leap y)) k)))

-- A day of the year that falls in the month after the first `k` is given back as that month and the
-- day in it.
pub ordinal_to_md_lem :
    (y : ℤ) (k d : ℕ)
    → 1 ≤ d
    → d ≤ size (lengths (temporal_is_leap y)) k
    → temporal_ordinal_to_md y (pos (before (lengths (temporal_is_leap y)) k + d))
      ≡ (pos (suc k), pos d)
unfolding temporal_ordinal_to_md
ordinal_to_md_lem y k d low high =
    ap (λ ms. walk_months ms (pos 1) (pos (before (lengths (temporal_is_leap y)) k + d)))
      (month_lengths-lengths (temporal_is_leap y))
    ∙ (walk_months_lem (lengths (temporal_is_leap y)) k d 1 low high
        ∙ ap (λ (m : ℕ). (pos m, pos d)) (omega arith))

-- every day up to the last one falls in a month
pub month_of :
    (ns : List ℕ) (t : ℕ)
    → 1 ≤ t
    → t ≤ before ns (length ns)
    → (k : ℕ) × ((d : ℕ) × ((t ≡ before ns k + d)
          × ((1 ≤ d) × ((d ≤ size ns k) × (k < length ns)))))
month_of [] t low high = absurd (omega arith)
month_of (n ∷ ns) t low high = elim (le-or-lt t n) [
  | inl here ↦ (0, (t, (omega arith, (low, (here, omega arith)))))
  | inr there ↦
      let (k, (d, (e, (low', (high', bound))))) = month_of ns (t - n) (omega arith) (omega arith) in
      (suc k, (d, (omega (arith, e), (low', (high', omega arith)))))
]

pub before-le : (ns : List ℕ) (k : ℕ) → before ns k + size ns k ≤ before ns (length ns)
before-le [] zero = omega arith
before-le [] (suc k) = omega arith
before-le (n ∷ ns) zero = omega arith
before-le (n ∷ ns) (suc k) = omega (arith, before-le ns k)
