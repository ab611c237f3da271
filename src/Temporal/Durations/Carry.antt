-- ===== src/Temporal/Durations/Carry.antt =====
-- The carries between the parts of a duration (crates/polygraph/src/translator/cypher/temporal.rs).
use mathlib.Core.Path.{subst}
use rs_polygraph.Base.{
  ℕ, zero, suc, ◌+◌, ◌-◌, ◌*◌, ◌/◌, ◌≤◌, ◌<◌, ◌≡◌, refl, sym, ap, ap₂, ◌∙◌, arith, if◌then◌else◌,
}
use rs_polygraph.Base.Int.{ℤ, pos, negsuc, neg, pos_part, neg_part, ◌+ℤ◌, ◌-ℤ◌, ◌*ℤ◌, ◌/ℤ◌, leb_ℤ}
use rs_polygraph.Temporal.Durations.{ns_carry, min_carry, split_ns_to_hms}

-- `part` is smaller than `limit`, and has the sign of `whole` or is 0.
abbrev pub Under : ℕ → ℤ → ℤ → Type 0
Under limit whole part =
    (pos_part part < limit)
    × ((neg_part part < limit)
        × ((pos_part part ≤ pos_part whole) × (neg_part part ≤ neg_part whole)))

-- Minutes carried into hours keep their sum; less than an hour is left, with the sign of the whole.
pub min_carry_lem :
    (total : ℤ)
    → (((min_carry total).0 *ℤ pos 60 +ℤ (min_carry total).1) ≡ total)
      × Under 60 total (min_carry total).1
unfolding min_carry
min_carry_lem (pos n) = (ground arith, (ground arith, (ground arith, (ground arith, ground arith))))
min_carry_lem (negsuc n) =
    (ground arith, (ground arith, (ground arith, (ground arith, ground arith))))

-- The hours, minutes and nanoseconds of a time add up to it; the minutes are below an hour and the
-- nanoseconds below a minute, all with the sign of the whole.
split_ns_to_hms_lem :
    (total : ℤ)
    → let (h, (m, s)) = split_ns_to_hms total in
      ((h *ℤ pos 3600000000000 +ℤ m *ℤ pos 60000000000 +ℤ s) ≡ total)
      × (Under 60 total m × Under 60000000000 total s)
unfolding split_ns_to_hms
split_ns_to_hms_lem (pos zero) = (
  refl,
  (
    (omega arith, (omega arith, (omega arith, omega arith))),
    (omega arith, (omega arith, (omega arith, omega arith))),
  ),
)
split_ns_to_hms_lem (pos (suc n)) = (
  ground arith,
  (
    (ground arith, (ground arith, (ground arith, ground arith))),
    (ground arith, (ground arith, (ground arith, ground arith))),
  ),
)
split_ns_to_hms_lem (negsuc n) = (
  ground arith,
  (
    (ground arith, (ground arith, (ground arith, ground arith))),
    (ground arith, (ground arith, (ground arith, ground arith))),
  ),
)

-- `ns_carry`, by its two truncating divisions
abbrev quotient : ℕ → ℤ → ℤ
quotient k z = if leb_ℤ (pos 0) z then z /ℤ k else neg (neg z /ℤ k)

abbrev rest_of : ℕ → ℤ → ℤ
rest_of k z = z -ℤ quotient k z *ℤ pos k

ns_carry-quotient :
    (total : ℤ)
    → ns_carry total ≡ (
      quotient 60 (quotient 1000000000 total),
      rest_of 60 (quotient 1000000000 total) *ℤ pos 1000000000 +ℤ rest_of 1000000000 total,
    )
unfolding ns_carry
ns_carry-quotient total = refl

quotient_second : (n : ℕ) → quotient 1000000000 (neg (pos n)) ≡ neg (pos (n / 1000000000))
quotient_second n = ground arith

quotient_minute : (n : ℕ) → quotient 60 (neg (pos n)) ≡ neg (pos (n / 60))
quotient_minute n = ground arith

neg-mul : (x k : ℕ) → neg (pos x) *ℤ pos k ≡ neg (pos (x * k))
neg-mul zero k = ground arith
neg-mul (suc x) k = ground arith

neg-add : (x y : ℕ) → neg (pos x) +ℤ neg (pos y) ≡ neg (pos (x + y))
neg-add x y = ground arith

neg-sub : (x y : ℕ) → y ≤ x → neg (pos x) -ℤ neg (pos y) ≡ neg (pos (x - y))
neg-sub x y h = ground arith

pos-sub : (x y : ℕ) → y ≤ x → pos x -ℤ pos y ≡ pos (x - y)
pos-sub x y h = ground arith

rest_second :
    (n : ℕ) → rest_of 1000000000 (neg (pos n)) ≡ neg (pos (n - n / 1000000000 * 1000000000))
rest_second n =
    ap (λ q. neg (pos n) -ℤ q *ℤ pos 1000000000) (quotient_second n)
    ∙ (ap (λ p. neg (pos n) -ℤ p) (neg-mul (n / 1000000000) 1000000000)
        ∙ neg-sub n (n / 1000000000 * 1000000000) (omega arith))

rest_minute : (n : ℕ) → rest_of 60 (neg (pos n)) ≡ neg (pos (n - n / 60 * 60))
rest_minute n =
    ap (λ q. neg (pos n) -ℤ q *ℤ pos 60) (quotient_minute n)
    ∙ (ap (λ p. neg (pos n) -ℤ p) (neg-mul (n / 60) 60) ∙ neg-sub n (n / 60 * 60) (omega arith))

quotient-pos : (k n : ℕ) → quotient k (pos n) ≡ pos (n / k)
quotient-pos k n = ground arith

rest_of-pos : (k n : ℕ) → n / k * k ≤ n → rest_of k (pos n) ≡ pos (n - n / k * k)
rest_of-pos k n h = ap (λ q. pos n -ℤ q *ℤ pos k) (quotient-pos k n) ∙ pos-sub n (n / k * k) h

-- the seconds and nanoseconds of `n` nanoseconds without its whole minutes
abbrev left : ℕ → ℕ
left n =
    (n / 1000000000 - n / 1000000000 / 60 * 60) * 1000000000 + (n - n / 1000000000 * 1000000000)

ns_carry-pos : (n : ℕ) → ns_carry (pos n) ≡ (pos (n / 1000000000 / 60), pos (left n))
ns_carry-pos n =
    ns_carry-quotient (pos n)
    ∙ (ap (λ q. (quotient 60 q, rest_of 60 q *ℤ pos 1000000000 +ℤ rest_of 1000000000 (pos n)))
          (quotient-pos 1000000000 n)
        ∙ ap₂ (λ c r. (c, r)) (quotient-pos 60 (n / 1000000000))
            (ap₂ (λ m s. m *ℤ pos 1000000000 +ℤ s) (rest_of-pos 60 (n / 1000000000) (omega arith))
              (rest_of-pos 1000000000 n (omega arith))))

ns_carry-neg :
    (n : ℕ) → ns_carry (neg (pos n)) ≡ (neg (pos (n / 1000000000 / 60)), neg (pos (left n)))
ns_carry-neg n =
    let s = n / 1000000000 in
    ns_carry-quotient (neg (pos n))
    ∙ (ap (λ q. (quotient 60 q, rest_of 60 q *ℤ pos 1000000000 +ℤ rest_of 1000000000 (neg (pos n))))
          (quotient_second n)
        ∙ ap₂ (λ c r. (c, r)) (quotient_minute s)
            (ap₂ ◌+ℤ◌
                (ap (◌*ℤ pos 1000000000) (rest_minute s) ∙ neg-mul (s - s / 60 * 60) 1000000000)
                (rest_second n)
              ∙ neg-add ((s - s / 60 * 60) * 1000000000) (n - s * 1000000000)))

abbrev Carried : ℤ → ℤ × ℤ → Type 0
Carried total (carry, rest) =
    ((carry *ℤ pos 60000000000 +ℤ rest) ≡ total) × Under 60000000000 total rest

left_lem : (n : ℕ) → (n / 1000000000 / 60 * 60000000000 + left n ≡ n) × (left n < 60000000000)
left_lem n = (omega arith, omega arith)

Carried-pos : (n : ℕ) → Carried (pos n) (pos (n / 1000000000 / 60), pos (left n))
Carried-pos n =
    let (sum, low) = left_lem n in
    (ap pos sum, (low, (omega arith, (omega (arith, sum), omega arith))))

neg-parts : (n : ℕ) → (pos_part (neg (pos n)) ≡ 0) × (neg_part (neg (pos n)) ≡ n)
neg-parts n = (ground arith, ground arith)

Carried-neg : (n : ℕ) → Carried (neg (pos n)) (neg (pos (n / 1000000000 / 60)), neg (pos (left n)))
Carried-neg n =
    let (sum, low) = left_lem n in
    let (p, q) = neg-parts (left n) in
    let (p', q') = neg-parts n in
    (
      ap (◌+ℤ neg (pos (left n))) (neg-mul (n / 1000000000 / 60) 60000000000)
          ∙ (neg-add (n / 1000000000 / 60 * 60000000000) (left n)
              ∙ ap (λ (k : ℕ). neg (pos k)) sum),
      (omega (arith, p), (omega (arith, q, low), (omega (arith, p), omega (arith, q, q', sum)))),
    )

neg-suc : (n : ℕ) → neg (pos (suc n)) ≡ negsuc n
neg-suc n = ground arith

-- Nanoseconds carried into minutes keep their sum; less than a minute is left, with the sign of the
-- whole.
ns_carry_lem :
    (total : ℤ)
    → (((ns_carry total).0 *ℤ pos 60000000000 +ℤ (ns_carry total).1) ≡ total)
      × Under 60000000000 total (ns_carry total).1
ns_carry_lem (pos n) = subst (Carried (pos n)) (sym (ns_carry-pos n)) (Carried-pos n)
ns_carry_lem (negsuc n) =
    subst (λ z. Carried z (ns_carry z)) (neg-suc n)
      (subst (Carried (neg (pos (suc n)))) (sym (ns_carry-neg (suc n))) (Carried-neg (suc n)))
