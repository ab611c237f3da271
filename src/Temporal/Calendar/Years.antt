-- ===== src/Temporal/Calendar/Years.antt =====
-- The days before a year, by its place in the cycles of 400, 100 and 4 years
-- (crates/polygraph/src/translator/cypher/temporal.rs).
use mathlib.Core.Path.{subst}
use native.Mathlib.Nat.{mul_comm as *-comm}
use rs_polygraph.Base.{
  ℕ, suc, ◌+◌, ◌-◌, ◌*◌, ◌/◌, ◌%◌, ◌<◌, Bool, not, ◌&&◌, ◌||◌, ◌≡◌, refl, sym, ap, ap₂, ◌∙◌, arith,
  ◌⊎◌, if◌then◌else◌, nat_beq, leb,
}
use rs_polygraph.Base.Int.{ℤ, pos, ◌+ℤ◌, ◌-ℤ◌, ◌*ℤ◌, ◌/ℤ◌, min_ℤ}
use rs_polygraph.Temporal.Calendar.{temporal_is_leap, temporal_from_epoch, dated}

-- the days before the first day of the year after the first `y`
abbrev pub year_start : ℕ → ℕ
year_start y = 365 * y + y / 4 - y / 100 + y / 400

-- `y` years are `a` cycles of 400 years, `b` of 100, `c` of 4, and `e` years.
abbrev pub Cycles : ℕ → ℕ → ℕ → ℕ → ℕ → Type 0
Cycles y a b c e = (y ≡ 400 * a + 100 * b + 4 * c + e) × ((b < 4) × ((c < 25) × (e < 4)))

pub cycles : (y : ℕ) → Cycles y (y / 400) (y % 400 / 100) (y % 100 / 4) (y % 4)
cycles y = (omega arith, (omega arith, (omega arith, omega arith)))

year_start_lem :
    (y a b c e : ℕ) → Cycles y a b c e → year_start y ≡ 146097 * a + 36524 * b + 1461 * c + 365 * e
year_start_lem y a b c e h = omega (arith, h.0, h.1.0, h.1.1.0, h.1.1.1)

-- the year after them is a leap year
abbrev pub long : ℕ → ℕ → ℕ → Bool
long b c e = nat_beq e 3 && (not (nat_beq c 24) || nat_beq b 3)

is_leap-long : (y a b c e : ℕ) → Cycles y a b c e → temporal_is_leap (pos (suc y)) ≡ long b c e
unfolding temporal_is_leap
is_leap-long y a b c e h = ground (arith, h.0, h.1.0, h.1.1.0, h.1.1.1)

-- the days of that year
abbrev pub year_length : Bool → ℕ
year_length leap = if leap then 366 else 365

-- `temporal_from_epoch`, cut at its four quotients
abbrev from_4 : ℤ → ℤ → ℤ → ℤ → ℤ × (ℤ × ℤ)
from_4 n400 n100 n4 r4 =
    let n1 = min_ℤ ((r4 -ℤ pos 1) /ℤ 365) (pos 3) in
    dated (n400 *ℤ pos 400 +ℤ n100 *ℤ pos 100 +ℤ n4 *ℤ pos 4 +ℤ n1 +ℤ pos 1) (r4 -ℤ n1 *ℤ pos 365)

abbrev from_100 : ℤ → ℤ → ℤ → ℤ × (ℤ × ℤ)
from_100 n400 n100 r100 =
    let n4 = (r100 -ℤ pos 1) /ℤ 1461 in from_4 n400 n100 n4 (r100 -ℤ n4 *ℤ pos 1461)

abbrev from_400 : ℤ → ℤ → ℤ × (ℤ × ℤ)
from_400 n400 r400 =
    let n100 = min_ℤ ((r400 -ℤ pos 1) /ℤ 36524) (pos 3) in
    from_100 n400 n100 (r400 -ℤ n100 *ℤ pos 36524)

from_epoch-from_400 :
    (n : ℤ)
    → temporal_from_epoch n
      ≡ from_400 ((n -ℤ pos 1) /ℤ 146097) (n -ℤ (n -ℤ pos 1) /ℤ 146097 *ℤ pos 146097)
unfolding temporal_from_epoch
from_epoch-from_400 n = refl

-- what is left of a day after `q` cycles of `k` days
rest_lem : (k q r : ℕ) → pos (k * q + suc r) -ℤ pos q *ℤ pos k ≡ pos (suc r)
rest_lem k q r = ground (arith, *-comm k q)

cycle_400 : (a r : ℕ) → r < 146097 → (pos (146097 * a + suc r) -ℤ pos 1) /ℤ 146097 ≡ pos a
cycle_400 a r h = ground arith

cycle_100 :
    (b r : ℕ)
    → b < 4
    → (r < 36524) ⊎ ((b ≡ 3) × (r ≡ 36524))
    → min_ℤ ((pos (36524 * b + suc r) -ℤ pos 1) /ℤ 36524) (pos 3) ≡ pos b
cycle_100 b r low h = ground arith

cycle_4 : (c r : ℕ) → r < 1461 → (pos (1461 * c + suc r) -ℤ pos 1) /ℤ 1461 ≡ pos c
cycle_4 c r h = ground arith

cycle_1 :
    (e r : ℕ)
    → e < 4
    → (r < 365) ⊎ ((e ≡ 3) × (r ≡ 365))
    → min_ℤ ((pos (365 * e + suc r) -ℤ pos 1) /ℤ 365) (pos 3) ≡ pos e
cycle_1 e r low h = ground arith

from_400_lem :
    (n400 : ℤ) (b r : ℕ)
    → b < 4
    → (r < 36524) ⊎ ((b ≡ 3) × (r ≡ 36524))
    → from_400 n400 (pos (36524 * b + suc r)) ≡ from_100 n400 (pos b) (pos (suc r))
from_400_lem n400 b r low h =
    ap (λ q. from_100 n400 q (pos (36524 * b + suc r) -ℤ q *ℤ pos 36524)) (cycle_100 b r low h)
    ∙ ap (from_100 n400 (pos b)) (rest_lem 36524 b r)

from_100_lem :
    (n400 n100 : ℤ) (c r : ℕ)
    → r < 1461
    → from_100 n400 n100 (pos (1461 * c + suc r)) ≡ from_4 n400 n100 (pos c) (pos (suc r))
from_100_lem n400 n100 c r h =
    ap (λ q. from_4 n400 n100 q (pos (1461 * c + suc r) -ℤ q *ℤ pos 1461)) (cycle_4 c r h)
    ∙ ap (from_4 n400 n100 (pos c)) (rest_lem 1461 c r)

from_4_lem :
    (a b c e r : ℕ)
    → e < 4
    → (r < 365) ⊎ ((e ≡ 3) × (r ≡ 365))
    → from_4 (pos a) (pos b) (pos c) (pos (365 * e + suc r))
      ≡ dated (pos (suc (400 * a + 100 * b + 4 * c + e))) (pos (suc r))
from_4_lem a b c e r low h =
    ap
      (λ q.
        dated (pos a *ℤ pos 400 +ℤ pos b *ℤ pos 100 +ℤ pos c *ℤ pos 4 +ℤ q +ℤ pos 1)
          (pos (365 * e + suc r) -ℤ q *ℤ pos 365))
      (cycle_1 e r low h)
    ∙ ap₂ dated (ap pos (omega arith)) (rest_lem 365 e r)

pos-suc : (m r : ℕ) → pos (suc (m + r)) ≡ pos (m + suc r)
pos-suc m r = ap pos (omega arith)

from_epoch-cycles :
    (a b c e t : ℕ)
    → b < 4
    → c < 25
    → e < 4
    → t < year_length (long b c e)
    → temporal_from_epoch (pos (146097 * a + (36524 * b + (1461 * c + (365 * e + suc t)))))
      ≡ dated (pos (suc (400 * a + 100 * b + 4 * c + e))) (pos (suc t))
from_epoch-cycles a b c e t hb hc he ht =
    let r4 = 365 * e + t in
    let r100 = 1461 * c + r4 in
    let r400 = 36524 * b + r100 in
    ap temporal_from_epoch (ap pos (omega arith))
    ∙ (from_epoch-from_400 (pos (146097 * a + suc r400))
        ∙ (ap (λ q. from_400 q (pos (146097 * a + suc r400) -ℤ q *ℤ pos 146097))
              (cycle_400 a r400 (ground arith))
            ∙ (ap (from_400 (pos a)) (rest_lem 146097 a r400 ∙ pos-suc (36524 * b) r100)
                ∙ (from_400_lem (pos a) b r100 hb (ground arith)
                    ∙ (ap (from_100 (pos a) (pos b)) (pos-suc (1461 * c) r4)
                        ∙ (from_100_lem (pos a) (pos b) c r4 (ground arith)
                            ∙ (ap (from_4 (pos a) (pos b) (pos c)) (pos-suc (365 * e) t)
                                ∙ from_4_lem a b c e t he (ground arith))))))))

-- The `t`th day after the first one of a year is a day of that year, `t` days into it.
pub from_epoch_lem :
    (y t : ℕ)
    → t < year_length (temporal_is_leap (pos (suc y)))
    → temporal_from_epoch (pos (year_start y + suc t)) ≡ dated (pos (suc y)) (pos (suc t))
from_epoch_lem y t h =
    let a = y / 400 in
    let b = y % 400 / 100 in
    let c = y % 100 / 4 in
    let e = y % 4 in
    let parts = cycles y in
    ap temporal_from_epoch (ap pos (omega (arith, year_start_lem y a b c e parts)))
    ∙ (from_epoch-cycles a b c e t parts.1.0 parts.1.1.0 parts.1.1.1
          (subst (λ leap. t < year_length leap) (is_leap-long y a b c e parts) h)
        ∙ ap (λ (k : ℕ). dated (pos (suc k)) (pos (suc t))) (sym parts.0))

-- Each day has a year.
pub year_of :
    (n : ℕ)
    → (y : ℕ) × ((t : ℕ) × ((n ≡ year_start y + t)
          × (t < year_length (temporal_is_leap (pos (suc y))))))
year_of n =
    let a = n / 146097 in
    let r = n % 146097 in
    let b = if leb (r / 36524) 3 then r / 36524 else 3 in
    let r100 = r - 36524 * b in
    let c = r100 / 1461 in
    let r4 = r100 % 1461 in
    let e = if leb (r4 / 365) 3 then r4 / 365 else 3 in
    let t = r4 - 365 * e in
    let y = 400 * a + 100 * b + 4 * c + e in
    let parts : Cycles y a b c e = (refl, (ground arith, (ground arith, ground arith))) in
    let inside : t < year_length (long b c e) = ground arith in
    (
      y,
      (
        t,
        (
          ground (arith, year_start_lem y a b c e parts),
          subst (λ leap. t < year_length leap) (sym (is_leap-long y a b c e parts)) inside,
        ),
      ),
    )
