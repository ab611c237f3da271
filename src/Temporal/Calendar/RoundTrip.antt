-- ===== src/Temporal/Calendar/RoundTrip.antt =====
-- `temporal_epoch` and `temporal_from_epoch` (crates/polygraph/src/translator/cypher/temporal.rs)
-- undo each other from the year 1 on.
use mathlib.Core.Path.{subst}
use rs_polygraph.Base.{
  ℕ, zero, suc, ◌+◌, ◌-◌, ◌≤◌, ◌<◌, ◌^◌, Bool, true, false, length, ◌≡◌, refl, sym, ap, ◌∙◌, arith,
}
use rs_polygraph.Base.Int.{pos, ◌+ℤ◌, ◌-ℤ◌, ◌*ℤ◌, ◌/ℤ◌, pos_part}
use rs_polygraph.Temporal.Calendar.{
  temporal_is_leap, temporal_dim, add_months, temporal_epoch, temporal_from_epoch, dated,
}
use rs_polygraph.Temporal.Calendar.Months.{
  before, size, lengths, add_months_lem, ordinal_to_md_lem, month_of, dim-size, before-le,
}
use rs_polygraph.Temporal.Calendar.Years.{year_start, year_length, from_epoch_lem, year_of}

-- Up to this year no step of the calendar functions leaves the range of an `i64`.
abbrev pub max_year : ℕ
max_year = 10 ^ 16

year_length-le : (l : Bool) → year_length l ≤ 366
year_length-le true = omega arith
year_length-le false = omega arith

-- a date of the calendar from the year 1 on
abbrev pub IsDate : ℕ → ℕ → ℕ → Type 0
IsDate y m d =
    (1 ≤ y) × ((1 ≤ m) × ((m ≤ 12) × ((1 ≤ d) × (d ≤ pos_part (temporal_dim (pos y) (pos m))))))

year_start_ℤ :
    (y : ℕ)
    → pos 365 *ℤ (pos (suc y) -ℤ pos 1)
        +ℤ (pos (suc y) -ℤ pos 1) /ℤ 4
        -ℤ (pos (suc y) -ℤ pos 1) /ℤ 100
        +ℤ (pos (suc y) -ℤ pos 1) /ℤ 400
      ≡ pos (year_start y)
year_start_ℤ y = ground arith

unfoldable pub leap : ℕ → Bool
leap y = temporal_is_leap (pos (suc y))

pub epoch_lem :
    (y k d : ℕ)
    → k ≤ 12
    → temporal_epoch (pos (suc y)) (pos (suc k)) (pos d)
      ≡ pos (year_start y + (before (lengths (leap y)) k + d))
unfolding temporal_epoch leap
epoch_lem y k d h =
    ap (λ n. add_months (pos (suc y)) (pos_part (pos (suc k) -ℤ pos 1)) n +ℤ pos d) (year_start_ℤ y)
    ∙ (ap (λ (j : ℕ). add_months (pos (suc y)) j (pos (year_start y)) +ℤ pos d) months
        ∙ (ap (◌+ℤ pos d) (add_months_lem (pos (suc y)) k (year_start y) h) ∙ ap pos (omega arith)))
  where
    months : pos_part (pos (suc k) -ℤ pos 1) ≡ k
    months = ground arith

within_year :
    (l : Bool) (k d : ℕ) → d ≤ size (lengths l) k → before (lengths l) k + d ≤ year_length l
within_year true k d high = omega (arith, before-le (lengths true) k)
within_year false k d high = omega (arith, before-le (lengths false) k)

round_trip :
    (y k d : ℕ)
    → k < 12
    → 1 ≤ d
    → d ≤ size (lengths (leap y)) k
    → temporal_from_epoch (temporal_epoch (pos (suc y)) (pos (suc k)) (pos d))
      ≡ (pos (suc y), (pos (suc k), pos d))
unfolding leap
round_trip y k d h low high =
    let t = before (lengths (leap y)) k + d - 1 in
    let day : before (lengths (leap y)) k + d ≡ suc t = omega arith in
    let inside = within_year (leap y) k d high in
    ap temporal_from_epoch
      (epoch_lem y k d (omega arith) ∙ ap (λ (n : ℕ). pos (year_start y + n)) day)
    ∙ (from_epoch_lem y t (omega arith)
        ∙ (ap (λ (n : ℕ). dated (pos (suc y)) (pos n)) (sym day)
            ∙ ap (λ md. (pos (suc y), md)) (ordinal_to_md_lem (pos (suc y)) k d low high)))

-- the round trip of the integers, without the bounds of an `i64`
pub from_epoch-epoch_unbounded :
    (y m d : ℕ)
    → IsDate y m d
    → temporal_from_epoch (temporal_epoch (pos y) (pos m) (pos d)) ≡ (pos y, (pos m, pos d))
unfolding leap
from_epoch-epoch_unbounded zero m d h = absurd (omega (arith, h.0))
from_epoch-epoch_unbounded (suc y) zero d h = absurd (omega (arith, h.1.0))
from_epoch-epoch_unbounded (suc y) (suc k) d h =
    round_trip y k d (omega (arith, h.1.1.0)) h.1.1.1.0
      (subst (λ n. d ≤ pos_part n) (dim-size (pos (suc y)) k (omega (arith, h.1.1.0))) h.1.1.1.1)

year_total : (l : Bool) → year_length l ≡ before (lengths l) (length (lengths l))
year_total true = refl
year_total false = refl

-- Each day number from 1 on is the number of the date that it is turned into, and that is a date of
-- the calendar.
pub epoch-from_epoch :
    (n : ℕ)
    → 1 ≤ n
    → (y : ℕ) × ((m : ℕ) × ((d : ℕ) × (IsDate y m d
            × ((temporal_from_epoch (pos n) ≡ (pos y, (pos m, pos d)))
                × (temporal_epoch (pos y) (pos m) (pos d) ≡ pos n)))))
unfolding leap
epoch-from_epoch n h =
    let (y, (t, (e, inside))) = year_of (n - 1) in
    let (k, (d, (days, (low, (high, months))))) =
      month_of (lengths (leap y)) (suc t) (omega arith)
        (omega (arith, inside, year_total (leap y))) in
    let number : temporal_epoch (pos (suc y)) (pos (suc k)) (pos d) ≡ pos n =
      epoch_lem y k d (omega arith) ∙ ap pos (omega (arith, e, days, h)) in
    let valid : IsDate (suc y) (suc k) d = (
      omega arith,
      (
        omega arith,
        (
          omega arith,
          (low, subst (λ i. d ≤ pos_part i) (sym (dim-size (pos (suc y)) k months)) high),
        ),
      ),
    ) in
    (
      suc y,
      (
        suc k,
        (
          d,
          (
            valid,
            (
              ap temporal_from_epoch (sym number)
                  ∙ from_epoch-epoch_unbounded (suc y) (suc k) d valid,
              number,
            ),
          ),
        ),
      ),
    )

-- the number of a date is not 0
pub epoch_of_date :
    (y m d : ℕ) → IsDate y m d → (n : ℕ) × (temporal_epoch (pos y) (pos m) (pos d) ≡ pos (suc n))
epoch_of_date zero m d h = absurd (omega (arith, h.0))
epoch_of_date (suc y) zero d h = absurd (omega (arith, h.1.0))
epoch_of_date (suc y) (suc k) d h = (
  year_start y + (before (lengths (leap y)) k + d) - 1,
  epoch_lem y k d (omega (arith, h.1.1.0)) ∙ ap pos (omega (arith, h.1.1.1.0)),
)

epoch_below :
    (y m d : ℕ)
    → IsDate y m d
    → y ≤ max_year
    → (n : ℕ) × ((temporal_epoch (pos y) (pos m) (pos d) ≡ pos n) × (n < 2 ^ 63))
unfolding leap
epoch_below zero m d h _ = absurd (omega (arith, h.0))
epoch_below (suc y) zero d h _ = absurd (omega (arith, h.1.0))
epoch_below (suc y) (suc k) d h bound =
    let high =
      subst (λ n. d ≤ pos_part n) (dim-size (pos (suc y)) k (omega (arith, h.1.1.0))) h.1.1.1.1 in
    let inside = within_year (leap y) k d high in
    let short = year_length-le (leap y) in
    (_, (epoch_lem y k d (omega (arith, h.1.1.0)), omega (arith, bound, inside, short)))

-- From the year 1 to the year 10 ^ 16, the number of a date fits an i64 and is turned back into that
-- date.
pub from_epoch-epoch :
    (y m d : ℕ)
    → IsDate y m d
    → y ≤ max_year
    → ((n : ℕ) × ((temporal_epoch (pos y) (pos m) (pos d) ≡ pos n) × (n < 2 ^ 63)))
      × (temporal_from_epoch (temporal_epoch (pos y) (pos m) (pos d)) ≡ (pos y, (pos m, pos d)))
from_epoch-epoch y m d h bound = (epoch_below y m d h bound, from_epoch-epoch_unbounded y m d h)
