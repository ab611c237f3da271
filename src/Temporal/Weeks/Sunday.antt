-- ===== src/Temporal/Weeks/Sunday.antt =====
-- `tc_last_sunday_of_month` of crates/polygraph/src/translator/cypher/temporal.rs.
use mathlib.Core.Path.{subst}
use rs_polygraph.Base.{
  ℕ, suc, ◌+◌, ◌-◌, ◌%◌, ◌≤◌, ◌<◌, ◌≡◌, refl, sym, ap, ◌∙◌, arith, if◌then◌else◌,
}
use rs_polygraph.Base.Int.{ℤ, pos, ◌-ℤ◌, pos_part, eq_ℤ}
use rs_polygraph.Temporal.Calendar.{temporal_dim, temporal_epoch}
use rs_polygraph.Temporal.Calendar.Months.{before, size, lengths, dim-size}
use rs_polygraph.Temporal.Calendar.Years.{year_start}
use rs_polygraph.Temporal.Calendar.RoundTrip.{max_year, leap, epoch_lem}
use rs_polygraph.Temporal.Weeks.{dow_of, tc_last_sunday_of_month}

month_long : (y : ℤ) (k : ℕ) → 28 ≤ pos_part (temporal_dim y (pos (suc k)))
unfolding temporal_dim
month_long y k = ground arith

-- `tc_last_sunday_of_month`, from the last day of the month and its number on
abbrev sunday : ℤ → ℤ → ℤ
sunday last_day epoch = last_day -ℤ (if eq_ℤ (dow_of epoch) (pos 7) then pos 0 else dow_of epoch)

last_sunday-sunday :
    (y m : ℤ)
    → tc_last_sunday_of_month y m
      ≡ sunday (temporal_dim y m) (temporal_epoch y m (temporal_dim y m))
unfolding tc_last_sunday_of_month
last_sunday-sunday y m = refl

sunday_lem :
    (d n : ℕ)
    → 28 ≤ d
    → (j : ℕ) × ((sunday (pos d) (pos (n + d)) ≡ pos j)
        × ((1 ≤ j) × ((j ≤ d) × ((d < j + 7) × (dow_of (pos (n + j)) ≡ pos 7)))))
sunday_lem d n h =
    (d - (n + d) % 7, (ground arith, (omega arith, (omega arith, (omega arith, ground arith)))))

dim_lem :
    (y k : ℕ) → k < 12 → temporal_dim (pos (suc y)) (pos (suc k)) ≡ pos (size (lengths (leap y)) k)
unfolding leap
dim_lem y k h = dim-size (pos (suc y)) k h

-- From the year 1 to the year 10 ^ 16, the last Sunday of a month is a day of that month, it is a Sunday, and it is
-- among the month's last seven days.
pub last_sunday_lem :
    (y k : ℕ)
    → k < 12
    → suc y ≤ max_year
    → (j : ℕ) × ((tc_last_sunday_of_month (pos (suc y)) (pos (suc k)) ≡ pos j)
        × ((1 ≤ j)
            × ((j ≤ pos_part (temporal_dim (pos (suc y)) (pos (suc k))))
                × ((pos_part (temporal_dim (pos (suc y)) (pos (suc k))) < j + 7)
                    × (dow_of (temporal_epoch (pos (suc y)) (pos (suc k)) (pos j)) ≡ pos 7)))))
last_sunday_lem y k h _ =
    let d = size (lengths (leap y)) k in
    let n = year_start y + before (lengths (leap y)) k in
    let length : temporal_dim (pos (suc y)) (pos (suc k)) ≡ pos d = dim_lem y k h in
    let number : (i : ℕ) → temporal_epoch (pos (suc y)) (pos (suc k)) (pos i) ≡ pos (n + i) =
      λ i. epoch_lem y k i (omega arith) ∙ ap pos (omega arith) in
    let (j, (found, (low, (high, (late, is_sunday))))) =
      sunday_lem d n (subst (λ l. 28 ≤ pos_part l) length (month_long (pos (suc y)) k)) in
    (
      j,
      (
        last_sunday-sunday (pos (suc y)) (pos (suc k))
            ∙ (ap (λ l. sunday l (temporal_epoch (pos (suc y)) (pos (suc k)) l)) length
                ∙ (ap (sunday (pos d)) (number d) ∙ found)),
        (
          low,
          (
            subst (λ l. j ≤ pos_part l) (sym length) high,
            (subst (λ l. pos_part l < j + 7) (sym length) late, ap dow_of (number j) ∙ is_sunday),
          ),
        ),
      ),
    )
