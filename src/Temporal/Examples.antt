-- ===== src/Temporal/Examples.antt =====
-- The theorems on dates and durations, at dates of the year 2024.
use rs_polygraph.Base.{
  Option, some, none, false, ◌≢◌, ℕ, ◌+◌, ◌≤◌, ◌<◌, ◌^◌, ◌*◌, ◌⊎◌, ◌≡◌, refl, inl, inr, arith,
}
use rs_polygraph.Base.Decimal.{to_string}
use rs_polygraph.Base.Int.{ℤ, pos, negsuc, pos_part, neg_part}
use rs_polygraph.Temporal.Calendar.{
  temporal_ordinal_to_md, temporal_quarter_to_md, temporal_dim, temporal_epoch, temporal_from_epoch,
}
use rs_polygraph.Temporal.Calendar.RoundTrip.{IsDate, from_epoch-epoch, epoch-from_epoch}
use rs_polygraph.Temporal.Calendar.Wrapped.{temporal_epoch_i64}
use rs_polygraph.Temporal.Weeks.{dow_of, week_to_date, date_to_iso_week, tc_last_sunday_of_month}
use rs_polygraph.Temporal.Weeks.Iso.{iso_week_round_trip}
use rs_polygraph.Temporal.Weeks.Sunday.{last_sunday_lem}
use rs_polygraph.Temporal.Text.{TcComponents}
use rs_polygraph.Temporal.Truncation.{by_week_year, unit_of, tc_apply_truncation}
use rs_polygraph.Temporal.Truncation.Twice.{tc_apply_truncation_twice}
use rs_polygraph.Temporal.Durations.{min_carry, ns_carry, calendar_diff_pos, days_before}
use rs_polygraph.Temporal.Durations.Difference.{calendar_diff_pos_lem}

-- 30 December 2024, a Monday of the first week of 2025
new_year : date_to_iso_week (pos 2024) (pos 12) (pos 30) ≡ (pos 2025, (pos 1, pos 1))
unfolding date_to_iso_week
new_year = refl

leap_day : IsDate 2024 2 29
unfolding temporal_dim
leap_day = (omega arith, (omega arith, (omega arith, (omega arith, omega arith))))

-- the year 0 has no number of its own: its last day has the number of the day after it
year_zero : temporal_epoch (pos 0) (pos 12) (pos 31) ≡ temporal_epoch (pos 1) (pos 1) (pos 1)
unfolding temporal_epoch
year_zero = refl

from_epoch-epoch_example :
    ((n : ℕ) × ((temporal_epoch (pos 2024) (pos 2) (pos 29) ≡ pos n) × (n < 2 ^ 63)))
    × (temporal_from_epoch (temporal_epoch (pos 2024) (pos 2) (pos 29))
        ≡ (pos 2024, (pos 2, pos 29)))
from_epoch-epoch_example = from_epoch-epoch 2024 2 29 leap_day (omega arith)

epoch-from_epoch_example :
    (y : ℕ) × ((m : ℕ) × ((d : ℕ) × (IsDate y m d
          × ((temporal_from_epoch (pos 738945) ≡ (pos y, (pos m, pos d)))
              × (temporal_epoch (pos y) (pos m) (pos d) ≡ pos 738945)))))
epoch-from_epoch_example = epoch-from_epoch 738945 (omega arith)

iso_week_round_trip_example :
    (iy : ℕ) × ((w : ℕ) × ((v : ℕ) × ((date_to_iso_week (pos 2024) (pos 2) (pos 29)
            ≡ (pos iy, (pos w, pos v)))
          × (((1 ≤ w) × ((w ≤ 53) × ((1 ≤ v) × (v ≤ 7))))
              × (week_to_date (pos iy) (pos w) (pos v) ≡ (pos 2024, (pos 2, pos 29)))))))
iso_week_round_trip_example = iso_week_round_trip 2024 2 29 leap_day (omega arith)

-- October of the year 2024
last_sunday_lem_example :
    (j : ℕ) × ((tc_last_sunday_of_month (pos 2024) (pos 10) ≡ pos j)
      × ((1 ≤ j)
          × ((j ≤ pos_part (temporal_dim (pos 2024) (pos 10)))
              × ((pos_part (temporal_dim (pos 2024) (pos 10)) < j + 7)
                  × (dow_of (temporal_epoch (pos 2024) (pos 10) (pos j)) ≡ pos 7)))))
last_sunday_lem_example = last_sunday_lem 2023 9 (omega arith) (omega arith)

-- From 31 January to 1 March 2023 the days are -2.
difference_below_zero :
    calendar_diff_pos (pos 2023) (pos 1) (pos 31) (pos 2023) (pos 3) (pos 1)
    ≡ (pos 0, (pos 1, negsuc 1))
unfolding calendar_diff_pos
difference_below_zero = refl

-- from 31 January to 15 March 2024
calendar_diff_pos_lem_example :
    let (yd, (md, dd)) =
      calendar_diff_pos (pos 2024) (pos 1) (pos 31) (pos 2024) (pos 3) (pos 15) in
    let months = 12 * (2024 + pos_part yd) + (1 + pos_part md) in
    ((neg_part yd ≡ 0) × ((neg_part md ≡ 0) × ((pos_part md < 12) × (neg_part dd ≡ 0))))
    × (((31 ≤ 15) × ((months ≡ 12 * 2024 + 3) × (31 + pos_part dd ≡ 15)))
        ⊎ ((15 < 31)
            × ((months + 1 ≡ 12 * 2024 + 3)
                × (31 + pos_part dd ≡ 15 + pos_part (days_before (pos 2024) (pos 3))))))
unfolding temporal_dim
calendar_diff_pos_lem_example =
    calendar_diff_pos_lem 2024 1 31 2024 3 15 (omega arith) (omega arith) (omega arith)
      (omega arith) (inr (refl, inl (omega arith))) march
  where
    march : 31 ≤ 15 + pos_part (days_before (pos 2024) (pos 3))
    march = omega arith

carry_runs : ns_carry (negsuc 61999999999) ≡ (negsuc 0, negsuc 1999999999)
unfolding ns_carry
carry_runs = refl

minutes_run : min_carry (negsuc 124) ≡ (negsuc 1, negsuc 4)
unfolding min_carry
minutes_run = refl

second_quarter : temporal_quarter_to_md (pos 2024) (pos 2) (pos 45) ≡ (pos 5, pos 15)
unfolding temporal_quarter_to_md
second_quarter = refl

last_day : temporal_ordinal_to_md (pos 2024) (pos 366) ≡ (pos 12, pos 31)
unfolding temporal_ordinal_to_md
last_day = refl

abbrev at : ℕ → ℕ → ℕ → Option ℤ → TcComponents
at y m d h = record {
  year = some (pos y);
  month = some (pos m);
  day = some (pos d);
  hour = h;
  minute = h;
  second = h;
  ns = h;
  tz = none;
  is_localdatetime = false;
}

-- 5 January 2025 is in the first week of 2025, which begins in December
week_year_start_run :
    tc_apply_truncation "weekYear" (at 2025 1 5 (some (pos 7))) ≡ at 2024 12 30 (some (pos 0))
unfolding tc_apply_truncation to_string
week_year_start_run = refl

not_week_year : unit_of "week" ≢ by_week_year
unfolding unit_of
not_week_year e = cc e

tc_apply_truncation_twice_example :
    tc_apply_truncation "week" (tc_apply_truncation "week" (at 2024 2 29 none))
    ≡ tc_apply_truncation "week" (at 2024 2 29 none)
tc_apply_truncation_twice_example =
    tc_apply_truncation_twice "week" (at 2024 2 29 none) not_week_year
      (2024, (2, (29, (leap_day, (omega arith, refl)))))

-- In the year 10 ^ 17 the day number of 1 January has wrapped around.
overflow_run :
    temporal_epoch_i64 (pos 100000000000000000) (pos 1) (pos 1) ≡ negsuc 369238147419103596
unfolding temporal_epoch_i64
overflow_run = refl
