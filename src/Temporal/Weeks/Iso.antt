-- ===== src/Temporal/Weeks/Iso.antt =====
-- Week dates and calendar dates (crates/polygraph/src/translator/cypher/temporal.rs).
use rs_polygraph.Base.{
  ℕ, suc, ◌+◌, ◌-◌, ◌*◌, ◌/◌, ◌%◌, ◌≤◌, ◌<◌, ◌≡◌, refl, sym, ap, ap₂, ◌∙◌, arith,
}
use rs_polygraph.Base.Int.{ℤ, pos, ◌+ℤ◌, ◌-ℤ◌, ◌*ℤ◌, ◌/ℤ◌}
use rs_polygraph.Temporal.Calendar.{temporal_epoch, temporal_from_epoch}
use rs_polygraph.Temporal.Calendar.Years.{year_start, year_of, from_epoch_lem}
use rs_polygraph.Temporal.Calendar.RoundTrip.{
  max_year, IsDate, from_epoch-epoch_unbounded, epoch_lem, epoch_of_date,
}
use rs_polygraph.Temporal.Weeks.{dow_of, week_to_date, date_to_iso_week, tc_iso_week_year}

dow-pos : (n : ℕ) → dow_of (pos (suc n)) ≡ pos (n % 7 + 1)
dow-pos n = ground arith

-- the Monday of the week of January 4th, in the year after the first days `start`
abbrev first_monday : ℕ → ℕ
first_monday start = start + 4 - (start + 3) % 7

jan4_lem : (y : ℕ) → temporal_epoch (pos (suc y)) (pos 1) (pos 4) ≡ pos (suc (year_start y + 3))
jan4_lem y = epoch_lem y 0 4 (omega arith) ∙ ap pos (omega arith)

first_monday_lem :
    (s : ℕ) → pos (suc (s + 3)) -ℤ (dow_of (pos (suc (s + 3))) -ℤ pos 1) ≡ pos (first_monday s)
first_monday_lem s = ground arith

-- A day is in a week of the year that the Thursday of its week is in.
week_lem :
    (n s t : ℕ)
    → t < 366
    → n + 4 ≡ s + suc t + n % 7
    → (first_monday s ≤ suc n)
      × ((first_monday s + (suc n - first_monday s) / 7 * 7 + n % 7 ≡ suc n)
          × ((suc n - first_monday s) / 7 < 53))
week_lem n s t h e = (omega arith, (omega arith, omega arith))

-- `date_to_iso_week` from the number of the day on, and from the year of its week on
abbrev in_year : ℤ → ℤ → ℤ × (ℤ × ℤ)
in_year epoch iso_year =
    let jan4 = temporal_epoch iso_year (pos 1) (pos 4) in
    let w1_mon = jan4 -ℤ (dow_of jan4 -ℤ pos 1) in
    (iso_year, ((epoch -ℤ w1_mon) /ℤ 7 +ℤ pos 1, dow_of epoch))

abbrev iso_of : ℤ → ℤ × (ℤ × ℤ)
iso_of epoch = in_year epoch ((temporal_from_epoch (epoch -ℤ dow_of epoch +ℤ pos 4)).0)

date_to_iso_week-iso_of : (y m d : ℤ) → date_to_iso_week y m d ≡ iso_of (temporal_epoch y m d)
unfolding date_to_iso_week
date_to_iso_week-iso_of y m d = refl

thursday_lem : (n : ℕ) → pos (suc n) -ℤ dow_of (pos (suc n)) +ℤ pos 4 ≡ pos (suc (n + 3 - n % 7))
thursday_lem n = ground arith

w1_mon_lem :
    (y : ℕ)
    → temporal_epoch (pos (suc y)) (pos 1) (pos 4)
        -ℤ (dow_of (temporal_epoch (pos (suc y)) (pos 1) (pos 4)) -ℤ pos 1)
      ≡ pos (first_monday (year_start y))
w1_mon_lem y = ap (λ j. j -ℤ (dow_of j -ℤ pos 1)) (jan4_lem y) ∙ first_monday_lem (year_start y)

in_year_lem :
    (n y : ℕ)
    → first_monday (year_start y) ≤ suc n
    → in_year (pos (suc n)) (pos (suc y))
      ≡ (pos (suc y), (pos (suc ((suc n - first_monday (year_start y)) / 7)), pos (suc (n % 7))))
in_year_lem n y h =
    ap (λ w. (pos (suc y), ((pos (suc n) -ℤ w) /ℤ 7 +ℤ pos 1, dow_of (pos (suc n))))) (w1_mon_lem y)
    ∙ ap₂ (λ w v. (pos (suc y), (w, v))) (ground (arith, h)) (dow-pos n ∙ ap pos (omega arith))

day_of_week :
    (m w v : ℕ)
    → pos m +ℤ (pos (suc w) -ℤ pos 1) *ℤ pos 7 +ℤ (pos (suc v) -ℤ pos 1) ≡ pos (m + w * 7 + v)
day_of_week m w v = ground arith

week_to_date_lem :
    (y w v : ℕ)
    → week_to_date (pos (suc y)) (pos (suc w)) (pos (suc v))
      ≡ temporal_from_epoch (pos (first_monday (year_start y) + w * 7 + v))
unfolding week_to_date
week_to_date_lem y w v =
    ap (λ m. temporal_from_epoch (m +ℤ (pos (suc w) -ℤ pos 1) *ℤ pos 7 +ℤ (pos (suc v) -ℤ pos 1)))
      (w1_mon_lem y)
    ∙ ap temporal_from_epoch (day_of_week (first_monday (year_start y)) w v)

-- the week of a day: the year, the week before it and the day before it, counted from 0
iso_of_lem :
    (n : ℕ)
    → (y : ℕ) × ((w : ℕ) × ((iso_of (pos (suc n)) ≡ (pos (suc y), (pos (suc w), pos (suc (n % 7)))))
          × ((w < 53)
              × (week_to_date (pos (suc y)) (pos (suc w)) (pos (suc (n % 7)))
                  ≡ temporal_from_epoch (pos (suc n))))))
iso_of_lem n =
    let (y, (t, (e, inside))) = year_of (n + 3 - n % 7) in
    let w = (suc n - first_monday (year_start y)) / 7 in
    let (le, (same, bound)) =
      week_lem n (year_start y) t (ground (arith, inside)) (omega (arith, e)) in
    let thursday : (temporal_from_epoch (pos (suc n) -ℤ dow_of (pos (suc n)) +ℤ pos 4)).0
        ≡ pos (suc y) =
      ap (λ k. (temporal_from_epoch k).0) (thursday_lem n ∙ ap pos (omega (arith, e)))
      ∙ ap (λ r. r.0) (from_epoch_lem y t inside) in
    (
      y,
      (
        w,
        (
          ap (in_year (pos (suc n))) thursday ∙ in_year_lem n y le,
          (bound, week_to_date_lem y w (n % 7) ∙ ap (λ (k : ℕ). temporal_from_epoch (pos k)) same),
        ),
      ),
    )

-- From the year 1 to the year 10 ^ 16, a date has an ISO week date whose week is 1 to 53 and whose day is 1 to 7, and
-- that week date is turned back into the date.
pub iso_week_round_trip :
    (y m d : ℕ)
    → IsDate y m d
    → y ≤ max_year
    → (iy : ℕ) × ((w : ℕ) × ((v : ℕ) × ((date_to_iso_week (pos y) (pos m) (pos d)
              ≡ (pos iy, (pos w, pos v)))
            × (((1 ≤ w) × ((w ≤ 53) × ((1 ≤ v) × (v ≤ 7))))
                × (week_to_date (pos iy) (pos w) (pos v) ≡ (pos y, (pos m, pos d)))))))
iso_week_round_trip y m d h _ =
    let (n, e) = epoch_of_date y m d h in
    let (iy, (w, (iso, (bound, back)))) = iso_of_lem n in
    (
      suc iy,
      (
        suc w,
        (
          suc (n % 7),
          (
            date_to_iso_week-iso_of (pos y) (pos m) (pos d) ∙ (ap iso_of e ∙ iso),
            (
              (omega arith, (omega (arith, bound), (omega arith, omega arith))),
              back ∙ (ap temporal_from_epoch (sym e) ∙ from_epoch-epoch_unbounded y m d h),
            ),
          ),
        ),
      ),
    )

thursday_two_ways :
    (n : ℕ)
    → pos (suc n) +ℤ (pos 4 -ℤ dow_of (pos (suc n))) ≡ pos (suc n) -ℤ dow_of (pos (suc n)) +ℤ pos 4
thursday_two_ways n = ground arith

-- The two functions of the source agree on the year of a date's ISO week.
pub iso_week_year-date_to_iso_week :
    (y m d : ℕ)
    → IsDate y m d
    → tc_iso_week_year (pos y) (pos m) (pos d) ≡ (date_to_iso_week (pos y) (pos m) (pos d)).0
unfolding tc_iso_week_year date_to_iso_week
iso_week_year-date_to_iso_week y m d h =
    let (n, e) = epoch_of_date y m d h in
    ap (λ k. (temporal_from_epoch (k +ℤ (pos 4 -ℤ dow_of k))).0) e
    ∙ (ap (λ k. (temporal_from_epoch k).0) (thursday_two_ways n)
        ∙ sym (ap (λ k. (temporal_from_epoch (k -ℤ dow_of k +ℤ pos 4)).0) e))
