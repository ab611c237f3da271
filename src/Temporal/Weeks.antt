-- ===== src/Temporal/Weeks.antt =====
-- ISO week dates of crates/polygraph/src/translator/cypher/temporal.rs.
pub mod Iso
pub mod Sunday
use rs_polygraph.Base.{if◌then◌else◌}
use rs_polygraph.Base.Int.{ℤ, pos, ◌+ℤ◌, ◌-ℤ◌, ◌*ℤ◌, ◌/ℤ◌, ◌%ℤ◌, eq_ℤ}
use rs_polygraph.Temporal.Calendar.{temporal_dim, temporal_epoch, temporal_from_epoch}

-- the day of the week that the source writes out at each use: 1 is Monday, 7 is Sunday
abbrev pub dow_of : ℤ → ℤ
dow_of epoch = ((epoch -ℤ pos 1) %ℤ 7 +ℤ pos 7) %ℤ 7 +ℤ pos 1

-- `temporal_week_to_date` up to the date; its text is in Temporal.Truncation.
unfoldable pub week_to_date : ℤ → ℤ → ℤ → ℤ × (ℤ × ℤ)
unfolding temporal_epoch temporal_from_epoch
week_to_date iso_year week dow =
    let jan4 = temporal_epoch iso_year (pos 1) (pos 4) in
    let jan4_dow = dow_of jan4 in
    let w1_mon = jan4 -ℤ (jan4_dow -ℤ pos 1) in
    let target = w1_mon +ℤ (week -ℤ pos 1) *ℤ pos 7 +ℤ (dow -ℤ pos 1) in temporal_from_epoch target

unfoldable pub date_to_iso_week : ℤ → ℤ → ℤ → ℤ × (ℤ × ℤ)
unfolding temporal_epoch temporal_from_epoch
date_to_iso_week y m d =
    let epoch = temporal_epoch y m d in
    let dow = dow_of epoch in
    let thu_epoch = epoch -ℤ dow +ℤ pos 4 in
    let iso_year = (temporal_from_epoch thu_epoch).0 in
    let jan4_of_iso = temporal_epoch iso_year (pos 1) (pos 4) in
    let jan4_dow = dow_of jan4_of_iso in
    let w1_mon = jan4_of_iso -ℤ (jan4_dow -ℤ pos 1) in
    let week = (epoch -ℤ w1_mon) /ℤ 7 +ℤ pos 1 in (iso_year, (week, dow))

unfoldable pub tc_iso_week_year : ℤ → ℤ → ℤ → ℤ
unfolding temporal_epoch temporal_from_epoch
tc_iso_week_year y m d =
    let epoch = temporal_epoch y m d in
    let dow = dow_of epoch in
    let thu_epoch = epoch +ℤ (pos 4 -ℤ dow) in (temporal_from_epoch thu_epoch).0

unfoldable pub tc_last_sunday_of_month : ℤ → ℤ → ℤ
unfolding temporal_dim temporal_epoch
tc_last_sunday_of_month y m =
    let last_day = temporal_dim y m in
    let epoch = temporal_epoch y m last_day in
    let dow = dow_of epoch in
    let days_back = if eq_ℤ dow (pos 7) then pos 0 else dow in last_day -ℤ days_back
