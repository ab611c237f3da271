-- ===== src/Temporal/Truncation.antt =====
-- `tc_apply_truncation` of crates/polygraph/src/translator/cypher/temporal.rs.
use Prim.Native.String.{[] as empty, ◌∷◌ as ◌◂◌, ◌++◌}
use mathlib.Core.Option
use rs_polygraph.Base.{ℕ, zero, suc, ◌-◌, String, Option, none, some, if◌then◌else◌}
use rs_polygraph.Base.Int.{ℤ, pos, ◌+ℤ◌, ◌-ℤ◌, ◌*ℤ◌, ◌/ℤ◌}
use rs_polygraph.Base.Eq.{◌==◌, string_eq}
use rs_polygraph.Results.Xsd.{parse_i64}
use rs_polygraph.Temporal.Calendar.{temporal_epoch, temporal_from_epoch}
use rs_polygraph.Temporal.Text.{TcComponents, padded}
use rs_polygraph.Temporal.Weeks.{dow_of, week_to_date, tc_iso_week_year}
pub mod Twice

pub data TruncationUnit : Type 0 where
  by_millennium by_century by_decade by_year by_week_year by_quarter by_month by_week by_day by_hour
        by_minute by_second by_millisecond by_microsecond by_nothing :
      TruncationUnit

unfoldable pub unit_of : String → TruncationUnit
unit_of u =
    if u == "millennium"
    then by_millennium
    else if u == "century"
    then by_century
    else if u == "decade"
    then by_decade
    else if u == "year"
    then by_year
    else if u == "weekYear"
    then by_week_year
    else if u == "quarter"
    then by_quarter
    else if u == "month"
    then by_month
    else if u == "week"
    then by_week
    else if u == "day"
    then by_day
    else if u == "hour"
    then by_hour
    else if u == "minute"
    then by_minute
    else if u == "second"
    then by_second
    else if u == "millisecond"
    then by_millisecond
    else if u == "microsecond"
    then by_microsecond
    else by_nothing

-- `(n / k) * k`
abbrev pub rounded : ℕ → ℤ → ℤ
rounded k n = (n /ℤ k) *ℤ pos k

abbrev pub midnight : TcComponents → TcComponents
midnight c = record c {
  hour = some (pos 0);
  minute = some (pos 0);
  second = some (pos 0);
  ns = some (pos 0);
}

abbrev pub first_of_year : Option ℤ → TcComponents → TcComponents
first_of_year y c = midnight (record c { year = y; month = some (pos 1); day = some (pos 1) })

abbrev pub Date : Type 0
Date = ℤ × (ℤ × ℤ)

abbrev pub dated : Option Date → TcComponents → TcComponents
dated none c = c
dated (some (y, (m, d))) c = record c { year = some y; month = some m; day = some d }

-- what a date becomes, if the year, the month and the day are set
abbrev pub moved : (Date → Option Date) → Option ℤ → Option ℤ → Option ℤ → Option Date
moved f (some y) (some m) (some d) = f (y, (m, d))
moved f _ _ _ = none

abbrev pub redated : (Date → Option Date) → TcComponents → TcComponents
redated f c = midnight (dated (moved f c.year c.month c.day) c)

-- `s[from..from + n]` of an ASCII text
unfoldable pub slice : ℕ → ℕ → String → String
slice from n empty = ""
slice zero zero (c ◂ s) = ""
slice zero (suc n) (c ◂ s) = c ◂ slice zero n s
slice (suc from) n (c ◂ s) = slice from n s

-- `temporal_week_to_date`
unfoldable pub temporal_week_to_date : ℤ → ℤ → ℤ → String
unfolding week_to_date padded
temporal_week_to_date iso_year week dow =
    let (y, (m, d)) = week_to_date iso_year week dow in
    padded 4 y ++ ("-" ++ (padded 2 m ++ ("-" ++ padded 2 d)))

abbrev pub all_parsed : Option ℤ → Option ℤ → Option ℤ → Option Date
all_parsed (some y) (some m) (some d) = some (y, (m, d))
all_parsed _ _ _ = none

-- the first day of the ISO year, read back from its text
unfoldable pub week_year_start : Date → Option Date
unfolding tc_iso_week_year temporal_week_to_date slice parse_i64
week_year_start (y, (m, d)) =
    let text = temporal_week_to_date (tc_iso_week_year y m d) (pos 1) (pos 1) in
    all_parsed (parse_i64 (slice 0 4 text)) (parse_i64 (slice 5 2 text))
      (parse_i64 (slice 8 2 text))

unfoldable pub monday_of : Date → Date
unfolding temporal_epoch temporal_from_epoch
monday_of (y, (m, d)) =
    let epoch = temporal_epoch y m d in temporal_from_epoch (epoch -ℤ (dow_of epoch -ℤ pos 1))

abbrev pub quarter_start : ℤ → ℤ
quarter_start m = rounded 3 (m -ℤ pos 1) +ℤ pos 1

unfoldable pub truncated : TruncationUnit → TcComponents → TcComponents
unfolding week_year_start monday_of
truncated by_millennium c = first_of_year (Option.map (rounded 1000) c.year) c
truncated by_century c = first_of_year (Option.map (rounded 100) c.year) c
truncated by_decade c = first_of_year (Option.map (rounded 10) c.year) c
truncated by_year c = first_of_year c.year c
truncated by_week_year c = redated week_year_start c
truncated by_quarter c =
    midnight (record c { month = Option.map quarter_start c.month; day = some (pos 1) })
truncated by_month c = midnight (record c { day = some (pos 1) })
truncated by_week c = redated (λ d. some (monday_of d)) c
truncated by_day c = midnight c
truncated by_hour c = record c { minute = some (pos 0); second = some (pos 0); ns = some (pos 0) }
truncated by_minute c = record c { second = some (pos 0); ns = some (pos 0) }
truncated by_second c = record c { ns = some (pos 0) }
truncated by_millisecond c = record c { ns = Option.map (rounded 1000000) c.ns }
truncated by_microsecond c = record c { ns = Option.map (rounded 1000) c.ns }
truncated by_nothing c = c

unfoldable pub tc_apply_truncation : String → TcComponents → TcComponents
unfolding unit_of truncated
tc_apply_truncation unit comps = truncated (unit_of unit) comps
